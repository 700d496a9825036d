-- ===== src/OrderBook/Matched.antt =====
-- `match` against a description by queues.
use mathlib.Core.List.{append-nil}
use lock_free_limit_order_bo.Prelude.{
  ◌≤◌, ℕ, zero, suc, ◌+◌, ◌-◌, ◌<◌, ◌≡◌, ◌⊎◌, refl, ap, ap₂, sym, ◌∙◌, arith, List, [], ◌∷◌, ◌++◌,
  inl, inr,
}
use lock_free_limit_order_bo.Prelude.Words.{u32_mod}
use lock_free_limit_order_bo.Prelude.Members.{◌∈◌, ◌∉◌}
use lock_free_limit_order_bo.Order.{Ref, Price, Side, buy, sell, Order, Event, OrderId, Quantity}
use lock_free_limit_order_bo.OrderBook.State.{Sizes, Book, own, passive, order_at}
use lock_free_limit_order_bo.OrderBook.Match.{match}
use lock_free_limit_order_bo.OrderBook.Sides.{opposite}
use lock_free_limit_order_bo.OrderBook.Whole.{IsLoose, IsWhole}
use lock_free_limit_order_bo.OrderBook.Run.{Lists, future_of}
use lock_free_limit_order_bo.OrderBook.Index.{Indexed}
use lock_free_limit_order_bo.OrderBook.Lessened.{IsLessened}
use lock_free_limit_order_bo.OrderBook.Priority.{
  within, queue, view, trade_events, remainder, unfilled,
}
use lock_free_limit_order_bo.OrderBook.Within.{InRange, length-up_from, length-within_sell}
use lock_free_limit_order_bo.OrderBook.Sweep.{busy, busy-length}
use lock_free_limit_order_bo.OrderBook.Loop.{Swept, match_loop-Swept}

queue-empty :
    (b : Book) (lists : Lists) (t : Side) (ps : List Price)
    → ((p : Price) → p ∈ ps → lists t p ≡ [])
    → queue b lists t ps ≡ []
queue-empty b lists t [] none_there = refl
queue-empty b lists t (p ∷ ps) none_there =
    rw (none_there p (ground arith)) (queue-empty b lists t ps λ q i. none_there q (ground arith))

module _ (z : Sizes) (read_cycles : ℕ → ℕ) where
  trade_events-empty :
      (n : ℕ) (id : OrderId) (q : Quantity) → trade_events read_cycles n id q [] ≡ []
  trade_events-empty n id zero = refl
  trade_events-empty n id (suc q) = refl

  remainder-empty : (q : Quantity) → remainder q [] ≡ []
  remainder-empty zero = refl
  remainder-empty (suc q) = refl

  unfilled-zero : (xs : List Order) → unfilled 0 xs ≡ 0
  unfilled-zero [] = refl
  unfilled-zero (x ∷ xs) =
      ap (λ q. unfilled q xs) {x = 0 - x.remaining} {y = 0} (omega arith) ∙ unfilled-zero xs

  -- The outcome when the order is filled or the queue is empty.
  future-ended :
      (n : ℕ) (es : List Event) (id : OrderId) (q : Quantity) (xs : List Order)
      → (q ≡ 0) ⊎ (xs ≡ [])
      → future_of read_cycles n es id q xs ≡ (es, xs, q)
  future-ended n es id q xs (inl e) =
      rw e (ap₂ (λ l k. (l, xs, k)) (append-nil es) (unfilled-zero xs))
  future-ended n es id q xs (inr e) =
      rw (e, trade_events-empty, remainder-empty) (ap (λ l. (l, [], q)) (append-nil es))

  -- An order of side `s` has met the orders at the prices `ps` of the other side, one after the other,
  -- until it was filled or there were no more: the trades were published, it has the shares left that
  -- they leave it, and they are what remains of them. The rest of the book is as before.
  pub record Matched (s : Side) (a : Ref) (ps : List Price) (b : Book) (lists : Lists) (b' : Book)
      : Type 0 where
    pub lists_now : Lists
    pub free_now : List Ref
    pub whole : IsWhole z b' lists_now free_now
    pub loose : IsLoose z.order_pool_size z.max_price_levels lists_now free_now a
    pub events :
        b'.events
        ≡ b.events
          ++ trade_events read_cycles b.clock
              (order_at b a).id
              (order_at b a).remaining
              (queue b lists (opposite s) ps)
    pub queue_now :
        queue b' lists_now (opposite s) ps
        ≡ remainder (order_at b a).remaining (queue b lists (opposite s) ps)
    pub aggressor : order_at b' a ≡ record (order_at b a) {
      remaining = unfilled (order_at b a).remaining (queue b lists (opposite s) ps);
    }
    pub others :
        (r : Side) (p : Price) → (r ≡ s) ⊎ (p ∉ ps) → view b' lists_now r p ≡ view b lists r p
    pub own_side : own s b' ≡ own s b
    pub lessened : IsLessened z b b'
    pub index : z.order_map_bits ≤ 64 → Indexed z b lists (a ∷ []) → Indexed z b' lists_now (a ∷ [])
    pub inside : InRange z read_cycles s (order_at b a).price (passive s b').best

  pub Swept-Matched :
      {s : Side} {a : Ref} {ps : List Price} {b b' : Book} {lists : Lists}
      → Swept z read_cycles s a ps b lists b'
      → Matched s a ps b lists b'
  Swept-Matched {s} {a} {ps} {b} {b'} {lists} w =
      let done : ((order_at b' a).remaining ≡ 0) ⊎ (queue b' w.lists_now (opposite s) ps ≡ []) =
        elim w.ended [
          | inl e ↦ inl e
          | inr f ↦ inr (queue-empty b' w.lists_now (opposite s) ps f)
        ] in
      let same =
        sym (
          future-ended b'.clock b'.events (order_at b' a).id (order_at b' a).remaining
            (queue b' w.lists_now (opposite s) ps) done)
        ∙ w.run.outcome in
      record {
        lists_now = w.lists_now;
        free_now = w.free_now;
        whole = w.run.whole;
        loose = w.run.loose;
        events = ap (λ f. f.0) same;
        queue_now = ap (λ f. f.1) same;
        aggressor =
            w.run.aggressor
            ∙ ap {A = ℕ} (λ n. record (order_at b a) { remaining = n }) (ap (λ f. f.2) same);
        others = w.run.others;
        own_side = w.run.own_side;
        lessened = w.run.lessened;
        index = w.run.index;
        inside = w.inside;
      }

  busy-within :
      (s : Side) (limit best : Price) (lists : Price → List Ref)
      → InRange z read_cycles s limit best
      → busy lists (within s limit best) < z.max_price_levels + 1
  busy-within buy limit best lists inside =
      omega
        (arith, busy-length lists (within buy limit best), length-up_from best (limit + 1 - best))
  busy-within sell limit best lists inside =
      omega (arith, busy-length lists (within sell limit best), length-within_sell limit best)

  -- The rounds that `match` is given are enough: from a book that stands for lists of orders, of
  -- which the incoming one, with fewer than 2 ^ 32 shares left, is in none, and with the other
  -- side's best price in range (and the limit, for a buy), it ends with the order filled or with
  -- none of the orders left that it met, those from the other side's best price to its limit. It
  -- has published the trades with them in price-time priority, the order has the shares that they
  -- leave it, and the lists of the other prices and of its own side are as before.
  pub match-Matched :
      {s : Side} {a : Ref} {b : Book} {lists : Lists} {free : List Ref}
      → IsWhole z b lists free
      → IsLoose z.order_pool_size z.max_price_levels lists free a
      → (order_at b a).side ≡ s
      → (order_at b a).remaining < u32_mod
      → InRange z read_cycles s (order_at b a).price (passive s b).best
      → Matched s a
          (within s (order_at b a).price (passive s b).best)
          b
          lists
          (match z read_cycles a b)
  unfolding match
  match-Matched {s} {a} {b} {lists} {free} v loose side small inside = rw side (
      Swept-Matched (
        match_loop-Swept z read_cycles (z.max_price_levels + 1) s a (order_at b a).price b lists
          free v loose small refl inside
          (busy-within s (order_at b a).price (passive s b).best (lists (opposite s)) inside)))
