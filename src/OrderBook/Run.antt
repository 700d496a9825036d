-- ===== src/OrderBook/Run.antt =====
-- A part of a run of `match`, and what the incoming order is still going to do to the queue.
pub use lock_free_limit_order_bo.OrderBook.Relisted.{Lists}
use lock_free_limit_order_bo.Prelude.{ℕ, ◌≤◌, ◌≡◌, ◌⊎◌, refl, ap, ◌∙◌, arith, List, [], ◌∷◌, ◌++◌}
use lock_free_limit_order_bo.Prelude.Members.{◌∉◌}
use lock_free_limit_order_bo.Order.{Ref, Price, Side, Order, Event, Quantity, OrderId}
use lock_free_limit_order_bo.OrderBook.State.{Sizes, Book, own, order_at}
use lock_free_limit_order_bo.OrderBook.Sides.{opposite}
use lock_free_limit_order_bo.OrderBook.Whole.{IsLoose, IsWhole}
use lock_free_limit_order_bo.OrderBook.Index.{Indexed}
use lock_free_limit_order_bo.OrderBook.Lessened.{IsLessened, IsLessened-refl, IsLessened-trans}
use lock_free_limit_order_bo.OrderBook.Priority.{trade_events, remainder, unfilled, view, queue}

-- The trades so far and those to come, the orders that will stay, and the shares that will be left.
abbrev pub Future : Type 0
Future = List Event × List Order × Quantity

abbrev pub future_of : (ℕ → ℕ) → ℕ → List Event → OrderId → Quantity → List Order → Future
future_of read_cycles n es id q xs =
    (es ++ trade_events read_cycles n id q xs, remainder q xs, unfilled q xs)

module _ (z : Sizes) (read_cycles : ℕ → ℕ) (s : Side) (a : Ref) (ps : List Price) where
  abbrev pub future : Book → Lists → Future
  future b lists =
      let x = order_at b a in
      future_of read_cycles b.clock b.events x.id x.remaining (queue b lists (opposite s) ps)

  -- `match` has got from `b` to `b'`: the orders and the lists outside the prices `ps` of the other side
  -- are untouched, and the outcome is the same as seen from both.
  pub record Run (b : Book) (lists : Lists) (b' : Book) (lists' : Lists) (free' : List Ref)
      : Type 0 where
    pub whole : IsWhole z b' lists' free'
    pub loose : IsLoose z.order_pool_size z.max_price_levels lists' free' a
    pub aggressor : order_at b' a ≡ record (order_at b a) { remaining = (order_at b' a).remaining }
    pub shrunk : (order_at b' a).remaining ≤ (order_at b a).remaining
    pub emptied : (p : Price) → lists (opposite s) p ≡ [] → lists' (opposite s) p ≡ []
    pub others : (r : Side) (p : Price) → (r ≡ s) ⊎ (p ∉ ps) → view b' lists' r p ≡ view b lists r p
    pub outcome : future b' lists' ≡ future b lists
    pub own_side : own s b' ≡ own s b
    pub lessened : IsLessened z b b'
    pub index : z.order_map_bits ≤ 64 → Indexed z b lists (a ∷ []) → Indexed z b' lists' (a ∷ [])

  pub Run-refl :
      {b : Book} {lists : Lists} {free : List Ref}
      → IsWhole z b lists free
      → IsLoose z.order_pool_size z.max_price_levels lists free a
      → Run b lists b lists free
  Run-refl {b} v loose = record {
    whole = v;
    loose = loose;
    aggressor = refl;
    shrunk = omega arith;
    emptied = λ p e. e;
    others = λ r p i. refl;
    outcome = refl;
    own_side = refl;
    lessened = IsLessened-refl z b;
    index = λ narrow i. i;
  }

  pub Run-trans :
      {b c d : Book} {lists lists' lists'' : Lists} {free' free'' : List Ref}
      → Run b lists c lists' free'
      → Run c lists' d lists'' free''
      → Run b lists d lists'' free''
  Run-trans {b} {c} {d} r t = record {
    whole = t.whole;
    loose = t.loose;
    aggressor =
        t.aggressor
        ∙ ap {A = Order} (λ x. record x { remaining = (order_at d a).remaining }) r.aggressor;
    shrunk = omega (arith, r.shrunk, t.shrunk);
    emptied = λ p e. t.emptied p (r.emptied p e);
    others = λ q p i. t.others q p i ∙ r.others q p i;
    outcome = t.outcome ∙ r.outcome;
    own_side = t.own_side ∙ r.own_side;
    lessened = IsLessened-trans z b c d r.lessened t.lessened;
    index = λ narrow i. t.index narrow (r.index narrow i);
  }
