-- ===== src/OrderBook/Accept.antt =====
-- `add_order` of an order that the pool and the table have room for, against a description by queues.
use lock_free_limit_order_bo.Prelude.{
  ℕ, ◌+◌, ◌<◌, ◌≡◌, ◌⊎◌, Bool, true, false, some, refl, ap, ap₂, sym, ◌∙◌, arith, List, [], ◌∷◌,
  ◌++◌, subst, if◌then◌else◌, inl, inr, Bool-cases,
}
use lock_free_limit_order_bo.Prelude.Words.{u32_mod}
use lock_free_limit_order_bo.PriceLevel.Valid.{vacant}
use lock_free_limit_order_bo.Order.{
  OrderId, Ref, Price, Quantity, Side, buy, sell, Order, order_ack, is_filled,
}
use lock_free_limit_order_bo.OrderPool.FreeList.{FreeList-uncons}
use lock_free_limit_order_bo.OrderMap.{insert}
use lock_free_limit_order_bo.OrderBook.Lessened.{IsLessened-trans, settled-IsLessened}
use lock_free_limit_order_bo.OrderBook.State.{Sizes, Book, BookSide, own, passive, order_at}
use lock_free_limit_order_bo.OrderBook.Match.{match}
use lock_free_limit_order_bo.OrderBook.Operations.{add_order, place_order, crosses, better}
use lock_free_limit_order_bo.OrderBook.Rests.{new_order, entered}
use lock_free_limit_order_bo.OrderBook.Sides.{opposite}
use lock_free_limit_order_bo.OrderBook.Whole.{IsLoose, IsWhole}
use lock_free_limit_order_bo.OrderBook.Joins.{IsWhole-uncons}
use lock_free_limit_order_bo.OrderBook.Priority.{within, queue, trade_events, remainder, unfilled}
use lock_free_limit_order_bo.OrderBook.Run.{Lists, Run-refl}
use lock_free_limit_order_bo.OrderBook.Within.{InRange}
use lock_free_limit_order_bo.OrderBook.Matched.{Matched, Swept-Matched, match-Matched}
use lock_free_limit_order_bo.OrderBook.Joined.{joined}
use lock_free_limit_order_bo.OrderBook.Views.{view-opposite, view-beside, view-joined}
use lock_free_limit_order_bo.OrderBook.Settle.{settled, Settled, settled-Settled}
use lock_free_limit_order_bo.OrderBook.Entry.{
  entered-Indexed, entered-IsLoose, entered-IsWhole, view-entered, queue-entered, order_at-entered,
  add_order-place_order,
}
use lock_free_limit_order_bo.OrderBook.Future.{queue-same}
use lock_free_limit_order_bo.OrderBook.Reach.{
  crosses-empty, crosses-within, unfilled-bound, reach, BestsInRange, BestsInRange-InRange,
  bests-BestsInRange, Accepted,
}

module _ (z : Sizes) (read_cycles : ℕ → ℕ) where
  module _ (id : OrderId) (price : Price) (qty : Quantity) (side : Side) {o : Ref} (b : Book)
      {lists : Lists} {free : List Ref} (v : IsWhole z b lists (o ∷ free))
      (bests : BestsInRange z read_cycles b) (inside : price < z.max_price_levels)
      (small : qty < u32_mod) where
    abbrev start : Book
    start = entered z read_cycles id price qty side o b

    abbrev placed_order : Order
    placed_order = new_order z read_cycles id price qty side b

    abbrev met : List Order
    met = queue b lists (opposite side) (reach side price b)

    -- The book after the crossing check and `match`.
    abbrev traded : Book
    traded = if crosses side price (passive side start) then match z read_cycles o start else start

    same_passive : (s : Side) → passive s start ≡ passive s b
    same_passive buy = refl
    same_passive sell = refl

    entered_order : order_at start o ≡ placed_order
    entered_order = order_at-entered z read_cycles id price qty side b v

    start-IsWhole : IsWhole z start lists free
    start-IsWhole = entered-IsWhole z read_cycles id price qty side b v

    start-IsLoose : IsLoose z.order_pool_size z.max_price_levels lists free o
    start-IsLoose = entered-IsLoose z read_cycles id price qty side b v

    start-InRange : InRange z read_cycles side (order_at start o).price (passive side start).best
    start-InRange =
        subst (λ h. InRange z read_cycles side (order_at start o).price h.best)
          (sym (same_passive side))
          (subst (λ x. InRange z read_cycles side x.price (passive side b).best) (sym entered_order)
            (BestsInRange-InRange z read_cycles side price b bests inside))

    match-start :
        Matched z read_cycles side o
          (within side price (passive side b).best)
          start
          lists
          (match z read_cycles o start)
    match-start =
        subst (λ ps. Matched z read_cycles side o ps start lists (match z read_cycles o start))
          (ap₂ (within side) (ap Order.price entered_order) (ap BookSide.best (same_passive side)))
          (match-Matched z read_cycles start-IsWhole start-IsLoose (ap Order.side entered_order)
            (omega (arith, ap Order.remaining entered_order)) start-InRange)

    no_match : Matched z read_cycles side o [] start lists start
    no_match = Swept-Matched z read_cycles (record {
      lists_now = lists;
      free_now = free;
      run = Run-refl z read_cycles side o [] start-IsWhole start-IsLoose;
      inside = start-InRange;
      ended = inr λ p i. absurd (ground arith);
    })

    traded-Matched : Matched z read_cycles side o (reach side price b) start lists traded
    traded-Matched =
        subst
          (λ h.
            Matched z read_cycles side o (reach side price b) start lists
              (if crosses side price h then match z read_cycles o start else start))
          (sym (same_passive side)) either
      where
        h : BookSide
        h = passive side b

        either :
            Matched z read_cycles side o
              (if vacant (h.levels h.best) then [] else within side price h.best)
              start
              lists
              (if crosses side price h then match z read_cycles o start else start)
        either = elim (Bool-cases (vacant (h.levels h.best))) [
          | inl e ↦ let apart = crosses-empty side price h e in rw (e, apart) no_match
          | inr e ↦ elim (Bool-cases (crosses side price h)) [
            | inl meets ↦ rw (e, meets) match-start
            | inr apart ↦
                let nowhere = crosses-within side price h e apart in rw (e, apart, nowhere) no_match
          ]
        ]

    same_queue : queue start lists (opposite side) (reach side price b) ≡ met
    same_queue =
        queue-entered z read_cycles id price qty side b v (opposite side) (reach side price b)

    -- What is left of the new order.
    left_over : order_at traded o ≡ record placed_order { remaining = unfilled qty met }
    left_over =
        traded-Matched.aggressor
        ∙ ap₂ {A = Order} (λ x xs. record x { remaining = unfilled x.remaining xs }) entered_order
            same_queue

    end-Settled :
        Settled z
          (is_filled (order_at traded o))
          id
          side
          price
          o
          traded
          traded-Matched.lists_now
          (settled z id side price o traded)
    end-Settled =
        settled-Settled z id side price o traded traded-Matched.whole traded-Matched.loose
          (ap Order.side left_over, ap Order.price left_over)
          (omega (arith, ap Order.remaining left_over, unfilled-bound qty met)) inside

    own_best :
        ((own side (settled z id side price o traded)).best ≡ price)
        ⊎ ((own side (settled z id side price o traded)).best ≡ (own side b).best)
    own_best =
        one_of (is_filled (order_at traded o)) (better side price (own side traded).best)
          end-Settled.best
      where
        same_own : (s : Side) → own s start ≡ own s b
        same_own buy = refl
        same_own sell = refl

        one_of :
            (k m : Bool) {n : ℕ}
            → n
              ≡ (if k then (own side traded).best else if m then price else (own side traded).best)
            → (n ≡ price) ⊎ (n ≡ (own side b).best)
        one_of true m e = inr (e ∙ ap BookSide.best (traded-Matched.own_side ∙ same_own side))
        one_of false true e = inl e
        one_of false false e = inr (e ∙ ap BookSide.best (traded-Matched.own_side ∙ same_own side))

    place_order-Accepted :
        Accepted z read_cycles id price qty side b lists (settled z id side price o traded)
    place_order-Accepted = record {
      lists_now =
          joined side price (if is_filled (order_at traded o) then [] else (o ∷ []))
            traded-Matched.lists_now;
      free_now = end-Settled.free_now;
      whole = end-Settled.whole;
      index = λ narrow ne below fresh i. end-Settled.index narrow (ap Order.id left_over) (
          traded-Matched.index narrow
            (entered-Indexed z read_cycles id price qty side b v narrow ne below fresh i));
      bests =
          bests-BestsInRange z read_cycles side price (order_at start o).price
            (settled z id side price o traded) b bests inside own_best
            (subst (λ h. InRange z read_cycles side (order_at start o).price h.best)
              (sym end-Settled.other_side) traded-Matched.inside);
      events =
          end-Settled.events
          ∙ ap (λ l. l ++ order_ack id ∷ [])
              (traded-Matched.events
                ∙ ap₂ {A = Order}
                    (λ x xs. b.events ++ trade_events read_cycles (b.clock + 1) x.id x.remaining xs)
                    entered_order same_queue);
      queue_now =
          queue-same traded (settled z id side price o traded) traded-Matched.lists_now
            (joined side price (if is_filled (order_at traded o) then [] else (o ∷ []))
              traded-Matched.lists_now)
            (opposite side) (reach side price b) (λ p i. view-opposite z end-Settled p)
          ∙ traded-Matched.queue_now
          ∙ ap₂ {A = Order} (λ x xs. remainder x.remaining xs) entered_order same_queue;
      level =
          view-joined z end-Settled
          ∙ ap₂ (λ l x. l ++ (if is_filled x then [] else (x ∷ [])))
              (traded-Matched.others side price (inl refl)
                ∙ view-entered z read_cycles id price qty side b v side price)
              left_over;
      other_levels = λ p ne.
          view-beside z end-Settled p ne
          ∙ traded-Matched.others side p (inl refl)
          ∙ view-entered z read_cycles id price qty side b v side p;
      traced = (
        o,
        (FreeList-uncons v.is_pool.chain).0,
        IsLessened-trans z start traded _ traded-Matched.lessened
            (settled-IsLessened z id side price o traded),
      );
      other_side = λ p out.
          view-opposite z end-Settled p
          ∙ traded-Matched.others (opposite side) p (inr out)
          ∙ view-entered z read_cycles id price qty side b v (opposite side) p;
    }

  -- On a book that stands for lists of orders by side and price, whose best prices are in range, an
  -- `add_order` at a price in range, of fewer than 2 ^ 32 shares, that the pool and the table have
  -- room for, returns true and does what the lists say. The new order meets the other side's orders
  -- from the best price to its limit, at one price from the oldest on, until it is filled or there
  -- are no more (it meets none, if the best level of the other side is empty). A trade is published
  -- for each order met, with its price and the smaller of the two numbers of shares left, then an
  -- acknowledgement; the orders that are filled are gone, one that is filled in part stays at the
  -- front with the rest of its shares; what is left of the new order rests as the newest at its
  -- price; all other levels hold the same orders. The book again stands for lists of orders, and
  -- its best prices are in range.
  pub add_order-Accepted :
      (id : OrderId) (price : Price) (qty : Quantity) (side : Side) {o : Ref} (b : Book)
      {lists : Lists} {free : List Ref}
      → IsWhole z b lists free
      → BestsInRange z read_cycles b
      → price < z.max_price_levels
      → qty < u32_mod
      → b.pool.free_head ≡ some o
      → (insert z.order_map_bits id o b.order_map).0 ≡ true
      → let (done, b') = add_order z read_cycles id price qty side b in
        (done ≡ true) × Accepted z read_cycles id price qty side b lists b'
  unfolding place_order
  add_order-Accepted id price qty side b {free} v bests inside small head room =
      let w = (IsWhole-uncons z free v head).1 in
      rw (add_order-place_order z read_cycles id price qty side b w inside room)
        (refl, place_order-Accepted id price qty side b w bests inside small)
