-- ===== src/OrderBook/Conserve.antt =====
-- The shares that an accepted order trades, keeps, and takes from the other side.
use lock_free_limit_order_bo.Prelude.{
  ℕ, zero, suc, ◌+◌, ◌-◌, ◌≤◌, ◌<◌, ◌≡◌, ◌≢◌, true, false, some, refl, ap, ◌∙◌, arith, leb, List,
  [], ◌∷◌, ◌++◌, Bool-cases, inl, inr,
}
use lock_free_limit_order_bo.Prelude.Words.{u32_mod}
use lock_free_limit_order_bo.Order.{
  OrderId, Ref, Price, Quantity, Side, Order, Event, order_ack, order_cancel, order_modify, trade,
}
use lock_free_limit_order_bo.OrderMap.{insert}
use lock_free_limit_order_bo.OrderBook.State.{Sizes, Book}
use lock_free_limit_order_bo.OrderBook.Operations.{add_order}
use lock_free_limit_order_bo.OrderBook.Sides.{opposite}
use lock_free_limit_order_bo.OrderBook.Whole.{IsWhole}
use lock_free_limit_order_bo.OrderBook.Priority.{trade_events, remainder, unfilled, queue}
use lock_free_limit_order_bo.OrderBook.Run.{Lists}
use lock_free_limit_order_bo.OrderBook.Reach.{reach, BestsInRange, Accepted}
use lock_free_limit_order_bo.OrderBook.Accept.{add_order-Accepted}

-- The shares that a list of events says were traded, and those that a list of orders has left.
abbrev pub traded_qty : List Event → ℕ
traded_qty [] = 0
traded_qty (order_ack id ∷ es) = traded_qty es
traded_qty (order_cancel id ∷ es) = traded_qty es
traded_qty (order_modify id ∷ es) = traded_qty es
traded_qty (trade t ∷ es) = t.quantity + traded_qty es

abbrev pub total : List Order → ℕ
total [] = 0
total (x ∷ xs) = x.remaining + total xs

traded_qty-append : (xs ys : List Event) → traded_qty (xs ++ ys) ≡ traded_qty xs + traded_qty ys
traded_qty-append [] ys = omega arith
traded_qty-append (order_ack id ∷ xs) ys = traded_qty-append xs ys
traded_qty-append (order_cancel id ∷ xs) ys = traded_qty-append xs ys
traded_qty-append (order_modify id ∷ xs) ys = traded_qty-append xs ys
traded_qty-append (trade t ∷ xs) ys = omega (arith, traded_qty-append xs ys)

unfilled-zero : (xs : List Order) → unfilled 0 xs ≡ 0
unfilled-zero [] = refl
unfilled-zero (x ∷ xs) =
    ap (λ q. unfilled q xs) {x = 0 - x.remaining} {y = 0} (omega arith) ∙ unfilled-zero xs

module _ (read_cycles : ℕ → ℕ) where
  traded_qty-unfilled :
      (n : ℕ) (id : OrderId) (q : Quantity) (xs : List Order)
      → traded_qty (trade_events read_cycles n id q xs) + unfilled q xs ≡ q
  traded_qty-unfilled n id zero xs = omega (arith, unfilled-zero xs)
  traded_qty-unfilled n id (suc q) [] = omega arith
  traded_qty-unfilled n id (suc q) (x ∷ xs) =
      omega (arith, traded_qty-unfilled (n + 1) id (suc q - x.remaining) xs)

  traded_qty-remainder :
      (n : ℕ) (id : OrderId) (q : Quantity) (xs : List Order)
      → traded_qty (trade_events read_cycles n id q xs) + total (remainder q xs) ≡ total xs
  traded_qty-remainder n id zero xs = omega arith
  traded_qty-remainder n id (suc q) [] = omega arith
  traded_qty-remainder n id (suc q) (x ∷ xs) = elim (Bool-cases (leb x.remaining (suc q))) [
    | inl e ↦
        rw e (omega (arith, traded_qty-remainder (n + 1) id (suc q - x.remaining) xs, ground_le e))
    | inr e ↦ rw e (
        omega (
          arith,
          ap (λ k. traded_qty (trade_events read_cycles (n + 1) id k xs)) {x = suc q - x.remaining}
              {y = 0} (ground arith),
          ground_gt e,
        ))
  ]
    where
      ground_le : leb x.remaining (suc q) ≡ true → x.remaining ≤ suc q
      ground_le e = ground arith

      ground_gt : leb x.remaining (suc q) ≡ false → suc q < x.remaining
      ground_gt e = ground arith

  remainder-unfilled : (q : Quantity) (xs : List Order) → unfilled q xs ≢ 0 → remainder q xs ≡ []
  remainder-unfilled zero xs ne = absurd (ne (unfilled-zero xs))
  remainder-unfilled (suc q) [] ne = refl
  remainder-unfilled (suc q) (x ∷ xs) ne = elim (Bool-cases (leb x.remaining (suc q))) [
    | inl e ↦ rw e (remainder-unfilled (suc q - x.remaining) xs ne)
    | inr e ↦ absurd (
        ne (
          ap (λ k. unfilled k xs) {x = suc q - x.remaining} {y = 0} (ground arith)
          ∙ unfilled-zero xs))
  ]

module _ (z : Sizes) (read_cycles : ℕ → ℕ) where
  -- What an accepted order traded and what is left of it are its shares, and what it traded and what is
  -- left of the orders that it reached are theirs.
  pub record Conserved (price : Price) (qty : Quantity) (side : Side) (b : Book) (lists : Lists)
      (b' : Book) (lists_now : Lists) : Type 0 where
    pub of_order :
        traded_qty b'.events + unfilled qty (queue b lists (opposite side) (reach side price b))
        ≡ traded_qty b.events + qty
    pub of_queue :
        traded_qty b'.events + total (queue b' lists_now (opposite side) (reach side price b))
        ≡ traded_qty b.events + total (queue b lists (opposite side) (reach side price b))

  counted :
      (id : OrderId) (price : Price) (qty : Quantity) (side : Side) (b : Book) (lists : Lists)
      (b' : Book)
      → Accepted z read_cycles id price qty side b lists b'
      → traded_qty b'.events
        ≡ traded_qty b.events
          + traded_qty (
              trade_events read_cycles
                (b.clock + 1)
                id
                qty
                (queue b lists (opposite side) (reach side price b)))
  counted id price qty side b lists b' r =
      let es =
        trade_events read_cycles (b.clock + 1) id qty
          (queue b lists (opposite side) (reach side price b)) in
      omega (
        arith,
        ap traded_qty r.events,
        traded_qty-append (b.events ++ es) (order_ack id ∷ []),
        traded_qty-append b.events es,
      )

  module _ (id : OrderId) (price : Price) (qty : Quantity) (side : Side) {o : Ref} (b : Book)
      {lists : Lists} {free : List Ref} (v : IsWhole z b lists free)
      (bests : BestsInRange z read_cycles b) (inside : price < z.max_price_levels)
      (small : qty < u32_mod) (head : b.pool.free_head ≡ some o)
      (room : (insert z.order_map_bits id o b.order_map).0 ≡ true) where
    -- No shares are made or lost: after an accepted `add_order`, as above, the shares that the
    -- published trades name have grown by what the new order has traded, which with what is left of
    -- it is its quantity; and they have grown by what the orders that it reached have lost.
    pub add_order-Conserved :
        let b' = (add_order z read_cycles id price qty side b).1 in
        let r =
          (add_order-Accepted z read_cycles id price qty side b v bests inside small head room).1 in
        Conserved price qty side b lists b' r.lists_now
    add_order-Conserved =
        let b' = (add_order z read_cycles id price qty side b).1 in
        let r =
          (add_order-Accepted z read_cycles id price qty side b v bests inside small head room).1 in
        let met = queue b lists (opposite side) (reach side price b) in
        record {
          of_order = omega (
            arith,
            counted id price qty side b lists b' r,
            traded_qty-unfilled read_cycles (b.clock + 1) id qty met,
          );
          of_queue = omega (
            arith,
            counted id price qty side b lists b' r,
            traded_qty-remainder read_cycles (b.clock + 1) id qty met,
            ap total r.queue_now,
          );
        }

    -- If an accepted `add_order`, as above, leaves the new order shares, then no order is left at
    -- the prices from the other side's best one to its limit, unless the level at that best price
    -- held no orders, when the new order meets none.
    pub add_order-drained :
        unfilled qty (queue b lists (opposite side) (reach side price b)) ≢ 0
        → let b' = (add_order z read_cycles id price qty side b).1 in
          let r =
            (add_order-Accepted z read_cycles id price qty side b v bests inside small head
              room).1 in
          queue b' r.lists_now (opposite side) (reach side price b) ≡ []
    add_order-drained left =
        let r =
          (add_order-Accepted z read_cycles id price qty side b v bests inside small head room).1 in
        r.queue_now
        ∙ remainder-unfilled read_cycles qty (queue b lists (opposite side) (reach side price b))
            left
