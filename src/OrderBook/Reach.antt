-- ===== src/OrderBook/Reach.antt =====
-- What an accepted order reaches, and what it does to the lists of orders.
use lock_free_limit_order_bo.Prelude.{
  ◌^◌, zero, suc, true, false, ap, none, some, ℕ, ◌+◌, ◌-◌, ◌≤◌, ◌<◌, ◌≡◌, ◌≢◌, ◌⊎◌, ◌==◌, arith,
  List, [], ◌∷◌, ◌++◌, if◌then◌else◌, inl, inr,
}
use lock_free_limit_order_bo.Prelude.Members.{◌∉◌}
use lock_free_limit_order_bo.PriceLevel.Valid.{vacant}
use lock_free_limit_order_bo.Order.{
  OrderId, Ref, Price, Quantity, Side, buy, sell, Order, order_ack,
}
use lock_free_limit_order_bo.OrderBook.Depth.{up_from}
use lock_free_limit_order_bo.OrderBook.Lessened.{IsLessened}
use lock_free_limit_order_bo.OrderBook.State.{Sizes, Book, BookSide, own, passive}
use lock_free_limit_order_bo.OrderBook.Operations.{crosses}
use lock_free_limit_order_bo.OrderBook.Rests.{new_order, entered}
use lock_free_limit_order_bo.OrderBook.Sides.{opposite}
use lock_free_limit_order_bo.OrderBook.Whole.{IsWhole}
use lock_free_limit_order_bo.OrderMap.{empty_key, find}
use lock_free_limit_order_bo.OrderBook.Index.{Indexed}
use lock_free_limit_order_bo.OrderBook.Priority.{
  within, view, queue, trade_events, remainder, unfilled,
}
use lock_free_limit_order_bo.OrderBook.Run.{Lists}
use lock_free_limit_order_bo.OrderBook.Within.{InRange}

pub unfilled-bound : (q : Quantity) (xs : List Order) → unfilled q xs ≤ q
unfilled-bound q [] = omega arith
unfilled-bound q (x ∷ xs) = omega (arith, unfilled-bound (q - x.remaining) xs)

-- The prices that a new order trades at: from the best one of the other side to its limit, or none, if
-- the best level of the other side holds no orders.
abbrev pub reach : Side → Price → Book → List Price
reach side price b =
    let h = passive side b in if vacant (h.levels h.best) then [] else within side price h.best

within-sell_above : (limit best : Price) → best < limit → within sell limit best ≡ []
within-sell_above limit zero above = ground arith
within-sell_above limit (suc best) above =
    ground (arith, within-sell_above limit best (omega arith))

-- The crossing check refuses an order when the best level holds no orders, and otherwise only if
-- there is no price for it to trade at.
pub crosses-empty :
    (side : Side) (price : Price) (h : BookSide)
    → vacant (h.levels h.best) ≡ true
    → crosses side price h ≡ false
crosses-empty buy price h e = ground (arith, e)
crosses-empty sell price h e = ground (arith, e)

pub crosses-within :
    (side : Side) (price : Price) (h : BookSide)
    → vacant (h.levels h.best) ≡ false
    → crosses side price h ≡ false
    → within side price h.best ≡ []
crosses-within buy price h e apart = ap (up_from h.best) {y = 0} (ground (arith, e, apart))
crosses-within sell price h e apart = within-sell_above price h.best (ground (arith, e, apart))

module _ (z : Sizes) (read_cycles : ℕ → ℕ) where
  -- The best prices stand in the array or, that of the asks, at its end.
  abbrev pub BestsInRange : Book → Type 0
  BestsInRange b = (b.bid.best < z.max_price_levels) × (b.ask.best ≤ z.max_price_levels)

  pub BestsInRange-InRange :
      (side : Side) (price : Price) (b : Book)
      → BestsInRange b
      → price < z.max_price_levels
      → InRange z read_cycles side price (passive side b).best
  BestsInRange-InRange buy price b v inside = (inside, v.1)
  BestsInRange-InRange sell price b v inside = v.0

  pub bests-BestsInRange :
      (side : Side) (price p : Price) (b' b : Book)
      → BestsInRange b
      → price < z.max_price_levels
      → ((own side b').best ≡ price) ⊎ ((own side b').best ≡ (own side b).best)
      → InRange z read_cycles side p (passive side b').best
      → BestsInRange b'
  bests-BestsInRange buy price p b' b v inside (inl e) r = (omega arith, r.1)
  bests-BestsInRange buy price p b' b v inside (inr e) r = (omega (arith, v.0), r.1)
  bests-BestsInRange sell price p b' b v inside (inl e) r = (r, omega arith)
  bests-BestsInRange sell price p b' b v inside (inr e) r = (r, omega (arith, v.1))

  -- The order met the orders of the other side that it reaches, in price-time priority; what they left
  -- of it rests behind the orders at its price.
  pub record Accepted (id : OrderId) (price : Price) (qty : Quantity) (side : Side) (b : Book)
      (lists : Lists) (b' : Book) : Type 0 where
    pub lists_now : Lists
    pub free_now : List Ref
    pub whole : IsWhole z b' lists_now free_now
    pub bests : BestsInRange b'
    pub index :
        z.order_map_bits ≤ 64
        → id ≢ empty_key
        → id < 2 ^ z.order_map_bits
        → find z.order_map_bits id b.order_map ≡ none
        → Indexed z b lists []
        → Indexed z b' lists_now []
    pub events :
        b'.events
        ≡ (b.events
            ++ trade_events read_cycles
                (b.clock + 1)
                id
                qty
                (queue b lists (opposite side) (reach side price b)))
          ++ order_ack id ∷ []
    pub queue_now :
        queue b' lists_now (opposite side) (reach side price b)
        ≡ remainder qty (queue b lists (opposite side) (reach side price b))
    pub level :
        let left = unfilled qty (queue b lists (opposite side) (reach side price b)) in
        view b' lists_now side price
        ≡ view b lists side price
          ++ (if left == 0
              then []
              else (record (new_order z read_cycles id price qty side b) { remaining = left } ∷ []))
    pub other_levels : (p : Price) → price ≢ p → view b' lists_now side p ≡ view b lists side p
    pub traced :
        (o : Ref) × (b.pool.free_head ≡ some o)
        × IsLessened z (entered z read_cycles id price qty side o b) b'
    pub other_side :
        (p : Price)
        → p ∉ reach side price b
        → view b' lists_now (opposite side) p ≡ view b lists (opposite side) p
