-- ===== src/OrderBook/Priority.antt =====
-- What an incoming order does to a queue of resting orders, the first to trade first.
use lock_free_limit_order_bo.Prelude.{
  ℕ, zero, suc, ◌+◌, ◌-◌, leb, if◌then◌else◌, List, [], ◌∷◌, ◌++◌, map, min,
}
use lock_free_limit_order_bo.Order.{
  OrderId, Price, Quantity, Ref, Side, buy, sell, Order, Event, trade,
}
use lock_free_limit_order_bo.OrderBook.Depth.{up_from}
use lock_free_limit_order_bo.OrderBook.State.{Book, order_at}

module _ (read_cycles : ℕ → ℕ) where
  abbrev pub fill_event : ℕ → OrderId → Quantity → Order → Event
  fill_event n id q x = trade (record {
    aggressor_id = id;
    passive_id = x.id;
    price = x.price;
    quantity = min q x.remaining;
    timestamp = read_cycles n;
  })

  -- One trade for each order that it meets while it has shares left.
  abbrev pub trade_events : ℕ → OrderId → Quantity → List Order → List Event
  trade_events n id zero xs = []
  trade_events n id (suc q) [] = []
  trade_events n id (suc q) (x ∷ xs) =
      fill_event n id (suc q) x ∷ trade_events (n + 1) id (suc q - x.remaining) xs

-- The orders that stay: the last one that it meets may have lost a part of its shares.
abbrev pub remainder : Quantity → List Order → List Order
remainder zero xs = xs
remainder (suc q) [] = []
remainder (suc q) (x ∷ xs) =
    let rest = remainder (suc q - x.remaining) xs in
    if leb x.remaining (suc q) then rest else (record x { remaining = x.remaining - suc q } ∷ xs)

-- The shares that it has left.
abbrev pub unfilled : Quantity → List Order → Quantity
unfilled q [] = q
unfilled q (x ∷ xs) = unfilled (q - x.remaining) xs

-- The prices from the best one of the other side to the limit of an order of a side.
abbrev pub within : Side → Price → Price → List Price
within buy limit best = up_from best (limit + 1 - best)
within sell limit zero = if leb limit zero then zero ∷ [] else []
within sell limit (suc best) =
    let rest = within sell limit best in if leb limit (suc best) then suc best ∷ rest else []

-- The orders at a price, and those at some prices, one price after the other.
abbrev pub view : Book → (Side → Price → List Ref) → Side → Price → List Order
view b lists s p = map (order_at b) (lists s p)

abbrev pub queue : Book → (Side → Price → List Ref) → Side → List Price → List Order
queue b lists s [] = []
queue b lists s (p ∷ ps) = view b lists s p ++ queue b lists s ps
