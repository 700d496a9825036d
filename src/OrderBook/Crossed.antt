-- ===== src/OrderBook/Crossed.antt =====
-- The book after `add_order` when `best_ask_` or `best_bid_` stands at a level that matching emptied.
use lock_free_limit_order_bo.Prelude.{
  inr, ℕ, ◌<◌, ◌≤◌, ◌≡◌, ◌≢◌, true, false, some, List, [], ◌∷◌, ◌++◌,
}
use lock_free_limit_order_bo.Prelude.Members.{◌∉◌}
use lock_free_limit_order_bo.Order.{OrderId, Ref, Price, Quantity, Side, buy, sell, order_ack}
use lock_free_limit_order_bo.PriceLevel.Valid.{vacant, IsLevel, IsLevel-filled}
use lock_free_limit_order_bo.OrderMap.{insert}
use lock_free_limit_order_bo.OrderBook.State.{Sizes, Book, cells, own, passive}
use lock_free_limit_order_bo.OrderBook.Operations.{add_order}
use lock_free_limit_order_bo.OrderBook.Rests.{add_order-Rested}

-- A bid rests at a price at or above that of an ask that rests too.
abbrev pub Crossed : Book → Type 0
Crossed b =
    (bid ask : Price) × (ask ≤ bid)
    × (vacant (b.bid.levels bid) ≡ false)
    × (vacant (b.ask.levels ask) ≡ false)

-- The prices at which an order of a side trades against the other one.
abbrev pub Marketable : Side → Price → Price → Type 0
Marketable buy price p = p ≤ price
Marketable sell price p = price ≤ p

module _ (z : Sizes) (read_cycles : ℕ → ℕ) where
  -- When the best price of the other side stands at a level without orders, an order is accepted
  -- without a trade although a deeper level, which it could trade at, holds orders: only an
  -- acknowledgement is published, and the book ends crossed. The order has shares and its price is
  -- in range, the pool and the table have room for it, and its level stands for a list of orders
  -- that it is not in.
  pub add_order-Crossed :
      (id : OrderId) (price : Price) (qty : Quantity) (side : Side) {o : Ref} {xs : List Ref}
      (b : Book) (deeper : Price)
      → vacant ((passive side b).levels (passive side b).best) ≡ true
      → vacant ((passive side b).levels deeper) ≡ false
      → Marketable side price deeper
      → price < z.max_price_levels
      → b.pool.free_head ≡ some o
      → (insert z.order_map_bits id o b.order_map).0 ≡ true
      → qty ≢ 0
      → IsLevel (cells b) ((own side b).levels price) xs
      → o ∉ xs
      → let (done, b') = add_order z read_cycles id price qty side b in
        (done ≡ true) × (b'.events ≡ b.events ++ order_ack id ∷ []) × Crossed b'
  add_order-Crossed id price qty buy {o} {xs} b deeper stale filled reach inside free done some_qty
        v out =
      let (ok, r) =
        add_order-Rested z read_cycles id price qty buy b inside free done (inr stale) some_qty v
          out in
      (ok, r.events, (price, deeper, reach, IsLevel-filled xs o [] r.level, rw r.other_side filled))
  add_order-Crossed id price qty sell {o} {xs} b deeper stale filled reach inside free done some_qty
        v out =
      let (ok, r) =
        add_order-Rested z read_cycles id price qty sell b inside free done (inr stale) some_qty v
          out in
      (ok, r.events, (deeper, price, reach, rw r.other_side filled, IsLevel-filled xs o [] r.level))
