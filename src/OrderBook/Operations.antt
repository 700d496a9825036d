-- ===== src/OrderBook/Operations.antt =====
-- `add_order`, `cancel_order` and `modify_order`.
use lock_free_limit_order_bo.Prelude.{
  ℕ, ◌+◌, ◌-◌, Bool, true, false, not, ◌&&◌, none, some, ltb, leb, ◌==◌, if◌then◌else◌,
}
use lock_free_limit_order_bo.Prelude.Words.{add64, sub64}
use lock_free_limit_order_bo.Order.{
  OrderId, Ref, Price, Quantity, Side, buy, sell, order_ack, order_cancel, order_modify, is_filled,
  set_order,
}
use lock_free_limit_order_bo.PriceLevel.{is_empty, push_back, remove}
use lock_free_limit_order_bo.OrderPool.{acquire, release}
use lock_free_limit_order_bo.OrderMap.{insert, find, erase}
use lock_free_limit_order_bo.OrderBook.State.{
  Sizes, BookSide, Book, order_at, set_cells, own, passive, set_own, set_level, publish,
}
use lock_free_limit_order_bo.OrderBook.Match.{skip_up, skip_down, less_total, match}

-- `price > best_bid_` of a bid, `price < best_ask_` of an ask.
abbrev pub better : Side → Price → Price → Bool
better buy price best = ltb best price
better sell price best = ltb price best

-- `price >= best_ask_ && !asks[best_ask_].empty()` of a buy, and so for a sell.
abbrev pub crosses : Side → Price → BookSide → Bool
crosses buy price h = leb h.best price && not (is_empty (h.levels h.best))
crosses sell price h = leb price h.best && not (is_empty (h.levels h.best))

-- The remainder of an order goes to the end of its level.
unfoldable pub rest_order : Side → Price → Ref → Book → Book
rest_order side price o b =
    let h = own side b in
    let (c, l) = push_back o b.pool.cells (h.levels price) in
    set_own side
      (record (set_level price l h) {
        total_qty = add64 h.total_qty (c.order o).remaining;
        best = if better side price h.best then price else h.best;
      })
      (set_cells c b)

module _ (z : Sizes) where
  unfoldable pub update_best_bid : BookSide → BookSide
  update_best_bid h = record h { best = skip_down h.levels h.best }

  unfoldable pub update_best_ask : BookSide → BookSide
  update_best_ask h = record h {
    best = skip_up (z.max_price_levels - 1 - h.best) (z.max_price_levels - 1) h.levels h.best;
  }

  abbrev pub update_best : Side → BookSide → BookSide
  update_best buy h = update_best_bid h
  update_best sell h = update_best_ask h

  -- `order_map_->erase(id); pool_->release(o);`
  abbrev pub drop_order : OrderId → Ref → Book → Book
  drop_order id o b = record b {
    order_map = (erase z.order_map_bits id b.order_map).1;
    pool = release o b.pool;
  }

  -- From the subtraction of the total on, for an order of the side and the price given.
  unfoldable pub take_out : Side → Price → OrderId → Ref → Book → Book
  take_out side price id o b =
      let h = own side b in
      let (c, l) = remove o b.pool.cells (h.levels price) in
      let h' = record (set_level price l h) {
        total_qty = sub64 h.total_qty (order_at b o).remaining;
      } in
      let b' = drop_order id o (set_own side h' (set_cells c b)) in
      let b'' = if price == h'.best then set_own side (update_best side h') b' else b' in
      publish z (order_cancel id) b''

  unfoldable pub cancel_order : OrderId → Book → Bool × Book
  unfolding take_out
  cancel_order id b = elim (find z.order_map_bits id b.order_map) [
    | none ↦ (false, b)
    | some o ↦ (true, take_out (order_at b o).side (order_at b o).price id o b)
  ]

module _ (z : Sizes) (read_cycles : ℕ → ℕ) where
  -- The order's fields are filled in; the clock is read for its timestamp.
  unfoldable pub fill_in : OrderId → Price → Quantity → Side → Ref → Book → Book
  fill_in id price qty side o b =
      record (set_cells
        (set_order o
          (record {
            id = id;
            price = price;
            quantity = qty;
            remaining = qty;
            timestamp = read_cycles b.clock;
            side = side;
          })
          b.pool.cells)
        b) { clock = b.clock + 1 }

  -- From the crossing check on: match, rest or reclaim, and acknowledge.
  unfoldable pub place_order : OrderId → Price → Side → Ref → Book → Book
  place_order id price side o b =
      let b' = if crosses side price (passive side b) then match z read_cycles o b else b in
      publish z (order_ack id)
        (if is_filled (order_at b' o) then drop_order z id o b' else rest_order side price o b')

  unfoldable pub add_order : OrderId → Price → Quantity → Side → Book → Bool × Book
  unfolding fill_in place_order
  add_order id price qty side b =
      if leb z.max_price_levels price
      then (false, b)
      else let (got, pool) = acquire b.pool in
        elim got [
          | none ↦ (false, record b { pool = pool })
          | some o ↦
              let b' = fill_in id price qty side o (record b { pool = pool }) in
              let (inserted, map) = insert z.order_map_bits id o b'.order_map in
              let b'' = record b' { order_map = map } in
              if inserted
              then (true, place_order id price side o b'')
              else (false, record b'' { pool = release o b''.pool })
        ]

  -- The fast path of `modify_order`, the same price and fewer shares, for an order of the side given.
  unfoldable pub reduce : Side → OrderId → Ref → Quantity → Book → Book
  reduce side id o new_qty b =
      let delta = (order_at b o).remaining - new_qty in
      let b' = set_own side (less_total (order_at b o).price delta (own side b)) b in
      publish z (order_modify id) (
        set_cells
          (set_order o (record (order_at b o) { remaining = new_qty; quantity = new_qty })
            b'.pool.cells)
          b')

  unfoldable pub modify_order : OrderId → Price → Quantity → Book → Bool × Book
  unfolding reduce
  modify_order id new_price new_qty b = elim (find z.order_map_bits id b.order_map) [
    | none ↦ (false, b)
    | some o ↦
        if new_price == (order_at b o).price && ltb new_qty (order_at b o).remaining
        then (true, reduce (order_at b o).side id o new_qty b)
        else let (_, b') = cancel_order z id b in
          add_order id new_price new_qty (order_at b o).side b'
  ]
