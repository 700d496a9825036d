-- ===== src/OrderBook/Match.antt =====
-- `match`: an incoming order trades against the best levels of the other side. `read_cycles` is the
-- processor's clock, whose `n`-th reading is a parameter.
use lock_free_limit_order_bo.Prelude.{
  ℕ, zero, suc, ◌+◌, ◌-◌, Bool, true, false, not, ◌&&◌, ◌||◌, none, some, ltb, leb, min, update,
  if◌then◌else◌,
}
use lock_free_limit_order_bo.Prelude.Words.{sub32, sub64}
use lock_free_limit_order_bo.Order.{
  Ref, Price, Quantity, Side, buy, sell, Cells, trade, is_filled, set_order,
}
use lock_free_limit_order_bo.PriceLevel.{PriceLevel, is_empty, remove}
use lock_free_limit_order_bo.OrderPool.{release}
use lock_free_limit_order_bo.OrderMap.{erase}
use lock_free_limit_order_bo.OrderBook.State.{
  Sizes, BookSide, Book, order_at, set_cells, passive, set_passive, set_level, publish,
}

-- `while (best < limit && levels[best].empty()) ++best;` with a round for each price below the limit.
unfoldable pub skip_up : ℕ → ℕ → (Price → PriceLevel) → Price → Price
skip_up zero limit levels best = best
skip_up (suc fuel) limit levels best =
    let rest = skip_up fuel limit levels (best + 1) in
    if ltb best limit && is_empty (levels best) then rest else best

-- `while (best > 0 && levels[best].empty()) --best;`
unfoldable pub skip_down : (Price → PriceLevel) → Price → Price
skip_down levels zero = zero
skip_down levels (suc best) =
    if is_empty (levels (suc best)) then skip_down levels best else suc best

-- `o->remaining -= fill;`
abbrev pub less_remaining : Ref → Quantity → Cells → Cells
less_remaining o fill c =
    set_order o (record (c.order o) { remaining = sub32 (c.order o).remaining fill }) c

-- `level.total_quantity -= fill; passive_total -= fill;`
abbrev pub less_total : Price → Quantity → BookSide → BookSide
less_total p fill h = record {
  levels =
      update h.levels p
        (record (h.levels p) { total_quantity = sub32 (h.levels p).total_quantity fill });
  best = h.best;
  total_qty = sub64 h.total_qty fill;
}

module _ (z : Sizes) where
  -- `level.remove(o); order_map_->erase(o->id); pool_->release(o);` for a level of the passive side.
  unfoldable pub retire : Side → Price → Ref → Book → Book
  retire side price o b =
      let h = passive side b in
      let (c, l) = remove o b.pool.cells (h.levels price) in
      let b' = set_passive side (set_level price l h) (set_cells c b) in
      record b' {
        order_map = (erase z.order_map_bits (c.order o).id b'.order_map).1;
        pool = release o b'.pool;
      }

module _ (z : Sizes) (read_cycles : ℕ → ℕ) where
  -- One fill of the order `a`, of side `side`, against the order `o` of the level at `price`.
  unfoldable pub fill_order : Side → Price → Ref → Ref → Book → Book
  fill_order side price a o b =
      let fill = min (order_at b a).remaining (order_at b o).remaining in
      let c = less_remaining o fill (less_remaining a fill b.pool.cells) in
      let event = trade (record {
        aggressor_id = (c.order a).id;
        passive_id = (c.order o).id;
        price = (c.order o).price;
        quantity = fill;
        timestamp = read_cycles b.clock;
      }) in
      let b' = record (set_passive side (less_total price fill (passive side b)) (set_cells c b)) {
        clock = b.clock + 1;
      } in
      let b'' = publish z event b' in
      if is_filled (c.order o) then retire z side price o b'' else b''

  -- The inner loop, on fuel: while the order is open and the level is not empty.
  unfoldable pub fill_level : ℕ → Side → Price → Ref → Book → Book
  fill_level zero side price a b = b
  fill_level (suc fuel) side price a b = elim (is_filled (order_at b a)) [
    | true ↦ b
    | false ↦ elim ((passive side b).levels price).head [
      | none ↦ b
      | some o ↦ fill_level fuel side price a (fill_order side price a o b)
    ]
  ]

  -- The best price of the passive side, moved over empty levels, and whether the order of side `side`
  -- at `price` trades there.
  unfoldable pub advance_best : Side → Price → BookSide → Price × Bool
  advance_best buy price h =
      let best = skip_up (z.max_price_levels - h.best) z.max_price_levels h.levels h.best in
      (best, not (leb z.max_price_levels best || ltb price best))
  advance_best sell price h =
      let best = skip_down h.levels h.best in
      (best, not (is_empty (h.levels best) || ltb best price))

  -- The outer loop, on fuel. A level holds fewer orders than the pool has given out, so those in use
  -- are rounds enough for the inner loop.
  unfoldable pub match_loop : ℕ → Side → Ref → Book → Book
  match_loop zero side a b = b
  match_loop (suc fuel) side a b = elim (is_filled (order_at b a)) [
    | true ↦ b
    | false ↦
        let (best, crosses) = advance_best side (order_at b a).price (passive side b) in
        let b' = set_passive side (record (passive side b) { best = best }) b in
        elim crosses [
          | true ↦ match_loop fuel side a (fill_level b'.pool.in_use side best a b')
          | false ↦ b'
        ]
  ]

  -- Each round but the last leaves its level empty, and the best price moves on from it.
  unfoldable pub match : Ref → Book → Book
  match a b = match_loop (z.max_price_levels + 1) (order_at b a).side a b
