-- ===== src/OrderBook/Queries.antt =====
-- `top_of_book`, `get_stats`, `get_depth` and `orders_in_flight`. A read of a level outside the array
-- is `none`.
use lock_free_limit_order_bo.Prelude.{
  ℕ, zero, suc, ◌+◌, ◌-◌, ◌/◌, true, false, not, ◌&&◌, Option, none, some, List, [], ◌∷◌, ltb,
  if◌then◌else◌,
}
use lock_free_limit_order_bo.Prelude.Words.{add32, sub32}
use lock_free_limit_order_bo.Order.{Price, Quantity}
use lock_free_limit_order_bo.PriceLevel.{PriceLevel, is_empty}
use lock_free_limit_order_bo.OrderBook.State.{Sizes, BookSide, Book}

pub record TopOfBook : Type 0 where
  pub bid_price : Price
  pub ask_price : Price
  pub bid_qty : Quantity
  pub ask_qty : Quantity

pub record BookStats : Type 0 where
  pub best_bid : Price
  pub best_ask : Price
  pub spread : ℕ
  pub mid : Price
  pub bid_total_qty : ℕ
  pub ask_total_qty : ℕ
  pub orders_in_flight : ℕ

pub record DepthLevel : Type 0 where
  pub price : Price
  pub total_qty : Quantity
  pub order_count : ℕ

unfoldable pub orders_in_flight : Book → ℕ
orders_in_flight b = b.pool.in_use

-- A price and its quantity, 0 where the level is empty.
abbrev shown : Price → PriceLevel → Price × Quantity
shown p l = if is_empty l then (0, 0) else (p, l.total_quantity)

abbrev pub depth_level : Price → PriceLevel → DepthLevel
depth_level p l = record { price = p; total_qty = l.total_quantity; order_count = l.count }

-- `for (p = best; p > 0 && out.size() < n; --p)`, with the levels still wanted.
unfoldable pub depth_down : (Price → PriceLevel) → Price → ℕ → List DepthLevel
depth_down levels zero n = []
depth_down levels (suc p) zero = []
depth_down levels (suc p) (suc n) = elim (is_empty (levels (suc p))) [
  | true ↦ depth_down levels p (suc n)
  | false ↦ depth_level (suc p) (levels (suc p)) ∷ depth_down levels p n
]

-- `for (p = best; p < MAX_PRICE_LEVELS && out.size() < n; ++p)`, with the prices still ahead.
unfoldable pub depth_up : ℕ → (Price → PriceLevel) → Price → ℕ → List DepthLevel
depth_up zero levels p n = []
depth_up (suc ahead) levels p zero = []
depth_up (suc ahead) levels p (suc n) = elim (is_empty (levels p)) [
  | true ↦ depth_up ahead levels (p + 1) (suc n)
  | false ↦ depth_level p (levels p) ∷ depth_up ahead levels (p + 1) n
]

module _ (z : Sizes) where
  -- The level at the best price of a side.
  unfoldable pub best_level : BookSide → Option PriceLevel
  best_level h = if ltb h.best z.max_price_levels then some (h.levels h.best) else none

  unfoldable pub top_of_book : Book → Option TopOfBook
  top_of_book b = elim (best_level b.bid) [
    | none ↦ none
    | some bl ↦ elim (best_level b.ask) [
      | none ↦ none
      | some al ↦ some (record {
        bid_price = (shown b.bid.best bl).0;
        ask_price = (shown b.ask.best al).0;
        bid_qty = (shown b.bid.best bl).1;
        ask_qty = (shown b.ask.best al).1;
      })
    ]
  ]

  pub get_stats : Book → Option BookStats
  get_stats b = elim (best_level b.bid) [
    | none ↦ none
    | some bl ↦ elim (best_level b.ask) [
      | none ↦ none
      | some al ↦
          let both = not (is_empty bl) && not (is_empty al) in
          some (record {
            best_bid = if is_empty bl then 0 else b.bid.best;
            best_ask = if is_empty al then 0 else b.ask.best;
            spread = if both then sub32 b.ask.best b.bid.best else 0;
            mid = if both then add32 b.bid.best b.ask.best / 2 else 0;
            bid_total_qty = b.bid.total_qty;
            ask_total_qty = b.ask.total_qty;
            orders_in_flight = b.pool.in_use;
          })
    ]
  ]

  -- The bids from the best price down, and the asks from the best price up, `n` levels of each at most.
  unfoldable pub get_depth : Book → ℕ → List DepthLevel × List DepthLevel
  get_depth b n = (
    depth_down b.bid.levels b.bid.best n,
    depth_up (z.max_price_levels - b.ask.best) b.ask.levels b.ask.best n,
  )
