-- ===== src/OrderBook/Depth.antt =====
-- `get_depth` against a description by lists.
use lock_free_limit_order_bo.Prelude.{
  ℕ, zero, suc, ◌+◌, ◌-◌, ◌≡◌, arith, refl, List, [], ◌∷◌, take, if◌then◌else◌,
}
use lock_free_limit_order_bo.PriceLevel.Valid.{vacant}
use lock_free_limit_order_bo.Order.{Price}
use lock_free_limit_order_bo.PriceLevel.{PriceLevel}
use lock_free_limit_order_bo.OrderBook.State.{Sizes, Book}
use lock_free_limit_order_bo.OrderBook.Queries.{DepthLevel, depth_down, depth_up, get_depth}

-- The prices from 1 up to `p`, the highest first, and `n` prices from `p` on.
abbrev pub down_from : Price → List Price
down_from zero = []
down_from (suc p) = suc p ∷ down_from p

abbrev pub up_from : Price → ℕ → List Price
up_from p zero = []
up_from p (suc n) = p ∷ up_from (p + 1) n

-- The levels at some prices that hold orders.
abbrev pub resting : (Price → PriceLevel) → List Price → List DepthLevel
resting levels [] = []
resting levels (p ∷ ps) =
    let rest = resting levels ps in
    if vacant (levels p)
    then rest
    else (record {
      price = p;
      total_qty = (levels p).total_quantity;
      order_count = (levels p).count;
    }
        ∷ rest)

depth_down-take :
    (levels : Price → PriceLevel) (p n : ℕ)
    → depth_down levels p n ≡ take n (resting levels (down_from p))
unfolding depth_down
depth_down-take levels zero zero = refl
depth_down-take levels zero (suc n) = refl
depth_down-take levels (suc p) zero = refl
depth_down-take levels (suc p) (suc n) =
    ground (arith, depth_down-take levels p (suc n), depth_down-take levels p n)

depth_up-take :
    (ahead : ℕ) (levels : Price → PriceLevel) (p n : ℕ)
    → depth_up ahead levels p n ≡ take n (resting levels (up_from p ahead))
unfolding depth_up
depth_up-take zero levels p zero = refl
depth_up-take zero levels p (suc n) = refl
depth_up-take (suc ahead) levels p zero = refl
depth_up-take (suc ahead) levels p (suc n) =
    ground (arith, depth_up-take ahead levels (p + 1) (suc n), depth_up-take ahead levels (p + 1) n)

module _ (z : Sizes) where
  -- `get_depth` returns the first n levels that hold orders, each with its price, shares and number
  -- of orders: of the bids from the best price down to price 1, of the asks from the best price up
  -- to the end of the array.
  pub get_depth-take :
      (b : Book) (n : ℕ)
      → get_depth z b n ≡ (
        take n (resting b.bid.levels (down_from b.bid.best)),
        take n (resting b.ask.levels (up_from b.ask.best (z.max_price_levels - b.ask.best))),
      )
  unfolding get_depth
  get_depth-take b n =
      rw
        (
          depth_down-take b.bid.levels b.bid.best n,
          depth_up-take (z.max_price_levels - b.ask.best) b.ask.levels b.ask.best n,
        )
        refl
