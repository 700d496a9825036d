-- ===== src/Replay/Tick.antt =====
-- `to_tick` and the range of prices.
use lock_free_limit_order_bo.Prelude.{ℕ, ◌≤◌, ◌<◌, ◌/◌, ◌≡◌, arith}
use native.Mathlib.Nat.{le-div_iff_mul-le, div-mul-le_self}
use lock_free_limit_order_bo.OrderBook.State.{Sizes}
use lock_free_limit_order_bo.Replay.{ReplayConfig, to_tick}

div_mono : (p q d : ℕ) → 0 < d → p ≤ q → p / d ≤ q / d
div_mono p q d pos below =
    (le-div_iff_mul-le {x = p / d} {y = q} pos).1 (omega (arith, div-mul-le_self p d))

module _ (z : Sizes) (read_cycles : ℕ → ℕ) (cfg : ReplayConfig) where
  -- With at least one price level and a divisor above 0, `to_tick` gives a price in range, no lower
  -- for a higher price, and the exact quotient where that is in range.
  pub to_tick-lt :
      (p q : ℕ)
      → 0 < z.max_price_levels
      → 0 < cfg.tick_divisor
      → p ≤ q
      → (to_tick z read_cycles cfg p < z.max_price_levels)
        × (to_tick z read_cycles cfg p ≤ to_tick z read_cycles cfg q)
        × (p / cfg.tick_divisor < z.max_price_levels
            → to_tick z read_cycles cfg p ≡ p / cfg.tick_divisor)
  unfolding to_tick
  to_tick-lt p q some_level pos below =
      let mono = div_mono p q cfg.tick_divisor pos below in
      (ground arith, ground (arith, mono), λ inside. ground arith)
