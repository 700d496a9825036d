-- ===== src/Demo.antt =====
-- src/main.cpp: what the demos do to their books, as sequences of commands, the callbacks of two of
-- them, and `LatencyStats`. Printing and the measurement of time are left out.
pub mod Runs
use lock_free_limit_order_bo.Prelude.{
  ℕ, zero, suc, ◌+◌, ◌-◌, ◌*◌, ◌%◌, List, [], ◌∷◌, ◌++◌, ◌==◌, if◌then◌else◌,
}
use lock_free_limit_order_bo.Prelude.Words.{add32, sub32}
use lock_free_limit_order_bo.Order.{
  Side, buy, sell, Price, Event, trade, order_ack, order_cancel, order_modify,
}
use lock_free_limit_order_bo.OrderBook.Commands.{Command, add, cancel, modify}

-- `LatencyStats`: the samples, oldest first.
pub record LatencyStats : Type 0 where
  pub samples : List ℕ

abbrev pub record_sample : ℕ → LatencyStats → LatencyStats
record_sample ticks s = record { samples = s.samples ++ ticks ∷ [] }

-- `demo_smoke_test`: the orders, and the count that its callback keeps.
abbrev pub smoke_test : List Command
smoke_test =
    add 1 100 500 buy
    ∷ add 2 99 300 buy
    ∷ add 3 101 200 sell
    ∷ add 4 102 400 sell
    ∷ add 5 103 150 buy
    ∷ []

abbrev pub count_trade : Event → ℕ → ℕ
count_trade (trade t) n = n + 1
count_trade e n = n

-- The callback over the events so far, oldest first.
abbrev pub trades_of : List Event → ℕ → ℕ
trades_of [] n = n
trades_of (e ∷ es) n = trades_of es (count_trade e n)

-- `demo_modify`.
abbrev pub modify_demo : List Command
modify_demo =
    add 10 50_000 1000 buy
    ∷ add 11 50_001 500 sell
    ∷ modify 10 50_000 400
    ∷ modify 10 49_999 400
    ∷ []

-- `demo_multilevel`.
abbrev pub multilevel : List Command
multilevel = add 1 100 200 sell ∷ add 2 101 300 sell ∷ add 3 102 400 sell ∷ add 4 103 900 buy ∷ []

-- The loop of `demo_depth`, for its first rounds; the source runs 5.
abbrev pub depth_demo : ℕ → List Command
depth_demo zero = []
depth_demo (suc i) =
    depth_demo i
    ++ add (100 + i) (sub32 50_000 i) (100 * (i + 1)) buy
      ∷ add (200 + i) (add32 50_001 i) (80 * (i + 1)) sell
      ∷ []

-- The side and the price of round `i` of `demo_latency` (width 1000) and `demo_tracer` (width 500).
abbrev pub round_side : ℕ → Side
round_side i = if i % 2 == 0 then buy else sell

abbrev pub round_price : ℕ → ℕ → Price
round_price width i = if i % 2 == 0 then 48_000 + i % width else 52_000 + i % width

-- The body of a loop: an order, a cancellation in every `every_cancel`-th round, of the order `back`
-- rounds before, and a modification in every `every_modify`-th, of that `back'` rounds before.
unfoldable pub latency_round : ℕ → List Command
latency_round i =
    add i (round_price 1000 i) 100 (round_side i)
    ∷ ((if i % 4 == 0 then (cancel (i - 2) ∷ []) else [])
        ++ (if i % 8 == 0 then (modify (i - 4) (round_price 1000 i) 50 ∷ []) else []))

unfoldable pub tracer_round : ℕ → List Command
tracer_round i =
    add i (round_price 500 i) 100 (round_side i)
    ∷ ((if i % 5 == 0 then (cancel (i - 2) ∷ []) else [])
        ++ (if i % 7 == 0 then (modify (i - 3) (round_price 500 i) 50 ∷ []) else []))

-- `for (int i = 1; i <= n; ++i)`.
abbrev pub rounds : (ℕ → List Command) → ℕ → List Command
rounds f zero = []
rounds f (suc i) = rounds f i ++ f (suc i)

abbrev pub latency_total : ℕ
latency_total = 1_000_000

abbrev pub tracer_total : ℕ
tracer_total = 200_000
