-- ===== src/Tests/Demos.antt =====
-- The programs' loads at concrete numbers of rounds, and the counts that `demo_smoke_test` and
-- `demo_multilevel` announce.
use lock_free_limit_order_bo.Prelude.{◌≡◌, refl, false, none, [], ◌∷◌, arith}
use lock_free_limit_order_bo.Itch.RoundTrip.{
  stock_directory, add_order, order_executed, order_cancel, order_delete, order_replace,
}
use lock_free_limit_order_bo.OrderBook.State.{source_sizes, new_book}
use lock_free_limit_order_bo.OrderBook.Sound.{IsSound}
use lock_free_limit_order_bo.OrderBook.Commands.{run as execute}
use lock_free_limit_order_bo.StatsCounter.{zeros}
use lock_free_limit_order_bo.Replay.{ReplayEngine, run}
use lock_free_limit_order_bo.Replay.Tracking.{IsTracking}
use lock_free_limit_order_bo.ReplayMain.{load, throughput_config, aapl}
use lock_free_limit_order_bo.ReplayMain.Throughput
use lock_free_limit_order_bo.ReplayMain.Throughput.{load-IsTracking}
use lock_free_limit_order_bo.ReplayMain.Demo.{correctness_stream}
use lock_free_limit_order_bo.ReplayMain.Written.{write_all, new_stream}
use lock_free_limit_order_bo.Demo.{latency_round, tracer_round, rounds}
use lock_free_limit_order_bo.Demo.Runs
use lock_free_limit_order_bo.Demo.Runs.{demos-IsSound}
use lock_free_limit_order_bo.Tests.Levels.{cells as blank}
use lock_free_limit_order_bo.Tests.Book.{tick}

abbrev engine : ReplayEngine
engine = record {
  book = new_book source_sizes blank;
  stats = zeros;
  locate = 0;
  found_sym = false;
  order_tracker = λ id. none;
}

load-IsTracking_example :
    let e' = run source_sizes tick throughput_config (load 70).stream.buf engine in
    IsTracking source_sizes tick (Throughput.narrow tick) e'.book e'.order_tracker
load-IsTracking_example = load-IsTracking tick blank 70 engine refl (omega arith)

demos-IsSound_example :
    IsSound source_sizes tick
      (Runs.narrow tick)
      (execute source_sizes tick (rounds latency_round 40) (new_book source_sizes blank))
    × IsSound source_sizes tick
        (Runs.narrow tick)
        (execute source_sizes tick (rounds tracer_round 40) (new_book source_sizes blank))
demos-IsSound_example = demos-IsSound tick blank 40 (omega arith)

correctness_stream-messages :
    correctness_stream
    ≡ write_all
        (stock_directory 1 0 aapl
          ∷ add_order 1 100_000_000 1001 b'B' 500 aapl 1_505_000
          ∷ add_order 1 200_000_000 1002 b'S' 300 aapl 1_510_000
          ∷ add_order 1 300_000_000 1003 b'B' 200 aapl 1_504_000
          ∷ order_executed 1 400_000_000 1002 100 9001
          ∷ order_cancel 1 500_000_000 1003 100
          ∷ order_delete 1 600_000_000 1001
          ∷ order_replace 1 700_000_000 1002 2001 150 1_512_000
          ∷ [])
        new_stream
unfolding correctness_stream
correctness_stream-messages = refl
