-- ===== src/Tests/Session.antt =====
-- The engine on single messages and on a session of another symbol.
use lock_free_limit_order_bo.Prelude.{
  ◌/◌, ◌<◌, ◌≤◌, ◌≡◌, ◌≢◌, refl, none, some, true, [], ◌∷◌, ◌++◌, arith, if◌then◌else◌, ◌==◌,
}
use lock_free_limit_order_bo.Order.{OrderId, sell}
use lock_free_limit_order_bo.Itch.Stream.{stream}
use lock_free_limit_order_bo.Itch.Messages.{OrderExecutedMsg, OrderCancelMsg}
use lock_free_limit_order_bo.StatsCounter.{zeros}
use lock_free_limit_order_bo.Replay.{
  ReplayConfig, ReplayEngine, OrderState, run, to_tick, on_order_executed,
}
use lock_free_limit_order_bo.Replay.Foreign.{Untouched, Unlisted, run-Unlisted}
use lock_free_limit_order_bo.Replay.Tick.{to_tick-lt}
use lock_free_limit_order_bo.Replay.Tracked.{on_order_executed-less}
use lock_free_limit_order_bo.Tests.Book.{small, tick, stale_book}
use lock_free_limit_order_bo.Tests.Wire.{session, cut_rest, session-AllFit, cut_rest-Cut}

abbrev config : ReplayConfig
config = record { symbol = b'X' ∷ b'Y' ∷ []; tick_divisor = 100; max_messages = 0 }

-- The ask of order 2, for 400 shares at price 7, is tracked.
abbrev engine : ReplayEngine
engine = record {
  book = stale_book;
  stats = zeros;
  locate = 7;
  found_sym = true;
  order_tracker =
      λ id. if id == 2 then some (record { price = 7; remaining = 400; side = sell }) else none;
}

abbrev ask : OrderState
ask = record { price = 7; remaining = 400; side = sell }

abbrev execution : OrderExecutedMsg
execution = record {
  stock_locate = 7;
  timestamp_ns = 5;
  order_ref = 2;
  executed_shares = 150;
  match_number = 1;
}

abbrev cancellation : OrderCancelMsg
cancellation = record { stock_locate = 7; timestamp_ns = 5; order_ref = 2; cancelled_shares = 400 }

on_order_executed-less_example :
    let e' = on_order_executed small tick config execution engine in
    (e'.order_tracker 2 ≡ some (record { price = 7; remaining = 250; side = sell }))
    × ((id : OrderId) → 2 ≢ id → e'.order_tracker id ≡ engine.order_tracker id)
on_order_executed-less_example =
    on_order_executed-less small tick config engine execution ask refl refl

to_tick-lt_example :
    (to_tick small tick config 560 < 10)
    × (to_tick small tick config 560 ≤ to_tick small tick config 7_000)
    × (560 / 100 < 10 → to_tick small tick config 560 ≡ 560 / 100)
to_tick-lt_example =
    to_tick-lt small tick config 560 7_000 (omega arith) (omega arith) (omega arith)

session-Unlisted : Unlisted (b'X' ∷ b'Y' ∷ []) session
session-Unlisted = (refl, tt)

run-Unlisted_example :
    Untouched small tick config engine (run small tick config (stream session ++ cut_rest) engine)
run-Unlisted_example =
    run-Unlisted small tick config session cut_rest engine session-AllFit cut_rest-Cut (omega arith)
      session-Unlisted
