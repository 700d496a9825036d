-- ===== src/Tests/Tracking.antt =====
-- An engine that follows a session of its symbol.
use lock_free_limit_order_bo.Prelude.{
  ℕ, ◌-◌, List, [], ◌∷◌, ◌++◌, length, get_or, refl, arith, none, some, false,
}
use lock_free_limit_order_bo.MmapReader.{Answers, MmapReader}
use lock_free_limit_order_bo.Itch.RoundTrip.{
  Message, stock_directory, add_order, order_executed, order_cancel, order_delete, order_replace,
}
use lock_free_limit_order_bo.Itch.Stream.{stream, AllFit}
use lock_free_limit_order_bo.OrderBook.State.{new_book}
use lock_free_limit_order_bo.StatsCounter.{zeros}
use lock_free_limit_order_bo.Replay.{ReplayConfig, ReplayEngine, run}
use lock_free_limit_order_bo.Replay.Sound.{AllGoodRefs, run-IsTracking}
use lock_free_limit_order_bo.Replay.Tracking.{IsTracking}
use lock_free_limit_order_bo.Tests.Levels.{cells as blank}
use lock_free_limit_order_bo.Tests.Book.{small, tick}
use lock_free_limit_order_bo.Tests.Whole.{small_narrow}
use lock_free_limit_order_bo.Tests.Wire.{cut_rest, cut_rest-Cut}

abbrev config : ReplayConfig
config = record { symbol = b'X' ∷ b'Y' ∷ []; tick_divisor = 100; max_messages = 0 }

-- A new engine.
abbrev engine : ReplayEngine
engine = record {
  book = new_book small blank;
  stats = zeros;
  locate = 0;
  found_sym = false;
  order_tracker = λ id. none;
}

-- An ask of 300 shares at 5, of which a bid takes 200, an execution of the ask, a cancellation of
-- part of a second ask, which is then replaced, and a deletion.
abbrev session : List Message
session =
    stock_directory 7 1 (b'X' ∷ b'Y' ∷ [])
    ∷ add_order 7 2 1 b'S' 300 (b'X' ∷ b'Y' ∷ []) 500
    ∷ add_order 7 3 2 b'B' 200 (b'X' ∷ b'Y' ∷ []) 600
    ∷ order_executed 7 4 1 50 1
    ∷ add_order 7 5 3 b'S' 400 (b'X' ∷ b'Y' ∷ []) 700
    ∷ order_cancel 7 6 3 100
    ∷ order_replace 7 7 3 4 250 800
    ∷ order_delete 7 8 1
    ∷ []

session-AllFit : AllFit session
session-AllFit = omega arith

session-AllGoodRefs : AllGoodRefs small tick config small_narrow session
session-AllGoodRefs = omega arith

run-IsTracking_example :
    let e' = run small tick config (stream session ++ cut_rest) engine in
    IsTracking small tick small_narrow e'.book e'.order_tracker
run-IsTracking_example =
    run-IsTracking small tick config small_narrow 5 blank session cut_rest engine refl (omega arith)
      (omega arith) refl session-AllFit session-AllGoodRefs (refl, (refl, (refl, (refl, tt))))
      cut_rest-Cut (omega arith)

-- The session as a file, mapped at 8192.
abbrev file : List ℕ
file = stream session ++ cut_rest

abbrev memory : ℕ → ℕ
memory address = get_or file (address - 8_192) 0

abbrev answers : Answers
answers = record { open_file = some 3; st_size = some (length file); mmap = some 8_192 }

abbrev reader : MmapReader
reader = record { address = some 8_192; size = length file; fd = some 3 }
