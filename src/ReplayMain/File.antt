-- ===== src/ReplayMain/File.antt =====
-- `demo_replay_from_file`: a file that is mapped, replayed by a new engine, and unmapped. The bytes at
-- the addresses of the mapping are a parameter; what is printed is left out.
use lock_free_limit_order_bo.Prelude.{
  ℕ, zero, suc, ◌+◌, ◌≤◌, Option, none, some, List, [], ◌∷◌, ◌++◌,
}
use lock_free_limit_order_bo.MmapReader.{
  SysCall, Answers, MmapReader, Constructed, made, threw, construct, destroy,
}
use lock_free_limit_order_bo.MmapReader.Life
use lock_free_limit_order_bo.OrderBook.State.{Sizes}
use lock_free_limit_order_bo.Replay.{ReplayConfig, ReplayEngine, run}
use lock_free_limit_order_bo.Replay.Tracking.{IsTracking}

-- The bytes from an address on.
abbrev pub bytes_from : (ℕ → ℕ) → ℕ → ℕ → List ℕ
bytes_from memory p zero = []
bytes_from memory p (suc n) = memory p ∷ bytes_from memory (p + 1) n

-- What `f.data()` and `f.size()` name; a null pointer comes with the size 0.
abbrev pub contents : (ℕ → ℕ) → MmapReader → List ℕ
contents memory r = elim r.address [ none ↦ [] | some p ↦ bytes_from memory p r.size ]

abbrev pub file_config : List ℕ → ReplayConfig
file_config symbol = record { symbol = symbol; tick_divisor = 100; max_messages = 0 }

module _ (z : Sizes) (read_cycles : ℕ → ℕ) (memory : ℕ → ℕ) (symbol : List ℕ) where
  replay_mapped : Constructed → List SysCall → ReplayEngine → Option ReplayEngine × List SysCall
  replay_mapped (threw error) calls e = (none, calls)
  replay_mapped (made r) calls e =
      (some (run z read_cycles (file_config symbol) (contents memory r) e), calls ++ destroy r)

  -- The engine after the replay, if nothing was thrown, and the calls made. `engine` is the new one.
  unfoldable pub demo_replay_from_file : Answers → ReplayEngine → Option ReplayEngine × List SysCall
  unfolding replay_mapped
  demo_replay_from_file a e = let (built, calls) = construct a in replay_mapped built calls e

  module _ (narrow : z.order_map_bits ≤ 64) where
    -- What the engine is like after the replay; nothing, if a call failed.
    abbrev pub Replayed : Option ReplayEngine → Type 0
    Replayed none = Unit {0}
    Replayed (some e) = IsTracking z read_cycles narrow e.book e.order_tracker
