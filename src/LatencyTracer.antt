-- ===== src/LatencyTracer.antt =====
-- include/latency_tracer.h, with `ENABLE_TRACING`: the samples of each stage. `CAPACITY` is a parameter
-- of the model. What is formatted is a row; nanoseconds, which are floating-point numbers, are a
-- parameter, as are `std::sort` and the index that a percentile is read at.
pub mod Samples
pub mod Report
use lock_free_limit_order_bo.Prelude.{
  ℕ, zero, suc, ◌+◌, ◌-◌, Option, none, some, Bool, List, [], ◌∷◌, ◌++◌, map, ltb, ◌==◌,
  if◌then◌else◌, update, get_elem?,
}
use lock_free_limit_order_bo.Prelude.Words.{sub64}

pub data Stage : Type 0 where
  pool_acquire map_insert cross_check match_execute level_insert cancel_lookup modify_in_place :
      Stage

-- `static_cast<uint8_t>(s)`, and `Stage::COUNT`.
abbrev pub index : Stage → ℕ
index pool_acquire = 0
index map_insert = 1
index cross_check = 2
index match_execute = 3
index level_insert = 4
index cancel_lookup = 5
index modify_in_place = 6

abbrev pub stage_count : ℕ
stage_count = 7

abbrev pub source_capacity : ℕ
source_capacity = 2_000_000

pub record StageBuf : Type 0 where
  pub ticks : ℕ → ℕ
  pub n : ℕ

pub record LatencyTracer : Type 0 where
  pub bufs : ℕ → StageBuf

abbrev pub new_tracer : LatencyTracer
new_tracer = record { bufs = λ i. record { ticks = λ j. 0; n = 0 } }

unfoldable pub reset : LatencyTracer → LatencyTracer
reset t = record { bufs = λ i. record (t.bufs i) { n = 0 } }

-- The first samples of a buffer's array, oldest first.
abbrev pub first : ℕ → (ℕ → ℕ) → List ℕ
first zero ticks = []
first (suc n) ticks = first n ticks ++ ticks n ∷ []

abbrev pub samples : StageBuf → List ℕ
samples b = first b.n b.ticks

module _ (capacity : ℕ) where
  unfoldable pub record_ticks : ℕ → StageBuf → StageBuf
  record_ticks t b =
      if ltb b.n capacity then record { ticks = update b.ticks b.n t; n = b.n + 1 } else b

  unfoldable pub record_stage : Stage → ℕ → LatencyTracer → LatencyTracer
  unfolding record_ticks
  record_stage s t tr = record {
    bufs = update tr.bufs (index s) (record_ticks t (tr.bufs (index s)));
  }

  -- A `StageTimer` that is made at one reading of the clock and destroyed at another.
  unfoldable pub timed : Stage → ℕ → ℕ → LatencyTracer → LatencyTracer
  timed s start now tr = record_stage s (sub64 now start) tr

-- `for (i = 0; i < Stage::COUNT; ++i)`, from the number of stages left.
abbrev pub each_stage {ℓ} : {A : Type ℓ} → (ℕ → List A) → ℕ → ℕ → List A
each_stage f zero i = []
each_stage f (suc left) i = f i ++ each_stage f left (i + 1)

module _ {A : Type 0} (ticks_to_ns : ℕ → A) where
  -- The lines of the file behind the header, each a stage and a time; none if it cannot be opened.
  unfoldable pub dump_csv : Bool → LatencyTracer → Option (List (ℕ × A))
  dump_csv opened tr =
      if opened
      then some
          (each_stage (λ i. map (λ t. (i, ticks_to_ns t)) (samples (tr.bufs i))) stage_count 0)
      else none

  -- The four percentiles of a stage with samples, from the sorted samples; none is a read outside them.
  abbrev pub Row : Type 0
  Row = ℕ × ℕ × List (Option A)

  module _ (sort : List ℕ → List ℕ) (rank : ℕ → ℕ → ℕ) where
    abbrev pub percentile : List ℕ → ℕ → ℕ → Option A
    percentile sorted n which = elim (get_elem? sorted (rank which (n - 1))) [
      | none ↦ none
      | some t ↦ some (ticks_to_ns t)
    ]

    unfoldable pub print_stage : ℕ → StageBuf → List Row
    print_stage i b =
        let sorted = sort (samples b) in
        if b.n == 0 then [] else (i, b.n, map (percentile sorted b.n) (0 ∷ 1 ∷ 2 ∷ 3 ∷ [])) ∷ []

    unfoldable pub print : LatencyTracer → List Row
    unfolding print_stage
    print tr = each_stage (λ i. print_stage i (tr.bufs i)) stage_count 0
