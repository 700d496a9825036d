-- ===== src/LatencyTracer/Report.antt =====
-- What is reported of the samples.
use lock_free_limit_order_bo.Prelude.{
  ℕ, zero, suc, ◌-◌, ◌≤◌, ◌<◌, ◌≡◌, ◌≢◌, refl, arith, some, List, [], ◌∷◌, length, get_elem?,
}
use lock_free_limit_order_bo.LatencyTracer.{StageBuf, samples, percentile}
use lock_free_limit_order_bo.LatencyTracer.Samples.{length-first}

get_elem?-some : (xs : List ℕ) (i : ℕ) → i < length xs → (x : ℕ) × (get_elem? xs i ≡ some x)
get_elem?-some [] i h = absurd (omega arith)
get_elem?-some (x ∷ xs) zero h = (x, refl)
get_elem?-some (x ∷ xs) (suc i) h = get_elem?-some xs i (omega arith)

module _ {A : Type 0} (ticks_to_ns : ℕ → A) where
  -- If sorting keeps the number of samples and the index of a percentile is none above the last, then
  -- a percentile of a stage with samples is read inside them.
  percentile-some :
      (sort : List ℕ → List ℕ) (rank : ℕ → ℕ → ℕ) (b : StageBuf) (which : ℕ)
      → ((xs : List ℕ) → length (sort xs) ≡ length xs)
      → ((w m : ℕ) → rank w m ≤ m)
      → b.n ≢ 0
      → (a : A) × (percentile ticks_to_ns sort rank (sort (samples b)) b.n which ≡ some a)
  percentile-some sort rank b which same low ne =
      let (t, e) =
        get_elem?-some (sort (samples b)) (rank which (b.n - 1))
          (omega (arith, same (samples b), length-first b.n b.ticks, low which (b.n - 1))) in
      (ticks_to_ns t, rw (e, percentile) refl)
