-- ===== src/LatencyTracer/Samples.antt =====
-- The samples that a tracer keeps.
use lock_free_limit_order_bo.Prelude.{
  ℕ, zero, suc, ◌+◌, ◌≤◌, ◌<◌, ◌≡◌, ◌==◌, refl, ap, sym, ◌∙◌, arith, List, [], ◌∷◌, ◌++◌, length,
  length-append, length-take, take, min, ltb→lt, if◌then◌else◌, ltb, update, Bool-cases, inl, inr,
  ==_iff,
}
use lock_free_limit_order_bo.LatencyTracer.{
  Stage, StageBuf, LatencyTracer, index, reset, first, samples, record_ticks, record_stage,
}

-- A call of the tracer.
pub data Call : Type 0 where
  records : Stage → ℕ → Call
  resets : Call

-- The ticks recorded at a stage's index since the last reset, behind those of before.
abbrev pub recorded : ℕ → List Call → List ℕ → List ℕ
recorded i [] ts = ts
recorded i (records s t ∷ cs) ts = recorded i cs (if index s == i then (ts ++ t ∷ []) else ts)
recorded i (resets ∷ cs) ts = recorded i cs []

first-update : (n : ℕ) (f : ℕ → ℕ) (t m : ℕ) → n ≤ m → first n (update f m t) ≡ first n f
first-update zero f t m h = refl
first-update (suc n) f t m h =
    ap (λ l. l ++ update f m t n ∷ []) (first-update n f t m (omega arith))
    ∙ ap (λ x. first n f ++ x ∷ []) (ground arith)

pub take-all : (n : ℕ) (xs : List ℕ) → length xs ≤ n → take n xs ≡ xs
take-all zero [] h = refl
take-all zero (x ∷ xs) h = absurd (omega arith)
take-all (suc n) [] h = refl
take-all (suc n) (x ∷ xs) h = ap (λ l. x ∷ l) (take-all n xs (omega arith))

take-append : (n : ℕ) (xs ys : List ℕ) → n ≤ length xs → take n (xs ++ ys) ≡ take n xs
take-append zero xs ys h = refl
take-append (suc n) [] ys h = absurd (omega arith)
take-append (suc n) (x ∷ xs) ys h = ap (λ l. x ∷ l) (take-append n xs ys (omega arith))

pub length-first : (n : ℕ) (f : ℕ → ℕ) → length (first n f) ≡ n
length-first zero f = refl
length-first (suc n) f = omega (arith, length-append (first n f) (f n ∷ []), length-first n f)

module _ (capacity : ℕ) where
  abbrev pub call : Call → LatencyTracer → LatencyTracer
  call (records s t) v = record_stage capacity s t v
  call resets v = reset v

  abbrev pub run : List Call → LatencyTracer → LatencyTracer
  run [] v = v
  run (c ∷ cs) v = run cs (call c v)

  samples-record_ticks :
      (b : StageBuf) (t : ℕ) (ts : List ℕ)
      → samples b ≡ take capacity ts
      → samples (record_ticks capacity t b) ≡ take capacity (ts ++ t ∷ [])
  unfolding record_ticks
  samples-record_ticks b t ts e = elim (Bool-cases (ltb b.n capacity)) [
    | inl f ↦
        let room : length ts < capacity = omega (arith, kept, ltb→lt b.n capacity f) in
        rw f (
          ap (λ k. first k (update b.ticks b.n t)) {x = b.n + 1} {y = suc b.n} (omega arith)
          ∙ ap (λ l. l ++ update b.ticks b.n t b.n ∷ [])
              (first-update b.n b.ticks t b.n (omega arith)
                ∙ e
                ∙ take-all capacity ts (omega arith))
          ∙ ap (λ x. ts ++ x ∷ []) (ground arith)
          ∙ sym (take-all capacity (ts ++ t ∷ []) (omega (arith, length-append ts (t ∷ [])))))
    | inr f ↦ rw f (e ∙ sym (take-append capacity ts (t ∷ []) (ground (arith, kept, f))))
  ]
    where
      kept : b.n ≡ min capacity (length ts)
      kept = sym (length-first b.n b.ticks) ∙ ap length e ∙ length-take capacity ts

  pub samples-run :
      (i : ℕ) (cs : List Call) (v : LatencyTracer) (ts : List ℕ)
      → samples (v.bufs i) ≡ take capacity ts
      → samples ((run cs v).bufs i) ≡ take capacity (recorded i cs ts)
  unfolding record_stage reset
  samples-run i [] v ts e = e
  samples-run i (records s t ∷ cs) v ts e = elim (Bool-cases (index s == i)) [
    | inl f ↦ rw f (
        samples-run i cs (record_stage capacity s t v) (ts ++ t ∷ []) (
          ap samples {x = (record_stage capacity s t v).bufs i}
            {y = record_ticks capacity t (v.bufs i)}
            (ground
              (arith, f, ap (λ j. record_ticks capacity t (v.bufs j)) ((==_iff (index s) i).0 f)))
          ∙ samples-record_ticks (v.bufs i) t ts e))
    | inr f ↦ rw f (
        samples-run i cs (record_stage capacity s t v) ts
          (ap samples {x = (record_stage capacity s t v).bufs i} {y = v.bufs i} (rw f refl) ∙ e))
  ]
  samples-run i (resets ∷ cs) v ts e =
      samples-run i cs (reset v) [] (sym (take-all capacity [] (omega arith)))
