-- ===== src/Demo/Runs.antt =====
-- The books of the two loops of src/main.cpp.
use lock_free_limit_order_bo.Prelude.{
  ℕ, zero, suc, ◌-◌, ◌%◌, ◌^◌, ◌≤◌, ◌<◌, ◌≡◌, ◌≢◌, ◌==◌, ◌∙◌, false, some, refl, ap, sym, subst,
  arith, List, [], ◌∷◌, ◌++◌,
}
use lock_free_limit_order_bo.Prelude.Members.{has, ◌∈◌, Distinct, Distinct-append, has-append}
use lock_free_limit_order_bo.Order.{OrderId, Ref, Cells}
use lock_free_limit_order_bo.OrderMap.{find}
use lock_free_limit_order_bo.OrderBook.State.{source_sizes, new_book, Book, order_at}
use lock_free_limit_order_bo.OrderBook.Operations.{add_order, cancel_order, modify_order}
use lock_free_limit_order_bo.OrderBook.Sound.{IsSound}
use lock_free_limit_order_bo.OrderBook.Commands.{Command, add, cancel, modify, run}
use lock_free_limit_order_bo.OrderBook.Fresh.{new_ids, AllInWidth, fresh_run-IsSound}
use lock_free_limit_order_bo.Demo.{latency_round, tracer_round, rounds, round_price}

new_ids-append : (cs ds : List Command) → new_ids (cs ++ ds) ≡ new_ids cs ++ new_ids ds
new_ids-append [] ds = refl
new_ids-append (add id price qty side ∷ cs) ds = ap (λ l. id ∷ l) (new_ids-append cs ds)
new_ids-append (cancel id ∷ cs) ds = new_ids-append cs ds
new_ids-append (modify id price qty ∷ cs) ds = new_ids-append cs ds

-- Every round adds one order, under its number.
abbrev OneEach : (ℕ → List Command) → Type 0
OneEach f = (i : ℕ) → new_ids (f i) ≡ i ∷ []

latency-OneEach : OneEach latency_round
unfolding latency_round
latency-OneEach i = ground arith

tracer-OneEach : OneEach tracer_round
unfolding tracer_round
tracer-OneEach i = ground arith

module _ (f : ℕ → List Command) (one : OneEach f) where
  new_ids-rounds-le : (n : ℕ) (j : OrderId) → j ∈ new_ids (rounds f n) → j ≤ n
  new_ids-rounds-le zero j i = absurd (ground arith)
  new_ids-rounds-le (suc n) j i =
      let k =
        sym (
          ap (has j) (
            new_ids-append (rounds f n) (f (suc n))
            ∙ ap (λ l. new_ids (rounds f n) ++ l) (one (suc n)))
          ∙ has-append j (new_ids (rounds f n)) (suc n ∷ []))
        ∙ i in
      ground (arith, k, new_ids-rounds-le n j)

  Distinct-rounds : (n : ℕ) → Distinct (new_ids (rounds f n))
  Distinct-rounds zero = tt
  Distinct-rounds (suc n) =
      subst Distinct
        (sym (
          new_ids-append (rounds f n) (f (suc n))
          ∙ ap (λ l. new_ids (rounds f n) ++ l) (one (suc n))))
        (Distinct-append (new_ids (rounds f n)) (suc n ∷ []) (Distinct-rounds n) (refl, tt)
          λ a i. ground (arith, new_ids-rounds-le n a i))

module _ (read_cycles : ℕ → ℕ) where
  pub narrow : 20 ≤ 64
  narrow = omega arith

  abbrev Fit : List Command → Type 0
  Fit cs = AllInWidth source_sizes read_cycles narrow cs

  Fit-append : (cs ds : List Command) → Fit cs → Fit ds → Fit (cs ++ ds)
  Fit-append [] ds v w = w
  Fit-append (c ∷ cs) ds v w = (v.0, Fit-append cs ds v.1 w)

  latency-Fit : (i : ℕ) → 1 ≤ i → i < 2 ^ 20 → Fit (latency_round i)
  unfolding latency_round
  latency-Fit i pos small = ground arith

  tracer-Fit : (i : ℕ) → 1 ≤ i → i < 2 ^ 20 → Fit (tracer_round i)
  unfolding tracer_round
  tracer-Fit i pos small = ground arith

  Fit-rounds :
      (f : ℕ → List Command)
      → ((i : ℕ) → 1 ≤ i → i < 2 ^ 20 → Fit (f i))
      → (n : ℕ) → n < 2 ^ 20
      → Fit (rounds f n)
  Fit-rounds f ok zero small = tt
  Fit-rounds f ok (suc n) small =
      Fit-append (rounds f n) (f (suc n)) (Fit-rounds f ok n (omega arith))
        (ok (suc n) (omega arith) small)

  -- The commands of the first n rounds of `demo_latency`, and those of `demo_tracer`, for fewer
  -- than 2 ^ 20 of them (the source has 1,000,000 and 200,000), lead a new book with the sizes of
  -- the source to a sound book.
  pub demos-IsSound :
      (c : Cells) (n : ℕ)
      → n < 2 ^ 20
      → IsSound source_sizes read_cycles narrow
          (run source_sizes read_cycles (rounds latency_round n) (new_book source_sizes c))
        × IsSound source_sizes read_cycles narrow
            (run source_sizes read_cycles (rounds tracer_round n) (new_book source_sizes c))
  demos-IsSound c n small = (
    fresh_run-IsSound source_sizes read_cycles narrow 1_048_575 c (rounds latency_round n)
        (omega arith) (omega arith) (omega arith) (Fit-rounds latency_round latency-Fit n small)
        (Distinct-rounds latency_round latency-OneEach n),
    fresh_run-IsSound source_sizes read_cycles narrow 1_048_575 c (rounds tracer_round n)
        (omega arith) (omega arith) (omega arith) (Fit-rounds tracer_round tracer-Fit n small)
        (Distinct-rounds tracer_round tracer-OneEach n),
  )

  -- The price that `demo_latency` modifies an order to is not the order's.
  modified_price : (i : ℕ) → 4 < i → i % 8 ≡ 0 → round_price 1000 i ≢ round_price 1000 (i - 4)
  modified_price i later round same = ground arith

  pub demo_latency-modify :
      (i : ℕ) (o : Ref) (b : Book)
      → 4 < i
      → i % 8 ≡ 0
      → find 20 (i - 4) b.order_map ≡ some o
      → (order_at b o).price ≡ round_price 1000 (i - 4)
      → modify_order source_sizes read_cycles (i - 4) (round_price 1000 i) 50 b
        ≡ add_order source_sizes read_cycles
            (i - 4)
            (round_price 1000 i)
            50
            (order_at b o).side
            (cancel_order source_sizes (i - 4) b).1
  unfolding modify_order
  demo_latency-modify i o b later round found at_price =
      let other : (round_price 1000 i == (order_at b o).price) ≡ false =
        ground (arith, modified_price i later round) in
      rw (modify_order, found, other) refl
