-- ===== src/Tests/Queue.antt =====
-- A ring of four slots, at rest and between two threads.
use lock_free_limit_order_bo.Prelude.{
  ℕ, ◌^◌, ◌<◌, ◌≡◌, ◌≢◌, ◌⊎◌, refl, some, true, false, List, [], ◌∷◌, ◌++◌, arith, length, ◌==◌,
  if◌then◌else◌,
}
use lock_free_limit_order_bo.SpscQueue.{SpscQueue, push, pop, advance}
use lock_free_limit_order_bo.SpscQueue.Refine.{Holds, push-Holds, pop-Holds_cons}
use lock_free_limit_order_bo.SpscQueue.Threads.{
  Producer, Consumer, System, Reach, here, next, push_begin, push_test, push_copy, push_store,
  pop_begin, pop_test,
}
use lock_free_limit_order_bo.SpscQueue.Linear.{fresh, popped-prefix, apart}

-- Two items, round the end of the buffer.
abbrev wrapped : SpscQueue ℕ
wrapped = record { head = 1; tail = 3; buffer = λ i. if i == 3 then 70 else 80 }

wrapped-Holds : Holds 2 wrapped (70 ∷ 80 ∷ [])
unfolding advance
wrapped-Holds = record { tail_in = omega arith; room = omega arith; head_at = refl; items = refl }

push-Holds_example :
    ((◌≡◌ {A = ℕ} 3 4) × (push 2 90 wrapped ≡ (false, wrapped)))
    ⊎ ((3 < 2 ^ 2)
        × ((push 2 90 wrapped).0 ≡ true)
        × Holds 2 (push 2 90 wrapped).1 (70 ∷ 80 ∷ 90 ∷ []))
push-Holds_example = push-Holds 2 (omega arith) 90 wrapped-Holds

pop-Holds_cons_example : let (item, q) = pop 2 wrapped in (item ≡ some 70) × Holds 2 q (80 ∷ [])
pop-Holds_cons_example = pop-Holds_cons 2 (omega arith) wrapped-Holds

abbrev empty_ring : System ℕ
empty_ring = fresh {A = ℕ} 2 (omega arith) (λ i. 0)

-- The producer has pushed 5 and is about to copy 6 in, while the consumer is about to copy 5 out.
busy-Reach :
    (u : System ℕ) × Reach 2 empty_ring u
    × (u.producer ≡ Producer.not_full 6 1)
    × (u.consumer ≡ Consumer.not_empty 0)
unfolding advance
busy-Reach = (
  _,
  (next
      (next
        (next
          (next
            (next
              (next (next (next here (push_begin _ 5 refl)) (push_test _ 5 0 refl (omega arith)))
                (push_copy _ 5 0 refl))
              (push_store _ 5 0 refl))
            (push_begin _ 6 refl))
          (pop_begin _ refl))
        (push_test _ 6 1 refl (omega arith)))
      (pop_test _ 0 refl (omega arith))),
  refl,
  refl,
)

popped-prefix_example :
    let u = busy-Reach.0 in
    (xs : List ℕ) × Holds 2 u.ring xs × (u.pushed ≡ u.popped ++ xs) × (length xs < 2 ^ 2)
popped-prefix_example = popped-prefix 2 (omega arith) (λ i. 0) busy-Reach.1

apart_example : ◌≢◌ {A = ℕ} 1 0
apart_example = apart 2 (omega arith) (λ i. 0) busy-Reach.1 busy-Reach.2 busy-Reach.3
