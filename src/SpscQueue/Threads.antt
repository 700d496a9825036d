-- ===== src/SpscQueue/Threads.antt =====
-- The producer and the consumer as two threads whose loads, copies and stores interleave in any
-- order. The acquire and release orders of the source are taken as sequential consistency.
use lock_free_limit_order_bo.Prelude.{ℕ, ◌≡◌, ◌≢◌, List, [], ◌∷◌, ◌++◌, update}
use lock_free_limit_order_bo.SpscQueue.{SpscQueue, advance}

module _ (A : Type 0) where
  -- Where the producer is inside `push`: it has loaded `head_`, has seen that the ring is not full,
  -- or has copied the item. `push` that sees a full ring returns at once.
  pub data Producer : Type 0 where
    outside : Producer
    loaded_head : A → ℕ → Producer
    not_full : A → ℕ → Producer
    copied_in : A → ℕ → Producer

  -- Where the consumer is inside `pop`: it has loaded `tail_`, has seen that the ring is not empty,
  -- or has copied the item out.
  pub data Consumer : Type 0 where
    outside : Consumer
    loaded_tail : ℕ → Consumer
    not_empty : ℕ → Consumer
    copied_out : A → ℕ → Consumer

  -- The shared ring, the two threads, and the items that `push` has accepted and `pop` has returned
  -- so far, oldest first.
  pub record System : Type 0 where
    pub ring : SpscQueue A
    pub producer : Producer
    pub consumer : Consumer
    pub pushed : List A
    pub popped : List A

module _ {A : Type 0} (k : ℕ) where
  -- One step of one thread: a load with the test that follows it, a copy, or a store.
  pub data Step : System A → System A → Type 0 where
    push_begin :
        (s : System A) (item : A)
        → s.producer ≡ outside
        → Step s (record s { producer = loaded_head item s.ring.head })
    push_full :
        (s : System A) (item : A) (head : ℕ)
        → s.producer ≡ loaded_head item head
        → advance k head ≡ s.ring.tail
        → Step s (record s { producer = outside })
    push_test :
        (s : System A) (item : A) (head : ℕ)
        → s.producer ≡ loaded_head item head
        → advance k head ≢ s.ring.tail
        → Step s (record s { producer = not_full item head })
    push_copy :
        (s : System A) (item : A) (head : ℕ)
        → s.producer ≡ not_full item head
        → Step s (record s {
          ring = record s.ring { buffer = update s.ring.buffer head item };
          producer = copied_in item head;
        })
    push_store :
        (s : System A) (item : A) (head : ℕ)
        → s.producer ≡ copied_in item head
        → Step s (record s {
          ring = record s.ring { head = advance k head };
          producer = outside;
          pushed = s.pushed ++ item ∷ [];
        })
    pop_begin :
        (s : System A)
        → s.consumer ≡ outside
        → Step s (record s { consumer = loaded_tail s.ring.tail })
    pop_empty :
        (s : System A) (tail : ℕ)
        → s.consumer ≡ loaded_tail tail
        → tail ≡ s.ring.head
        → Step s (record s { consumer = outside })
    pop_test :
        (s : System A) (tail : ℕ)
        → s.consumer ≡ loaded_tail tail
        → tail ≢ s.ring.head
        → Step s (record s { consumer = not_empty tail })
    pop_copy :
        (s : System A) (tail : ℕ)
        → s.consumer ≡ not_empty tail
        → Step s (record s { consumer = copied_out (s.ring.buffer tail) tail })
    pop_store :
        (s : System A) (item : A) (tail : ℕ)
        → s.consumer ≡ copied_out item tail
        → Step s (record s {
          ring = record s.ring { tail = advance k tail };
          consumer = outside;
          popped = s.popped ++ item ∷ [];
        })

  pub data Reach (s : System A) : System A → Type 0 where
    here : Reach s s
    next : {t u : System A} → Reach s t → Step t u → Reach s u
