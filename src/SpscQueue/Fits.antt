-- ===== src/SpscQueue/Fits.antt =====
-- What holds of the ring and the two threads at once, and what the copies and stores keep of it.
use lock_free_limit_order_bo.Prelude.{
  ℕ, suc, ◌^◌, ◌≤◌, ◌<◌, ◌≡◌, ◌≢◌, refl, ap, ◌∙◌, sym, arith, List, [], ◌∷◌, ◌++◌, length, update,
  length-append, update_self, update_ne, subst, fun_ext,
}
use mathlib.Core.List.{append_assoc}
use lock_free_limit_order_bo.Prelude.Mask.{pow_pos}
use lock_free_limit_order_bo.SpscQueue.{SpscQueue, advance}
use lock_free_limit_order_bo.SpscQueue.Ring.{steps-zero, steps-injective, window-update}
use lock_free_limit_order_bo.SpscQueue.Refine.{Holds, meets_lem, pushed-Holds, popped-Holds, oldest}
use lock_free_limit_order_bo.SpscQueue.Threads.{Producer, Consumer, System}

module _ {A : Type 0} (k : ℕ) where
  -- What the producer knows at each place, of a ring that holds `xs`.
  abbrev pub ProducerFits : SpscQueue A → List A → Producer A → Type 0
  ProducerFits q xs Producer.outside = Unit {0}
  ProducerFits q xs (Producer.loaded_head item h) = h ≡ q.head
  ProducerFits q xs (Producer.not_full item h) = (h ≡ q.head) × (suc (length xs) < 2 ^ k)
  ProducerFits q xs (Producer.copied_in item h) =
      (h ≡ q.head) × (suc (length xs) < 2 ^ k) × (q.buffer h ≡ item)

  abbrev pub ConsumerFits : SpscQueue A → List A → Consumer A → Type 0
  ConsumerFits q xs Consumer.outside = Unit {0}
  ConsumerFits q xs (Consumer.loaded_tail t) = t ≡ q.tail
  ConsumerFits q xs (Consumer.not_empty t) = (t ≡ q.tail) × (0 < length xs)
  ConsumerFits q xs (Consumer.copied_out item t) =
      (t ≡ q.tail) × (0 < length xs) × (q.buffer t ≡ item)

  -- The ring holds the items `xs`, which are those pushed and not yet popped.
  pub record Fits (s : System A) (xs : List A) : Type 0 where
    pub ring : Holds k s.ring xs
    pub history : s.pushed ≡ s.popped ++ xs
    pub producer : ProducerFits s.ring xs s.producer
    pub consumer : ConsumerFits s.ring xs s.consumer

module _ {A : Type 0} (k : ℕ) (narrow : k ≤ 64) {q : SpscQueue A} where
  -- The producer's copy goes to a slot outside the items.
  Holds-copy :
      (item : A) {xs : List A}
      → Holds k q xs
      → Holds k (record q { buffer = update q.buffer q.head item }) xs
  Holds-copy item {xs} h = record {
    tail_in = h.tail_in;
    room = h.room;
    head_at = h.head_at;
    items =
        window-update k narrow q.buffer q.head item q.tail (length xs) h.tail_in (λ m lt e. absurd (
          omega (
            arith,
            steps-injective k narrow q.tail m (length xs) h.tail_in (omega (arith, h.room)) h.room
                (e ∙ h.head_at),
          )))
        ∙ h.items;
  }

  -- The store of `head_` publishes the item that was copied.
  Holds-store :
      (item : A) {xs : List A}
      → Holds k q xs
      → suc (length xs) < 2 ^ k
      → q.buffer q.head ≡ item
      → Holds k (record q { head = advance k q.head }) (xs ++ item ∷ [])
  Holds-store item {xs} h fits e =
      subst
        (λ f.
          Holds k (record { head = advance k q.head; tail = q.tail; buffer = f }) (xs ++ item ∷ []))
        (fun_ext λ i. ground (arith, e, ap q.buffer {x = q.head} {y = i}))
        (pushed-Holds k narrow item h fits)

  pub head-ne-tail : {xs : List A} → Holds k q xs → 0 < length xs → q.tail ≢ q.head
  head-ne-tail {xs} h some_item e = absurd (
      omega (
        arith,
        steps-injective k narrow q.tail 0 (length xs) h.tail_in (pow_pos k) h.room
            (steps-zero k q.tail h.tail_in ∙ e ∙ h.head_at),
      ))

  pub some_item_of_ne : {xs : List A} → Holds k q xs → q.tail ≢ q.head → 0 < length xs
  some_item_of_ne {xs = []} h ne = absurd (ne (sym (steps-zero k q.tail h.tail_in) ∙ sym h.head_at))
  some_item_of_ne {xs = x ∷ xs} h ne = omega arith

  pub room_of_ne :
      {xs : List A} → Holds k q xs → advance k q.head ≢ q.tail → suc (length xs) < 2 ^ k
  room_of_ne h ne = ground (arith, h.room, meets_lem k narrow h)

module _ {A : Type 0} (k : ℕ) (narrow : k ≤ 64) {q : SpscQueue A} where
  -- The other thread's step leaves what a thread knows.
  pub consumer-copy :
      (item : A) {xs : List A} (c : Consumer A)
      → Holds k q xs
      → ConsumerFits k q xs c
      → ConsumerFits k (record q { buffer = update q.buffer q.head item }) xs c
  consumer-copy item Consumer.outside h f = tt
  consumer-copy item (Consumer.loaded_tail t) h f = f
  consumer-copy item (Consumer.not_empty t) h f = f
  consumer-copy item (Consumer.copied_out got t) h f = (
    f.0,
    f.1,
    update_ne q.buffer q.head item t (λ e. head-ne-tail k narrow h f.1 (sym f.0 ∙ sym e)) ∙ f.2,
  )

module _ {A : Type 0} (k : ℕ) where
  pub consumer-store :
      (q : SpscQueue A) (item : A) (head : ℕ) (xs : List A) (c : Consumer A)
      → ConsumerFits k q xs c
      → ConsumerFits k (record q { head = head }) (xs ++ item ∷ []) c
  consumer-store q item head xs Consumer.outside f = tt
  consumer-store q item head xs (Consumer.loaded_tail t) f = f
  consumer-store q item head xs (Consumer.not_empty t) f =
      (f.0, omega (arith, length-append xs (item ∷ [])))
  consumer-store q item head xs (Consumer.copied_out got t) f =
      (f.0, omega (arith, length-append xs (item ∷ [])), f.2)

  pub producer-store :
      (q : SpscQueue A) (tail : ℕ) (x : A) (xs : List A) (p : Producer A)
      → ProducerFits k q (x ∷ xs) p
      → ProducerFits k (record q { tail = tail }) xs p
  producer-store q tail x xs Producer.outside f = tt
  producer-store q tail x xs (Producer.loaded_head item h) f = f
  producer-store q tail x xs (Producer.not_full item h) f = (f.0, omega arith)
  producer-store q tail x xs (Producer.copied_in item h) f = (f.0, omega arith, f.2)

module _ {A : Type 0} (k : ℕ) (narrow : k ≤ 64) where
  pub copied :
      {s : System A} {xs : List A} (item : A)
      → Fits k s xs
      → suc (length xs) < 2 ^ k
      → Fits k
          (record s {
            ring = record s.ring { buffer = update s.ring.buffer s.ring.head item };
            producer = Producer.copied_in item s.ring.head;
          })
          xs
  copied {s} item f fits = record {
    ring = Holds-copy k narrow item f.ring;
    history = f.history;
    producer = (refl, fits, update_self s.ring.buffer s.ring.head item);
    consumer = consumer-copy k narrow item s.consumer f.ring f.consumer;
  }

  pub stored :
      {s : System A} {xs : List A} (item : A)
      → Fits k s xs
      → suc (length xs) < 2 ^ k
      → s.ring.buffer s.ring.head ≡ item
      → Fits k
          (record s {
            ring = record s.ring { head = advance k s.ring.head };
            producer = Producer.outside;
            pushed = s.pushed ++ item ∷ [];
          })
          (xs ++ item ∷ [])
  stored {s} {xs} item f fits e = record {
    ring = Holds-store k narrow item f.ring fits e;
    history = ap (λ l. l ++ item ∷ []) f.history ∙ append_assoc s.popped xs (item ∷ []);
    producer = tt;
    consumer = consumer-store k s.ring item (advance k s.ring.head) xs s.consumer f.consumer;
  }

  pub taken :
      {s : System A} (xs : List A) {item : A}
      → Fits k s xs
      → 0 < length xs
      → s.ring.buffer s.ring.tail ≡ item
      → (ys : List A) × Fits k
          (record s {
            ring = record s.ring { tail = advance k s.ring.tail };
            consumer = Consumer.outside;
            popped = s.popped ++ item ∷ [];
          })
          ys
  taken [] f some_item e = absurd (omega arith)
  taken {s} (x ∷ xs) {item} f some_item e = (
    xs,
    record {
      ring = popped-Holds k narrow f.ring;
      history =
          f.history
          ∙ ap (λ y. s.popped ++ y ∷ xs) (sym (oldest k narrow f.ring) ∙ e)
          ∙ sym (append_assoc s.popped (item ∷ []) xs);
      producer = producer-store k s.ring (advance k s.ring.tail) x xs s.producer f.producer;
      consumer = tt;
    },
  )
