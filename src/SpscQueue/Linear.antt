-- ===== src/SpscQueue/Linear.antt =====
-- The items that pass through the ring, and the slots that are touched, in every interleaving of the
-- two threads.
use lock_free_limit_order_bo.Prelude.{
  ℕ, ◌^◌, ◌≤◌, ◌<◌, ◌≡◌, ◌≢◌, refl, ap, ◌∙◌, sym, List, [], ◌∷◌, ◌++◌, length, update, subst,
}
use lock_free_limit_order_bo.Prelude.Mask.{pow_pos}
use lock_free_limit_order_bo.SpscQueue.{advance}
use lock_free_limit_order_bo.SpscQueue.Ring.{steps-zero}
use lock_free_limit_order_bo.SpscQueue.Refine.{Holds}
use lock_free_limit_order_bo.SpscQueue.Threads.{
  Producer, Consumer, System, Step, Reach, here, next, push_begin, push_full, push_test, push_copy,
  push_store, pop_begin, pop_empty, pop_test, pop_copy, pop_store,
}
use lock_free_limit_order_bo.SpscQueue.Fits.{
  ProducerFits, ConsumerFits, Fits, head-ne-tail, some_item_of_ne, room_of_ne, copied, stored,
  taken,
}

module _ {A : Type 0} (k : ℕ) (narrow : k ≤ 64) where
  -- Each clause says what the ring holds after the step.
  Step-Fits :
      {s u : System A} {xs : List A} → Step k s u → Fits k s xs → (ys : List A) × Fits k u ys
  Step-Fits {xs} (push_begin s item e) f =
      (xs, record { ring = f.ring; history = f.history; producer = refl; consumer = f.consumer })
  Step-Fits {xs} (push_full s item h e full) f =
      (xs, record { ring = f.ring; history = f.history; producer = tt; consumer = f.consumer })
  Step-Fits {xs} (push_test s item h e ne) f =
      let at : h ≡ s.ring.head = subst (ProducerFits k s.ring xs) e f.producer in
      (
        xs,
        record {
          ring = f.ring;
          history = f.history;
          producer = (at, room_of_ne k narrow f.ring λ p. ne (ap (advance k) at ∙ p));
          consumer = f.consumer;
        },
      )
  Step-Fits {xs} (push_copy s item h e) f =
      let (at, fits) = subst (ProducerFits k s.ring xs) e f.producer in
      (
        xs,
        subst
            (λ i.
              Fits k
                (record s {
                  ring = record s.ring { buffer = update s.ring.buffer i item };
                  producer = Producer.copied_in item i;
                })
                xs)
            (sym at) (copied k narrow item f fits),
      )
  Step-Fits {xs} (push_store s item h e) f =
      let (at, fits, copy) = subst (ProducerFits k s.ring xs) e f.producer in
      (
        xs ++ item ∷ [],
        subst
            (λ i.
              Fits k
                (record s {
                  ring = record s.ring { head = advance k i };
                  producer = Producer.outside;
                  pushed = s.pushed ++ item ∷ [];
                })
                (xs ++ item ∷ []))
            (sym at) (stored k narrow item f fits (ap s.ring.buffer (sym at) ∙ copy)),
      )
  Step-Fits {xs} (pop_begin s e) f =
      (xs, record { ring = f.ring; history = f.history; producer = f.producer; consumer = refl })
  Step-Fits {xs} (pop_empty s t e none_left) f =
      (xs, record { ring = f.ring; history = f.history; producer = f.producer; consumer = tt })
  Step-Fits {xs} (pop_test s t e ne) f =
      let at : t ≡ s.ring.tail = subst (ConsumerFits k s.ring xs) e f.consumer in
      (
        xs,
        record {
          ring = f.ring;
          history = f.history;
          producer = f.producer;
          consumer = (at, some_item_of_ne k narrow f.ring λ p. ne (at ∙ p));
        },
      )
  Step-Fits {xs} (pop_copy s t e) f =
      let (at, some_item) = subst (ConsumerFits k s.ring xs) e f.consumer in
      (
        xs,
        record {
          ring = f.ring;
          history = f.history;
          producer = f.producer;
          consumer = (at, some_item, refl);
        },
      )
  Step-Fits {xs} (pop_store s item t e) f =
      let (at, some_item, copy) = subst (ConsumerFits k s.ring xs) e f.consumer in
      subst
        (λ i.
          (ys : List A) × Fits k
            (record s {
              ring = record s.ring { tail = advance k i };
              consumer = Consumer.outside;
              popped = s.popped ++ item ∷ [];
            })
            ys)
        (sym at) (taken k narrow xs f some_item (ap s.ring.buffer (sym at) ∙ copy))

  Reach-Fits :
      {s u : System A} {xs : List A} → Fits k s xs → Reach k s u → (ys : List A) × Fits k u ys
  Reach-Fits {xs} f here = (xs, f)
  Reach-Fits f (next r st) = let (ys, g) = Reach-Fits f r in Step-Fits st g

  -- A fresh queue, with neither thread in a call.
  abbrev pub fresh : (ℕ → A) → System A
  fresh b = record {
    ring = record { head = 0; tail = 0; buffer = b };
    producer = Producer.outside;
    consumer = Consumer.outside;
    pushed = [];
    popped = [];
  }

  fresh-Fits : (b : ℕ → A) → Fits k (fresh b) []
  fresh-Fits b = record {
    ring = record {
      tail_in = pow_pos k;
      room = pow_pos k;
      head_at = sym (steps-zero k 0 (pow_pos k));
      items = refl;
    };
    history = refl;
    producer = tt;
    consumer = tt;
  }

  -- From a fresh queue of 2 ^ k slots (k ≤ 64), in every interleaving of the steps of one producer
  -- and one consumer, the items that `pop` has returned, followed by those in the ring, are the
  -- items that `push` has accepted, in that order; the ring holds fewer than 2 ^ k.
  pub popped-prefix :
      (b : ℕ → A) {u : System A}
      → Reach k (fresh b) u
      → (xs : List A) × Holds k u.ring xs × (u.pushed ≡ u.popped ++ xs) × (length xs < 2 ^ k)
  popped-prefix b r =
      let (xs, f) = Reach-Fits (fresh-Fits b) r in (xs, f.ring, f.history, f.ring.room)

  -- From a fresh queue of 2 ^ k slots (k ≤ 64), in every interleaving, when the producer is about
  -- to copy an item in while the consumer is about to copy one out, they do so at different slots.
  pub apart :
      (b : ℕ → A) {u : System A} {item : A} {head tail : ℕ}
      → Reach k (fresh b) u
      → u.producer ≡ Producer.not_full item head
      → u.consumer ≡ Consumer.not_empty tail
      → head ≢ tail
  apart b {u} r e g same =
      let (xs, f) = Reach-Fits (fresh-Fits b) r in
      let (at, fits) = subst (ProducerFits k u.ring xs) e f.producer in
      let (at', some_item) = subst (ConsumerFits k u.ring xs) g f.consumer in
      head-ne-tail k narrow f.ring some_item (sym at' ∙ sym same ∙ at)
