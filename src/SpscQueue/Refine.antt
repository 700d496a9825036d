-- ===== src/SpscQueue/Refine.antt =====
-- `push` and `pop` against a queue as a list of items.
use lock_free_limit_order_bo.Prelude.{
  ℕ, suc, ◌+◌, ◌^◌, ◌≤◌, ◌<◌, ◌≡◌, refl, ap, ap₂, ◌∙◌, sym, arith, true, false, none, some, List,
  [], ◌∷◌, ◌++◌, length, length-append, update, ==_ne, ◌==◌, update_self, ◌⊎◌, inl, inr, Bool-cases,
}
use lock_free_limit_order_bo.Prelude.Powers.{mod_below}
use lock_free_limit_order_bo.Prelude.Mask.{pow_pos}
use lock_free_limit_order_bo.SpscQueue.{SpscQueue, advance, push, pop}
use lock_free_limit_order_bo.SpscQueue.Ring.{
  steps, window, advance-lt, steps-zero, steps-advance, advance-steps, steps-injective,
  window-update, window-snoc,
}

-- The ring holds `xs`, oldest first.
pub record Holds {ℓ} {A : Type ℓ} (k : ℕ) (q : SpscQueue A) (xs : List A) : Type ℓ where
  pub tail_in : q.tail < 2 ^ k
  pub room : length xs < 2 ^ k
  pub head_at : q.head ≡ steps k q.tail (length xs)
  pub items : window k q.buffer q.tail (length xs) ≡ xs

module _ {ℓ} {A : Type ℓ} (k : ℕ) (narrow : k ≤ 64) {q : SpscQueue A} where
  -- The index behind the producer's.
  pub next-head : {xs : List A} → Holds k q xs → advance k q.head ≡ steps k q.tail (suc (length xs))
  next-head {xs} h = ap (advance k) h.head_at ∙ advance-steps k narrow q.tail (length xs) h.tail_in

  -- The next index of the producer meets the consumer's exactly when one slot is left.
  pub meets_lem :
      {xs : List A} → Holds k q xs → (advance k q.head == q.tail) ≡ (suc (length xs) == 2 ^ k)
  meets_lem {xs} h = ground (
    arith,
    next-head h,
    h.tail_in,
    h.room,
    mod_below (2 ^ k) (q.tail + suc (length xs)) (pow_pos k) (omega (arith, h.tail_in, h.room)),
  )

  pub pushed-Holds :
      (item : A) {xs : List A}
      → Holds k q xs
      → suc (length xs) < 2 ^ k
      → Holds k
          (record { head = advance k q.head; tail = q.tail; buffer = update q.buffer q.head item })
          (xs ++ item ∷ [])
  pushed-Holds item {xs} h fits = record {
    tail_in = h.tail_in;
    room = omega (arith, length-append xs (item ∷ []));
    head_at = next-head h ∙ ap (steps k q.tail) one_more;
    items =
        ap (window k after q.tail) (sym one_more)
        ∙ window-snoc k narrow after q.tail (length xs) h.tail_in
        ∙ ap₂ ◌++◌ before (ap (λ x. x ∷ []) new);
  }
    where
      after : ℕ → A
      after = update q.buffer q.head item

      one_more : suc (length xs) ≡ length (xs ++ item ∷ [])
      one_more = omega (arith, length-append xs (item ∷ []))

      before : window k after q.tail (length xs) ≡ xs
      before =
          window-update k narrow q.buffer q.head item q.tail (length xs) h.tail_in (λ m lt e.
            absurd (
              omega (
                arith,
                steps-injective k narrow q.tail m (length xs) h.tail_in (omega (arith, h.room))
                    h.room (e ∙ h.head_at),
              )))
          ∙ h.items

      new : after (steps k q.tail (length xs)) ≡ item
      new = ap after (sym h.head_at) ∙ update_self q.buffer q.head item

  -- On a ring of 2 ^ k slots (k ≤ 64) that holds a list of items, `push` fails and changes nothing
  -- if they are 2 ^ k - 1; else it succeeds and adds the item as the newest.
  pub push-Holds :
      (item : A) {xs : List A}
      → Holds k q xs
      → ((suc (length xs) ≡ 2 ^ k) × (push k item q ≡ (false, q)))
        ⊎ ((suc (length xs) < 2 ^ k)
            × ((push k item q).0 ≡ true)
            × Holds k (push k item q).1 (xs ++ item ∷ []))
  unfolding push
  push-Holds item {xs} h = elim (Bool-cases (suc (length xs) == 2 ^ k)) [
    | inl e ↦ inl (ground arith, rw (meets_lem h, e) refl)
    | inr e ↦ inr (
      ground (arith, h.room),
      rw (meets_lem h, e) refl,
      rw (meets_lem h, e) (pushed-Holds item h (ground (arith, h.room))),
    )
  ]

  pub apart-head : {x : A} {xs : List A} → Holds k q (x ∷ xs) → (q.tail == q.head) ≡ false
  apart-head {xs} h = ==_ne q.tail q.head λ e. absurd (
      omega (
        arith,
        steps-injective k narrow q.tail 0 (suc (length xs)) h.tail_in (pow_pos k) h.room
            (steps-zero k q.tail h.tail_in ∙ e ∙ h.head_at),
      ))

  -- `pop` of an empty ring gives nothing and changes nothing.
  pub pop-Holds_nil : Holds k q [] → pop k q ≡ (none, q)
  unfolding pop
  pop-Holds_nil h = ground (arith, h.head_at, steps-zero k q.tail h.tail_in)

  pub oldest : {x : A} {xs : List A} → Holds k q (x ∷ xs) → q.buffer q.tail ≡ x
  oldest h = cc (h.items)

  pub popped-Holds :
      {x : A} {xs : List A} → Holds k q (x ∷ xs) → Holds k (record q { tail = advance k q.tail }) xs
  popped-Holds {xs} h = record {
    tail_in = advance-lt k narrow q.tail;
    room = omega (arith, h.room);
    head_at = h.head_at ∙ sym (steps-advance k narrow q.tail (length xs) h.tail_in);
    items = cc (h.items);
  }

  -- On a ring of 2 ^ k slots (k ≤ 64) that holds at least one item, `pop` gives the oldest item and
  -- leaves the rest.
  pub pop-Holds_cons :
      {x : A} {xs : List A}
      → Holds k q (x ∷ xs)
      → let (item, q') = pop k q in (item ≡ some x) × Holds k q' xs
  unfolding pop
  pop-Holds_cons {x} {xs} h = rw (apart-head h) (ap some (oldest h), popped-Holds h)
