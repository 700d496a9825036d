-- ===== src/OrderMap/Direct.antt =====
-- Tables in which every key stands in its home slot, and what the searches do there.
use native.Mathlib.Nat.{mul-mod_left, add-mul-mod_self_right, mod-eq_of_lt}
use lock_free_limit_order_bo.Prelude.{
  ℕ, zero, suc, ◌+◌, ◌-◌, ◌%◌, ◌^◌, ◌≤◌, ◌<◌, ◌≡◌, ◌≢◌, refl, ap, ◌∙◌, sym, arith, true, false, not,
  none, ◌==◌, if◌then◌else◌, update, ◌*◌, dec_lt, ℕ_discrete,
}
use lock_free_limit_order_bo.Prelude.Mask.{pow_pos, square_pos}
use lock_free_limit_order_bo.Prelude.Words.{sub64, u64_mod}
use lock_free_limit_order_bo.Order.{OrderId}
use lock_free_limit_order_bo.OrderMap.{
  OrderMap, empty_key, Slot, no_slot, mask, hash, place, find, find_from, erase, erase_from,
  backward_shift, should_shift,
}
use lock_free_limit_order_bo.OrderMap.Places.{
  mask-lt, mask_lem, mask-eq_of_lt, hash-lt, place-injective, place-zero,
}
use lock_free_limit_order_bo.OrderMap.Search.{find_from-none, NoGap}
use lock_free_limit_order_bo.Prelude.Powers.{word_split, mod_below}

abbrev pub Direct : ℕ → OrderMap → Type 0
Direct k m =
    (pos : ℕ) → pos < 2 ^ k → (m.slots pos).key ≢ empty_key → hash k (m.slots pos).key ≡ pos

module _ (k : ℕ) (narrow : k ≤ 64) where
  capacity-le : 2 ^ k ≤ u64_mod
  capacity-le = grind (arith, word_split k narrow, pow_pos (64 - k))

  word_less_capacity : u64_mod ≡ (2 ^ (64 - k) - 1) * 2 ^ k + 2 ^ k
  word_less_capacity = omega (arith, word_split k narrow, ap (λ t. t * 2 ^ k) once)
    where
      once : 2 ^ (64 - k) ≡ 2 ^ (64 - k) - 1 + 1
      once = omega (arith, pow_pos (64 - k))

  mask_word_sub : mask k (u64_mod - 2 ^ k) ≡ 0
  mask_word_sub =
      mask_lem k _ ∙ ap (λ t. t % 2 ^ k) multiple ∙ mul-mod_left (2 ^ (64 - k) - 1) (2 ^ k)
    where
      multiple : u64_mod - 2 ^ k ≡ (2 ^ (64 - k) - 1) * 2 ^ k
      multiple = omega (arith, word_less_capacity)

  -- `(next - pos - 1) & MASK` is 0.
  mask-gap : (pos : ℕ) → pos < 2 ^ k → mask k (sub64 (sub64 (mask k (pos + 1)) pos) 1) ≡ 0
  mask-gap pos h = elim (dec_lt (pos + 1) (2 ^ k)) [
    | yes p ↦
        rw (mask-eq_of_lt k p)
          (ap (mask k) {y = 0} (omega (arith, capacity-le)) ∙ mask-eq_of_lt k (pow_pos k))
    | no p ↦
        rw (wrapped p)
          (ap (mask k) {y = u64_mod - 2 ^ k} (omega (arith, capacity-le)) ∙ mask_word_sub)
  ]
    where
      wrapped : ¬ (pos + 1 < 2 ^ k) → mask k (pos + 1) ≡ 0
      wrapped p =
          mask_lem k _ ∙ omega (arith, mod_below (2 ^ k) (pos + 1) (pow_pos k) (omega arith))

  -- `(a - b) & MASK` is 0 only if the two are the same.
  mask-sub64 : (a b : ℕ) → a < 2 ^ k → b < 2 ^ k → a ≢ b → 0 < mask k (sub64 a b)
  mask-sub64 a b ha hb ne = elim (dec_lt a b) [
    | yes p ↦ rw (wraps p) (omega arith)
    | no p ↦
        rw (ap (mask k) {x = sub64 a b} {y = a - b} (omega (arith, capacity-le)))
          (rw (mask-eq_of_lt k {x = a - b} (omega arith)) (omega arith))
  ]
    where
      wraps : a < b → mask k (sub64 a b) ≡ a + 2 ^ k - b
      wraps p =
          mask_lem k _
          ∙ ap (λ t. t % 2 ^ k) {y = a + 2 ^ k - b + (2 ^ (64 - k) - 1) * 2 ^ k}
              (omega (arith, word_less_capacity))
          ∙ add-mul-mod_self_right _ _ _
          ∙ mod-eq_of_lt (omega arith)

  mask-sub64_self : (a : ℕ) → a < 2 ^ k → mask k (sub64 a a) ≡ 0
  mask-sub64_self a h =
      ap (mask k) {y = 0} (omega (arith, capacity-le)) ∙ mask-eq_of_lt k (pow_pos k)

  -- The code's test says whether the entry is away from its home.
  pub should_shift_lem :
      (pos natural : ℕ)
      → pos < 2 ^ k
      → natural < 2 ^ k
      → should_shift k pos (mask k (pos + 1)) natural ≡ not (natural == mask k (pos + 1))
  unfolding should_shift
  should_shift_lem pos natural hp hn = elim (ℕ_discrete natural (mask k (pos + 1))) [
    | yes e ↦ ground (arith, mask-gap pos hp, mask-sub64_self natural hn, e)
    | no ne ↦
        ground (arith, mask-gap pos hp, mask-sub64 (mask k (pos + 1)) natural (mask-lt k _) hn)
  ]

  -- The next entry is at home, so nothing moves.
  pub backward_shift-home :
      (fuel pos : ℕ) (slots : ℕ → Slot)
      → pos < 2 ^ k
      → ((slots (mask k (pos + 1))).key ≢ empty_key
          → hash k (slots (mask k (pos + 1))).key ≡ mask k (pos + 1))
      → backward_shift k (suc fuel) pos slots ≡ update slots pos no_slot
  unfolding backward_shift
  backward_shift-home fuel pos slots h home =
      ground (arith, should_shift_lem pos (hash k (slots (mask k (pos + 1))).key) h (hash-lt k _))

  module _ (m : OrderMap) (direct : Direct k m) where
    -- In the probes for `id` behind the first there is no `id`.
    elsewhere :
        (id : OrderId) (i : ℕ)
        → id ≢ empty_key
        → 1 ≤ i
        → i < 2 ^ k
        → (m.slots (place k id i)).key ≢ id
    elsewhere id i ne lo hi e = absurd (
        omega (
          arith,
          place-injective k id 0 i (pow_pos k) hi (
              place-zero k id
              ∙ sym (ap (hash k) e)
              ∙ direct (place k id i) (mask-lt k _) (λ z. ne (sym e ∙ z))),
        ))

    find_from-home :
        (id : OrderId) (n : ℕ)
        → id ≢ empty_key
        → 0 < n
        → n ≤ 2 ^ k
        → find_from k id n 0 m
          ≡ (if (m.slots (hash k id)).key == id then (m.slots (hash k id)).val else none)
    unfolding find_from
    find_from-home id zero ne some_round fits = absurd (omega arith)
    find_from-home id (suc n) ne some_round fits =
        rw (place-zero k id)
          (ground (arith, find_from-none k id n 1 m λ i p q. elsewhere id i ne p (omega arith)))

    -- `find` reads the home slot alone.
    pub find-home :
        (id : OrderId)
        → id ≢ empty_key
        → find k id m
          ≡ (if (m.slots (hash k id)).key == id then (m.slots (hash k id)).val else none)
    unfolding find
    find-home id ne = find_from-home id (2 ^ k) ne (pow_pos k) (omega arith)

    erase_from-none :
        (id : OrderId) (n probe : ℕ)
        → id ≢ empty_key
        → 1 ≤ probe
        → probe + n ≤ 2 ^ k
        → erase_from k id n probe m ≡ (false, m)
    unfolding erase_from
    erase_from-none id zero probe ne lo fits = refl
    erase_from-none id (suc n) probe ne lo fits =
        ground (arith, elsewhere id probe ne, erase_from-none id n (probe + 1) ne)

    erase_from-home :
        (id : OrderId) (n : ℕ)
        → id ≢ empty_key
        → 0 < n
        → n ≤ 2 ^ k
        → erase_from k id n 0 m ≡ (
            if (m.slots (hash k id)).key == id
            then (
              true,
              record {
                slots = backward_shift k (2 ^ k * 2 ^ k) (hash k id) m.slots;
                size = sub64 m.size 1;
              },
            )
            else (false, m))
    unfolding erase_from
    erase_from-home id zero ne some_round fits = absurd (omega arith)
    erase_from-home id (suc n) ne some_round fits =
        rw (place-zero k id) (ground (arith, erase_from-none id n 1 ne))

    backward_shift_clears :
        (fuel pos : ℕ)
        → 0 < fuel
        → pos < 2 ^ k
        → backward_shift k fuel pos m.slots ≡ update m.slots pos no_slot
    backward_shift_clears zero pos some_round h = absurd (omega arith)
    backward_shift_clears (suc fuel) pos some_round h =
        backward_shift-home fuel pos m.slots h (direct (mask k (pos + 1)) (mask-lt k _))

    -- `erase` empties the home slot, if it holds the id, and moves nothing.
    pub erase-home :
        (id : OrderId)
        → id ≢ empty_key
        → erase k id m ≡ (
            if (m.slots (hash k id)).key == id
            then (
              true,
              record { slots = update m.slots (hash k id) no_slot; size = sub64 m.size 1 },
            )
            else (false, m))
    unfolding erase
    erase-home id ne = rw (
      erase_from-home id (2 ^ k) ne (pow_pos k) (omega arith),
      backward_shift_clears (2 ^ k * 2 ^ k) (hash k id) (square_pos k) (hash-lt k id),
    )

    -- A table of keys at home has no gap.
    pub Direct-NoGap : NoGap k m
    Direct-NoGap id j i ne inside hit before = absurd (elsewhere id j ne (omega arith) inside hit)
