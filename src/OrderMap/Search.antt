-- ===== src/OrderMap/Search.antt =====
-- What `find` meets: tables in which no key is cut off by an empty slot, and the outcomes of a search.
use lock_free_limit_order_bo.Prelude.{
  ℕ, zero, suc, ◌+◌, ◌^◌, ◌≤◌, ◌<◌, ◌≡◌, ◌≢◌, inl, inr, refl, ap, arith, none, ◌==◌, Bool-cases,
  ==_iff,
}
use lock_free_limit_order_bo.Order.{OrderId}
use lock_free_limit_order_bo.OrderMap.{OrderMap, empty_key, place, find, find_from}
use lock_free_limit_order_bo.OrderMap.Places.{mask-lt}

abbrev pub key_at : ℕ → OrderMap → OrderId → ℕ → OrderId
key_at k m id i = (m.slots (place k id i)).key

-- No slot holds `id`.
abbrev pub Absent : ℕ → OrderMap → OrderId → Type 0
Absent k m id = (pos : ℕ) → pos < 2 ^ k → (m.slots pos).key ≢ id

-- A key that stands at its `j`-th probe has no empty slot at an earlier one.
abbrev pub NoGap : ℕ → OrderMap → Type 0
NoGap k m =
    (id : OrderId) (j i : ℕ)
    → id ≢ empty_key
    → j < 2 ^ k
    → key_at k m id j ≡ id
    → i < j
    → key_at k m id i ≢ empty_key

module _ (k : ℕ) where
  -- A search fails if no probe meets the key.
  pub find_from-none :
      (id : OrderId) (n probe : ℕ) (m : OrderMap)
      → ((i : ℕ) → probe ≤ i → i < probe + n → key_at k m id i ≢ id)
      → find_from k id n probe m ≡ none
  unfolding find_from
  find_from-none id zero probe m h = refl
  find_from-none id (suc n) probe m h =
      ground (
        arith,
        h probe,
        find_from-none id n (probe + 1) m (λ i p q. h i (omega arith) (omega arith)),
      )

  pub find-none : (id : OrderId) (m : OrderMap) → Absent k m id → find k id m ≡ none
  unfolding find
  find-none id m h = find_from-none id (2 ^ k) 0 m λ i p q. h (place k id i) (mask-lt k _)

  -- A search that meets the key before any empty slot returns its value.
  pub find_from-hit :
      (id : OrderId) (n probe at : ℕ) (m : OrderMap)
      → probe ≤ at
      → at < probe + n
      → ((i : ℕ) → probe ≤ i → i < at → (key_at k m id i ≢ id) × (key_at k m id i ≢ empty_key))
      → key_at k m id at ≡ id
      → find_from k id n probe m ≡ (m.slots (place k id at)).val
  unfolding find_from
  find_from-hit id zero probe at m p q before hit = absurd (omega arith)
  find_from-hit id (suc n) probe at m p q before hit = elim (Bool-cases (probe == at)) [
    | inl e ↦ ground (
      arith,
      hit,
      ap (key_at k m id) ((==_iff probe at).0 e),
      ap (λ i. (m.slots (place k id i)).val) ((==_iff probe at).0 e),
    )
    | inr e ↦ ground (
      arith,
      before probe,
      find_from-hit id n (probe + 1) at m (ground arith) (omega arith)
          (λ i p' q'. before i (omega arith) q') hit,
    )
  ]
