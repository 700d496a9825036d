-- ===== src/OrderMap/Erase.antt =====
-- What `insert` and `erase` do to the answers of `find` in tables whose keys are all at home.
use lock_free_limit_order_bo.Prelude.{
  ℕ, zero, suc, ◌%◌, ◌^◌, ◌≤◌, ◌<◌, ◌≡◌, ◌≢◌, refl, ap, arith, true, none, some, ◌==◌,
  if◌then◌else◌, update, inl, inr, Bool-cases,
}
use lock_free_limit_order_bo.Prelude.Mask.{pow_pos}
use lock_free_limit_order_bo.Prelude.Words.{add64, sub64}
use lock_free_limit_order_bo.Order.{OrderId, Ref}
use lock_free_limit_order_bo.OrderMap.{
  OrderMap, empty_key, no_slot, hash, insert, insert_from, find, erase,
}
use lock_free_limit_order_bo.OrderMap.Places.{hash-lt, place-zero}
use lock_free_limit_order_bo.OrderMap.Hash.{hash-eq_iff}
use lock_free_limit_order_bo.OrderMap.Direct.{Direct, find-home, erase-home}

module _ (k : ℕ) (narrow : k ≤ 64) where
  -- No key of the table shares its `k` low bits with `id`.
  abbrev pub Spread : OrderMap → OrderId → Type 0
  Spread m id =
      (pos : ℕ)
      → pos < 2 ^ k
      → (m.slots pos).key ≢ empty_key
      → (m.slots pos).key % 2 ^ k ≢ id % 2 ^ k

  -- The table with `id` put into its home slot.
  abbrev pub at_home : OrderMap → OrderId → Ref → OrderMap
  at_home m id o = record {
    slots = update m.slots (hash k id) (record { key = id; val = some o });
    size = add64 m.size 1;
  }

  pub home_free :
      (m : OrderMap) (id : OrderId)
      → Direct k m
      → Spread m id
      → (m.slots (hash k id)).key ≡ empty_key
  home_free m id direct apart = elim (Bool-cases ((m.slots (hash k id)).key == empty_key)) [
    | inl e ↦ ground arith
    | inr e ↦ absurd (
        apart (hash k id) (hash-lt k id) (ground arith) (
          (hash-eq_iff k narrow (m.slots (hash k id)).key id).0
            (direct (hash k id) (hash-lt k id) (ground arith))))
  ]

  insert_from-home :
      (m : OrderMap) (id : OrderId) (o : Ref) (n : ℕ)
      → (m.slots (hash k id)).key ≡ empty_key
      → 0 < n
      → insert_from k id o n 0 m ≡ (true, at_home m id o)
  unfolding insert_from
  insert_from-home m id o zero free some_round = absurd (omega arith)
  insert_from-home m id o (suc n) free some_round = rw (place-zero k id, free) refl

  pub insert-home :
      (m : OrderMap) (id : OrderId) (o : Ref)
      → (m.slots (hash k id)).key ≡ empty_key
      → insert k id o m ≡ (true, at_home m id o)
  unfolding insert
  insert-home m id o free = insert_from-home m id o (2 ^ k) free (pow_pos k)

  -- In a table of 2 ^ k slots (k ≤ 64) whose keys are all at home, `insert` of an id other than 0
  -- that shares its k low bits with no key succeeds, puts it at home too, and adds exactly its
  -- answer to those of `find`.
  pub insert-find-Direct :
      (m : OrderMap) (id : OrderId) (o : Ref)
      → id ≢ empty_key
      → Direct k m
      → Spread m id
      → let (done, m') = insert k id o m in
        (done ≡ true)
        × Direct k m'
        × ((j : OrderId) → j ≢ empty_key → find k j m' ≡ (if id == j then some o else find k j m))
  insert-find-Direct m id o ne direct apart = rw (insert-home m id o free) (refl, kept, answers)
    where
      free : (m.slots (hash k id)).key ≡ empty_key
      free = home_free m id direct apart

      after : OrderMap
      after = at_home m id o

      kept : Direct k after
      kept pos inside full = elim (Bool-cases (hash k id == pos)) [
        | inl e ↦ rw e (ground arith)
        | inr e ↦ rw e (ground (arith, direct pos inside, rw e at full))
      ]

      answers :
          (j : OrderId) → j ≢ empty_key → find k j after ≡ (if id == j then some o else find k j m)
      answers j full =
          rw (find-home k narrow after kept j full, find-home k narrow m direct j full)
            (ground (arith, free, ap (hash k) {x = id} {y = j}))

  -- In a table of 2 ^ k slots (k ≤ 64) whose keys are all at home, `erase` of an id other than 0
  -- returns whether the id's home slot holds it, and takes exactly its answer away from those of
  -- `find`; the keys stay at home.
  pub erase-find-Direct :
      (m : OrderMap) (id : OrderId)
      → id ≢ empty_key
      → Direct k m
      → let (done, m') = erase k id m in
        (done ≡ ((m.slots (hash k id)).key == id))
        × Direct k m'
        × ((j : OrderId) → j ≢ empty_key → find k j m' ≡ (if id == j then none else find k j m))
  erase-find-Direct m id ne direct = elim (Bool-cases ((m.slots (hash k id)).key == id)) [
    | inl e ↦ rw (erase-home k narrow m direct id ne, e) (refl, kept, answers e)
    | inr e ↦
        rw (erase-home k narrow m direct id ne, e)
          (
            refl,
            direct,
            λ j full.
                rw (find-home k narrow m direct j full)
                  (ground (arith, e, ap (hash k) {x = id} {y = j})),
          )
  ]
    where
      after : OrderMap
      after = record { slots = update m.slots (hash k id) no_slot; size = sub64 m.size 1 }

      kept : Direct k after
      kept pos inside full = elim (Bool-cases (hash k id == pos)) [
        | inl e ↦ absurd (full (rw e refl))
        | inr e ↦ rw e (ground (arith, direct pos inside, rw e at full))
      ]

      answers :
          ((m.slots (hash k id)).key == id) ≡ true
          → (j : OrderId) → j ≢ empty_key
          → find k j after ≡ (if id == j then none else find k j m)
      answers e j full =
          rw (find-home k narrow after kept j full, find-home k narrow m direct j full)
            (ground (arith, e, ap (hash k) {x = id} {y = j}))
