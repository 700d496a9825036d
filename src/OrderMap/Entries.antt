-- ===== src/OrderMap/Entries.antt =====
-- The entries of a table: what the operations may add to them.
use lock_free_limit_order_bo.Prelude.{
  ℕ, zero, suc, ◌+◌, ◌*◌, ◌^◌, ◌≤◌, ◌<◌, ◌≡◌, ◌≢◌, ◌⊎◌, inl, inr, ap, ◌∙◌, sym, arith, none, some,
  ◌==◌, update, Bool-cases, ==_iff,
}
use lock_free_limit_order_bo.Order.{OrderId, Ref}
use lock_free_limit_order_bo.OrderMap.{
  OrderMap, Slot, empty_key, no_slot, mask, place, hash, insert, insert_from, find, erase,
  erase_from, backward_shift, should_shift,
}
use lock_free_limit_order_bo.OrderMap.Places.{mask-lt, hash-lt}
use lock_free_limit_order_bo.OrderMap.Direct.{find-home}
use lock_free_limit_order_bo.OrderMap.Table.{IsTable}

module _ (k : ℕ) where
  -- Some slot has the key and the order.
  abbrev pub Entry : (ℕ → Slot) → OrderId → Ref → Type 0
  Entry slots id o = (pos : ℕ) × (pos < 2 ^ k) × ((slots pos).key ≡ id) × ((slots pos).val ≡ some o)

  emptied-Entry :
      (slots : ℕ → Slot) (at : ℕ) (id : OrderId) (o : Ref)
      → Entry (update slots at no_slot) id o
      → Entry slots id o
  emptied-Entry slots at id o (pos, h, e, f) = elim (Bool-cases (at == pos)) [
    | inl g ↦ absurd (none_some (rw g at f))
    | inr g ↦ (pos, h, rw g at e, rw g at f)
  ]
    where
      none_some : none ≢ some o
      none_some g = cc

  moved-Entry :
      (slots : ℕ → Slot) (at next : ℕ) (id : OrderId) (o : Ref)
      → next < 2 ^ k
      → Entry (update slots at (slots next)) id o
      → Entry slots id o
  moved-Entry slots at next id o below (pos, h, e, f) = elim (Bool-cases (at == pos)) [
    | inl g ↦ (next, below, rw g at e, rw g at f)
    | inr g ↦ (pos, h, rw g at e, rw g at f)
  ]

  backward_shift-Entry :
      (fuel at : ℕ) (slots : ℕ → Slot) (id : OrderId) (o : Ref)
      → Entry (backward_shift k fuel at slots) id o
      → Entry slots id o
  unfolding backward_shift
  backward_shift-Entry zero at slots id o v = v
  backward_shift-Entry (suc fuel) at slots id o v =
      let next = mask k (at + 1) in
      elim (Bool-cases ((slots next).key == empty_key)) [
        | inl e ↦ emptied-Entry slots at id o (rw (e) at v)
        | inr e ↦ elim (Bool-cases (should_shift k at next (hash k (slots next).key))) [
          | inl f ↦
              moved-Entry slots at next id o (mask-lt k (at + 1)) (
                backward_shift-Entry fuel next (update slots at (slots next)) id o (rw (e, f) at v))
          | inr f ↦ emptied-Entry slots at id o (rw (e, f) at v)
        ]
      ]

  erase_from-Entry :
      (j : OrderId) (n probe : ℕ) (m : OrderMap) (id : OrderId) (o : Ref)
      → Entry (erase_from k j n probe m).1.slots id o
      → Entry m.slots id o
  unfolding erase_from
  erase_from-Entry j zero probe m id o v = v
  erase_from-Entry j (suc n) probe m id o v =
      elim (Bool-cases ((m.slots (place k j probe)).key == j)) [
        | inl e ↦ backward_shift-Entry (2 ^ k * 2 ^ k) (place k j probe) m.slots id o (rw e at v)
        | inr e ↦ elim (Bool-cases ((m.slots (place k j probe)).key == empty_key)) [
          | inl f ↦ rw (e, f) at v
          | inr f ↦ erase_from-Entry j n (probe + 1) m id o (rw (e, f) at v)
        ]
      ]

  pub erase-Entry :
      (j : OrderId) (m : OrderMap) (id : OrderId) (o : Ref)
      → Entry (erase k j m).1.slots id o
      → Entry m.slots id o
  unfolding erase
  erase-Entry j m = erase_from-Entry j (2 ^ k) 0 m

  insert_from-Entry :
      (j : OrderId) (x : Ref) (n probe : ℕ) (m : OrderMap) (id : OrderId) (o : Ref)
      → Entry (insert_from k j x n probe m).1.slots id o
      → Entry m.slots id o ⊎ ((id ≡ j) × (o ≡ x))
  unfolding insert_from
  insert_from-Entry j x zero probe m id o v = inl v
  insert_from-Entry j x (suc n) probe m id o v =
      elim (Bool-cases ((m.slots (place k j probe)).key == empty_key)) [
        | inr e ↦ insert_from-Entry j x n (probe + 1) m id o (rw e at v)
        | inl e ↦ here (rw e at v)
      ]
    where
      here :
          Entry (update m.slots (place k j probe) (record { key = j; val = some x })) id o
          → Entry m.slots id o ⊎ ((id ≡ j) × (o ≡ x))
      here (pos, h, f, g) = elim (Bool-cases (place k j probe == pos)) [
        | inl e ↦ inr (sym (rw e at f), some_inj (rw e at g))
        | inr e ↦ inl (pos, h, rw e at f, rw e at g)
      ]
        where
          some_inj : some x ≡ some o → o ≡ x
          some_inj e = cc

  pub insert-Entry :
      (j : OrderId) (x : Ref) (m : OrderMap) (id : OrderId) (o : Ref)
      → Entry (insert k j x m).1.slots id o
      → Entry m.slots id o ⊎ ((id ≡ j) × (o ≡ x))
  unfolding insert
  insert-Entry j x m = insert_from-Entry j x (2 ^ k) 0 m

  -- In a table whose keys are all at home, what `find` returns for an id is its entry.
  module _ (narrow : k ≤ 64) (m : OrderMap) (t : IsTable k m) (id : OrderId) (o : Ref)
      (ne : id ≢ empty_key) where
    pub find-Entry : find k id m ≡ some o → Entry m.slots id o
    find-Entry e = elim (Bool-cases ((m.slots (hash k id)).key == id)) [
      | inl f ↦ (
        hash k id,
        hash-lt k id,
        (==_iff _ id).0 f,
        sym (rw f at (find-home k narrow m t.direct id ne)) ∙ e,
      )
      | inr f ↦ absurd (none_some (sym (rw f at (find-home k narrow m t.direct id ne)) ∙ e))
    ]
      where
        none_some : none ≢ some o
        none_some g = cc

    pub Entry-find : Entry m.slots id o → find k id m ≡ some o
    Entry-find (pos, h, e, f) =
        let home : hash k id ≡ pos = ap (hash k) (sym e) ∙ t.direct pos h (λ g. ne (sym e ∙ g)) in
        find-home k narrow m t.direct id ne
        ∙ ground (arith, home, ap (λ q. (m.slots q).key) home, ap (λ q. (m.slots q).val) home)
