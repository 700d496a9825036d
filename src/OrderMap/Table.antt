-- ===== src/OrderMap/Table.antt =====
-- Tables of ids below their number of slots, all at home, with an order for each.
use native.Mathlib.Nat.{mod-eq_of_lt}
use lock_free_limit_order_bo.Prelude.{
  ℕ, ◌^◌, ◌≤◌, ◌<◌, ◌≡◌, ◌≢◌, ◌==◌, ◌∙◌, refl, ap, sym, arith, true, none, some, if◌then◌else◌,
  Bool-cases, inl, inr, ==_iff,
}
use lock_free_limit_order_bo.Order.{OrderId, Ref}
use lock_free_limit_order_bo.OrderMap.{OrderMap, empty_key, hash, insert, find, erase, new_map}
use lock_free_limit_order_bo.OrderMap.Direct.{Direct, find-home, erase-home}
use lock_free_limit_order_bo.OrderMap.Erase.{
  Spread, insert-find-Direct, erase-find-Direct, insert-home, home_free, at_home,
}

-- Every key is a number of a slot, at home, and has an order.
pub record IsTable (k : ℕ) (m : OrderMap) : Type 0 where
  pub direct : Direct k m
  pub below : (pos : ℕ) → pos < 2 ^ k → (m.slots pos).key ≢ empty_key → (m.slots pos).key < 2 ^ k
  pub filled : (pos : ℕ) → pos < 2 ^ k → (m.slots pos).key ≢ empty_key → (m.slots pos).val ≢ none

pub new_map-IsTable : (k : ℕ) → IsTable k new_map
new_map-IsTable k = record {
  direct = λ pos h ne. absurd (ne refl);
  below = λ pos h ne. absurd (ne refl);
  filled = λ pos h ne. absurd (ne refl);
}

module _ (k : ℕ) (narrow : k ≤ 64) (m : OrderMap) (t : IsTable k m) (id : OrderId)
    (ne : id ≢ empty_key) where
  fresh-Spread : id < 2 ^ k → find k id m ≡ none → Spread k narrow m id
  fresh-Spread small fresh pos inside full same = t.filled pos inside full (
      ap (λ q. (m.slots q).val) (sym home)
      ∙ ground (arith, find-home k narrow m t.direct id ne, fresh, at_key))
    where
      same_key : (m.slots pos).key ≡ id
      same_key = sym (mod-eq_of_lt (t.below pos inside full)) ∙ same ∙ mod-eq_of_lt small

      home : hash k id ≡ pos
      home = ap (hash k) (sym same_key) ∙ t.direct pos inside full

      at_key : (m.slots (hash k id)).key ≡ id
      at_key = ap (λ q. (m.slots q).key) home ∙ same_key

  after-IsTable :
      (o : Ref) (apart : Spread k narrow m id) → id < 2 ^ k → IsTable k (at_home k narrow m id o)
  after-IsTable o apart small = record {
    direct = λ pos inside full. elim (Bool-cases (hash k id == pos)) [
      | inl e ↦ rw e ((==_iff (hash k id) pos).0 e)
      | inr e ↦ rw e (t.direct pos inside (rw e at full))
    ];
    below = λ pos inside full. elim (Bool-cases (hash k id == pos)) [
      | inl e ↦ rw e small
      | inr e ↦ rw e (t.below pos inside (rw e at full))
    ];
    filled = λ pos inside full. elim (Bool-cases (hash k id == pos)) [
      | inl e ↦ rw e (λ f. some-ne-none f)
      | inr e ↦ rw e (t.filled pos inside (rw e at full))
    ];
  }
    where
      some-ne-none : some o ≢ none
      some-ne-none f = cc

  pub insert-IsTable :
      (o : Ref)
      → id < 2 ^ k
      → find k id m ≡ none
      → ((insert k id o m).0 ≡ true) × IsTable k (insert k id o m).1
  insert-IsTable o small fresh =
      let apart = fresh-Spread small fresh in
      let (done, direct, _) = insert-find-Direct k narrow m id o ne t.direct apart in
      rw (insert-home k narrow m id o (home_free k narrow m id t.direct apart))
        (refl, after-IsTable o apart small)

  pub find-insert :
      (o : Ref)
      → id < 2 ^ k
      → find k id m ≡ none
      → (j : OrderId) → j ≢ empty_key
      → find k j (insert k id o m).1 ≡ (if id == j then some o else find k j m)
  find-insert o small fresh =
      (insert-find-Direct k narrow m id o ne t.direct (fresh-Spread small fresh)).2

  pub erase-IsTable : IsTable k (erase k id m).1
  erase-IsTable = elim (Bool-cases ((m.slots (hash k id)).key == id)) [
    | inr e ↦ rw (erase-home k narrow m t.direct id ne, e) t
    | inl e ↦
        rw (erase-home k narrow m t.direct id ne, e)
          (record {
            direct = λ pos inside full. elim (Bool-cases (hash k id == pos)) [
              | inl f ↦ absurd (full (rw f refl))
              | inr f ↦ rw f (t.direct pos inside (rw f at full))
            ];
            below = λ pos inside full. elim (Bool-cases (hash k id == pos)) [
              | inl f ↦ absurd (full (rw f refl))
              | inr f ↦ rw f (t.below pos inside (rw f at full))
            ];
            filled = λ pos inside full. elim (Bool-cases (hash k id == pos)) [
              | inl f ↦ absurd (full (rw f refl))
              | inr f ↦ rw f (t.filled pos inside (rw f at full))
            ];
          })
  ]

  pub find-erase :
      (j : OrderId)
      → j ≢ empty_key
      → find k j (erase k id m).1 ≡ (if id == j then none else find k j m)
  find-erase = (erase-find-Direct k narrow m id ne t.direct).2
