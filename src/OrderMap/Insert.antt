-- ===== src/OrderMap/Insert.antt =====
-- `insert` and `find` in tables in which no key is cut off by an empty slot.
use lock_free_limit_order_bo.Prelude.{
  ℕ, zero, suc, ◌+◌, ◌^◌, ◌≤◌, ◌<◌, ◌≡◌, ◌≢◌, inl, inr, refl, ap, ◌∙◌, sym, arith, true, false,
  some, ◌==◌, if◌then◌else◌, update, Bool-cases, subst, ==_iff,
}
use lock_free_limit_order_bo.Prelude.Words.{add64}
use lock_free_limit_order_bo.Order.{OrderId, Ref}
use lock_free_limit_order_bo.OrderMap.{
  OrderMap, empty_key, place, insert, insert_from, find, find_from,
}
use lock_free_limit_order_bo.OrderMap.Search.{key_at, Absent, NoGap, find_from-none, find_from-hit}
use lock_free_limit_order_bo.OrderMap.Places.{mask-lt, place-injective, place-onto}

module _ (k : ℕ) where
  -- Where a successful insertion wrote.
  record Wrote (id : OrderId) (o : Ref) (n probe : ℕ) (m m' : OrderMap) : Type 0 where
    at : ℕ
    from : probe ≤ at
    upto : at < probe + n
    was_empty : key_at k m id at ≡ empty_key
    full_before : (i : ℕ) → probe ≤ i → i < at → key_at k m id i ≢ empty_key
    result : m' ≡ record {
      slots = update m.slots (place k id at) (record { key = id; val = some o });
      size = add64 m.size 1;
    }

  insert_from-Wrote :
      (id : OrderId) (o : Ref) (n probe : ℕ) (m : OrderMap)
      → (insert_from k id o n probe m).0 ≡ true
      → Wrote id o n probe m (insert_from k id o n probe m).1
  unfolding insert_from
  insert_from-Wrote id o zero probe m h = cc
  insert_from-Wrote id o (suc n) probe m h = elim (Bool-cases (key_at k m id probe == empty_key)) [
    | inl e ↦ rw e (record {
      at = probe;
      from = omega arith;
      upto = omega arith;
      was_empty = ground arith;
      full_before = λ i p q. absurd (omega arith);
      result = refl;
    })
    | inr e ↦ rw e (later (insert_from-Wrote id o n (probe + 1) m (rw e at h)) e)
  ]
    where
      later :
          Wrote id o n (probe + 1) m (insert_from k id o n (probe + 1) m).1
          → (key_at k m id probe == empty_key) ≡ false
          → Wrote id o (suc n) probe m (insert_from k id o n (probe + 1) m).1
      later w e = record {
        at = w.at;
        from = omega (arith, w.from);
        upto = omega (arith, w.upto);
        was_empty = w.was_empty;
        full_before = λ i p q. ground (arith, w.full_before i, e);
        result = w.result;
      }

  module _ (id : OrderId) (o : Ref) (m : OrderMap) (ne : id ≢ empty_key) (gap : NoGap k m)
      (fresh : Absent k m id) (w : Wrote id o (2 ^ k) 0 m (insert k id o m).1) where
    open w use {at, upto, was_empty, full_before, result}

    abbrev target : ℕ
    target = place k id at

    -- The key of a slot after the insertion.
    key-insert :
        (pos : ℕ)
        → ((insert k id o m).1.slots pos).key ≡ (if target == pos then id else (m.slots pos).key)
    key-insert pos = rw result (ground arith)

    find-insert_self : find k id (insert k id o m).1 ≡ some o
    unfolding find
    find-insert_self =
        find_from-hit k id (2 ^ k) 0 at (insert k id o m).1 (omega arith) upto
          (λ i p q. ground (
            arith,
            key-insert (place k id i),
            full_before i,
            fresh (place k id i) (mask-lt k _),
            was_empty,
            ap (λ a. (m.slots a).key),
          ))
          (ground (arith, key-insert target))
        ∙ rw result (ground arith)

    slot-insert_ne :
        (pos : ℕ) → (target == pos) ≡ false → (insert k id o m).1.slots pos ≡ m.slots pos
    slot-insert_ne pos e = rw (result, e)

    find_from-insert_ne :
        (j : OrderId) (n probe : ℕ)
        → j ≢ id
        → j ≢ empty_key
        → probe + n ≤ 2 ^ k
        → find_from k j n probe (insert k id o m).1 ≡ find_from k j n probe m
    unfolding find_from
    find_from-insert_ne j zero probe ne' full fits = refl
    find_from-insert_ne j (suc n) probe ne' full fits =
        elim (Bool-cases (target == place k j probe)) [
          | inl e ↦ ground (
            arith,
            key-insert (place k j probe),
            was_empty,
            ap (λ a. (m.slots a).key) ((==_iff target (place k j probe)).0 e),
            find_from-none k j n (probe + 1) (insert k id o m).1 λ i p q. ground (
              arith,
              key-insert (place k j i),
              was_empty,
              ap (λ a. (m.slots a).key) ((==_iff target (place k j probe)).0 e),
              gap j i probe full,
            ),
          )
          | inr e ↦ rw (
            slot-insert_ne (place k j probe) e,
            find_from-insert_ne j n (probe + 1) ne' full (omega arith),
          )
        ]

    -- Nothing in front of the new entry is empty.
    front-insert :
        (j : OrderId) (b a : ℕ)
        → b < 2 ^ k
        → j ≡ id
        → target ≡ place k j b
        → a < b
        → key_at k m j a ≢ empty_key
    front-insert j b a inside same here before =
        let e : at ≡ b =
          place-injective k id at b (omega arith) inside (here ∙ ap (λ t. place k t b) same) in
        subst (λ t. key_at k m t a ≢ empty_key) (sym same)
          (full_before a (omega arith) (omega arith))

    NoGap-insert : NoGap k (insert k id o m).1
    NoGap-insert j b a full inside hit before = elim (Bool-cases (target == place k j a)) [
      | inl e ↦ ground (arith, key-insert (place k j a))
      | inr e ↦ elim (Bool-cases (target == place k j b)) [
        | inl f ↦ ground (
          arith,
          key-insert (place k j a),
          front-insert j b a inside (ground (arith, key-insert (place k j b)))
              ((==_iff target (place k j b)).0 f) before,
        )
        | inr f ↦ ground (arith, key-insert (place k j a), key-insert (place k j b), gap j b a)
      ]
    ]

  pub record Inserted (id : OrderId) (o : Ref) (m m' : OrderMap) : Type 0 where
    pub found : find k id m' ≡ some o
    pub others : (j : OrderId) → j ≢ id → j ≢ empty_key → find k j m' ≡ find k j m
    pub no_gap : NoGap k m'

  -- A successful `insert` of an id other than 0, which no slot holds, into a table in which no key
  -- is cut off by an empty slot in its probes makes `find` return its order, leaves what `find`
  -- returns for every other id but 0, and cuts off no key.
  pub insert-Inserted :
      (id : OrderId) (o : Ref) (m : OrderMap)
      → id ≢ empty_key
      → NoGap k m
      → Absent k m id
      → (insert k id o m).0 ≡ true
      → Inserted id o m (insert k id o m).1
  insert-Inserted id o m ne gap fresh done = record {
    found = find-insert_self id o m ne gap fresh w;
    others = λ j ne' full.
        unfold find in find_from-insert_ne id o m ne gap fresh w j (2 ^ k) 0 ne' full (omega arith);
    no_gap = NoGap-insert id o m ne gap fresh w;
  }
    where
      w : Wrote id o (2 ^ k) 0 m (insert k id o m).1
      w = unfold insert in insert_from-Wrote id o (2 ^ k) 0 m done

  -- A failed `insert` has met no empty slot.
  insert_from-false :
      (id : OrderId) (o : Ref) (n probe : ℕ) (m : OrderMap)
      → (insert_from k id o n probe m).0 ≡ false
      → (i : ℕ) → probe ≤ i
      → i < probe + n
      → key_at k m id i ≢ empty_key
  unfolding insert_from
  insert_from-false id o zero probe m h i p q = absurd (omega arith)
  insert_from-false id o (suc n) probe m h i p q = elim (Bool-cases (probe == i)) [
    | inl e ↦ ground (arith, ap (key_at k m id) ((==_iff probe i).0 e))
    | inr e ↦ insert_from-false id o n (probe + 1) m (ground arith) i (ground arith) (omega arith)
  ]

  -- `insert` succeeds whenever some slot of the table is empty.
  pub insert-true_of_empty :
      (id : OrderId) (o : Ref) (m : OrderMap) (pos : ℕ)
      → pos < 2 ^ k
      → (m.slots pos).key ≡ empty_key
      → (insert k id o m).0 ≡ true
  unfolding insert
  insert-true_of_empty id o m pos inside e =
      let (i, lt, here) = place-onto k id pos inside in
      ground (
        arith,
        λ (h : (insert_from k id o (2 ^ k) 0 m).0 ≡ false).
            insert_from-false id o (2 ^ k) 0 m h i (omega arith) (omega arith),
        ap (λ a. (m.slots a).key) here,
      )
