-- ===== src/OrderBook/Filled.antt =====
-- What a fill leaves of the orders, of the table's entries and of where the table's orders stand.
use lock_free_limit_order_bo.Prelude.{
  ℕ_discrete, ℕ, ◌≤◌, ◌≡◌, ◌≢◌, ◌⊎◌, Bool, true, false, refl, ap, sym, ◌∙◌, arith, List, [], ◌∷◌,
  inl, inr, if◌then◌else◌, Bool-cases, subst,
}
use lock_free_limit_order_bo.Prelude.Members.{has, ◌∈◌}
use lock_free_limit_order_bo.Order.{Ref, Price, Side, Order}
use lock_free_limit_order_bo.OrderBook.Relisted.{relisted, relisted-kept, relisted-was}
use lock_free_limit_order_bo.OrderBook.State.{Sizes, Book, order_at}
use lock_free_limit_order_bo.OrderBook.Sides.{opposite}
use lock_free_limit_order_bo.OrderBook.Fill.{Filled, less}
use lock_free_limit_order_bo.OrderBook.Traded.{filled_qty}
use lock_free_limit_order_bo.OrderMap.{OrderMap, erase}
use lock_free_limit_order_bo.OrderMap.Entries.{Entry, erase-Entry}
use lock_free_limit_order_bo.OrderBook.Index.{
  IsIndexed, Indexed, SameKey, IsIndexed-frame, IsIndexed-erase,
}
use lock_free_limit_order_bo.OrderBook.Lessened.{IsLessened}
use lock_free_limit_order_bo.OrderBook.Run.{Lists}

-- The level's list and the table after a fill, of all of the first order's shares or of a part.
module _ (z : Sizes) (read_cycles : ℕ → ℕ) (s : Side) (a o : Ref) (p : Price) (zs : List Ref)
    (all : Bool) (b : Book) (lists : Lists) where
  abbrev xs' : List Ref
  xs' = if all then zs else (o ∷ zs)

  abbrev lists' : Lists
  lists' = relisted (opposite s) p xs' lists

  abbrev table : OrderMap
  table = if all then (erase z.order_map_bits (order_at b o).id b.order_map).1 else b.order_map

  module _ {after : Book} {free free' : List Ref}
      (filled : Filled z read_cycles s p a o zs b lists free after xs' free' table) where
    -- Every order has lost some number of shares, maybe none, and nothing else.
    lost : (x : Ref) → (fill : ℕ) × (order_at after x ≡ less fill (order_at b x))
    lost x = elim (ℕ_discrete x a) [
      | yes e ↦ (
        _,
        subst (λ y. order_at after y ≡ less (filled_qty z read_cycles p a o b) (order_at b y))
            (sym e) filled.aggressor,
      )
      | no na ↦ elim (ℕ_discrete x o) [
        | yes e ↦ (
          _,
          subst (λ y. order_at after y ≡ less (filled_qty z read_cycles p a o b) (order_at b y))
              (sym e) filled.first,
        )
        | no ne_o ↦ (
          0,
          filled.others x na ne_o
              ∙ ap {A = ℕ} (λ n. record (order_at b x) { remaining = n }) (omega arith),
        )
      ]
    ]

    same_key : (x : Ref) → SameKey (order_at b x) (order_at after x)
    same_key x = let k = (lost x).1 in (ap Order.id k, ap Order.side k, ap Order.price k)

    table_all :
        all ≡ true → after.order_map ≡ (erase z.order_map_bits (order_at b o).id b.order_map).1
    table_all e = filled.map ∙ rw e refl

    table_part : all ≡ false → after.order_map ≡ b.order_map
    table_part e = filled.map ∙ rw e refl

    pub Filled-IsLessened : IsLessened z b after
    Filled-IsLessened = record {
      key = same_key;
      shares = λ x. omega (arith, ap Order.remaining (lost x).1);
      entry = λ id x i. elim (Bool-cases all) [
        | inl e ↦
            erase-Entry z.order_map_bits (order_at b o).id b.order_map id x
              (subst (λ m. Entry z.order_map_bits m.slots id x) (table_all e) i)
        | inr e ↦ subst (λ m. Entry z.order_map_bits m.slots id x) (table_part e) i
      ];
    }

    module _ (listed : lists (opposite s) p ≡ o ∷ zs) where
      -- An order that does not leave its level.
      in_xs : (x : Ref) → (x ≢ o) ⊎ (all ≡ false) → x ∈ o ∷ zs → x ∈ xs'
      in_xs x stays i = elim stays [
        | inl ne ↦ elim (Bool-cases all) [ inl e ↦ rw e (ground arith) | inr e ↦ rw e i ]
        | inr e ↦ rw e i
      ]

      in_all : (x : Ref) → x ∈ xs' → x ∈ o ∷ zs
      in_all x i = elim (Bool-cases all) [
        | inl e ↦ let j : x ∈ zs = rw e at i in ground arith
        | inr e ↦ rw e at i
      ]

      was_member :
          (t : Side) (q : Price) (x : Ref) → x ∈ lists' t q → (x ∈ lists t q) ⊎ (x ∈ a ∷ [])
      was_member t q x =
          relisted-was (opposite s) p xs' lists (a ∷ []) x
            (λ i. inl (ap (has x) listed ∙ in_all x i)) t q

      kept_place :
          (x : Ref)
          → (x ≢ o) ⊎ (all ≡ false)
          → (x ∈ lists (order_at b x).side (order_at b x).price) ⊎ (x ∈ a ∷ [])
          → (x ∈ lists' (order_at b x).side (order_at b x).price) ⊎ (x ∈ a ∷ [])
      kept_place x stays (inl i) = inl (
          relisted-kept (opposite s) p xs' lists x
            (λ j. in_xs x stays (ap (has x) (sym listed) ∙ j)) (order_at b x).side
            (order_at b x).price i)
      kept_place x stays (inr i) = inr i

      pub Filled-Indexed :
          z.order_map_bits ≤ 64 → Indexed z b lists (a ∷ []) → Indexed z after lists' (a ∷ [])
      Filled-Indexed narrow v' = elim (Bool-cases all) [
        | inl e ↦
            subst (λ m. IsIndexed z.order_map_bits m (order_at after) lists' (a ∷ []))
              (sym (table_all e))
              (IsIndexed-erase (order_at after) lists' (a ∷ []) v' same_key was_member (λ x i. i)
                narrow o (v'.ids (opposite s) p o (rw listed (ground arith)))
                (λ x ne. kept_place x (inl ne)))
        | inr e ↦
            subst (λ m. IsIndexed z.order_map_bits m (order_at after) lists' (a ∷ []))
              (sym (table_part e))
              (IsIndexed-frame (order_at after) lists' (a ∷ []) v' same_key was_member (λ x i. i)
                (λ id x ne f. kept_place x (inr e) (v'.found id x ne f).1))
      ]
