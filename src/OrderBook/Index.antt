-- ===== src/OrderBook/Index.antt =====
-- The orders that the table finds, and those of the lists.
use lock_free_limit_order_bo.Prelude.{
  ℕ, ◌≤◌, ◌≡◌, ◌≢◌, ◌⊎◌, ◌==◌, none, some, ap, sym, ◌∙◌, arith, List, Bool-cases, inl, inr,
}
use lock_free_limit_order_bo.Prelude.Members.{◌∈◌}
use lock_free_limit_order_bo.Order.{OrderId, Ref, Price, Side, Order}
use lock_free_limit_order_bo.OrderMap.{OrderMap, empty_key, find, erase}
use lock_free_limit_order_bo.OrderBook.State.{Sizes, Book, order_at}
use lock_free_limit_order_bo.OrderMap.Table.{IsTable, erase-IsTable, find-erase}

-- What the table has for an id is the order with that id in the list of its side and price, or one of
-- those outside the lists. `loose` holds the incoming order.
pub record IsIndexed (k : ℕ) (m : OrderMap) (order : Ref → Order) (lists : Side → Price → List Ref)
    (loose : List Ref) : Type 0 where
  pub table : IsTable k m
  pub found :
      (id : OrderId) (o : Ref)
      → id ≢ empty_key
      → find k id m ≡ some o
      → ((order o).id ≡ id) × ((o ∈ lists (order o).side (order o).price) ⊎ (o ∈ loose))
  pub ids : (s : Side) (p : Price) (o : Ref) → o ∈ lists s p → (order o).id ≢ empty_key
  pub loose_ids : (o : Ref) → o ∈ loose → (order o).id ≢ empty_key

-- The same of a book.
abbrev pub Indexed : Sizes → Book → (Side → Price → List Ref) → List Ref → Type 0
Indexed z b lists loose = IsIndexed z.order_map_bits b.order_map (order_at b) lists loose

-- The data of an order by which the table and the lists know it.
abbrev pub SameKey : Order → Order → Type 0
SameKey x y = (y.id ≡ x.id) × (y.side ≡ x.side) × (y.price ≡ x.price)

module _ {k : ℕ} {m : OrderMap} {f : Ref → Order} {lists : Side → Price → List Ref}
    {loose : List Ref} (g : Ref → Order) (lists' : Side → Price → List Ref) (loose' : List Ref)
    (v : IsIndexed k m f lists loose) (same : (o : Ref) → SameKey (f o) (g o))
    (fewer : (s : Side) (p : Price) (o : Ref) → o ∈ lists' s p → (o ∈ lists s p) ⊎ (o ∈ loose))
    (fewer_loose : (o : Ref) → o ∈ loose' → o ∈ loose) where
  kept_ids : (s : Side) (p : Price) (o : Ref) → o ∈ lists' s p → (g o).id ≢ empty_key
  kept_ids s p o i e =
      let f_empty = sym (same o).0 ∙ e in
      elim (fewer s p o i) [ inl j ↦ v.ids s p o j f_empty | inr j ↦ v.loose_ids o j f_empty ]

  kept_loose_ids : (o : Ref) → o ∈ loose' → (g o).id ≢ empty_key
  kept_loose_ids o i e = v.loose_ids o (fewer_loose o i) (sym (same o).0 ∙ e)

  -- Lists with the same orders, and the loose ones.
  pub IsIndexed-frame :
      ((id : OrderId) (o : Ref)
        → id ≢ empty_key
        → find k id m ≡ some o
        → (o ∈ lists' (f o).side (f o).price) ⊎ (o ∈ loose'))
      → IsIndexed k m g lists' loose'
  IsIndexed-frame kept = record {
    table = v.table;
    found = λ id o ne e.
        let (i, s, p) = same o in (i ∙ (v.found id o ne e).0, rw (s, p) (kept id o ne e));
    ids = kept_ids;
    loose_ids = kept_loose_ids;
  }

  -- The same without one order, whose id is erased.
  pub IsIndexed-erase :
      k ≤ 64
      → (a : Ref) → (f a).id ≢ empty_key
      → ((o : Ref)
          → o ≢ a
          → (o ∈ lists (f o).side (f o).price) ⊎ (o ∈ loose)
          → (o ∈ lists' (f o).side (f o).price) ⊎ (o ∈ loose'))
      → IsIndexed k (erase k (f a).id m).1 g lists' loose'
  IsIndexed-erase narrow a ne kept = record {
    table = erase-IsTable k narrow m v.table (f a).id ne;
    found = λ id o full e. elim (Bool-cases ((f a).id == id)) [
      | inl h ↦
          absurd (gone (sym (rw h at (find-erase k narrow m v.table (f a).id ne id full)) ∙ e))
      | inr h ↦
          let (fid, place) =
            v.found id o full
              (sym (rw h at (find-erase k narrow m v.table (f a).id ne id full)) ∙ e) in
          let (i, s, p) = same o in
          let other : o ≢ a = λ eq. ground (arith, h, fid, ap (λ x. (f x).id) eq) in
          (i ∙ fid, rw (s, p) (kept o other place))
    ];
    ids = kept_ids;
    loose_ids = kept_loose_ids;
  }
    where
      gone : {o : Ref} → none ≢ some o
      gone h = cc
