-- ===== src/OrderBook/Joins.antt =====
-- The orders outside the levels: one is acquired, released, or joins its level.
use lock_free_limit_order_bo.Prelude.{
  ◌≡◌, Option, some, ℕ, ◌<◌, ◌≢◌, ◌==◌, ap, arith, List, [], ◌∷◌, ◌++◌, subst, Bool-cases, inl, inr,
  ==_iff,
}
use lock_free_limit_order_bo.Prelude.Words.{u32_mod, add64}
use lock_free_limit_order_bo.Prelude.Members.{has, ◌∈◌, ◌∉◌, has-append}
use lock_free_limit_order_bo.Order.{Ref, Price, Side}
use lock_free_limit_order_bo.PriceLevel.{PriceLevel, push_back}
use lock_free_limit_order_bo.PriceLevel.Valid.{shares-append}
use lock_free_limit_order_bo.PriceLevel.Push.{push_back-IsLevel}
use lock_free_limit_order_bo.OrderPool.{OrderPool, acquire, release}
use lock_free_limit_order_bo.OrderPool.FreeList.{
  nil, FreeList-uncons, acquire-IsPool, release-IsPool,
}
use lock_free_limit_order_bo.OrderBook.State.{Sizes, Book}
use lock_free_limit_order_bo.OrderBook.Whole.{
  Placed, IsBook, IsWhole, IsLoose, Change, IsBook-frame,
}
use lock_free_limit_order_bo.OrderBook.Moves.{IsPool-frame, length-free}

-- If the free list has a first order, the free orders are that one and others.
pub IsWhole-uncons :
    (z : Sizes) {b : Book} {o : Ref} {lists : Side → Price → List Ref} (free : List Ref)
    → IsWhole z b lists free
    → b.pool.free_head ≡ some o
    → (rest : List Ref) × IsWhole z b lists (o ∷ rest)
IsWhole-uncons z [] v e = absurd (elim v.is_pool.chain [ nil f ↦ cc ])
IsWhole-uncons z {b} {lists = lists} (x ∷ rest) v e = (
  rest,
  subst (λ y. IsWhole z b lists (y ∷ rest)) (some_inj ((FreeList-uncons v.is_pool.chain).0) e) v,
)
  where
    some_inj : {m : Option Ref} {x y : Ref} → m ≡ some x → m ≡ some y → x ≡ y
    some_inj f g = cc

module _ {size max : ℕ} {pool : OrderPool} {levels : Side → Price → PriceLevel} {totals : Side → ℕ}
    {lists : Side → Price → List Ref} where
  pub acquired-IsBook :
      {o : Ref} {free : List Ref}
      → IsBook size max pool levels totals lists (o ∷ free)
      → IsBook size max (acquire pool).1 levels totals lists free × IsLoose size max lists free o
  acquired-IsBook {o} {free} v =
      let (_, is_pool, orders, links) = acquire-IsPool v.is_pool in
      (
        IsBook-frame size max v (acquire pool).1 free is_pool (λ t q a i.
            let u = (v.used t q a i).0 in
            (
              (ap (λ f. f a) orders, (links a (ground arith)).0, (links a (ground arith)).1),
              ground arith,
            )),
        record {
          not_free = v.is_pool.distinct.0;
          inside = v.is_pool.in_range o (ground arith);
          unlisted = λ s p. elim (Bool-cases (has o (lists s p))) [
            | inl i ↦ absurd (ground (arith, (v.used s p o i).0))
            | inr out ↦ out
          ];
        },
      )

  module _ {free : List Ref} {o : Ref} (v : IsBook size max pool levels totals lists free)
      (loose : IsLoose size max lists free o) where
    ne_loose : (t : Side) (q : Price) (a : Ref) → a ∈ lists t q → a ≢ o
    ne_loose t q a i e = ground (arith, loose.unlisted t q, ap (λ b. has b (lists t q)) e)

    pub released-IsBook : IsBook size max (release o pool) levels totals lists (o ∷ free)
    released-IsBook =
        let (is_pool, orders, links) =
          release-IsPool v.is_pool loose.not_free loose.inside
            (length-free v.is_pool loose.not_free loose.inside) in
        IsBook-frame size max v (release o pool) (o ∷ free) is_pool (λ t q a i.
          let ne = ne_loose t q a i in
          (
            (ap (λ f. f a) orders, (links a ne).0, (links a ne).1),
            ground (arith, (v.used t q a i).0),
          ))

    -- What holds of it and of the orders of a list holds of the longer list.
    each :
        {P : Ref → Type 0} (xs : List Ref)
        → ((a : Ref) → a ∈ xs → P a)
        → P o
        → (a : Ref) → a ∈ xs ++ o ∷ []
        → P a
    each {P} xs all own a i = elim (Bool-cases (o == a)) [
      | inl e ↦ subst P ((==_iff o a).0 e) own
      | inr e ↦ all a (ground (arith, has-append a xs (o ∷ [])))
    ]

    free_apart : (s : Side) (p : Price) (a : Ref) → a ∈ free → (a ∉ lists s p) × (a ≢ o)
    free_apart s p a j = (
      elim (Bool-cases (has a (lists s p))) [
        | inl i ↦ absurd (ground (arith, (v.used s p a i).0))
        | inr out ↦ out
      ],
      λ e. ground (arith, loose.not_free, ap (λ b. has b free) e),
    )

    -- The order joins the end of the level that it belongs to.
    pub joined-Change :
        (s : Side) (p : Price)
        → p < max
        → Placed pool.cells.order s p o
        → (pool.cells.order o).remaining < u32_mod
        → let (c, l) = push_back o pool.cells (levels s p) in
          Change size max pool levels totals lists s p
            (record pool { cells = c })
            l
            (add64 (totals s) (c.order o).remaining)
            (lists s p ++ o ∷ [])
            free
    joined-Change s p inside placed small =
        let (c, l) = push_back o pool.cells (levels s p) in
        let (level, frame) = push_back-IsLevel (v.level s p) (loose.unlisted s p) in
        record {
          is_pool =
              IsPool-frame c v.is_pool
                (λ a j. frame.same_next a (free_apart s p a j).0 (free_apart s p a j).1);
          level = level;
          placed =
              each (lists s p) (λ a j. rw frame.same_order (v.placed s p a j))
                (rw frame.same_order placed);
          used =
              each (lists s p) (λ a j. rw frame.same_order (v.used s p a j))
                (rw frame.same_order (loose.not_free, loose.inside, small));
          in_range = inside;
          others = λ t q a j out.
              let ne = ne_loose t q a j in
              (
                (
                  ap (λ f. f a) frame.same_order,
                  frame.same_next a out ne,
                  frame.same_prev a out ne,
                ),
                (v.used t q a j).0,
              );
          small = omega arith;
          total =
              rw frame.same_order
                (omega (arith, v.total s, shares-append pool.cells.order (lists s p) (o ∷ [])));
        }
