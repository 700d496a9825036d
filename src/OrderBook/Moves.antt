-- ===== src/OrderBook/Moves.antt =====
-- The changes of one level that the operations make: an order gets fewer shares, leaves its level,
-- or joins it.
use lock_free_limit_order_bo.Prelude.{
  ℕ, ◌+◌, ◌%◌, ◌<◌, ◌≡◌, ◌≢◌, refl, ap, ◌∙◌, arith, List, ◌∷◌, ◌++◌, update, subst, length,
  Bool-cases, inl, inr,
}
use lock_free_limit_order_bo.Prelude.Words.{u64_mod, sub64}
use lock_free_limit_order_bo.Prelude.Members.{
  has, ◌∈◌, ◌∉◌, Distinct-drop, has-append, has-middle, has-rest, length-Distinct,
}
use lock_free_limit_order_bo.Order.{Ref, Price, Side, Order, Cells, set_order}
use lock_free_limit_order_bo.PriceLevel.{PriceLevel, remove}
use lock_free_limit_order_bo.PriceLevel.Valid.{
  IsLevel, IsLevel-frame, IsLevel-less, less_shares, shares, shares-append,
}
use lock_free_limit_order_bo.PriceLevel.Remove.{remove-IsLevel}
use lock_free_limit_order_bo.OrderPool.{OrderPool, release}
use lock_free_limit_order_bo.OrderPool.FreeList.{IsPool, FreeList-frame, release-IsPool}
use lock_free_limit_order_bo.OrderBook.Totals.{shares-same}
use lock_free_limit_order_bo.OrderBook.Whole.{IsBook, Change, IsBook-frame}

-- Cells that differ in links outside the free list make no difference to it.
pub IsPool-frame :
    {size : ℕ} {pool : OrderPool} {free : List Ref} (c : Cells)
    → IsPool size pool free
    → ((a : Ref) → a ∈ free → c.next a ≡ pool.cells.next a)
    → IsPool size (record pool { cells = c }) free
IsPool-frame c v same = record {
  chain = FreeList-frame v.chain same;
  distinct = v.distinct;
  in_range = v.in_range;
  counted = v.counted;
  small = v.small;
}

-- There are fewer free orders than the array has, if one is not free.
pub length-free :
    {size : ℕ} {pool : OrderPool} {free : List Ref} {o : Ref}
    → IsPool size pool free
    → o ∉ free
    → o < size
    → length free < size
length-free {size} {free} {o} v out inside =
    omega
      (arith, length-Distinct size (o ∷ free) (out, v.distinct) λ a i. ground (arith, v.in_range a))

module _ {size max : ℕ} {pool : OrderPool} {levels : Side → Price → PriceLevel} {totals : Side → ℕ}
    {lists : Side → Price → List Ref} {free : List Ref}
    (v : IsBook size max pool levels totals lists free) where
  -- Another order is written to a cell that is in no list.
  pub written-IsBook :
      (o : Ref) (w : Order)
      → ((s : Side) (p : Price) → o ∉ lists s p)
      → IsBook size max (record pool { cells = set_order o w pool.cells }) levels totals lists free
  written-IsBook o w out =
      IsBook-frame size max v (record pool { cells = set_order o w pool.cells }) free
        (IsPool-frame (set_order o w pool.cells) v.is_pool (λ a i. refl))
        (λ t q a i. ((ground (arith, out t q), refl, refl), (v.used t q a i).0))

  module _ (s : Side) (p : Price) (o : Ref) (ys zs : List Ref)
      (listed : lists s p ≡ ys ++ o ∷ zs) where
    at_level : IsLevel pool.cells (levels s p) (ys ++ o ∷ zs)
    at_level = subst (IsLevel pool.cells (levels s p)) listed (v.level s p)

    member : (a : Ref) → a ∈ ys ++ o ∷ zs → a ∈ lists s p
    member a i = rw listed i

    apart_parts : (o ∉ ys) × (o ∉ zs)
    apart_parts =
        let out = (Distinct-drop ys o zs at_level.distinct).1 in
        (ground (arith, has-append o ys zs), ground (arith, has-append o ys zs))

    less_sums :
        (w : Order)
        → let f = pool.cells.order in
          let g = update f o w in
          (shares g ys ≡ shares f ys)
          × (shares g zs ≡ shares f zs)
          × ((g o).remaining ≡ w.remaining)
    less_sums w = (
      shares-same pool.cells.order (update pool.cells.order o w) ys
          (λ a i. ground (arith, apart_parts.0)),
      shares-same pool.cells.order (update pool.cells.order o w) zs
          (λ a i. ground (arith, apart_parts.1)),
      ground arith,
    )

    -- The order gets fewer shares, and keeps its side and price.
    pub lessened-Change :
        (w : Order) (delta : ℕ)
        → w.side ≡ (pool.cells.order o).side
        → w.price ≡ (pool.cells.order o).price
        → w.remaining + delta ≡ (pool.cells.order o).remaining
        → Change size max pool levels totals lists s p
            (record pool { cells = set_order o w pool.cells })
            (less_shares delta (levels s p))
            (sub64 (totals s) delta)
            (lists s p)
            free
    lessened-Change w delta side price fewer =
        let i = member o (has-middle o ys zs) in
        let less =
          IsLevel-less {g = set_order o w pool.cells} o ys zs delta at_level (λ a j. (refl, refl))
            (λ a ne. ground arith) (ground arith) (v.used s p o i).2 in
        record {
          is_pool = IsPool-frame (set_order o w pool.cells) v.is_pool (λ a j. refl);
          level = rw listed less;
          placed = λ a j. ground (arith, v.placed s p a j);
          used = λ a j. ground (arith, v.used s p a j);
          in_range = v.in_range s p o i;
          others = λ t q a j out. ((ground arith, refl, refl), (v.used t q a j).0);
          small = omega arith;
          total = omega (
            arith,
            v.total s,
            ap (shares pool.cells.order) listed,
            ap (shares (update pool.cells.order o w)) listed,
            shares-append pool.cells.order ys (o ∷ zs),
            shares-append (update pool.cells.order o w) ys (o ∷ zs),
            (less_sums w).0,
            (less_sums w).1,
            (less_sums w).2,
            fewer,
            (v.used s p o i).2,
          );
        }

    kept : (a : Ref) → a ∈ ys ++ zs → (a ∈ lists s p) × (a ≢ o)
    kept a i = (
      member a (has-rest a o ys zs i),
      ground (
        arith,
        (Distinct-drop ys o zs at_level.distinct).1,
        ap (λ b. has b (ys ++ zs)) {x = a} {y = o},
      ),
    )

    free_apart : (a : Ref) → a ∈ free → (a ∉ ys ++ zs) × (a ≢ o)
    free_apart a j = (
      elim (Bool-cases (has a (ys ++ zs))) [
        | inl i ↦ absurd (ground (arith, (v.used s p a (kept a i).0).0))
        | inr out ↦ out
      ],
      λ e. ground (arith, (v.used s p o (member o (has-middle o ys zs))).0, ap (λ b. has b free) e),
    )

    -- The order leaves its level and is free again.
    pub removed-Change :
        (total' : ℕ)
        → total' < u64_mod
        → (total' + (pool.cells.order o).remaining) % u64_mod ≡ totals s
        → let (c, l) = remove o pool.cells (levels s p) in
          Change size max pool levels totals lists s p
            (release o (record pool { cells = c }))
            l
            total'
            (ys ++ zs)
            (o ∷ free)
    removed-Change total' small sum =
        let i = member o (has-middle o ys zs) in
        let inside = v.used s p o i in
        let (c, l) = remove o pool.cells (levels s p) in
        let (level, frame, _, _) = remove-IsLevel ys zs at_level inside.2 in
        let next_free =
          λ (a : Ref) (j : a ∈ free). frame.same_next a (free_apart a j).0 (free_apart a j).1 in
        let (is_pool, same, links) =
          release-IsPool (IsPool-frame c v.is_pool next_free) inside.0 inside.1
            (length-free v.is_pool inside.0 inside.1) in
        record {
          is_pool = is_pool;
          level =
              IsLevel-frame level (λ a j. links a (kept a j).1)
                (λ a j. ap (λ f. (f a).remaining) same);
          placed = λ a j. rw (same, frame.same_order) (v.placed s p a (kept a j).0);
          used = λ a j.
              let (k, ne) = kept a j in
              rw (same, frame.same_order) (ground (arith, v.used s p a k));
          in_range = v.in_range s p o i;
          others = λ t q a j out.
              let ne : a ≢ o = ground (arith, i, ap (λ b. has b (lists s p)) {x = a} {y = o}) in
              let gone : a ∉ ys ++ zs = ground (arith, ap (has a) listed, has-rest a o ys zs) in
              let (n, m) = links a ne in
              (
                (
                  ap (λ f. f a) (same ∙ frame.same_order),
                  n ∙ frame.same_next a gone ne,
                  m ∙ frame.same_prev a gone ne,
                ),
                ground (arith, (v.used t q a j).0),
              );
          small = small;
          total =
              rw (same, frame.same_order)
                (omega (
                  arith,
                  v.total s,
                  sum,
                  small,
                  ap (shares pool.cells.order) listed,
                  shares-append pool.cells.order ys (o ∷ zs),
                  shares-append pool.cells.order ys zs,
                ));
        }

    -- Its data and those of the other orders stay as they are.
    pub removed-order :
        let (c, l) = remove o pool.cells (levels s p) in
        (release o (record pool { cells = c })).cells.order ≡ pool.cells.order
    unfolding release
    removed-order =
        (remove-IsLevel ys zs at_level
          (v.used s p o (member o (has-middle o ys zs))).2).1.same_order
