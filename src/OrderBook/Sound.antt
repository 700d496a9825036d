-- ===== src/OrderBook/Sound.antt =====
-- Books whose table and lists agree, and the commands.
use lock_free_limit_order_bo.Prelude.{
  ◌⊎◌, ◌-◌, ℕ, ◌^◌, ◌≤◌, ◌<◌, ◌≡◌, ◌≢◌, ◌==◌, ◌&&◌, none, some, refl, ap, sym, ◌∙◌, arith, leb, ltb,
  List, [], ◌∷◌, ◌++◌, subst, update, Bool-cases, Option-cases, inl, inr, ==_iff, ==_self,
}
use lock_free_limit_order_bo.Prelude.Words.{u32_mod}
use lock_free_limit_order_bo.Prelude.Members.{has, ◌∈◌, has-split, has-append, has-rest}
use lock_free_limit_order_bo.Order.{OrderId, Ref, Price, Quantity, Side, Order}
use lock_free_limit_order_bo.OrderMap.{empty_key, find, erase}
use lock_free_limit_order_bo.OrderMap.Table.{find-erase, insert-IsTable}
use lock_free_limit_order_bo.OrderPool.FreeList.{FreeList-uncons}
use lock_free_limit_order_bo.OrderBook.Relisted.{relisted, relisted-kept, relisted-was}
use lock_free_limit_order_bo.OrderBook.State.{Sizes, Book, order_at}
use lock_free_limit_order_bo.OrderBook.Operations.{
  add_order, cancel_order, modify_order, take_out, reduce,
}
use lock_free_limit_order_bo.OrderBook.Whole.{IsWhole}
use lock_free_limit_order_bo.OrderBook.Moves.{removed-order, lessened-Change}
use lock_free_limit_order_bo.OrderBook.Traded.{Replaced-IsWhole, set_side-update_same}
use lock_free_limit_order_bo.OrderBook.Run.{Lists}
use lock_free_limit_order_bo.OrderBook.Level.{List-cases}
use lock_free_limit_order_bo.OrderBook.Index.{
  SameKey, IsIndexed, Indexed, IsIndexed-frame, IsIndexed-erase,
}
use lock_free_limit_order_bo.OrderBook.Entry.{add_order-out, add_order-exhausted}
use lock_free_limit_order_bo.OrderBook.Reach.{BestsInRange}
use lock_free_limit_order_bo.OrderBook.Accept.{add_order-Accepted}
use lock_free_limit_order_bo.OrderBook.Withdraw.{
  take_out-Replaced, take_out-bests, take_out-IsWhole, reduce-Replaced,
}

-- A list that an order leaves.
module _ (s : Side) (p : Price) (o : Ref) (ys zs : List Ref) (lists : Lists)
    (listed : lists s p ≡ ys ++ o ∷ zs) where
  abbrev left : Lists
  left = relisted s p (ys ++ zs) lists

  left-kept : (x : Ref) → x ≢ o → (t : Side) (q : Price) → x ∈ lists t q → x ∈ left t q
  left-kept x ne = relisted-kept s p (ys ++ zs) lists x λ i.
      let j : x ∈ ys ++ o ∷ zs = ap (has x) (sym listed) ∙ i in
      ground (arith, has-append x ys zs, has-append x ys (o ∷ zs))

  left-was : (t : Side) (q : Price) (x : Ref) → x ∈ left t q → (x ∈ lists t q) ⊎ (x ∈ [])
  left-was t q x =
      relisted-was s p (ys ++ zs) lists [] x (λ j. inl (ap (has x) listed ∙ has-rest x o ys zs j)) t
        q

module _ (z : Sizes) (read_cycles : ℕ → ℕ) (narrow : z.order_map_bits ≤ 64) where
  -- The book stands for lists of orders, its best prices are in range, and its table has orders of the
  -- lists by their ids.
  pub record IsSound (b : Book) : Type 0 where
    pub lists : Lists
    pub free : List Ref
    pub whole : IsWhole z b lists free
    pub bests : BestsInRange z read_cycles b
    pub index : Indexed z b lists []

  -- Ids that the table is made for: not 0, and below its number of slots.
  abbrev pub GoodId : OrderId → Type 0
  GoodId id = (id ≢ empty_key) × (id < 2 ^ z.order_map_bits)

  pub add_order-IsSound :
      (id : OrderId) (price : Price) (qty : Quantity) (side : Side) (b : Book)
      → IsSound b
      → GoodId id
      → find z.order_map_bits id b.order_map ≡ none
      → qty < u32_mod
      → IsSound (add_order z read_cycles id price qty side b).1
  add_order-IsSound id price qty side b v good fresh small =
      elim (Bool-cases (leb z.max_price_levels price)) [
        | inl e ↦ rw (add_order-out z read_cycles id price qty side b e) v
        | inr e ↦ elim (List-cases v.free) [
          | inl f ↦
              rw
                (add_order-exhausted z read_cycles id price qty side b
                  (subst (IsWhole z b v.lists) f v.whole) (ground arith))
                v
          | inr (o, free, f) ↦
              let w = subst (IsWhole z b v.lists) f v.whole in
              let room =
                (insert-IsTable z.order_map_bits narrow b.order_map v.index.table id good.0 o good.1
                  fresh).0 in
              let r =
                (add_order-Accepted z read_cycles id price qty side b w v.bests (ground arith) small
                  (FreeList-uncons w.is_pool.chain).0 room).1 in
              record {
                lists = r.lists_now;
                free = r.free_now;
                whole = r.whole;
                bests = r.bests;
                index = r.index narrow good.0 good.1 fresh v.index;
              }
        ]
      ]

  -- An order in the table is in a list.
  pub found_listed :
      (b : Book) (v : IsSound b) (id : OrderId) (o : Ref)
      → id ≢ empty_key
      → find z.order_map_bits id b.order_map ≡ some o
      → ((order_at b o).id ≡ id) × (o ∈ v.lists (order_at b o).side (order_at b o).price)
  found_listed b v id o ne e = elim (v.index.found id o ne e).1 [
    | inl i ↦ ((v.index.found id o ne e).0, i)
    | inr i ↦ absurd (ground arith)
  ]

  take_out-IsSound :
      (id : OrderId) (o : Ref) (b : Book) (v : IsSound b)
      → id ≢ empty_key
      → find z.order_map_bits id b.order_map ≡ some o
      → IsSound (take_out z (order_at b o).side (order_at b o).price id o b)
  take_out-IsSound id o b v ne e =
      let s = (order_at b o).side in
      let p = (order_at b o).price in
      let (own_id, i) = found_listed b v id o ne e in
      let (ys, zs, f) = has-split o (v.lists s p) i in
      let b' = take_out z s p id o b in
      let (r, _, _, om) = take_out-Replaced z s p id o b in
      let same = λ (x : Ref).
        ap (λ k. k.cells.order x) r.pool_now
        ∙ ap (λ g. g x) (removed-order v.whole s p o ys zs f) in
      record {
        lists = left s p o ys zs v.lists f;
        free = o ∷ v.free;
        whole = take_out-IsWhole z read_cycles s p id o ys zs b v.whole f;
        bests = take_out-bests z read_cycles s p id o b v.bests;
        index =
            subst (λ m. IsIndexed z.order_map_bits m (order_at b') (left s p o ys zs v.lists f) [])
              (ap (λ j. (erase z.order_map_bits j b.order_map).1) own_id ∙ sym om)
              (IsIndexed-erase (order_at b') (left s p o ys zs v.lists f) [] v.index
                (λ x. (ap Order.id (same x), ap Order.side (same x), ap Order.price (same x)))
                (left-was s p o ys zs v.lists f) (λ x j. j) narrow o (λ k. ne (sym own_id ∙ k))
                (λ x x_ne place. elim place [
                  | inl j ↦ inl (
                      left-kept s p o ys zs v.lists f x x_ne (order_at b x).side
                        (order_at b x).price j)
                  | inr j ↦ inr j
                ]));
      }

  pub cancel_order-IsSound :
      (id : OrderId) (b : Book) → IsSound b → id ≢ empty_key → IsSound (cancel_order z id b).1
  unfolding cancel_order
  cancel_order-IsSound id b v ne = elim (Option-cases (find z.order_map_bits id b.order_map)) [
    | inl e ↦ rw (cancel_order, e) v
    | inr (o, e) ↦ rw (cancel_order, e) (take_out-IsSound id o b v ne e)
  ]

  -- A cancelled id is free again.
  pub cancelled-none :
      (id : OrderId) (b : Book) (o : Ref)
      → IsSound b
      → id ≢ empty_key
      → find z.order_map_bits id b.order_map ≡ some o
      → find z.order_map_bits id (cancel_order z id b).1.order_map ≡ none
  unfolding cancel_order
  cancelled-none id b o v ne e =
      let (_, _, _, om) = take_out-Replaced z (order_at b o).side (order_at b o).price id o b in
      rw (cancel_order, e)
        (ap (find z.order_map_bits id) om
          ∙ find-erase z.order_map_bits narrow b.order_map v.index.table id ne id ne
          ∙ rw ==_self refl)

  -- An order written with its old key.
  written_key :
      (b : Book) (o : Ref) (w : Order)
      → SameKey (order_at b o) w
      → (x : Ref) → SameKey (order_at b x) (update (order_at b) o w x)
  written_key b o w k x = elim (Bool-cases (o == x)) [
    | inl e ↦ rw e (subst (λ y. SameKey (order_at b y) w) ((==_iff o x).0 e) k)
    | inr e ↦ rw e (refl, refl, refl)
  ]

  reduce-IsSound :
      (id : OrderId) (o : Ref) (new_qty : Quantity) (b : Book) (v : IsSound b)
      → o ∈ v.lists (order_at b o).side (order_at b o).price
      → new_qty < (order_at b o).remaining
      → IsSound (reduce z read_cycles (order_at b o).side id o new_qty b)
  reduce-IsSound id o new_qty b v i fewer =
      let s = (order_at b o).side in
      let p = (order_at b o).price in
      let w : Order = record (order_at b o) { remaining = new_qty; quantity = new_qty } in
      let b' = reduce z read_cycles s id o new_qty b in
      let (r, levels, total, bid, ask, om) = reduce-Replaced z read_cycles s id o new_qty b in
      let (ys, zs, f) = has-split o (v.lists s p) i in
      let same = λ (x : Ref). ap (λ k. k.cells.order x) r.pool_now in
      record {
        lists = v.lists;
        free = v.free;
        whole =
            subst (λ ls. IsWhole z b' ls v.free) (set_side-update_same s v.lists p)
              (Replaced-IsWhole z s v.whole r levels total (
                lessened-Change v.whole s p o ys zs f w ((order_at b o).remaining - new_qty) refl
                  refl (omega arith)));
        bests = (omega (arith, bid, v.bests.0), omega (arith, ask, v.bests.1));
        index =
            subst (λ m. IsIndexed z.order_map_bits m (order_at b') v.lists []) (sym om)
              (IsIndexed-frame (order_at b') v.lists [] v.index
                (λ x.
                  subst (SameKey (order_at b x)) (sym (same x))
                    (written_key b o w (refl, refl, refl) x))
                (λ t q x j. inl j) (λ x j. j) (λ k x ne e. (v.index.found k x ne e).1));
      }

  pub modify_order-IsSound :
      (id : OrderId) (new_price : Price) (new_qty : Quantity) (b : Book)
      → IsSound b
      → GoodId id
      → new_qty < u32_mod
      → IsSound (modify_order z read_cycles id new_price new_qty b).1
  unfolding modify_order
  modify_order-IsSound id new_price new_qty b v good small =
      elim (Option-cases (find z.order_map_bits id b.order_map)) [
        | inl e ↦ rw (modify_order, e) v
        | inr (o, e) ↦
            elim (Bool-cases
              (new_price == (order_at b o).price && ltb new_qty (order_at b o).remaining)) [
                | inl f ↦
                    rw (modify_order, e, f)
                      (reduce-IsSound id o new_qty b v (found_listed b v id o good.0 e).1
                        (ground arith))
                | inr f ↦
                    rw (modify_order, e, f)
                      (add_order-IsSound id new_price new_qty (order_at b o).side
                        (cancel_order z id b).1 (cancel_order-IsSound id b v good.0) good
                        (cancelled-none id b o v good.0 e) small)
              ]
      ]
