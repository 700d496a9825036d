-- ===== src/OrderBook/Follows.antt =====
-- Where the orders that the table finds after an operation come from.
use lock_free_limit_order_bo.Prelude.{
  ℕ, ◌≤◌, ◌<◌, ◌≡◌, ◌≢◌, ◌⊎◌, true, false, none, some, refl, ap, sym, ◌∙◌, arith, leb, List, ◌∷◌,
  subst, inl, inr, Bool-cases,
}
use lock_free_limit_order_bo.Prelude.Words.{u32_mod}
use lock_free_limit_order_bo.Prelude.Members.{◌∈◌}
use lock_free_limit_order_bo.Order.{OrderId, Ref, Price, Quantity, Side, Order}
use lock_free_limit_order_bo.OrderMap.{empty_key, find}
use lock_free_limit_order_bo.OrderMap.Entries.{find-Entry, Entry-find, insert-Entry}
use lock_free_limit_order_bo.OrderMap.Table.{insert-IsTable}
use lock_free_limit_order_bo.OrderPool.FreeList.{FreeList-uncons}
use lock_free_limit_order_bo.OrderBook.State.{Sizes, Book, order_at}
use lock_free_limit_order_bo.OrderBook.Operations.{add_order}
use lock_free_limit_order_bo.OrderBook.Whole.{IsWhole}
use lock_free_limit_order_bo.OrderBook.Index.{SameKey}
use lock_free_limit_order_bo.OrderBook.Level.{List-cases}
use lock_free_limit_order_bo.OrderBook.Rests.{new_order, entered}
use lock_free_limit_order_bo.OrderBook.Entry.{
  add_order-out, add_order-exhausted, entered-IsLoose, order_at-entered,
}
use lock_free_limit_order_bo.OrderBook.Lessened.{IsLessened}
use lock_free_limit_order_bo.OrderBook.Accept.{add_order-Accepted}
use lock_free_limit_order_bo.OrderBook.Sound.{IsSound, GoodId, add_order-IsSound, found_listed}

pub some_inj : {x y : Ref} → some x ≡ some y → x ≡ y
some_inj e = cc

pub none-ne-some : {x : Ref} → none ≢ some x
none-ne-some e = cc

module _ (z : Sizes) where
  -- What the table finds under `j` was found there before, and has at most the shares that it had.
  pub record Was (b b' : Book) (j : OrderId) (x : Ref) : Type 0 where
    pub found : find z.order_map_bits j b.order_map ≡ some x
    pub key : SameKey (order_at b x) (order_at b' x)
    pub shares : (order_at b' x).remaining ≤ (order_at b x).remaining

  -- It has this side and price, and at most so many shares.
  pub record Holds (b : Book) (x : Ref) (side : Side) (price : Price) (qty : Quantity)
      : Type 0 where
    pub same_side : (order_at b x).side ≡ side
    pub same_price : (order_at b x).price ≡ price
    pub at_most : (order_at b x).remaining ≤ qty

  -- Under one id an order of a side, a price and so many shares at most; under the others as before.
  abbrev pub Follows : OrderId → Side → Price → Quantity → Book → Book → Type 0
  Follows id side price qty b b' =
      (j : OrderId) (x : Ref)
      → j ≢ empty_key
      → find z.order_map_bits j b'.order_map ≡ some x
      → ((j ≡ id) × Holds b' x side price qty) ⊎ ((j ≢ id) × Was b b' j x)

  pub Was-trans : (b c d : Book) (j : OrderId) (x : Ref) → Was b c j x → Was c d j x → Was b d j x
  Was-trans b c d j x v w =
      let (n, s, p) = v.key in
      let (n', s', p') = w.key in
      record {
        found = v.found;
        key = (n' ∙ n, s' ∙ s, p' ∙ p);
        shares = omega (arith, v.shares, w.shares);
      }

  pub Was-refl :
      (b : Book) (j : OrderId) (x : Ref)
      → find z.order_map_bits j b.order_map ≡ some x
      → Was b b j x
  Was-refl b j x e = record { found = e; key = (refl, refl, refl); shares = omega arith }

module _ (z : Sizes) (read_cycles : ℕ → ℕ) (narrow : z.order_map_bits ≤ 64) where
  -- From an acceptance to the orders found after it.
  accepted-Follows :
      (id : OrderId) (price : Price) (qty : Quantity) (side : Side) (b b' : Book)
      (v : IsSound z read_cycles narrow b)
      → IsSound z read_cycles narrow b'
      → find z.order_map_bits id b.order_map ≡ none
      → (o : Ref) (free : List Ref) → IsWhole z b v.lists (o ∷ free)
      → IsLessened z (entered z read_cycles id price qty side o b) b'
      → Follows z id side price qty b b'
  accepted-Follows id price qty side b b' v v' fresh o free w less j x ne e =
      elim (insert-Entry z.order_map_bits id o b.order_map j x (
        less.entry j x (find-Entry z.order_map_bits narrow b'.order_map v'.index.table j x ne e))) [
          | inl i ↦
              let f = Entry-find z.order_map_bits narrow b.order_map v.index.table j x ne i in
              inr (
                (λ h.
                    none-ne-some
                      (sym fresh ∙ ap (λ k. find z.order_map_bits k b.order_map) (sym h) ∙ f)),
                was f (found_listed z read_cycles narrow b v j x ne f).1,
              )
          | inr (same, here) ↦ inl (same, subst (λ y. Holds z b' y side price qty) (sym here) new)
        ]
    where
      start : Book
      start = entered z read_cycles id price qty side o b

      now : order_at start o ≡ new_order z read_cycles id price qty side b
      now = order_at-entered z read_cycles id price qty side b w

      new : Holds z b' o side price qty
      new =
          let (_, s, p) = less.key o in
          record {
            same_side = s ∙ ap Order.side now;
            same_price = p ∙ ap Order.price now;
            at_most = omega (arith, less.shares o, ap Order.remaining now);
          }

      was :
          find z.order_map_bits j b.order_map ≡ some x
          → x ∈ v.lists (order_at b x).side (order_at b x).price
          → Was z b b' j x
      was f i =
          let out =
            (entered-IsLoose z read_cycles id price qty side b w).unlisted (order_at b x).side
              (order_at b x).price in
          let kept : order_at start x ≡ order_at b x = ground (arith, out) in
          let (n, s, p) = less.key x in
          record {
            found = f;
            key = (n ∙ ap Order.id kept, s ∙ ap Order.side kept, p ∙ ap Order.price kept);
            shares = omega (arith, less.shares x, ap Order.remaining kept);
          }

  -- An order of a fresh id is refused without a change, or accepted.
  pub add_order-Follows :
      (id : OrderId) (price : Price) (qty : Quantity) (side : Side) (b : Book)
      → IsSound z read_cycles narrow b
      → GoodId z read_cycles narrow id
      → find z.order_map_bits id b.order_map ≡ none
      → qty < u32_mod
      → let (done, b') = add_order z read_cycles id price qty side b in
        ((done ≡ false) × (b' ≡ b)) ⊎ ((done ≡ true) × Follows z id side price qty b b')
  add_order-Follows id price qty side b v good fresh small =
      elim (Bool-cases (leb z.max_price_levels price)) [
        | inl e ↦ inl (rw (add_order-out z read_cycles id price qty side b e) (refl, refl))
        | inr e ↦ elim (List-cases v.free) [
          | inl f ↦ inl (
              rw
                (add_order-exhausted z read_cycles id price qty side b
                  (subst (IsWhole z b v.lists) f v.whole) (ground arith))
                (refl, refl))
          | inr (o, free, f) ↦
              let w = subst (IsWhole z b v.lists) f v.whole in
              let head = (FreeList-uncons w.is_pool.chain).0 in
              let room =
                (insert-IsTable z.order_map_bits narrow b.order_map v.index.table id good.0 o good.1
                  fresh).0 in
              let (done, r) =
                add_order-Accepted z read_cycles id price qty side b w v.bests (ground arith) small
                  head room in
              let same : r.traced.0 ≡ o = some_inj (sym r.traced.1 ∙ head) in
              inr (
                done,
                accepted-Follows id price qty side b (add_order z read_cycles id price qty side b).1
                    v
                    (add_order-IsSound z read_cycles narrow id price qty side b v good fresh small)
                    fresh o free w
                    (subst
                      (λ y.
                        IsLessened z (entered z read_cycles id price qty side y b)
                          (add_order z read_cycles id price qty side b).1)
                      same r.traced.2),
              )
        ]
      ]
