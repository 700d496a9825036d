-- ===== src/OrderBook/Amends.antt =====
-- Where the orders that the table finds after a cancellation or a modification come from.
use lock_free_limit_order_bo.Prelude.{
  ℕ, ◌≤◌, ◌<◌, ◌≡◌, ◌≢◌, ◌⊎◌, ◌==◌, ◌&&◌, none, some, refl, ap, sym, ◌∙◌, arith, ltb, subst, inl,
  inr, Bool-cases, Option-cases, ℕ_discrete, update,
}
use lock_free_limit_order_bo.Prelude.Words.{u32_mod}
use lock_free_limit_order_bo.Order.{OrderId, Ref, Price, Quantity, Side, Order}
use lock_free_limit_order_bo.OrderMap.{empty_key, find}
use lock_free_limit_order_bo.OrderMap.Table.{find-erase}
use lock_free_limit_order_bo.OrderPool.{OrderPool, release}
use lock_free_limit_order_bo.OrderBook.State.{Sizes, Book, order_at, own}
use lock_free_limit_order_bo.OrderBook.Operations.{
  add_order, cancel_order, modify_order, take_out, reduce,
}
use lock_free_limit_order_bo.OrderBook.Lessened.{order-remove}
use lock_free_limit_order_bo.PriceLevel.{remove}
use lock_free_limit_order_bo.OrderBook.Withdraw.{take_out-Replaced, reduce-Replaced}
use lock_free_limit_order_bo.OrderBook.Sound.{
  IsSound, GoodId, cancel_order-IsSound, cancelled-none, found_listed,
}
use lock_free_limit_order_bo.OrderBook.Follows.{
  Was, Was-refl, Was-trans, Holds, Follows, add_order-Follows, some_inj, none-ne-some,
}

module _ (z : Sizes) (read_cycles : ℕ → ℕ) (narrow : z.order_map_bits ≤ 64) where
  order-release : (o : Ref) (p : OrderPool) → (release o p).cells.order ≡ p.cells.order
  unfolding release
  order-release o p = refl

  order-take_out :
      (s : Side) (p : Price) (id : OrderId) (o : Ref) (b : Book)
      → (take_out z s p id o b).pool.cells.order ≡ b.pool.cells.order
  order-take_out s p id o b =
      ap (λ k. k.cells.order) (take_out-Replaced z s p id o b).0.pool_now
      ∙ order-release o (record b.pool { cells = (remove o b.pool.cells ((own s b).levels p)).0 })
      ∙ order-remove o b.pool.cells ((own s b).levels p)

  same-Was :
      (b b' : Book) (j : OrderId) (x : Ref)
      → b'.pool.cells.order ≡ b.pool.cells.order
      → find z.order_map_bits j b.order_map ≡ some x
      → Was z b b' j x
  same-Was b b' j x same e = record {
    found = e;
    key = (ap (λ g. (g x).id) same, ap (λ g. (g x).side) same, ap (λ g. (g x).price) same);
    shares = omega (arith, ap (λ g. (g x).remaining) same);
  }

  -- A cancelled id is found no more, and the others as before.
  pub cancel_order-Follows :
      (id : OrderId) (b : Book)
      → IsSound z read_cycles narrow b
      → id ≢ empty_key
      → (j : OrderId) (x : Ref) → j ≢ empty_key
      → find z.order_map_bits j (cancel_order z id b).1.order_map ≡ some x
      → (j ≢ id) × Was z b (cancel_order z id b).1 j x
  unfolding cancel_order
  cancel_order-Follows id b v ne j x full =
      elim (Option-cases (find z.order_map_bits id b.order_map)) [
        | inl e ↦
            rw (cancel_order, e)
              λ f. (
                (λ h.
                    none-ne-some
                      (sym e ∙ ap (λ k. find z.order_map_bits k b.order_map) (sym h) ∙ f)),
                same-Was b b j x refl f,
              )
        | inr (o, e) ↦
            rw (cancel_order, e)
              λ f.
                let s = (order_at b o).side in
                let p = (order_at b o).price in
                let om = (take_out-Replaced z s p id o b).3 in
                let t =
                  sym (
                    ap (find z.order_map_bits j) om
                    ∙ find-erase z.order_map_bits narrow b.order_map v.index.table id ne j full)
                  ∙ f in
                elim (Bool-cases (id == j)) [
                  | inl h ↦ absurd (none-ne-some (rw h at t))
                  | inr h ↦ (
                    (λ g. ground (arith, h)),
                    same-Was b (take_out z s p id o b) j x (order-take_out s p id o b) (rw h at t),
                  )
                ]
      ]

  -- An order's shares are written down.
  reduce-Follows :
      (id : OrderId) (o : Ref) (new_qty : Quantity) (b : Book)
      → find z.order_map_bits id b.order_map ≡ some o
      → (v : IsSound z read_cycles narrow b) → id ≢ empty_key
      → new_qty < (order_at b o).remaining
      → Follows z id
          (order_at b o).side
          (order_at b o).price
          new_qty
          b
          (reduce z read_cycles (order_at b o).side id o new_qty b)
  reduce-Follows id o new_qty b e v ne fewer j x full f =
      let s = (order_at b o).side in
      let b' = reduce z read_cycles s id o new_qty b in
      let (r, _, _, _, _, om) = reduce-Replaced z read_cycles s id o new_qty b in
      let was : find z.order_map_bits j b.order_map ≡ some x =
        sym (ap (find z.order_map_bits j) om) ∙ f in
      let w : Order = record (order_at b o) { remaining = new_qty; quantity = new_qty } in
      let now : order_at b' x ≡ update (order_at b) o w x = ap (λ k. k.cells.order x) r.pool_now in
      elim (ℕ_discrete j id) [
        | yes h ↦
            let here : o ≡ x =
              some_inj (sym e ∙ ap (λ k. find z.order_map_bits k b.order_map) (sym h) ∙ was) in
            let same : order_at b' x ≡ w = now ∙ ground (arith, here) in
            inl (
              h,
              record {
                same_side = ap Order.side same;
                same_price = ap Order.price same;
                at_most = omega (arith, ap Order.remaining same);
              },
            )
        | no h ↦
            let other : o ≢ x = λ g. h (
              sym (found_listed z read_cycles narrow b v j x full was).0
              ∙ ap (λ y. (order_at b y).id) (sym g)
              ∙ (found_listed z read_cycles narrow b v id o ne e).0) in
            let same : order_at b' x ≡ order_at b x = now ∙ ground (arith, other) in
            inr (
              h,
              record {
                found = was;
                key = (ap Order.id same, ap Order.side same, ap Order.price same);
                shares = omega (arith, ap Order.remaining same);
              },
            )
      ]

  -- An order that is cancelled and added anew.
  readded :
      (id : OrderId) (o : Ref) (new_price : Price) (new_qty : Quantity) (b : Book)
      → IsSound z read_cycles narrow b
      → GoodId z read_cycles narrow id
      → find z.order_map_bits id b.order_map ≡ some o
      → new_qty < u32_mod
      → Follows z id
          (order_at b o).side
          new_price
          new_qty
          b
          (add_order z read_cycles id new_price new_qty
            (order_at b o).side
            (cancel_order z id b).1).1
  readded id o new_price new_qty b v good e small =
      let c = (cancel_order z id b).1 in
      let d = (add_order z read_cycles id new_price new_qty (order_at b o).side c).1 in
      let cv = cancel_order-IsSound z read_cycles narrow id b v good.0 in
      let gone = cancelled-none z read_cycles narrow id b o v good.0 e in
      elim (add_order-Follows z read_cycles narrow id new_price new_qty (order_at b o).side c cv
        good gone small) [
          | inl (_, same) ↦ λ j x full f. since j x full (
              subst (λ y. Was z c y j x) (sym same)
                (Was-refl z c j x (sym (ap (λ k. find z.order_map_bits j k.order_map) same) ∙ f)))
          | inr (_, follows) ↦ λ j x full f. elim (follows j x full f) [
            | inl here ↦ inl here
            | inr (h, w) ↦ since j x full w
          ]
        ]
    where
      since :
          (j : OrderId) (x : Ref)
          → j ≢ empty_key
          → Was z
              (cancel_order z id b).1
              (add_order z read_cycles id new_price new_qty
                (order_at b o).side
                (cancel_order z id b).1).1
              j
              x
          → ((j ≡ id)
              × Holds z
                  (add_order z read_cycles id new_price new_qty
                    (order_at b o).side
                    (cancel_order z id b).1).1
                  x
                  (order_at b o).side
                  new_price
                  new_qty)
            ⊎ ((j ≢ id)
                × Was z b
                    (add_order z read_cycles id new_price new_qty
                      (order_at b o).side
                      (cancel_order z id b).1).1
                    j
                    x)
      since j x full w =
          let (h, u) = cancel_order-Follows id b v good.0 j x full w.found in
          inr (
            h,
            Was-trans z b (cancel_order z id b).1
                (add_order z read_cycles id new_price new_qty (order_at b o).side
                  (cancel_order z id b).1).1
                j x u w,
          )

  -- An unknown id changes nothing. Else the order has the new price and so many shares at most, if it
  -- is found at all.
  pub modify_order-Follows :
      (id : OrderId) (new_price : Price) (new_qty : Quantity) (b : Book)
      → IsSound z read_cycles narrow b
      → GoodId z read_cycles narrow id
      → new_qty < u32_mod
      → let b' = (modify_order z read_cycles id new_price new_qty b).1 in
        ((find z.order_map_bits id b.order_map ≡ none) × (b' ≡ b))
        ⊎ ((o : Ref) × (find z.order_map_bits id b.order_map ≡ some o)
            × Follows z id (order_at b o).side new_price new_qty b b')
  unfolding modify_order
  modify_order-Follows id new_price new_qty b v good small =
      elim (Option-cases (find z.order_map_bits id b.order_map)) [
        | inl e ↦ inl (e, rw (modify_order, e) refl)
        | inr (o, e) ↦ inr (
          o,
          e,
          elim (Bool-cases
              (new_price == (order_at b o).price && ltb new_qty (order_at b o).remaining)) [
                | inl g ↦
                    let same : new_price ≡ (order_at b o).price = ground (arith, g) in
                    rw (modify_order, e, g)
                      (subst
                        (λ p.
                          Follows z id (order_at b o).side p new_qty b
                            (reduce z read_cycles (order_at b o).side id o new_qty b))
                        (sym same) (reduce-Follows id o new_qty b e v good.0 (ground (arith, g))))
                | inr g ↦ rw (modify_order, e, g) (readded id o new_price new_qty b v good e small)
              ],
        )
      ]
