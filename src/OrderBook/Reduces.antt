-- ===== src/OrderBook/Reduces.antt =====
-- `modify_order` to fewer shares at the same price.
use lock_free_limit_order_bo.Prelude.{
  ℕ, ◌-◌, ◌<◌, ◌≡◌, ◌≢◌, true, some, arith, refl, List, [], ◌∷◌, ◌++◌, update_self, ◌==◌, ltb,
}
use lock_free_limit_order_bo.Prelude.Words.{u32_mod, sub64}
use lock_free_limit_order_bo.Order.{
  OrderId, Ref, Order, Price, Quantity, Side, buy, sell, Cells, order_modify, set_order,
}
use lock_free_limit_order_bo.PriceLevel.{PriceLevel}
use lock_free_limit_order_bo.PriceLevel.Valid.{IsLevel, IsLevel-less, less_shares}
use lock_free_limit_order_bo.OrderMap.{find}
use lock_free_limit_order_bo.OrderBook.State.{Sizes, Book, cells, order_at, own, passive, publish}
use lock_free_limit_order_bo.OrderBook.Operations.{modify_order, reduce}

-- An order with new shares, and a level less those that it lost.
abbrev pub reduced : Quantity → Order → Order
reduced new_qty v = record v { remaining = new_qty; quantity = new_qty }

module _ {c : Cells} {l : PriceLevel} (o : Ref) (ys zs : List Ref) (new_qty : Quantity) where
  reduced-IsLevel :
      IsLevel c l (ys ++ o ∷ zs)
      → (c.order o).remaining < u32_mod
      → new_qty < (c.order o).remaining
      → IsLevel
          (set_order o (reduced new_qty (c.order o)) c)
          (less_shares ((c.order o).remaining - new_qty) l)
          (ys ++ o ∷ zs)
  reduced-IsLevel v small fewer =
      IsLevel-less o ys zs ((c.order o).remaining - new_qty) v (λ a i. (refl, refl))
        (λ a ne. ground arith) (ground arith) small

module _ (z : Sizes) (read_cycles : ℕ → ℕ) where
  -- The order has fewer shares, and its old place in its level, which still holds `xs`.
  pub record Reduced (id : OrderId) (side : Side) (price : Price) (o : Ref) (new_qty : Quantity)
      (xs : List Ref) (b b' : Book) : Type 0 where
    pub level : IsLevel (cells b') ((own side b').levels price) xs
    pub order : order_at b' o ≡ reduced new_qty (order_at b o)
    pub other_orders : (a : Ref) → o ≢ a → order_at b' a ≡ order_at b a
    pub other_levels : (p : Price) → price ≢ p → (own side b').levels p ≡ (own side b).levels p
    pub other_side : passive side b' ≡ passive side b
    pub total_qty :
        (own side b').total_qty ≡ sub64 (own side b).total_qty ((order_at b o).remaining - new_qty)
    pub best : (own side b').best ≡ (own side b).best
    pub order_map : b'.order_map ≡ b.order_map
    pub events : b'.events ≡ b.events ++ order_modify id ∷ []

  reduce-Reduced :
      (side : Side) (id : OrderId) (o : Ref) (ys zs : List Ref) (new_qty : Quantity) (b : Book)
      → IsLevel (cells b) ((own side b).levels (order_at b o).price) (ys ++ o ∷ zs)
      → (order_at b o).remaining < u32_mod
      → new_qty < (order_at b o).remaining
      → Reduced id side
          (order_at b o).price
          o
          new_qty
          (ys ++ o ∷ zs)
          b
          (reduce z read_cycles side id o new_qty b)
  unfolding reduce publish
  reduce-Reduced buy id o ys zs new_qty b v small fewer = record {
    level = rw update_self (reduced-IsLevel o ys zs new_qty v small fewer);
    order = update_self b.pool.cells.order o (reduced new_qty (order_at b o));
    other_orders = ground arith;
    other_levels = ground arith;
    other_side = refl;
    total_qty = refl;
    best = refl;
    order_map = refl;
    events = refl;
  }
  reduce-Reduced sell id o ys zs new_qty b v small fewer = record {
    level = rw update_self (reduced-IsLevel o ys zs new_qty v small fewer);
    order = update_self b.pool.cells.order o (reduced new_qty (order_at b o));
    other_orders = ground arith;
    other_levels = ground arith;
    other_side = refl;
    total_qty = refl;
    best = refl;
    order_map = refl;
    events = refl;
  }

  -- `modify_order` of an id whose order, with fewer than 2 ^ 32 shares left, rests in the list that
  -- its level stands for, to fewer shares at the same price, returns true: the order keeps its
  -- place in the list and has the new shares, the level's and the side's totals lose the
  -- difference, a modify event is published, and the best price, the table, the other levels, the
  -- other side and the other orders are as before.
  pub modify_order-Reduced :
      (id : OrderId) {o : Ref} (ys zs : List Ref) (new_qty : Quantity) (b : Book)
      → find z.order_map_bits id b.order_map ≡ some o
      → let side = (order_at b o).side in
        let price = (order_at b o).price in
        IsLevel (cells b) ((own side b).levels price) (ys ++ o ∷ zs)
        → (order_at b o).remaining < u32_mod
        → new_qty < (order_at b o).remaining
        → let (done, b') = modify_order z read_cycles id price new_qty b in
          (done ≡ true) × Reduced id side price o new_qty (ys ++ o ∷ zs) b b'
  unfolding modify_order
  modify_order-Reduced id {o} ys zs new_qty b known v small fewer =
      rw (modify_order, known, same, less)
        (refl, reduce-Reduced (order_at b o).side id o ys zs new_qty b v small fewer)
    where
      same : ((order_at b o).price == (order_at b o).price) ≡ true
      same = ground arith

      less : ltb new_qty (order_at b o).remaining ≡ true
      less = ground arith
