-- ===== src/OrderBook/Cancels.antt =====
-- `cancel_order` of an order that rests.
use lock_free_limit_order_bo.Prelude.{
  ◌-◌, ◌⊎◌, max, ==_iff, ◌<◌, ◌≡◌, ◌≢◌, true, none, some, arith, refl, ◌==◌, List, [], ◌∷◌, ◌++◌,
  update, update_self, Bool-cases, inl, inr,
}
use lock_free_limit_order_bo.Prelude.Words.{u32_mod, sub64}
use lock_free_limit_order_bo.Prelude.Members.{Distinct-drop}
use lock_free_limit_order_bo.Order.{
  OrderId, Ref, Price, Side, buy, sell, set_next, set_prev, order_cancel,
}
use lock_free_limit_order_bo.PriceLevel.{remove}
use lock_free_limit_order_bo.PriceLevel.Valid.{IsLevel, IsLevel-frame}
use lock_free_limit_order_bo.PriceLevel.Remove.{remove-IsLevel}
use lock_free_limit_order_bo.OrderPool.{release}
use lock_free_limit_order_bo.PriceLevel.{PriceLevel}
use lock_free_limit_order_bo.OrderBook.Scan.{
  IsFirst, IsLast, skip_down-IsLast, update_best_ask-IsFirst,
}
use lock_free_limit_order_bo.OrderMap.{find, erase}
use lock_free_limit_order_bo.OrderBook.State.{
  Sizes, Book, BookSide, set_level, cells, order_at, own, passive, publish,
}
use lock_free_limit_order_bo.OrderBook.Operations.{
  cancel_order, take_out, update_best, update_best_bid, update_best_ask,
}

module _ (z : Sizes) where
  -- `r` is the first price from the best one on, downwards for bids and upwards for asks, whose level
  -- holds an order, or the last price there is.
  abbrev pub Found : Side → (Price → PriceLevel) → Price → Price → Type 0
  Found buy levels best r = IsLast levels best r
  Found sell levels best r = IsFirst levels best (max best (z.max_price_levels - 1)) r

  update_best-Found :
      (side : Side) (h : BookSide) → Found side h.levels h.best (update_best z side h).best
  unfolding update_best_bid update_best_ask
  update_best-Found buy h = skip_down-IsLast h.levels h.best
  update_best-Found sell h = update_best_ask-IsFirst z h

  -- The order `o` is out of the list of its level, which is `xs` now.
  pub record Cancelled (id : OrderId) (side : Side) (price : Price) (o : Ref) (xs : List Ref)
      (b b' : Book) : Type 0 where
    pub level : IsLevel (cells b') ((own side b').levels price) xs
    pub other_levels : (p : Price) → price ≢ p → (own side b').levels p ≡ (own side b).levels p
    pub other_side : passive side b' ≡ passive side b
    pub orders : (cells b').order ≡ (cells b).order
    pub total_qty : (own side b').total_qty ≡ sub64 (own side b).total_qty (order_at b o).remaining
    pub best :
        ((price ≢ (own side b).best) × ((own side b').best ≡ (own side b).best))
        ⊎ ((price ≡ (own side b).best)
            × Found side (own side b').levels (own side b).best (own side b').best)
    pub freed : b'.pool.free_head ≡ some o
    pub in_use : b'.pool.in_use ≡ sub64 b.pool.in_use 1
    pub order_map : b'.order_map ≡ (erase z.order_map_bits id b.order_map).1
    pub events : b'.events ≡ b.events ++ order_cancel id ∷ []

  module _ (id : OrderId) (price : Price) (o : Ref) (ys zs : List Ref) (b : Book) where
    -- The level once the order's links are those of the free list.
    kept :
        (side : Side)
        → IsLevel (cells b) ((own side b).levels price) (ys ++ o ∷ zs)
        → (order_at b o).remaining < u32_mod
        → let (c, l) = remove o (cells b) ((own side b).levels price) in
          IsLevel
            (set_prev o none (set_next o b.pool.free_head c))
            (update (own side b).levels price l price)
            (ys ++ zs)
    kept side v small =
        let out = (Distinct-drop ys o zs v.distinct).1 in
        rw update_self (
          IsLevel-frame (remove-IsLevel ys zs v small).0 (λ a i. (ground arith, ground arith))
            (λ a i. refl))

    take_out-Cancelled :
        (side : Side)
        → IsLevel (cells b) ((own side b).levels price) (ys ++ o ∷ zs)
        → (order_at b o).remaining < u32_mod
        → Cancelled id side price o (ys ++ zs) b (take_out z side price id o b)
    unfolding take_out publish release update_best_bid update_best_ask
    take_out-Cancelled buy v small =
        let (_, frame, _, _) = remove-IsLevel ys zs v small in
        elim (Bool-cases (price == b.bid.best)) [
          | inl e ↦ rw e (record {
            level = kept buy v small;
            other_levels = ground arith;
            other_side = refl;
            orders = frame.same_order;
            total_qty = refl;
            best = inr (
              (==_iff price b.bid.best).0 e,
              update_best-Found buy
                  (set_level price (remove o (cells b) (b.bid.levels price)).1 b.bid),
            );
            freed = refl;
            in_use = refl;
            order_map = refl;
            events = refl;
          })
          | inr e ↦ rw e (record {
            level = kept buy v small;
            other_levels = ground arith;
            other_side = refl;
            orders = frame.same_order;
            total_qty = refl;
            best = inl (ground (arith, e), refl);
            freed = refl;
            in_use = refl;
            order_map = refl;
            events = refl;
          })
        ]
    take_out-Cancelled sell v small =
        let (_, frame, _, _) = remove-IsLevel ys zs v small in
        elim (Bool-cases (price == b.ask.best)) [
          | inl e ↦ rw e (record {
            level = kept sell v small;
            other_levels = ground arith;
            other_side = refl;
            orders = frame.same_order;
            total_qty = refl;
            best = inr (
              (==_iff price b.ask.best).0 e,
              update_best-Found sell
                  (set_level price (remove o (cells b) (b.ask.levels price)).1 b.ask),
            );
            freed = refl;
            in_use = refl;
            order_map = refl;
            events = refl;
          })
          | inr e ↦ rw e (record {
            level = kept sell v small;
            other_levels = ground arith;
            other_side = refl;
            orders = frame.same_order;
            total_qty = refl;
            best = inl (ground (arith, e), refl);
            freed = refl;
            in_use = refl;
            order_map = refl;
            events = refl;
          })
        ]

  -- `cancel_order` of an id whose order, with fewer than 2 ^ 32 shares left, rests in the list that
  -- its level stands for returns true: the order leaves the list, its shares leave the side's
  -- total, its cell becomes the first free one, the table is that after `erase` of the id, a cancel
  -- event is published, the best price, if the order was at it, moves to the first level from there
  -- on, downwards for bids and upwards for asks, that holds an order, or to the last price if there
  -- is none, and stays if the order was elsewhere, and the other levels, the other side and the
  -- data of the orders are as before.
  pub cancel_order-Cancelled :
      (id : OrderId) {o : Ref} (ys zs : List Ref) (b : Book)
      → find z.order_map_bits id b.order_map ≡ some o
      → let side = (order_at b o).side in
        let price = (order_at b o).price in
        IsLevel (cells b) ((own side b).levels price) (ys ++ o ∷ zs)
        → (order_at b o).remaining < u32_mod
        → let (done, b') = cancel_order z id b in
          (done ≡ true) × Cancelled id side price o (ys ++ zs) b b'
  unfolding cancel_order
  cancel_order-Cancelled id {o} ys zs b known v small =
      rw (cancel_order, known)
        (refl, take_out-Cancelled id (order_at b o).price o ys zs b (order_at b o).side v small)
