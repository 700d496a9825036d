-- ===== src/OrderBook/Better.antt =====
-- The levels at better prices than the best one, and `cancel_order`.
use lock_free_limit_order_bo.Prelude.{
  leb, ◌<◌, ◌≡◌, ◌≢◌, ◌∙◌, true, some, arith, ap, List, ◌∷◌, ◌++◌, Bool-cases, inl, inr,
}
use lock_free_limit_order_bo.Prelude.Words.{u32_mod}
use lock_free_limit_order_bo.Order.{OrderId, Ref, Price, Side, buy, sell}
use lock_free_limit_order_bo.PriceLevel.Valid.{vacant, IsLevel, IsLevel-filled}
use lock_free_limit_order_bo.OrderMap.{find}
use lock_free_limit_order_bo.OrderBook.State.{Sizes, Book, BookSide, cells, order_at, own}
use lock_free_limit_order_bo.OrderBook.Operations.{cancel_order}
use lock_free_limit_order_bo.OrderBook.Cancels.{Cancelled, cancel_order-Cancelled}

-- The levels at better prices than the best one are empty.
abbrev pub NoneBetter : Side → BookSide → Type 0
NoneBetter buy h = (p : Price) → h.best < p → vacant (h.levels p) ≡ true
NoneBetter sell h = (p : Price) → p < h.best → vacant (h.levels p) ≡ true

module _ (z : Sizes) where
  module _ (id : OrderId) (price : Price) (o : Ref) (ys zs : List Ref) (b b' : Book) where
    -- A price whose level was empty has not been the order's, and its level is empty still.
    still_empty :
        (side : Side) (p : Price)
        → IsLevel (cells b) ((own side b).levels price) (ys ++ o ∷ zs)
        → Cancelled z id side price o (ys ++ zs) b b'
        → vacant ((own side b).levels p) ≡ true
        → vacant ((own side b').levels p) ≡ true
    still_empty side p v r empty = ap vacant (r.other_levels p apart) ∙ empty
      where
        apart : price ≢ p
        apart e =
            ground
              (arith, IsLevel-filled ys o zs v, empty, ap (λ q. vacant ((own side b).levels q)) e)

    Cancelled-NoneBetter :
        (side : Side)
        → IsLevel (cells b) ((own side b).levels price) (ys ++ o ∷ zs)
        → NoneBetter side (own side b)
        → Cancelled z id side price o (ys ++ zs) b b'
        → NoneBetter side (own side b')
    Cancelled-NoneBetter buy v none_better r = λ p above. elim r.best [
      | inl (_, same) ↦ still_empty buy p v r (none_better p (omega (arith, same)))
      | inr (_, found) ↦ elim (Bool-cases (leb p b.bid.best)) [
        | inl e ↦ found.skipped p above (ground (arith, e))
        | inr e ↦ still_empty buy p v r (none_better p (ground (arith, e)))
      ]
    ]
    Cancelled-NoneBetter sell v none_better r = λ p above. elim r.best [
      | inl (_, same) ↦ still_empty sell p v r (none_better p (omega (arith, same)))
      | inr (_, found) ↦ elim (Bool-cases (leb b.ask.best p)) [
        | inl e ↦ found.skipped p (ground (arith, e)) above
        | inr e ↦ still_empty sell p v r (none_better p (ground (arith, e)))
      ]
    ]

  -- If no level better than the best price of its side, higher for bids and lower for asks, holds
  -- orders, then the same is so after `cancel_order` of an id whose order, with fewer than 2 ^ 32
  -- shares left, rests in the list that its level stands for.
  pub cancel_order-NoneBetter :
      (id : OrderId) {o : Ref} (ys zs : List Ref) (b : Book)
      → find z.order_map_bits id b.order_map ≡ some o
      → let side = (order_at b o).side in
        let price = (order_at b o).price in
        IsLevel (cells b) ((own side b).levels price) (ys ++ o ∷ zs)
        → (order_at b o).remaining < u32_mod
        → NoneBetter side (own side b)
        → NoneBetter side (own side (cancel_order z id b).1)
  cancel_order-NoneBetter id {o} ys zs b known v small none_better =
      Cancelled-NoneBetter id (order_at b o).price o ys zs b (cancel_order z id b).1
        (order_at b o).side v none_better (cancel_order-Cancelled z id ys zs b known v small).1
