-- ===== src/OrderBook/Validity.antt =====
-- Books that stand for lists of orders, from the new one on.
use lock_free_limit_order_bo.Prelude.{
  ℕ, zero, suc, ◌%◌, ◌<◌, ◌≡◌, refl, ap, sym, arith, leb, List, [], ◌∷◌, subst, Bool-cases, inl,
  inr,
}
use lock_free_limit_order_bo.Prelude.Words.{u32_mod, u64_mod}
use lock_free_limit_order_bo.Order.{OrderId, Ref, Price, Quantity, Side, buy, Cells, Order}
use lock_free_limit_order_bo.PriceLevel.{no_orders}
use lock_free_limit_order_bo.PriceLevel.Chain.{nil}
use lock_free_limit_order_bo.PriceLevel.Valid.{IsLevel}
use lock_free_limit_order_bo.OrderPool.{new_pool}
use lock_free_limit_order_bo.OrderPool.FreeList.{IsPool, FreeList-uncons, range, new_pool-IsPool}
use lock_free_limit_order_bo.OrderMap.{insert}
use lock_free_limit_order_bo.OrderBook.State.{Sizes, Book, BookSide, own, new_book}
use lock_free_limit_order_bo.OrderBook.Operations.{add_order}
use lock_free_limit_order_bo.OrderBook.Totals.{side_shares}
use lock_free_limit_order_bo.OrderBook.Sides.{Side-ind}
use lock_free_limit_order_bo.OrderBook.Whole.{IsWhole}
use lock_free_limit_order_bo.OrderBook.Run.{Lists}
use lock_free_limit_order_bo.OrderBook.Level.{List-cases}
use lock_free_limit_order_bo.OrderBook.Entry.{
  full_table-IsWhole, full_table-sides, add_order-out, add_order-exhausted,
}
use lock_free_limit_order_bo.OrderBook.Reach.{BestsInRange}
use lock_free_limit_order_bo.OrderBook.Accept.{add_order-Accepted}

no_orders-IsLevel : (c : Cells) → IsLevel c no_orders []
no_orders-IsLevel c = record {
  chain = nil refl refl;
  distinct = tt;
  counted = refl;
  totalled = refl;
}

side_shares-none : (f : Ref → Order) (n : ℕ) → side_shares f n (λ p. []) ≡ 0
side_shares-none f zero = refl
side_shares-none f (suc n) = omega (arith, side_shares-none f n)

module _ (z : Sizes) where
  -- A new book, whose pool has at least one order and fewer than 2 ^ 64, stands for empty lists: no
  -- level holds an order, the totals are 0, and all orders are free, in the array's order.
  pub new_book-IsWhole :
      (n : ℕ) (c : Cells)
      → z.order_pool_size ≡ suc n
      → suc n < u64_mod
      → IsWhole z (new_book z c) (λ s p. []) (range 0 (suc n))
  unfolding new_book
  new_book-IsWhole n c size small = record {
    is_pool =
        subst (λ k. IsPool k (new_pool k c) (range 0 (suc n))) (sym size)
          (new_pool-IsPool n c small);
    level =
        Side-ind buy
          (λ t.
            (p : Price) → IsLevel (new_book z c).pool.cells ((own t (new_book z c)).levels p) [])
          (λ p. no_orders-IsLevel _) (λ p. no_orders-IsLevel _);
    placed = λ s p o i. absurd (ground arith);
    used = λ s p o i. absurd (ground arith);
    in_range = λ s p o i. absurd (ground arith);
    total =
        Side-ind buy
          (λ t.
            (own t (new_book z c)).total_qty
            ≡ side_shares (new_book z c).pool.cells.order z.max_price_levels (λ p. []) % u64_mod)
          (omega (arith, side_shares-none (new_book z c).pool.cells.order z.max_price_levels))
          (omega (arith, side_shares-none (new_book z c).pool.cells.order z.max_price_levels));
  }

module _ (z : Sizes) (read_cycles : ℕ → ℕ) where
  -- There are lists of orders that the book stands for, and its best prices are in range.
  pub record IsValid (b : Book) : Type 0 where
    pub lists : Lists
    pub free : List Ref
    pub whole : IsWhole z b lists free
    pub bests : BestsInRange z read_cycles b

  -- From a book that stands for lists of orders, with best prices in range, `add_order` of fewer
  -- than 2 ^ 32 shares leads to such a book, whatever it returns: each level's links, count and
  -- total are those of its list, each order stands at its side and price and is not free, the
  -- totals of the sides are the sums of their orders, and the pool's free list holds the other
  -- orders.
  pub add_order-IsValid :
      (id : OrderId) (price : Price) (qty : Quantity) (side : Side) (b : Book)
      → IsValid b
      → qty < u32_mod
      → IsValid (add_order z read_cycles id price qty side b).1
  add_order-IsValid id price qty side b v small = elim (Bool-cases (leb z.max_price_levels price)) [
    | inl e ↦ rw (add_order-out z read_cycles id price qty side b e) v
    | inr e ↦ elim (List-cases v.free) [
      | inl f ↦
          rw
            (add_order-exhausted z read_cycles id price qty side b
              (subst (IsWhole z b v.lists) f v.whole) (ground arith))
            v
      | inr (o, free, f) ↦ offered o free (subst (IsWhole z b v.lists) f v.whole) (ground arith)
    ]
  ]
    where
      offered :
          (o : Ref) (free : List Ref)
          → IsWhole z b v.lists (o ∷ free)
          → price < z.max_price_levels
          → IsValid (add_order z read_cycles id price qty side b).1
      offered o free w inside = elim (Bool-cases (insert z.order_map_bits id o b.order_map).0) [
        | inl room ↦
            let r =
              (add_order-Accepted z read_cycles id price qty side b w v.bests inside small
                (FreeList-uncons w.is_pool.chain).0 room).1 in
            record { lists = r.lists_now; free = r.free_now; whole = r.whole; bests = r.bests }
        | inr full ↦
            let (same_bid, same_ask) =
              full_table-sides z read_cycles id price qty side b w inside full in
            record {
              lists = v.lists;
              free = o ∷ free;
              whole = full_table-IsWhole z read_cycles id price qty side b w inside full;
              bests = (
                omega (arith, v.bests.0, ap BookSide.best same_bid),
                omega (arith, v.bests.1, ap BookSide.best same_ask),
              );
            }
      ]
