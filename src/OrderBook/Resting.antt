-- ===== src/OrderBook/Resting.antt =====
-- What `rest_order` and `publish` leave of a book.
use lock_free_limit_order_bo.Prelude.{◌≡◌, refl, ap, List, update, if◌then◌else◌}
use lock_free_limit_order_bo.Prelude.Words.{add64}
use lock_free_limit_order_bo.Order.{Ref, Price, Side, buy, sell, Event}
use lock_free_limit_order_bo.PriceLevel.{push_back}
use lock_free_limit_order_bo.OrderPool.{OrderPool}
use lock_free_limit_order_bo.OrderBook.State.{Sizes, Book, BookSide, own, passive, publish}
use lock_free_limit_order_bo.OrderBook.Operations.{rest_order, better}
use lock_free_limit_order_bo.OrderBook.Sides.{Side-ind}
use lock_free_limit_order_bo.OrderBook.Whole.{IsBook, IsWhole}
use lock_free_limit_order_bo.OrderBook.Traded.{Replaced, IsBook-cong}
use lock_free_limit_order_bo.OrderBook.Run.{Lists}

module _ (z : Sizes) where
  -- The same levels and totals, and another pool.
  pub with_pool-IsWhole :
      {b b' : Book} {lists : Lists} {free : List Ref} {pool : OrderPool}
      → b'.pool ≡ pool
      → b'.bid ≡ b.bid
      → b'.ask ≡ b.ask
      → IsBook z.order_pool_size z.max_price_levels pool
          (λ t. (own t b).levels)
          (λ t. (own t b).total_qty)
          lists
          free
      → IsWhole z b' lists free
  with_pool-IsWhole {b} {b'} e f g v =
      IsBook-cong e
        (Side-ind buy (λ t. (own t b').levels ≡ (own t b).levels) (ap BookSide.levels f)
          (ap BookSide.levels g))
        (Side-ind buy (λ t. (own t b').total_qty ≡ (own t b).total_qty) (ap BookSide.total_qty f)
          (ap BookSide.total_qty g))
        v

  pub rest_order-Replaced :
      (side : Side) (price : Price) (o : Ref) (b : Book)
      → let h = own side b in
        let (c, l) = push_back o b.pool.cells (h.levels price) in
        Replaced side
          (record b.pool { cells = c })
          (own side (rest_order side price o b))
          b
          (rest_order side price o b)
  unfolding rest_order
  rest_order-Replaced buy price o b = record { pool_now = refl; bid_now = refl; ask_now = refl }
  rest_order-Replaced sell price o b = record { pool_now = refl; bid_now = refl; ask_now = refl }

  pub rest_order-log :
      (side : Side) (price : Price) (o : Ref) (b : Book)
      → let h = own side b in
        let (c, l) = push_back o b.pool.cells (h.levels price) in
        let b' = rest_order side price o b in
        ((own side b').levels ≡ update h.levels price l)
        × ((own side b').total_qty ≡ add64 h.total_qty (c.order o).remaining)
        × (passive side b' ≡ passive side b)
        × ((own side b').best ≡ (if better side price h.best then price else h.best))
        × (b'.events ≡ b.events)
        × (b'.pool.cells ≡ c)
        × (b'.order_map ≡ b.order_map)
  unfolding rest_order
  rest_order-log buy price o b = (refl, refl, refl, refl, refl, refl, refl)
  rest_order-log sell price o b = (refl, refl, refl, refl, refl, refl, refl)

  pub own-publish : (e : Event) (s : Side) (b : Book) → own s (publish z e b) ≡ own s b
  unfolding publish
  own-publish e buy b = refl
  own-publish e sell b = refl

  pub passive-publish : (e : Event) (s : Side) (b : Book) → passive s (publish z e b) ≡ passive s b
  unfolding publish
  passive-publish e buy b = refl
  passive-publish e sell b = refl
