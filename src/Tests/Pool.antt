-- ===== src/Tests/Pool.antt =====
-- A pool of four orders.
use lock_free_limit_order_bo.Prelude.{◌≡◌, ◌≢◌, refl, some, [], ◌∷◌, arith}
use lock_free_limit_order_bo.Order.{Ref}
use lock_free_limit_order_bo.OrderPool.{OrderPool, new_pool, acquire, release}
use lock_free_limit_order_bo.OrderPool.FreeList.{
  IsPool, new_pool-IsPool, acquire-IsPool, release-IsPool,
}
use lock_free_limit_order_bo.Tests.Levels.{cells}

abbrev pool : OrderPool
pool = new_pool 4 cells

pool-IsPool : IsPool 4 pool (0 ∷ 1 ∷ 2 ∷ 3 ∷ [])
pool-IsPool = new_pool-IsPool 3 cells (omega arith)

acquire-IsPool_example :
    let (got, p) = acquire pool in
    (got ≡ some 0)
    × IsPool 4 p (1 ∷ 2 ∷ 3 ∷ [])
    × (p.cells.order ≡ pool.cells.order)
    × ((a : Ref)
        → a ≢ 0
        → (p.cells.next a ≡ pool.cells.next a) × (p.cells.prev a ≡ pool.cells.prev a))
acquire-IsPool_example = acquire-IsPool pool-IsPool

abbrev used : OrderPool
used = (acquire pool).1

used-IsPool : IsPool 4 used (1 ∷ 2 ∷ 3 ∷ [])
used-IsPool = (acquire-IsPool pool-IsPool).1

release-IsPool_example :
    let p = release 0 used in
    IsPool 4 p (0 ∷ 1 ∷ 2 ∷ 3 ∷ [])
    × (p.cells.order ≡ used.cells.order)
    × ((a : Ref)
        → a ≢ 0
        → (p.cells.next a ≡ used.cells.next a) × (p.cells.prev a ≡ used.cells.prev a))
release-IsPool_example = release-IsPool used-IsPool refl (omega arith) (omega arith)
