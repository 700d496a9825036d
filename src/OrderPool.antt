-- ===== src/OrderPool.antt =====
-- include/memory_pool.h: the fixed pool of orders and its free list.
pub mod FreeList
use lock_free_limit_order_bo.Prelude.{ℕ, zero, suc, ◌+◌, ◌-◌, Option, none, some}
use lock_free_limit_order_bo.Prelude.Words.{add64, sub64}
use lock_free_limit_order_bo.Order.{Ref, Ptr, Cells, set_next, set_prev}

pub record OrderPool : Type 0 where
  pub cells : Cells
  pub free_head : Ptr
  pub in_use : ℕ

-- `for (i = 0; i < Capacity - 1; ++i) pool_[i].next = &pool_[i + 1];`
unfoldable pub link_from : ℕ → Ref → Cells → Cells
link_from zero i c = c
link_from (suc n) i c = link_from n (i + 1) (set_next i (some (i + 1)) c)

unfoldable pub new_pool : ℕ → Cells → OrderPool
unfolding link_from
new_pool capacity c = record {
  cells = set_next (capacity - 1) none (link_from (capacity - 1) 0 c);
  free_head = some 0;
  in_use = 0;
}

unfoldable pub acquire : OrderPool → Option Ref × OrderPool
acquire p = elim p.free_head [
  | none ↦ (none, p)
  | some o ↦ (
    some o,
    record {
      cells = set_prev o none (set_next o none p.cells);
      free_head = p.cells.next o;
      in_use = add64 p.in_use 1;
    },
  )
]

unfoldable pub release : Ref → OrderPool → OrderPool
release o p = record {
  cells = set_prev o none (set_next o p.free_head p.cells);
  free_head = some o;
  in_use = sub64 p.in_use 1;
}

pub available : ℕ → OrderPool → ℕ
available capacity p = sub64 capacity p.in_use
