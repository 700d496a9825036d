-- ===== src/PriceLevel.antt =====
-- include/price_level.h: the intrusive doubly-linked list of the orders at one price.
-- An operation takes the pool's cells, and returns them beside the new level.
pub mod Valid
pub mod Push
pub mod Remove
pub mod Chain
use lock_free_limit_order_bo.Prelude.{ℕ, Bool, true, false, none, some}
use lock_free_limit_order_bo.Prelude.Words.{add32, sub32}
use lock_free_limit_order_bo.Order.{Ref, Ptr, Cells, Quantity, set_next, set_prev}

pub record PriceLevel : Type 0 where
  pub head : Ptr
  pub tail : Ptr
  pub count : ℕ
  pub total_quantity : Quantity

abbrev pub no_orders : PriceLevel
no_orders = record { head = none; tail = none; count = 0; total_quantity = 0 }

abbrev pub is_empty : PriceLevel → Bool
is_empty l = elim l.head [ none ↦ true | some _ ↦ false ]

-- `if (tail) tail->next = o; else head = o;`
unfoldable pub link_tail : Ref → Cells → PriceLevel → Cells × PriceLevel
link_tail o c l = elim l.tail [
  | none ↦ (c, record l { head = some o })
  | some t ↦ (set_next t (some o) c, l)
]

unfoldable pub push_back : Ref → Cells → PriceLevel → Cells × PriceLevel
unfolding link_tail
push_back o c l =
    let (c', l') = link_tail o (set_next o none (set_prev o l.tail c)) l in
    (
      c',
      record l' {
        tail = some o;
        count = add32 l'.count 1;
        total_quantity = add32 l'.total_quantity (c'.order o).remaining;
      },
    )

-- `if (o->prev) o->prev->next = o->next; else head = o->next;`
unfoldable pub unlink_prev : Ref → Cells → PriceLevel → Cells × PriceLevel
unlink_prev o c l = elim (c.prev o) [
  | none ↦ (c, record l { head = c.next o })
  | some p ↦ (set_next p (c.next o) c, l)
]

-- `if (o->next) o->next->prev = o->prev; else tail = o->prev;`
unfoldable pub unlink_next : Ref → Cells → PriceLevel → Cells × PriceLevel
unlink_next o c l = elim (c.next o) [
  | none ↦ (c, record l { tail = c.prev o })
  | some n ↦ (set_prev n (c.prev o) c, l)
]

unfoldable pub remove : Ref → Cells → PriceLevel → Cells × PriceLevel
unfolding unlink_prev unlink_next
remove o c l =
    let (c', l') = unlink_prev o c l in
    let (c'', l'') = unlink_next o c' l' in
    let c''' = set_next o none (set_prev o none c'') in
    (
      c''',
      record l'' {
        count = sub32 l''.count 1;
        total_quantity = sub32 l''.total_quantity (c'''.order o).remaining;
      },
    )
