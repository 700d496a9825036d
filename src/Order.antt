-- ===== src/Order.antt =====
-- include/order.h: the order record, its side, and the events that the book publishes.
use lock_free_limit_order_bo.Prelude.{ℕ, Bool, Option, ◌==◌, update}

abbrev pub OrderId : Type 0
OrderId = ℕ

abbrev pub Price : Type 0
Price = ℕ

abbrev pub Quantity : Type 0
Quantity = ℕ

pub data Side : Type 0 where
  buy sell : Side

-- `Order*`: the index of an order in the pool's array, or null.
abbrev pub Ref : Type 0
Ref = ℕ

abbrev pub Ptr : Type 0
Ptr = Option Ref

-- The data of a `struct Order`. Its two links stand in `Cells`.
pub record Order : Type 0 where
  pub id : OrderId
  pub price : Price
  pub quantity : Quantity
  pub remaining : Quantity
  pub timestamp : ℕ
  pub side : Side

abbrev pub is_filled : Order → Bool
is_filled o = o.remaining == 0

-- The array `pool_` of `OrderPool`, which every `Order*` points into, field by field: the data of
-- each order, and its links `next` and `prev`.
pub record Cells : Type 0 where
  pub order : Ref → Order
  pub next : Ref → Ptr
  pub prev : Ref → Ptr

abbrev pub set_next : Ref → Ptr → Cells → Cells
set_next o p c = record c { next = update c.next o p }

abbrev pub set_prev : Ref → Ptr → Cells → Cells
set_prev o p c = record c { prev = update c.prev o p }

abbrev pub set_order : Ref → Order → Cells → Cells
set_order o v c = record c { order = update c.order o v }

pub record TradeEvent : Type 0 where
  pub aggressor_id : OrderId
  pub passive_id : OrderId
  pub price : Price
  pub quantity : Quantity
  pub timestamp : ℕ

-- A constructor for each value of `EventType` that the book publishes, with its union's member.
pub data Event : Type 0 where
  order_ack : OrderId → Event
  order_cancel : OrderId → Event
  order_modify : OrderId → Event
  trade : TradeEvent → Event
