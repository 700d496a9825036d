-- ===== src/OrderBook/Refused.antt =====
-- What is left of the book by an operation that returns false.
use lock_free_limit_order_bo.Prelude.{
  ℕ, zero, suc, ◌+◌, ◌^◌, ◌<◌, ◌≡◌, false, arith, Bool-cases, Option-cases, inl, inr, refl, leb,
}
use lock_free_limit_order_bo.Prelude.Words.{u64_mod}
use lock_free_limit_order_bo.Order.{OrderId, Ref, Price, Quantity, Side}
use lock_free_limit_order_bo.OrderPool.{acquire, release}
use lock_free_limit_order_bo.OrderMap.{OrderMap, insert, insert_from}
use lock_free_limit_order_bo.OrderMap.Search.{Absent, find-none}
use lock_free_limit_order_bo.OrderBook.State.{Sizes, Book}
use lock_free_limit_order_bo.OrderBook.Operations.{add_order, cancel_order, modify_order, fill_in}
use lock_free_limit_order_bo.OrderBook.Queries.{orders_in_flight}

insert_from-unchanged :
    (k : ℕ) (id : OrderId) (o : Ref) (n probe : ℕ) (m : OrderMap)
    → (insert_from k id o n probe m).0 ≡ false
    → (insert_from k id o n probe m).1 ≡ m
unfolding insert_from
insert_from-unchanged k id o zero probe m h = refl
insert_from-unchanged k id o (suc n) probe m h =
    ground (arith, insert_from-unchanged k id o n (probe + 1) m)

insert-unchanged :
    (k : ℕ) (id : OrderId) (o : Ref) (m : OrderMap)
    → (insert k id o m).0 ≡ false
    → (insert k id o m).1 ≡ m
unfolding insert
insert-unchanged k id o m h = insert_from-unchanged k id o (2 ^ k) 0 m h

-- The levels, the totals, the table and the events are those of before, and no order is kept.
pub record Unchanged (b b' : Book) : Type 0 where
  pub bid : b'.bid ≡ b.bid
  pub ask : b'.ask ≡ b.ask
  pub order_map : b'.order_map ≡ b.order_map
  pub events : b'.events ≡ b.events
  pub event_queue : b'.event_queue ≡ b.event_queue
  pub in_flight : orders_in_flight b' ≡ orders_in_flight b

module _ (z : Sizes) (read_cycles : ℕ → ℕ) where
  -- An `add_order` that returns false, whether the price is out of range, the pool exhausted or the
  -- table full, leaves the sides, the table, the events and the number of orders in flight as they
  -- were. That number is below 2 ^ 64.
  pub add_order-Unchanged :
      (id : OrderId) (price : Price) (qty : Quantity) (side : Side) (b : Book)
      → b.pool.in_use < u64_mod
      → (add_order z read_cycles id price qty side b).0 ≡ false
      → Unchanged b (add_order z read_cycles id price qty side b).1
  unfolding add_order fill_in acquire release orders_in_flight
  add_order-Unchanged id price qty side b small h =
      elim (Bool-cases (leb z.max_price_levels price)) [
        | inl e ↦ rw e (record {
          bid = refl;
          ask = refl;
          order_map = refl;
          events = refl;
          event_queue = refl;
          in_flight = refl;
        })
        | inr e ↦ elim (Option-cases b.pool.free_head) [
          | inl f ↦
              rw (e, f)
                (record {
                  bid = refl;
                  ask = refl;
                  order_map = refl;
                  events = refl;
                  event_queue = refl;
                  in_flight = ground arith;
                })
          | inr (o, f) ↦ elim (Bool-cases (insert z.order_map_bits id o b.order_map).0) [
            | inl g ↦ absurd (ground (arith, rw (e, f, g) at h))
            | inr g ↦
                rw (e, f, g)
                  (record {
                    bid = refl;
                    ask = refl;
                    order_map = insert-unchanged z.order_map_bits id o b.order_map g;
                    events = refl;
                    event_queue = refl;
                    in_flight = ground (arith, f);
                  })
          ]
        ]
      ]

  -- `cancel_order` and `modify_order` of an id that no slot of the table holds return false and
  -- change nothing.
  pub unknown_id :
      (id : OrderId) (price : Price) (qty : Quantity) (b : Book)
      → Absent z.order_map_bits b.order_map id
      → (cancel_order z id b ≡ (false, b))
        × (modify_order z read_cycles id price qty b ≡ (false, b))
  unfolding cancel_order modify_order
  unknown_id id price qty b absent =
      let e = find-none z.order_map_bits id b.order_map absent in
      (rw (cancel_order, e) refl, rw (modify_order, e) refl)
