-- ===== src/OrderBook/Lessened.antt =====
-- What the operations leave of the orders and the table's entries of before, whatever the book is like.
use lock_free_limit_order_bo.Prelude.{
  ◌≤◌, ◌≡◌, Bool, true, false, refl, ap, ◌∙◌, arith, if◌then◌else◌,
}
use lock_free_limit_order_bo.Order.{
  OrderId, Ref, Price, Side, buy, sell, Cells, is_filled, order_ack,
}
use lock_free_limit_order_bo.PriceLevel.{
  PriceLevel, remove, push_back, unlink_prev, unlink_next, link_tail,
}
use lock_free_limit_order_bo.OrderPool.{release}
use lock_free_limit_order_bo.OrderMap.Entries.{Entry, erase-Entry}
use lock_free_limit_order_bo.OrderBook.Index.{SameKey}
use lock_free_limit_order_bo.OrderBook.State.{Sizes, Book, order_at, publish}
use lock_free_limit_order_bo.OrderBook.Operations.{rest_order, drop_order}

pub order-remove : (o : Ref) (c : Cells) (l : PriceLevel) → (remove o c l).0.order ≡ c.order
unfolding remove unlink_prev unlink_next
order-remove o c l = ground arith

pub order-push_back : (o : Ref) (c : Cells) (l : PriceLevel) → (push_back o c l).0.order ≡ c.order
unfolding push_back link_tail
order-push_back o c l = ground arith

-- Every order keeps its id, its side and its price and has at most the shares that it had, and the
-- table has no entry that it did not have.
pub record IsLessened (z : Sizes) (b b' : Book) : Type 0 where
  pub key : (x : Ref) → SameKey (order_at b x) (order_at b' x)
  pub shares : (x : Ref) → (order_at b' x).remaining ≤ (order_at b x).remaining
  pub entry :
      (id : OrderId) (x : Ref)
      → Entry z.order_map_bits b'.order_map.slots id x
      → Entry z.order_map_bits b.order_map.slots id x

module _ (z : Sizes) where
  pub IsLessened-refl : (b : Book) → IsLessened z b b
  IsLessened-refl b = record {
    key = λ x. (refl, refl, refl);
    shares = λ x. omega arith;
    entry = λ id x v. v;
  }

  pub IsLessened-trans : (a b c : Book) → IsLessened z a b → IsLessened z b c → IsLessened z a c
  IsLessened-trans a b c v w = record {
    key = λ x. let (i, s, p) = v.key x in let (i', s', p') = w.key x in (i' ∙ i, s' ∙ s, p' ∙ p);
    shares = λ x. omega (arith, v.shares x, w.shares x);
    entry = λ id x e. v.entry id x (w.entry id x e);
  }

  -- Other fields of the book do not count.
  pub IsLessened-fields :
      (b b' : Book)
      → b'.pool.cells.order ≡ b.pool.cells.order
      → b'.order_map ≡ b.order_map
      → IsLessened z b b'
  IsLessened-fields b b' o m = record {
    key = λ x. (ap (λ g. (g x).id) o, ap (λ g. (g x).side) o, ap (λ g. (g x).price) o);
    shares = λ x. omega (arith, ap (λ g. (g x).remaining) o);
    entry = λ id x v. rw m at v;
  }

  pub drop_order-IsLessened :
      (id : OrderId) (o : Ref) (b : Book) → IsLessened z b (drop_order z id o b)
  unfolding release
  drop_order-IsLessened id o b = record {
    key = λ x. (refl, refl, refl);
    shares = λ x. omega arith;
    entry = λ j x v. erase-Entry z.order_map_bits id b.order_map j x v;
  }

  pub rest_order-IsLessened :
      (side : Side) (price : Price) (o : Ref) (b : Book)
      → IsLessened z b (rest_order side price o b)
  unfolding rest_order
  rest_order-IsLessened buy price o b =
      IsLessened-fields b _ (order-push_back o b.pool.cells (b.bid.levels price)) refl
  rest_order-IsLessened sell price o b =
      IsLessened-fields b _ (order-push_back o b.pool.cells (b.ask.levels price)) refl

  -- An order at the end of `add_order`.
  pub settled-IsLessened :
      (id : OrderId) (side : Side) (price : Price) (o : Ref) (b : Book)
      → IsLessened z b (
          publish z
            (order_ack id)
            (if is_filled (order_at b o) then drop_order z id o b else rest_order side price o b))
  unfolding publish
  settled-IsLessened id side price o b = either (is_filled (order_at b o))
    where
      either :
          (k : Bool)
          → IsLessened z b (
              publish z
                (order_ack id)
                (if k then drop_order z id o b else rest_order side price o b))
      either true =
          IsLessened-trans b (drop_order z id o b) _ (drop_order-IsLessened id o b)
            (IsLessened-fields _ _ refl refl)
      either false =
          IsLessened-trans b (rest_order side price o b) _ (rest_order-IsLessened side price o b)
            (IsLessened-fields _ _ refl refl)
