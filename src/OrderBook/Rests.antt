-- ===== src/OrderBook/Rests.antt =====
-- `add_order` of an order that does not trade.
use lock_free_limit_order_bo.Prelude.{
  ℕ, ◌+◌, ◌<◌, ◌≡◌, ◌≢◌, ◌∙◌, true, false, none, some, arith, ap, refl, leb, List, [], ◌∷◌, ◌++◌,
  update_self, if◌then◌else◌, ◌⊎◌, min, max,
}
use lock_free_limit_order_bo.Prelude.Words.{add64}
use lock_free_limit_order_bo.Prelude.Members.{◌∉◌}
use lock_free_limit_order_bo.Order.{
  OrderId, Ref, Price, Quantity, Side, buy, sell, Order, is_filled, order_ack, set_next, set_prev,
  set_order,
}
use lock_free_limit_order_bo.PriceLevel.{PriceLevel}
use lock_free_limit_order_bo.PriceLevel.Valid.{vacant, IsLevel, IsLevel-frame}
use lock_free_limit_order_bo.PriceLevel.Push.{push_back-IsLevel}
use lock_free_limit_order_bo.OrderPool.{OrderPool, acquire}
use lock_free_limit_order_bo.OrderMap.{insert}
use lock_free_limit_order_bo.OrderBook.State.{
  Sizes, Book, BookSide, cells, order_at, own, passive, publish,
}
use lock_free_limit_order_bo.OrderBook.Operations.{
  add_order, place_order, rest_order, fill_in, better, crosses,
}

pub acquire-some :
    {o : Ref} (p : OrderPool)
    → p.free_head ≡ some o
    → acquire p ≡ (
      some o,
      record {
        cells = set_prev o none (set_next o none p.cells);
        free_head = p.cells.next o;
        in_use = add64 p.in_use 1;
      },
    )
unfolding acquire
acquire-some p free = rw free refl

-- An order does not meet the other side: its limit is beyond the best price, or no order stands there.
abbrev pub Apart : Side → Price → BookSide → Type 0
Apart buy price h = (price < h.best) ⊎ (vacant (h.levels h.best) ≡ true)
Apart sell price h = (h.best < price) ⊎ (vacant (h.levels h.best) ≡ true)

Apart-crosses :
    (side : Side) (price : Price) (h : BookSide) → Apart side price h → crosses side price h ≡ false
Apart-crosses buy price h apart = ground arith
Apart-crosses sell price h apart = ground arith

-- The best of two prices: of bids the higher, of asks the lower.
abbrev pub best_of : Side → Price → Price → Price
best_of buy p q = max p q
best_of sell p q = min p q

better-best_of :
    (side : Side) (price best : Price)
    → (if better side price best then price else best) ≡ best_of side price best
better-best_of buy price best = ground arith
better-best_of sell price best = ground arith

module _ (z : Sizes) (read_cycles : ℕ → ℕ) where
  place_order-rest_order :
      (id : OrderId) (price : Price) (side : Side) (o : Ref) (b : Book)
      → crosses side price (passive side b) ≡ false
      → is_filled (order_at b o) ≡ false
      → place_order z read_cycles id price side o b
        ≡ publish z (order_ack id) (rest_order side price o b)
  unfolding place_order
  place_order-rest_order id price side o b apart open_order = rw (apart, open_order) refl

  -- The new order, and the book in which it is written down but has no place yet.
  abbrev pub new_order : OrderId → Price → Quantity → Side → Book → Order
  new_order id price qty side b = record {
    id = id;
    price = price;
    quantity = qty;
    remaining = qty;
    timestamp = read_cycles b.clock;
    side = side;
  }

  abbrev pub entered : OrderId → Price → Quantity → Side → Ref → Book → Book
  entered id price qty side o b = record b {
    pool = record {
      cells =
          set_order o (new_order id price qty side b)
            (set_prev o none (set_next o none b.pool.cells));
      free_head = b.pool.cells.next o;
      in_use = add64 b.pool.in_use 1;
    };
    order_map = (insert z.order_map_bits id o b.order_map).1;
    clock = b.clock + 1;
  }

  add_order-rest_order :
      (id : OrderId) (price : Price) (qty : Quantity) (side : Side) {o : Ref} (b : Book)
      → price < z.max_price_levels
      → b.pool.free_head ≡ some o
      → (insert z.order_map_bits id o b.order_map).0 ≡ true
      → crosses side price (passive side b) ≡ false
      → qty ≢ 0
      → add_order z read_cycles id price qty side b
        ≡ (true, publish z (order_ack id) (rest_order side price o (entered id price qty side o b)))
  unfolding add_order fill_in
  add_order-rest_order id price qty side {o} b inside free done apart some_qty =
      rw (out, acquire-some b.pool free, acquire-some b.pool free, done)
        (ap (λ b'. (true, b'))
          (place_order-rest_order id price side o (entered id price qty side o b)
            (same_passive side ∙ apart) (ground arith)))
    where
      out : leb z.max_price_levels price ≡ false
      out = ground arith

      same_passive :
          (s : Side)
          → crosses side price (passive s (entered id price qty side o b))
            ≡ crosses side price (passive s b)
      same_passive buy = refl
      same_passive sell = refl

  -- The order `o` was added to the end of the orders `xs` of its level, and nothing traded.
  pub record Rested (id : OrderId) (price : Price) (qty : Quantity) (side : Side) (o : Ref)
      (xs : List Ref) (b b' : Book) : Type 0 where
    pub level : IsLevel (cells b') ((own side b').levels price) (xs ++ o ∷ [])
    pub order : order_at b' o ≡ new_order id price qty side b
    pub other_levels : (p : Price) → price ≢ p → (own side b').levels p ≡ (own side b).levels p
    pub other_side : passive side b' ≡ passive side b
    pub other_orders : (a : Ref) → o ≢ a → order_at b' a ≡ order_at b a
    pub total_qty : (own side b').total_qty ≡ add64 (own side b).total_qty qty
    pub best : (own side b').best ≡ best_of side price (own side b).best
    pub events : b'.events ≡ b.events ++ order_ack id ∷ []
    pub order_map : b'.order_map ≡ (insert z.order_map_bits id o b.order_map).1

  module _ (id : OrderId) (price : Price) (qty : Quantity) (o : Ref) {xs : List Ref}
      (b : Book) where
    entered-IsLevel :
        (side : Side) {l : PriceLevel}
        → IsLevel (cells b) l xs
        → o ∉ xs
        → IsLevel (cells (entered id price qty side o b)) l xs
    entered-IsLevel side v out =
        IsLevel-frame v (λ a i. (ground arith, ground arith)) (λ a i. ground arith)

    rest_order-Rested :
        (side : Side)
        → IsLevel (cells b) ((own side b).levels price) xs
        → o ∉ xs
        → Rested id price qty side o xs b
            (publish z (order_ack id) (rest_order side price o (entered id price qty side o b)))
    unfolding publish rest_order
    rest_order-Rested buy v out =
        let (level, frame) = push_back-IsLevel (entered-IsLevel buy v out) out in
        record {
          level = rw update_self level;
          order = rw frame.same_order (ground arith);
          other_levels = ground arith;
          other_side = refl;
          other_orders = rw frame.same_order (ground arith);
          total_qty = rw frame.same_order (ground arith);
          best = better-best_of buy price b.bid.best;
          events = refl;
          order_map = refl;
        }
    rest_order-Rested sell v out =
        let (level, frame) = push_back-IsLevel (entered-IsLevel sell v out) out in
        record {
          level = rw update_self level;
          order = rw frame.same_order (ground arith);
          other_levels = ground arith;
          other_side = refl;
          other_orders = rw frame.same_order (ground arith);
          total_qty = rw frame.same_order (ground arith);
          best = better-best_of sell price b.ask.best;
          events = refl;
          order_map = refl;
        }

  -- An order with shares, at a price in range, whose limit stops short of the other side's best
  -- price, or meets a level without orders there, and that the pool and the table have room for, is
  -- accepted without a trade: it rests as the newest of its level with all its shares, which the
  -- side's total takes in; the best price of its side is the better one of its price and the best
  -- price before, the higher of bids and the lower of asks; the table is that of its insertion, and
  -- the other levels, the other orders and the other side are as before. The level stands for a
  -- list of orders that the new one is not in.
  pub add_order-Rested :
      (id : OrderId) (price : Price) (qty : Quantity) (side : Side) {o : Ref} {xs : List Ref}
      (b : Book)
      → price < z.max_price_levels
      → b.pool.free_head ≡ some o
      → (insert z.order_map_bits id o b.order_map).0 ≡ true
      → Apart side price (passive side b)
      → qty ≢ 0
      → IsLevel (cells b) ((own side b).levels price) xs
      → o ∉ xs
      → let (done, b') = add_order z read_cycles id price qty side b in
        (done ≡ true) × Rested id price qty side o xs b b'
  add_order-Rested id price qty side {o} b inside free done apart some_qty v out =
      rw
        (add_order-rest_order id price qty side b inside free done
          (Apart-crosses side price (passive side b) apart) some_qty)
        (refl, rest_order-Rested id price qty o b side v out)
