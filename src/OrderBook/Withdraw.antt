-- ===== src/OrderBook/Withdraw.antt =====
-- `cancel_order` and `modify_order` on a book that stands for lists of orders.
use lock_free_limit_order_bo.Prelude.{
  ℕ, ◌-◌, ◌≤◌, ◌<◌, ◌≡◌, ◌==◌, ◌&&◌, some, refl, arith, List, ◌∷◌, ◌++◌, update, Bool-cases,
  Option-cases, inl, inr, ltb,
}
use lock_free_limit_order_bo.Prelude.Words.{u32_mod, sub64}
use lock_free_limit_order_bo.Prelude.Members.{◌∈◌, has-split, has-middle}
use lock_free_limit_order_bo.Order.{OrderId, Ref, Price, Quantity, Side, buy, sell, set_order}
use lock_free_limit_order_bo.PriceLevel.{remove}
use lock_free_limit_order_bo.PriceLevel.Valid.{less_shares}
use lock_free_limit_order_bo.OrderPool.{release}
use lock_free_limit_order_bo.OrderMap.{find, erase}
use lock_free_limit_order_bo.OrderBook.State.{Sizes, Book, BookSide, own, order_at}
use lock_free_limit_order_bo.OrderBook.Operations.{
  cancel_order, modify_order, take_out, reduce, update_best_bid, update_best_ask,
}
use lock_free_limit_order_bo.OrderBook.Sides.{set_side}
use lock_free_limit_order_bo.OrderBook.Whole.{IsWhole}
use lock_free_limit_order_bo.OrderBook.Moves.{removed-Change, lessened-Change}
use lock_free_limit_order_bo.OrderBook.Traded.{Replaced, Replaced-IsWhole}
use lock_free_limit_order_bo.OrderBook.State.{publish}
use lock_free_limit_order_bo.OrderBook.Match.{skip_up}
use lock_free_limit_order_bo.OrderBook.Scan.{update_best-IsFirst, update_best-IsLast}
use lock_free_limit_order_bo.OrderBook.Reach.{BestsInRange}
use lock_free_limit_order_bo.OrderBook.Validity.{IsValid, add_order-IsValid}

module _ (z : Sizes) where
  pub take_out-Replaced :
      (s : Side) (price : Price) (id : OrderId) (o : Ref) (b : Book)
      → let (c, l) = remove o b.pool.cells ((own s b).levels price) in
        let b' = take_out z s price id o b in
        Replaced s (release o (record b.pool { cells = c })) (own s b') b b'
        × ((own s b').levels ≡ update (own s b).levels price l)
        × ((own s b').total_qty ≡ sub64 (own s b).total_qty (order_at b o).remaining)
        × (b'.order_map ≡ (erase z.order_map_bits id b.order_map).1)
  unfolding take_out publish update_best_bid update_best_ask
  take_out-Replaced buy price id o b = elim (Bool-cases (price == b.bid.best)) [
    | inl e ↦ rw e (record { pool_now = refl; bid_now = refl; ask_now = refl }, refl, refl, refl)
    | inr e ↦ rw e (record { pool_now = refl; bid_now = refl; ask_now = refl }, refl, refl, refl)
  ]
  take_out-Replaced sell price id o b = elim (Bool-cases (price == b.ask.best)) [
    | inl e ↦ rw e (record { pool_now = refl; bid_now = refl; ask_now = refl }, refl, refl, refl)
    | inr e ↦ rw e (record { pool_now = refl; bid_now = refl; ask_now = refl }, refl, refl, refl)
  ]

  module _ (read_cycles : ℕ → ℕ) where
    update_best_ask-bound :
        (h : BookSide)
        → h.best ≤ z.max_price_levels
        → (update_best_ask z h).best ≤ z.max_price_levels
    unfolding update_best_ask skip_up
    update_best_ask-bound h below = elim (Bool-cases (ltb h.best z.max_price_levels)) [
      | inl e ↦ omega (arith, (update_best-IsFirst z h (ground arith)).upto)
      | inr e ↦
          let none_left : z.max_price_levels - 1 - h.best ≡ 0 = ground arith in rw none_left below
    ]

    pub take_out-bests :
        (s : Side) (price : Price) (id : OrderId) (o : Ref) (b : Book)
        → BestsInRange z read_cycles b
        → BestsInRange z read_cycles (take_out z s price id o b)
    unfolding take_out publish
    take_out-bests buy price id o b v =
        let (c, l) = remove o b.pool.cells (b.bid.levels price) in
        let h : BookSide = record {
          levels = update b.bid.levels price l;
          best = b.bid.best;
          total_qty = sub64 b.bid.total_qty (order_at b o).remaining;
        } in
        elim (Bool-cases (price == b.bid.best)) [
          | inl e ↦ rw e (omega (arith, (update_best-IsLast z h).upto, v.0), v.1)
          | inr e ↦ rw e v
        ]
    take_out-bests sell price id o b v =
        let (c, l) = remove o b.pool.cells (b.ask.levels price) in
        let h : BookSide = record {
          levels = update b.ask.levels price l;
          best = b.ask.best;
          total_qty = sub64 b.ask.total_qty (order_at b o).remaining;
        } in
        elim (Bool-cases (price == b.ask.best)) [
          | inl e ↦ rw e (v.0, update_best_ask-bound h v.1)
          | inr e ↦ rw e v
        ]

    -- The order leaves its list; the others stay.
    pub take_out-IsWhole :
        (s : Side) (price : Price) (id : OrderId) (o : Ref) (ys zs : List Ref) (b : Book)
        {lists : Side → Price → List Ref} {free : List Ref}
        → IsWhole z b lists free
        → lists s price ≡ ys ++ o ∷ zs
        → IsWhole z
            (take_out z s price id o b)
            (set_side s (update (lists s) price (ys ++ zs)) lists)
            (o ∷ free)
    take_out-IsWhole s price id o ys zs b v listed =
        let (r, levels, total, _) = take_out-Replaced s price id o b in
        Replaced-IsWhole z s v r levels total (
          removed-Change v s price o ys zs listed
            (sub64 (own s b).total_qty (order_at b o).remaining) (omega arith)
            (omega (arith, v.total s, (v.used s price o (rw listed (has-middle o ys zs))).2)))

    -- An order that the table has, if it has one, is in the list of its side and price.
    abbrev pub Listed : OrderId → (b : Book) → (Side → Price → List Ref) → Type 0
    Listed id b lists =
        (o : Ref)
        → find z.order_map_bits id b.order_map ≡ some o
        → o ∈ lists (order_at b o).side (order_at b o).price

    -- From a book that stands for lists of orders, with best prices in range, `cancel_order` leads
    -- to such a book, if the order that the table has for the id, when it has one, is in the list
    -- of its side and price.
    pub cancel_order-IsValid :
        (id : OrderId) (b : Book) (v : IsValid z read_cycles b)
        → Listed id b v.lists
        → IsValid z read_cycles (cancel_order z id b).1
    unfolding cancel_order
    cancel_order-IsValid id b v listed =
        elim (Option-cases (find z.order_map_bits id b.order_map)) [
          | inl e ↦ rw (cancel_order, e) v
          | inr (o, e) ↦
              let (ys, zs, f) =
                has-split o (v.lists (order_at b o).side (order_at b o).price) (listed o e) in
              rw (cancel_order, e)
                (record {
                  lists = _;
                  free = _;
                  whole =
                      take_out-IsWhole (order_at b o).side (order_at b o).price id o ys zs b v.whole
                        f;
                  bests = take_out-bests (order_at b o).side (order_at b o).price id o b v.bests;
                })
        ]

    pub reduce-Replaced :
        (s : Side) (id : OrderId) (o : Ref) (new_qty : Quantity) (b : Book)
        → let b' = reduce z read_cycles s id o new_qty b in
          let delta = (order_at b o).remaining - new_qty in
          let w = record (order_at b o) { remaining = new_qty; quantity = new_qty } in
          Replaced s (record b.pool { cells = set_order o w b.pool.cells }) (own s b') b b'
          × ((own s b').levels
              ≡ update
                  (own s b).levels
                  (order_at b o).price
                  (less_shares delta ((own s b).levels (order_at b o).price)))
          × ((own s b').total_qty ≡ sub64 (own s b).total_qty delta)
          × (b'.bid.best ≡ b.bid.best)
          × (b'.ask.best ≡ b.ask.best)
          × (b'.order_map ≡ b.order_map)
    unfolding reduce publish
    reduce-Replaced buy id o new_qty b =
        (record { pool_now = refl; bid_now = refl; ask_now = refl }, refl, refl, refl, refl, refl)
    reduce-Replaced sell id o new_qty b =
        (record { pool_now = refl; bid_now = refl; ask_now = refl }, refl, refl, refl, refl, refl)

    reduce-IsValid :
        (id : OrderId) (o : Ref) (new_qty : Quantity) (b : Book) (v : IsValid z read_cycles b)
        → o ∈ v.lists (order_at b o).side (order_at b o).price
        → new_qty < (order_at b o).remaining
        → IsValid z read_cycles (reduce z read_cycles (order_at b o).side id o new_qty b)
    reduce-IsValid id o new_qty b v i fewer =
        let s = (order_at b o).side in
        let p = (order_at b o).price in
        let (r, levels, total, bid, ask, _) = reduce-Replaced s id o new_qty b in
        let (ys, zs, f) = has-split o (v.lists s p) i in
        record {
          lists = _;
          free = _;
          whole = Replaced-IsWhole z s v.whole r levels total (
              lessened-Change v.whole s p o ys zs f
                (record (order_at b o) { remaining = new_qty; quantity = new_qty })
                ((order_at b o).remaining - new_qty) refl refl (omega arith));
          bests = (omega (arith, bid, v.bests.0), omega (arith, ask, v.bests.1));
        }

    -- From a book that stands for lists of orders, with best prices in range, `modify_order` to
    -- fewer than 2 ^ 32 shares leads to such a book, on its fast path and on that through
    -- `cancel_order` and `add_order`, if the order that the table has for the id, when it has one,
    -- is in the list of its side and price.
    pub modify_order-IsValid :
        (id : OrderId) (new_price : Price) (new_qty : Quantity) (b : Book)
        (v : IsValid z read_cycles b)
        → new_qty < u32_mod
        → Listed id b v.lists
        → IsValid z read_cycles (modify_order z read_cycles id new_price new_qty b).1
    unfolding modify_order
    modify_order-IsValid id new_price new_qty b v small listed =
        elim (Option-cases (find z.order_map_bits id b.order_map)) [
          | inl e ↦ rw (modify_order, e) v
          | inr (o, e) ↦
              elim (Bool-cases
                (new_price == (order_at b o).price && ltb new_qty (order_at b o).remaining)) [
                  | inl f ↦
                      rw (modify_order, e, f)
                        (reduce-IsValid id o new_qty b v (listed o e) (ground arith))
                  | inr f ↦
                      rw (modify_order, e, f)
                        (add_order-IsValid z read_cycles id new_price new_qty (order_at b o).side
                          (cancel_order z id b).1 (cancel_order-IsValid id b v listed) small)
                ]
        ]
