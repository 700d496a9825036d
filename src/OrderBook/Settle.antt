-- ===== src/OrderBook/Settle.antt =====
-- The end of `add_order`: an order rests in its level, or is given back when it is filled.
use lock_free_limit_order_bo.Prelude.{
  arith, inl, inr, ◌⊎◌, ◌≤◌, ◌<◌, ◌≡◌, ◌≢◌, Bool, true, false, refl, ap, sym, ◌∙◌, List, [], ◌∷◌,
  ◌++◌, subst, update, if◌then◌else◌,
}
use mathlib.Core.List.{append-nil}
use lock_free_limit_order_bo.Prelude.Words.{u32_mod}
use lock_free_limit_order_bo.Order.{
  Order, Ref, Price, Side, buy, sell, OrderId, order_ack, is_filled,
}
use lock_free_limit_order_bo.PriceLevel.Push.{push_back-IsLevel}
use lock_free_limit_order_bo.OrderPool.{release}
use lock_free_limit_order_bo.OrderBook.State.{
  Sizes, Book, BookSide, own, passive, order_at, publish,
}
use lock_free_limit_order_bo.OrderBook.Operations.{drop_order, rest_order, better}
use lock_free_limit_order_bo.OrderBook.Sides.{set_side}
use lock_free_limit_order_bo.OrderBook.Whole.{IsLoose, IsWhole, Placed}
use lock_free_limit_order_bo.OrderBook.Joins.{joined-Change, released-IsBook}
use lock_free_limit_order_bo.OrderBook.Traded.{Replaced-IsWhole, set_side-update_same}
use lock_free_limit_order_bo.OrderMap.{erase}
use lock_free_limit_order_bo.Prelude.Members.{◌∈◌}
use lock_free_limit_order_bo.OrderBook.Index.{IsIndexed, Indexed, IsIndexed-frame, IsIndexed-erase}
use lock_free_limit_order_bo.OrderBook.Run.{Lists}
use lock_free_limit_order_bo.OrderBook.Joined.{joined, joined-kept, joined-was, joined-new}
use lock_free_limit_order_bo.OrderBook.Resting.{
  with_pool-IsWhole, rest_order-Replaced, rest_order-log, own-publish, passive-publish,
}

module _ (z : Sizes) where
  -- What becomes of the order at the end.
  abbrev pub settled : OrderId → Side → Price → Ref → Book → Book
  settled id side price o b =
      publish z (order_ack id)
        (if is_filled (order_at b o) then drop_order z id o b else rest_order side price o b)

  pub record Settled (filled : Bool) (id : OrderId) (side : Side) (price : Price) (o : Ref)
      (b : Book) (lists : Lists) (b' : Book) : Type 0 where
    pub free_now : List Ref
    pub whole : IsWhole z b' (joined side price (if filled then [] else (o ∷ [])) lists) free_now
    pub orders : (x : Ref) → order_at b' x ≡ order_at b x
    pub events : b'.events ≡ b.events ++ order_ack id ∷ []
    pub other_side : passive side b' ≡ passive side b
    pub index :
        z.order_map_bits ≤ 64
        → (order_at b o).id ≡ id
        → Indexed z b lists (o ∷ [])
        → Indexed z b' (joined side price (if filled then [] else (o ∷ [])) lists) []
    pub best : (own side b').best ≡ (
        if filled
        then (own side b).best
        else if better side price (own side b).best
        then price
        else (own side b).best)

  module _ (id : OrderId) (side : Side) (price : Price) (o : Ref) (b : Book) {lists : Lists}
      {free : List Ref} (v : IsWhole z b lists free)
      (loose : IsLoose z.order_pool_size z.max_price_levels lists free o)
      (placed : Placed b.pool.cells.order side price o) (small : (order_at b o).remaining < u32_mod)
      (inside : price < z.max_price_levels) where
    rested-IsWhole : IsWhole z (rest_order side price o b) (joined side price (o ∷ []) lists) free
    rested-IsWhole =
        let (levels, total, _, _, _, _, _) = rest_order-log z side price o b in
        Replaced-IsWhole z side v (rest_order-Replaced z side price o b) levels total
          (joined-Change v loose side price inside placed small)

    joined_place :
        (x : Ref)
        → (x ∈ lists (order_at b x).side (order_at b x).price) ⊎ (x ∈ o ∷ [])
        → (x ∈ joined side price (o ∷ []) lists (order_at b x).side (order_at b x).price) ⊎ (x ∈ [])
    joined_place x (inl j) =
        inl (joined-kept side price o lists x (order_at b x).side (order_at b x).price j)
    joined_place x (inr j) =
        let same : o ≡ x = ground arith in
        inl (
          subst (λ y. y ∈ joined side price (o ∷ []) lists (order_at b y).side (order_at b y).price)
            same (rw (placed.0, placed.1) (joined-new side price o lists)))

    rested-Settled :
        Settled false id side price o b lists (publish z (order_ack id) (rest_order side price o b))
    unfolding publish
    rested-Settled =
        let (_, _, other, best, events, frame, same_map) = rest_order-log z side price o b in
        let same =
          (push_back-IsLevel (v.level side price) (loose.unlisted side price)).1.same_order in
        record {
          free_now = free;
          whole = with_pool-IsWhole z refl refl refl rested-IsWhole;
          orders = λ x. ap (λ c. c.order x) frame ∙ ap (λ f. f x) same;
          index = λ narrow e i.
              subst
                (λ m.
                  IsIndexed z.order_map_bits m (order_at (rest_order side price o b))
                    (joined side price (o ∷ []) lists) [])
                (sym same_map)
                (IsIndexed-frame (order_at (rest_order side price o b))
                  (joined side price (o ∷ []) lists) [] i
                  (λ x.
                    let k = ap (λ c. c.order x) frame ∙ ap (λ f. f x) same in
                    (ap Order.id k, ap Order.side k, ap Order.price k))
                  (joined-was side price o lists) (λ x j. absurd (ground arith))
                  (λ j x ne f. joined_place x (i.found j x ne f).1));
          events = ap (λ l. l ++ order_ack id ∷ []) events;
          other_side = passive-publish z (order_ack id) side (rest_order side price o b) ∙ other;
          best =
              ap BookSide.best (own-publish z (order_ack id) side (rest_order side price o b))
              ∙ best;
        }

    dropped-Settled :
        Settled true id side price o b lists (publish z (order_ack id) (drop_order z id o b))
    unfolding publish
    dropped-Settled = record {
      free_now = o ∷ free;
      whole =
          subst (λ ls. IsWhole z (publish z (order_ack id) (drop_order z id o b)) ls (o ∷ free))
            same_lists (with_pool-IsWhole z refl refl refl (released-IsBook v loose));
      orders = λ x. released_order x;
      index = λ narrow e i.
          subst
            (λ j.
              IsIndexed z.order_map_bits (erase z.order_map_bits j b.order_map).1
                (order_at (drop_order z id o b)) (joined side price [] lists) [])
            e
            (IsIndexed-erase (order_at (drop_order z id o b)) (joined side price [] lists) [] i
              (λ x. let k = released_order x in (ap Order.id k, ap Order.side k, ap Order.price k))
              (λ t q x j. inl (subst (λ l. x ∈ l t q) (sym same_lists) j))
              (λ x j. absurd (ground arith)) narrow o (i.loose_ids o (ground arith))
              (λ x ne place. dropped_place x ne place));
      events = refl;
      other_side =
          passive-publish z (order_ack id) side (drop_order z id o b) ∙ dropped_passive side;
      best =
          ap BookSide.best
            (own-publish z (order_ack id) side (drop_order z id o b) ∙ dropped_own side);
    }
      where
        same_lists : lists ≡ joined side price [] lists
        same_lists =
            sym (set_side-update_same side lists price)
            ∙ ap (λ xs. set_side side (update (lists side) price xs) lists)
                (sym (append-nil (lists side price)))

        dropped_place :
            (x : Ref)
            → x ≢ o
            → (x ∈ lists (order_at b x).side (order_at b x).price) ⊎ (x ∈ o ∷ [])
            → (x ∈ joined side price [] lists (order_at b x).side (order_at b x).price) ⊎ (x ∈ [])
        dropped_place x ne (inl j) =
            inl (subst (λ l. x ∈ l (order_at b x).side (order_at b x).price) same_lists j)
        dropped_place x ne (inr j) = absurd (ne (ground arith))

        released_order : (x : Ref) → (release o b.pool).cells.order x ≡ order_at b x
        released_order x = unfold release in refl

        dropped_passive : (s : Side) → passive s (drop_order z id o b) ≡ passive s b
        dropped_passive buy = refl
        dropped_passive sell = refl

        dropped_own : (s : Side) → own s (drop_order z id o b) ≡ own s b
        dropped_own buy = refl
        dropped_own sell = refl

    pub settled-Settled :
        Settled (is_filled (order_at b o)) id side price o b lists (settled id side price o b)
    settled-Settled = either (is_filled (order_at b o))
      where
        either :
            (k : Bool)
            → Settled k id side price o b lists (
                publish z
                  (order_ack id)
                  (if k then drop_order z id o b else rest_order side price o b))
        either true = dropped-Settled
        either false = rested-Settled
