-- ===== src/OrderBook/Fill.antt =====
-- One round of the inner loop of `match`: the order `a` against the first order of a level.
use lock_free_limit_order_bo.Prelude.{
  ℕ, ◌+◌, ◌-◌, ◌≤◌, ◌<◌, ◌≡◌, ◌≢◌, refl, ap, ap₂, sym, ◌∙◌, true, false, arith, List, [], ◌∷◌, ◌++◌,
  update, update_self, update_ne, subst, if◌then◌else◌, Bool-cases, inl, inr, leb,
}
use lock_free_limit_order_bo.Prelude.Words.{u32_mod, sub32}
use lock_free_limit_order_bo.Prelude.Members.{has, ◌∈◌, ◌∉◌}
use lock_free_limit_order_bo.Order.{
  Ref, Price, Side, Order, Cells, Event, Quantity, trade, is_filled,
}
use lock_free_limit_order_bo.PriceLevel.{remove}
use lock_free_limit_order_bo.OrderPool.{release}
use lock_free_limit_order_bo.OrderMap.{OrderMap, erase}
use lock_free_limit_order_bo.OrderBook.State.{Sizes, Book, own, passive, order_at}
use lock_free_limit_order_bo.OrderBook.Match.{less_remaining, retire, fill_order}
use lock_free_limit_order_bo.OrderBook.Sides.{opposite, set_side, set_side_self}
use lock_free_limit_order_bo.OrderBook.Whole.{IsLoose, IsWhole}
use lock_free_limit_order_bo.OrderBook.Moves.{
  lessened-Change, removed-Change, removed-order, written-IsBook,
}
use lock_free_limit_order_bo.OrderBook.Priority.{fill_event}
use lock_free_limit_order_bo.OrderBook.Traded.{
  Replaced-IsWhole, set_side-update_twice, filled_qty, traded_cells, traded_event, traded,
  fill_order-traded, traded-Replaced, traded-log, retire-Replaced, retire-log,
}

abbrev pub less : Quantity → Order → Order
less fill x = record x { remaining = x.remaining - fill }

module _ (z : Sizes) (read_cycles : ℕ → ℕ) (s : Side) (price : Price) (a o : Ref) (zs : List Ref)
    (b : Book) (lists : Side → Price → List Ref) (free : List Ref) where
  -- The book after the fill, whose level holds `xs`.
  pub record Filled (b' : Book) (xs free' : List Ref) (m' : OrderMap) : Type 0 where
    pub whole :
        IsWhole z b' (set_side (opposite s) (update (lists (opposite s)) price xs) lists) free'
    pub not_free : a ∉ free'
    pub aggressor : order_at b' a ≡ less (filled_qty z read_cycles price a o b) (order_at b a)
    pub first : order_at b' o ≡ less (filled_qty z read_cycles price a o b) (order_at b o)
    pub others : (x : Ref) → x ≢ a → x ≢ o → order_at b' x ≡ order_at b x
    pub events :
        b'.events
        ≡ b.events
          ++ fill_event read_cycles b.clock
              (order_at b a).id
              (order_at b a).remaining
              (order_at b o)
            ∷ []
    pub clock : b'.clock ≡ b.clock + 1
    pub best : (passive s b').best ≡ (passive s b).best
    pub own_side : own s b' ≡ own s b
    pub map : b'.order_map ≡ m'

  module _ (v : IsWhole z b lists free)
      (loose : IsLoose z.order_pool_size z.max_price_levels lists free a)
      (small : (order_at b a).remaining < u32_mod)
      (listed : lists (opposite s) price ≡ o ∷ zs) where
    abbrev fill : Quantity
    fill = filled_qty z read_cycles price a o b

    o_listed : o ∈ lists (opposite s) price
    o_listed = rw listed (ground arith)

    apart : a ≢ o
    apart e = ground (
      arith,
      o_listed,
      loose.unlisted (opposite s) price,
      ap (λ x. has x (lists (opposite s) price)) e,
    )

    small_o : (order_at b o).remaining < u32_mod
    small_o = (v.used (opposite s) price o o_listed).2

    abbrev now : Ref → Order
    now = (traded_cells z read_cycles price a o b).order

    abbrev less_words : Order → Order
    less_words x = record x { remaining = sub32 x.remaining fill }

    abbrev taken : Cells
    taken = less_remaining a fill b.pool.cells

    sub32_less :
        (x : Order) → fill ≤ x.remaining → x.remaining < u32_mod → less_words x ≡ less fill x
    sub32_less x below bounded = ap (λ n. record x { remaining = n }) (omega arith)

    now_a : now a ≡ less fill (order_at b a)
    now_a =
        update_ne taken.order o (less_words (taken.order o)) a (λ e. apart (sym e))
        ∙ update_self (order_at b) a (less_words (order_at b a))
        ∙ sub32_less (order_at b a) (omega arith) small

    now_o : now o ≡ less fill (order_at b o)
    now_o =
        update_self taken.order o (less_words (taken.order o))
        ∙ ap less_words (update_ne (order_at b) a (less_words (order_at b a)) o apart)
        ∙ sub32_less (order_at b o) (omega arith) small_o

    now_other : (x : Ref) → x ≢ a → x ≢ o → now x ≡ order_at b x
    now_other x na ne_o = ground arith

    traded-IsWhole :
        IsWhole z
          (traded z read_cycles price a o s b)
          (set_side
            (opposite s)
            (update (lists (opposite s)) price (lists (opposite s) price))
            lists)
          free
    traded-IsWhole =
        let v' = written-IsBook v a (less_words (order_at b a)) loose.unlisted in
        Replaced-IsWhole z (opposite s) v' (traded-Replaced z read_cycles price a o s b) refl refl (
          lessened-Change v' (opposite s) price o [] zs listed (less_words (taken.order o)) fill
            refl refl
            (omega (
              arith,
              small_o,
              ap Order.remaining (update_ne (order_at b) a (less_words (order_at b a)) o apart),
            )))

    same_event :
        traded_event z read_cycles price a o b
        ≡ fill_event read_cycles b.clock (order_at b a).id (order_at b a).remaining (order_at b o)
    same_event = ap₂ event now_a now_o
      where
        event : Order → Order → Event
        event x y = trade (record {
          aggressor_id = x.id;
          passive_id = y.id;
          price = y.price;
          quantity = fill;
          timestamp = read_cycles b.clock;
        })

    traded-Filled : Filled (traded z read_cycles price a o s b) (o ∷ zs) free b.order_map
    traded-Filled =
        let at = λ (x : Ref).
          ap (λ p. p.cells.order x) (traded-Replaced z read_cycles price a o s b).pool_now in
        let (e, k, m, n, om) = traded-log z read_cycles price a o s b in
        record {
          whole =
              subst
                (λ ys.
                  IsWhole z (traded z read_cycles price a o s b)
                    (set_side (opposite s) (update (lists (opposite s)) price ys) lists) free)
                listed traded-IsWhole;
          not_free = loose.not_free;
          aggressor = at a ∙ now_a;
          first = at o ∙ now_o;
          others = λ x na ne_o. at x ∙ now_other x na ne_o;
          events = e ∙ ap (λ k. b.events ++ k ∷ []) same_event;
          clock = k;
          best = m;
          own_side = n;
          map = om;
        }

    -- A filled order leaves the level.
    retired-Filled :
        (order_at b o).remaining ≤ (order_at b a).remaining
        → Filled
            (retire z s price o (traded z read_cycles price a o s b))
            zs
            (o ∷ free)
            (erase z.order_map_bits (order_at b o).id b.order_map).1
    retired-Filled all =
        let mid = traded z read_cycles price a o s b in
        let d = traded-Filled in
        let r = retire-Replaced z price o s mid in
        let (e, k, m, n, om) = retire-log z price o s mid in
        let here =
          ap (λ f. f price)
            (set_side_self (update (lists (opposite s)) price (o ∷ zs)) lists (opposite s))
          ∙ update_self (lists (opposite s)) price (o ∷ zs) in
        let unlinked : (remove o mid.pool.cells ((own (opposite s) mid).levels price)).0.order
            ≡ mid.pool.cells.order =
          unfold release in removed-order d.whole (opposite s) price o [] zs here in
        let same = λ (x : Ref).
          ap (λ p. p.cells.order x) r.pool_now
          ∙ ap (λ f. f x) (removed-order d.whole (opposite s) price o [] zs here) in
        let change =
          removed-Change d.whole (opposite s) price o [] zs here (own (opposite s) mid).total_qty
            (omega (arith, d.whole.total (opposite s)))
            (omega (arith, ap Order.remaining d.first, d.whole.total (opposite s))) in
        record {
          whole =
              subst (λ ls. IsWhole z (retire z s price o mid) ls (o ∷ free))
                (set_side-update_twice (opposite s) lists price (o ∷ zs) zs)
                (Replaced-IsWhole z (opposite s) d.whole r refl refl change);
          not_free = ground (arith, apart, loose.not_free);
          aggressor = same a ∙ d.aggressor;
          first = same o ∙ d.first;
          others = λ x na ne_o. same x ∙ d.others x na ne_o;
          events = e ∙ d.events;
          clock = k ∙ d.clock;
          best = m ∙ d.best;
          own_side = n ∙ d.own_side;
          map =
              om
              ∙ ap₂ (λ i t. (erase z.order_map_bits i t).1)
                  (ap Order.id (ap (λ f. f o) unlinked ∙ d.first)) d.map;
        }

    -- The fill as a whole: the order at the front leaves the level if it is filled.
    pub fill_order-Filled :
        let all = leb (order_at b o).remaining (order_at b a).remaining in
        Filled
          (fill_order z read_cycles s price a o b)
          (if all then zs else (o ∷ zs))
          (if all then o ∷ free else free)
          (if all then (erase z.order_map_bits (order_at b o).id b.order_map).1 else b.order_map)
    fill_order-Filled = elim (Bool-cases (leb (order_at b o).remaining (order_at b a).remaining)) [
      | inl e ↦
          let f : is_filled (now o) ≡ true = ground (arith, ap Order.remaining now_o) in
          rw (e, fill_order-traded, f) (retired-Filled (ground arith))
      | inr e ↦
          let f : is_filled (now o) ≡ false = ground (arith, ap Order.remaining now_o) in
          rw (e, fill_order-traded, f) traded-Filled
    ]
