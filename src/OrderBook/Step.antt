-- ===== src/OrderBook/Step.antt =====
-- A fill at the front of the queue, and what the queue says comes next.
use lock_free_limit_order_bo.Prelude.{
  ℕ, ◌-◌, ◌≤◌, ◌<◌, ◌≡◌, ◌≢◌, ◌⊎◌, ◌==◌, Bool, true, false, refl, ap, ap₂, sym, ◌∙◌, arith, leb,
  List, [], ◌∷◌, ◌++◌, map, inl, inr, update, if◌then◌else◌, Bool-cases, ==_iff, subst,
}
use lock_free_limit_order_bo.Prelude.Words.{u32_mod}
use lock_free_limit_order_bo.Prelude.Members.{has, ◌∈◌, ◌∉◌, Distinct}
use lock_free_limit_order_bo.Order.{Ref, Price, Side, Order}
use lock_free_limit_order_bo.OrderBook.Relisted.{relisted, relisted-here, relisted-beside}
use lock_free_limit_order_bo.OrderBook.State.{Sizes, Book, passive, order_at}
use lock_free_limit_order_bo.OrderBook.Match.{fill_order}
use lock_free_limit_order_bo.OrderBook.Sides.{opposite, opposite-ne, set_side_own, Side-ind}
use lock_free_limit_order_bo.OrderBook.Whole.{IsLoose, IsWhole, apart_price, apart_side}
use lock_free_limit_order_bo.OrderBook.Fill.{Filled, fill_order-Filled}
use lock_free_limit_order_bo.OrderBook.Filled.{Filled-IsLessened, Filled-Indexed}
use lock_free_limit_order_bo.OrderMap.{erase}
use lock_free_limit_order_bo.OrderBook.Priority.{view, queue}
use lock_free_limit_order_bo.OrderBook.Run.{Lists, future, future_of, Run}
use lock_free_limit_order_bo.OrderBook.Future.{
  map-same, queue-same, same_future, future-met, future-part,
}

module _ (z : Sizes) (read_cycles : ℕ → ℕ) (s : Side) (a o : Ref) (p : Price) (ps : List Price)
    (zs : List Ref) {b : Book} {lists : Lists} {free : List Ref} (v : IsWhole z b lists free)
    (loose : IsLoose z.order_pool_size z.max_price_levels lists free a)
    (small : (order_at b a).remaining < u32_mod) (some_left : (order_at b a).remaining ≢ 0)
    (listed : lists (opposite s) p ≡ o ∷ zs) (once : p ∉ ps) where
  abbrev all : Bool
  all = leb (order_at b o).remaining (order_at b a).remaining

  abbrev after : Book
  after = fill_order z read_cycles s p a o b

  abbrev xs' : List Ref
  xs' = if all then zs else (o ∷ zs)

  abbrev lists' : Lists
  lists' = relisted (opposite s) p xs' lists

  filled :
      Filled z read_cycles s p a o zs b lists free after xs'
        (if all then o ∷ free else free)
        (if all then (erase z.order_map_bits (order_at b o).id b.order_map).1 else b.order_map)
  filled = fill_order-Filled z read_cycles s p a o zs b lists free v loose small listed

  here : lists' (opposite s) p ≡ xs'
  here = relisted-here (opposite s) p xs' lists

  beside : (q : Price) → p ≢ q → lists' (opposite s) q ≡ lists (opposite s) q
  beside = relisted-beside (opposite s) p xs' lists

  across : (q : Price) → lists' s q ≡ lists s q
  across q = ap (λ f. f q) (set_side_own (update (lists (opposite s)) p xs') lists s)

  ne_loose : (t : Side) (q : Price) (x : Ref) → x ∈ lists t q → x ≢ a
  ne_loose t q x i e = ground (arith, loose.unlisted t q, ap (λ y. has y (lists t q)) e)

  ne_first : (t : Side) (q : Price) (x : Ref) → o ∉ lists t q → x ∈ lists t q → x ≢ o
  ne_first t q x out i e = ground (arith, ap (λ y. has y (lists t q)) e)

  -- A list without the first order is untouched.
  view_kept :
      (t : Side) (q : Price)
      → o ∉ lists t q
      → map (order_at after) (lists t q) ≡ map (order_at b) (lists t q)
  view_kept t q out =
      map-same (order_at b) (order_at after) (lists t q)
        λ x i. filled.others x (ne_loose t q x i) (ne_first t q x out i)

  o_listed : o ∈ lists (opposite s) p
  o_listed = rw listed (ground arith)

  view_beside : (q : Price) → p ≢ q → view after lists' (opposite s) q ≡ view b lists (opposite s) q
  view_beside q ne =
      ap (map (order_at after)) (beside q ne)
      ∙ view_kept (opposite s) q (
          apart_price z.order_pool_size z.max_price_levels v (opposite s) q p o (λ e. ne (sym e))
            o_listed)

  pub best-fill_order : (passive s after).best ≡ (passive s b).best
  best-fill_order = filled.best

  -- While the incoming order has shares left, the first order has left its level.
  pub taken-out : (order_at after a).remaining ≢ 0 → lists' (opposite s) p ≡ zs
  taken-out ne = elim (Bool-cases all) [
    | inl e ↦ let now_xs : xs' ≡ zs = rw e refl in here ∙ now_xs
    | inr e ↦ absurd (ne (ap Order.remaining filled.aggressor ∙ ground (arith, e)))
  ]

  view_across : (q : Price) → view after lists' s q ≡ view b lists s q
  view_across q =
      ap (map (order_at after)) (across q)
      ∙ view_kept s q (
          apart_side z.order_pool_size z.max_price_levels v s (opposite s) q p o (opposite-ne s)
            o_listed)

  queue_behind : queue after lists' (opposite s) ps ≡ queue b lists (opposite s) ps
  queue_behind =
      queue-same b after lists lists' (opposite s) ps
        λ q i. view_beside q (λ e. ground (arith, once, ap (λ y. has y ps) e))

  -- The orders behind the first one.
  abbrev behind : List Order
  behind = map (order_at b) zs ++ queue b lists (opposite s) ps

  view_zs : map (order_at after) zs ≡ map (order_at b) zs
  view_zs = map-same (order_at b) (order_at after) zs λ x i.
      filled.others x (ne_loose (opposite s) p x (rw listed (ground arith))) (λ e.
        ground (
          arith,
          (subst Distinct listed (v.level (opposite s) p).distinct).0,
          ap (λ y. has y zs) e,
        ))

  queue_before : queue b lists (opposite s) (p ∷ ps) ≡ order_at b o ∷ behind
  queue_before = ap (λ l. map (order_at b) l ++ queue b lists (opposite s) ps) listed

  outcome :
      future z read_cycles s a (p ∷ ps) after lists' ≡ future z read_cycles s a (p ∷ ps) b lists
  outcome = elim (Bool-cases all) [
    | inl e ↦
        same_future read_cycles filled.clock filled.events (ap Order.id filled.aggressor)
          (ap Order.remaining filled.aggressor ∙ omega (arith, fits e)) (queue_after_all e)
        ∙ future-met read_cycles b.clock b.events (order_at b a).id (order_at b a).remaining
            (order_at b o) behind some_left (fits e)
        ∙ sym (
            ap (future_of read_cycles b.clock b.events (order_at b a).id (order_at b a).remaining)
              queue_before)
    | inr e ↦
        same_future read_cycles filled.clock filled.events (ap Order.id filled.aggressor)
          (ap Order.remaining filled.aggressor ∙ omega (arith, exceeds e)) (queue_after_part e)
        ∙ future-part read_cycles b.clock b.events (order_at b a).id (order_at b a).remaining
            (order_at b o) behind some_left (exceeds e)
        ∙ sym (
            ap (future_of read_cycles b.clock b.events (order_at b a).id (order_at b a).remaining)
              queue_before)
  ]
    where
      fits : all ≡ true → (order_at b o).remaining ≤ (order_at b a).remaining
      fits e = ground arith

      exceeds : all ≡ false → (order_at b a).remaining < (order_at b o).remaining
      exceeds e = ground arith

      queue_after_all : all ≡ true → queue after lists' (opposite s) (p ∷ ps) ≡ behind
      queue_after_all e =
          let now_xs : xs' ≡ zs = rw e refl in
          ap₂ (λ x y. x ++ y) (ap (map (order_at after)) (here ∙ now_xs) ∙ view_zs) queue_behind

      queue_after_part :
          all ≡ false
          → queue after lists' (opposite s) (p ∷ ps)
            ≡ record (order_at b o) {
              remaining = (order_at b o).remaining - (order_at b a).remaining;
            }
              ∷ behind
      queue_after_part e =
          let now_xs : xs' ≡ o ∷ zs = rw e refl in
          ap₂ (λ x y. x ++ y) (ap (map (order_at after)) (here ∙ now_xs)) queue_behind
          ∙ ap₂ (λ x y. x ∷ y ++ queue b lists (opposite s) ps)
              (filled.first
                ∙ ap {A = ℕ} (λ n. record (order_at b o) { remaining = n })
                    (omega (arith, exceeds e)))
              view_zs

  after-IsLoose :
      IsLoose z.order_pool_size z.max_price_levels lists' (if all then o ∷ free else free) a
  after-IsLoose = record {
    not_free = filled.not_free;
    inside = loose.inside;
    unlisted =
        Side-ind s (λ t. (q : Price) → a ∉ lists' t q)
          (λ q. ap (has a) (across q) ∙ loose.unlisted s q)
          (λ q. elim (Bool-cases (p == q)) [
            | inl e ↦
                subst (λ r. a ∉ lists' (opposite s) r) ((==_iff p q).0 e)
                  (ap (has a) here ∙ no_member)
            | inr e ↦ ap (has a) (beside q (ground arith)) ∙ loose.unlisted (opposite s) q
          ]);
  }
    where
      no_member : a ∉ xs'
      no_member =
          let out = subst (λ l. a ∉ l) listed (loose.unlisted (opposite s) p) in
          elim (Bool-cases all) [ inl e ↦ rw e (ground (arith, out)) | inr e ↦ rw e out ]

  pub fill_order-Run :
      Run z read_cycles s a (p ∷ ps) b lists after lists' (if all then o ∷ free else free)
  fill_order-Run = record {
    whole = filled.whole;
    loose = after-IsLoose;
    aggressor =
        filled.aggressor
        ∙ ap {A = ℕ} (λ n. record (order_at b a) { remaining = n })
            (sym (ap Order.remaining filled.aggressor));
    shrunk = omega (arith, ap Order.remaining filled.aggressor);
    emptied = λ q e. beside q (λ f. occupied (sym listed ∙ ap (lists (opposite s)) f ∙ e)) ∙ e;
    others = λ r q.
        Side-ind s (λ t. ((t ≡ s) ⊎ (q ∉ p ∷ ps)) → view after lists' t q ≡ view b lists t q)
          (λ i. view_across q) (outside q) r;
    outcome = outcome;
    own_side = filled.own_side;
    lessened = Filled-IsLessened z read_cycles s a o p zs all b lists filled;
    index = Filled-Indexed z read_cycles s a o p zs all b lists filled listed;
  }
    where
      occupied : o ∷ zs ≢ []
      occupied e = cc

      outside :
          (q : Price)
          → (opposite s ≡ s) ⊎ (q ∉ p ∷ ps)
          → view after lists' (opposite s) q ≡ view b lists (opposite s) q
      outside q (inl e) = absurd (opposite-ne s (sym e))
      outside q (inr out) = view_beside q (λ e. ground arith)
