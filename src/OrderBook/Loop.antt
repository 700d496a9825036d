-- ===== src/OrderBook/Loop.antt =====
-- The outer loop of `match`, over the levels.
use lock_free_limit_order_bo.Prelude.{
  ℕ, zero, suc, ◌<◌, ◌≡◌, ◌⊎◌, refl, ap, sym, ◌∙◌, arith, List, [], ◌∷◌, ◌++◌, inl, inr, Bool-cases,
  subst,
}
use lock_free_limit_order_bo.Prelude.Words.{u32_mod}
use lock_free_limit_order_bo.Prelude.Members.{has, ◌∈◌, has-append}
use lock_free_limit_order_bo.Order.{Ref, Price, Side, buy, sell, Order, is_filled}
use lock_free_limit_order_bo.OrderBook.State.{Sizes, Book, passive, order_at}
use lock_free_limit_order_bo.OrderBook.Match.{fill_level, match_loop, advance_best}
use lock_free_limit_order_bo.OrderBook.Sides.{opposite}
use lock_free_limit_order_bo.OrderBook.Whole.{IsLoose, IsWhole}
use lock_free_limit_order_bo.OrderBook.Run.{Lists, Run, Run-refl, Run-trans}
use lock_free_limit_order_bo.OrderBook.Level.{Emptied, fill_level-Emptied}
use lock_free_limit_order_bo.OrderBook.Priority.{within}
use lock_free_limit_order_bo.OrderBook.Within.{Found, InRange, advance_best-cases}
use lock_free_limit_order_bo.OrderBook.Sweep.{
  one_if_any, busy, busy-emptied, busy-skip, with_best, with_best-Run, Run-skip, length-in_use,
  no_list, some_list, match_loop-filled, match_loop-stop, match_loop-level,
}

module _ (z : Sizes) (read_cycles : ℕ → ℕ) where
  -- The order is filled, or no order is left at the prices `ps`.
  pub record Swept (s : Side) (a : Ref) (ps : List Price) (b : Book) (lists : Lists) (b' : Book)
      : Type 0 where
    pub lists_now : Lists
    pub free_now : List Ref
    pub run : Run z read_cycles s a ps b lists b' lists_now free_now
    pub inside : InRange z read_cycles s (order_at b a).price (passive s b').best
    pub ended :
        ((order_at b' a).remaining ≡ 0) ⊎ ((p : Price) → p ∈ ps → lists_now (opposite s) p ≡ [])

  with_best-best : (s : Side) (r : Price) (b : Book) → (passive s (with_best s r b)).best ≡ r
  with_best-best buy r b = refl
  with_best-best sell r b = refl

  -- What `match_loop` does with `n` rounds.
  abbrev Rounds : ℕ → Type 0
  Rounds n =
      (s : Side) (a : Ref) (limit : Price) (b : Book) (lists : Lists) (free : List Ref)
      → IsWhole z b lists free
      → IsLoose z.order_pool_size z.max_price_levels lists free a
      → (order_at b a).remaining < u32_mod
      → (order_at b a).price ≡ limit
      → InRange z read_cycles s limit (passive s b).best
      → busy (lists (opposite s)) (within s limit (passive s b).best) < n
      → Swept s a (within s limit (passive s b).best) b lists (match_loop z read_cycles n s a b)

  module _ (s : Side) (a : Ref) (limit : Price) (b : Book) (lists : Lists) (free : List Ref)
      (v : IsWhole z b lists free)
      (loose : IsLoose z.order_pool_size z.max_price_levels lists free a)
      (small : (order_at b a).remaining < u32_mod) (e : (order_at b a).price ≡ limit) (r : Price)
      (found : Found s limit (passive s b) r) (inside : InRange z read_cycles s limit r) where
    abbrev moved : Book
    moved = with_best s r b

    moved-Run : Run z read_cycles s a (r ∷ found.0.rest) b lists moved lists free
    moved-Run = with_best-Run z read_cycles s a (r ∷ found.0.rest) r v loose

    abbrev drained : Book
    drained = fill_level z read_cycles moved.pool.in_use s r a moved

    level-Emptied : Emptied z read_cycles s a r found.0.rest found.0.once moved lists drained
    level-Emptied =
        fill_level-Emptied z read_cycles s a r found.0.rest found.0.once moved.pool.in_use moved
          lists free moved-Run.whole moved-Run.loose (omega (arith, moved-Run.shrunk))
          (length-in_use z read_cycles (opposite s) r moved-Run.whole)

    level-Run :
        Run z read_cycles s a
          (r ∷ found.0.rest)
          b
          lists
          drained
          level-Emptied.lists_now
          level-Emptied.free_now
    level-Run = Run-trans z read_cycles s a (r ∷ found.0.rest) moved-Run level-Emptied.run

    at_best : within s limit (passive s drained).best ≡ r ∷ found.0.rest
    at_best = ap (within s limit) (level-Emptied.best ∙ with_best-best s r b) ∙ found.0.here

    -- The levels in front of `r` are empty, before and after.
    all_within : found.0.before ++ r ∷ found.0.rest ≡ within s limit (passive s b).best
    all_within = ap (λ l. found.0.before ++ l) (sym found.0.here) ∙ sym found.0.whole

    passed_by : (p : Price) → p ∈ found.0.before → lists (opposite s) p ≡ []
    passed_by p i = no_list z read_cycles s p v (found.1 p i)

    widen :
        {b' : Book}
        → Swept s a (r ∷ found.0.rest) b lists b'
        → Swept s a (within s limit (passive s b).best) b lists b'
    widen {b'} w =
        subst (λ ps. Swept s a ps b lists b') all_within
          (record {
            lists_now = w.lists_now;
            free_now = w.free_now;
            inside = w.inside;
            run = Run-skip z read_cycles found.0.before passed_by w.run;
            ended = elim w.ended [
              | inl f ↦ inl f
              | inr f ↦ inr λ p i. elim (Bool-cases (has p found.0.before)) [
                | inl j ↦ w.run.emptied p (passed_by p j)
                | inr j ↦ f p (ground (arith, has-append p found.0.before (r ∷ found.0.rest)))
              ]
            ];
          })

    -- One level fewer holds orders.
    fewer :
        level-Emptied.lists_now (opposite s) r ≡ []
        → busy (level-Emptied.lists_now (opposite s)) (within s limit (passive s drained).best)
          < busy (lists (opposite s)) (within s limit (passive s b).best)
    fewer gone = omega (
      arith,
      ap (busy (level-Emptied.lists_now (opposite s))) at_best,
      ap (busy (lists (opposite s))) all_within,
      ap one_if_any gone,
      some_list z read_cycles s r v found.2,
      busy-skip (lists (opposite s)) found.0.before (r ∷ found.0.rest) passed_by,
      busy-emptied (lists (opposite s)) (level-Emptied.lists_now (opposite s)) found.0.rest
          level-Run.emptied,
    )

    inside_a : InRange z read_cycles s (order_at b a).price r
    inside_a = subst (λ k. InRange z read_cycles s k r) (sym e) inside

    one_more-Swept :
        (n : ℕ)
        → Rounds n
        → busy (lists (opposite s)) (within s limit (passive s b).best) < suc n
        → Swept s a
            (within s limit (passive s b).best)
            b
            lists
            (match_loop z read_cycles n s a drained)
    one_more-Swept n rounds enough = elim level-Emptied.ended [
      | inl f ↦ rw (match_loop-filled z read_cycles n s a drained (ground arith)) (
          widen (record {
            lists_now = level-Emptied.lists_now;
            free_now = level-Emptied.free_now;
            run = level-Run;
            inside =
                subst (InRange z read_cycles s (order_at b a).price)
                  (sym (level-Emptied.best ∙ with_best-best s r b)) inside_a;
            ended = inl f;
          }))
      | inr gone ↦
          let rest =
            subst
              (λ ps.
                Swept s a ps drained level-Emptied.lists_now
                  (match_loop z read_cycles n s a drained))
              at_best
              (rounds s a limit drained level-Emptied.lists_now level-Emptied.free_now
                level-Run.whole level-Run.loose (omega (arith, level-Run.shrunk))
                (ap Order.price level-Run.aggressor ∙ e)
                (subst (InRange z read_cycles s limit)
                  (sym (level-Emptied.best ∙ with_best-best s r b)) inside)
                (omega (arith, fewer gone))) in
          widen (record {
            lists_now = rest.lists_now;
            free_now = rest.free_now;
            run = Run-trans z read_cycles s a (r ∷ found.0.rest) level-Run rest.run;
            inside =
                subst
                  (λ k.
                    InRange z read_cycles s k
                      (passive s (match_loop z read_cycles n s a drained)).best)
                  (ap Order.price level-Run.aggressor) rest.inside;
            ended = rest.ended;
          })
    ]

  -- With more rounds than levels that hold orders, the loop ends with the order filled, or with no
  -- order left within its limit.
  pub match_loop-Swept : (n : ℕ) → Rounds n
  match_loop-Swept zero s a limit b lists free v loose small e inside enough = absurd (omega arith)
  match_loop-Swept (suc n) s a limit b lists free v loose small e inside enough =
      elim (Bool-cases (is_filled (order_at b a))) [
        | inl f ↦ rw (match_loop-filled z read_cycles (suc n) s a b f) (record {
          lists_now = lists;
          free_now = free;
          run = Run-refl z read_cycles s a (within s limit (passive s b).best) v loose;
          inside = subst (λ k. InRange z read_cycles s k (passive s b).best) (sym e) inside;
          ended = inl (ground arith);
        })
        | inr f ↦ elim (advance_best-cases z read_cycles s limit (passive s b) inside) [
          | inl (crosses, found, inside') ↦
              rw (match_loop-level z read_cycles n s a limit b f e crosses) (
                one_more-Swept s a limit b lists free v loose small e
                  (advance_best z read_cycles s limit (passive s b)).0 found inside' n
                  (match_loop-Swept n) enough)
          | inr (stops, nothing, inside') ↦
              let r = (advance_best z read_cycles s limit (passive s b)).0 in
              rw (match_loop-stop z read_cycles n s a limit b f e stops) (record {
                lists_now = lists;
                free_now = free;
                run =
                    with_best-Run z read_cycles s a (within s limit (passive s b).best)
                      (advance_best z read_cycles s limit (passive s b)).0 v loose;
                inside =
                    subst (λ k. InRange z read_cycles s k (passive s (with_best s r b)).best)
                      (sym e)
                      (subst (InRange z read_cycles s limit) (sym (with_best-best s r b)) inside');
                ended = inr λ p i. no_list z read_cycles s p v (nothing p i);
              })
        ]
      ]
