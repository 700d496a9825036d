-- ===== src/OrderBook/Sweep.antt =====
-- The levels that hold orders, the best price, and the rounds of the outer loop of `match`.
use lock_free_limit_order_bo.Prelude.{
  ℕ, zero, suc, ◌+◌, ◌≤◌, ◌≡◌, true, false, refl, ap, arith, List, [], ◌∷◌, ◌++◌, inl, inr, subst,
  length, length-append,
}
use lock_free_limit_order_bo.Prelude.Members.{◌∈◌, Distinct-append, has-append, length-Distinct}
use lock_free_limit_order_bo.Order.{Ref, Price, Side, buy, sell, is_filled}
use lock_free_limit_order_bo.PriceLevel.{is_empty}
use lock_free_limit_order_bo.PriceLevel.Valid.{IsLevel, IsLevel-filled}
use lock_free_limit_order_bo.OrderBook.State.{Sizes, Book, own, passive, set_passive, order_at}
use lock_free_limit_order_bo.OrderBook.Match.{fill_level, match_loop, advance_best}
use lock_free_limit_order_bo.OrderBook.Sides.{opposite, passive-own, Side-ind}
use lock_free_limit_order_bo.OrderBook.Whole.{IsLoose, IsWhole}
use lock_free_limit_order_bo.OrderBook.Traded.{IsBook-cong}
use lock_free_limit_order_bo.OrderBook.Lessened.{IsLessened-fields}
use lock_free_limit_order_bo.OrderBook.Run.{Lists, Run}
use lock_free_limit_order_bo.OrderBook.Level.{List-cases, head-nil}
use lock_free_limit_order_bo.OrderBook.Priority.{queue}

-- The number of prices at which orders rest.
abbrev pub one_if_any : List Ref → ℕ
one_if_any [] = 0
one_if_any (x ∷ xs) = 1

abbrev pub busy : (Price → List Ref) → List Price → ℕ
busy lists [] = 0
busy lists (p ∷ ps) = one_if_any (lists p) + busy lists ps

one_if_any-bound : (xs : List Ref) → one_if_any xs ≤ 1
one_if_any-bound [] = omega arith
one_if_any-bound (x ∷ xs) = omega arith

pub busy-length : (lists : Price → List Ref) (ps : List Price) → busy lists ps ≤ length ps
busy-length lists [] = omega arith
busy-length lists (p ∷ ps) = omega (arith, busy-length lists ps, one_if_any-bound (lists p))

one_if_any-emptied : (xs ys : List Ref) → (xs ≡ [] → ys ≡ []) → one_if_any ys ≤ one_if_any xs
one_if_any-emptied [] ys f = omega (arith, ap one_if_any (f refl))
one_if_any-emptied (x ∷ xs) ys f = one_if_any-bound ys

-- Fewer levels are busy when some were emptied.
pub busy-emptied :
    (lists lists' : Price → List Ref) (ps : List Price)
    → ((p : Price) → lists p ≡ [] → lists' p ≡ [])
    → busy lists' ps ≤ busy lists ps
busy-emptied lists lists' [] emptied = omega arith
busy-emptied lists lists' (p ∷ ps) emptied = omega (
  arith,
  busy-emptied lists lists' ps emptied,
  one_if_any-emptied (lists p) (lists' p) (emptied p),
)

-- Levels without orders in front of others count for nothing.
pub busy-skip :
    (lists : Price → List Ref) (es ps : List Price)
    → ((p : Price) → p ∈ es → lists p ≡ [])
    → busy lists (es ++ ps) ≡ busy lists ps
busy-skip lists [] ps none_there = refl
busy-skip lists (e ∷ es) ps none_there = omega (
  arith,
  ap one_if_any (none_there e (ground arith)),
  busy-skip lists es ps (λ p i. none_there p (ground arith)),
)

queue-skip :
    (b : Book) (lists : Lists) (t : Side) (es ps : List Price)
    → ((p : Price) → p ∈ es → lists t p ≡ [])
    → queue b lists t (es ++ ps) ≡ queue b lists t ps
queue-skip b lists t [] ps none_there = refl
queue-skip b lists t (e ∷ es) ps none_there =
    rw (none_there e (ground arith)) (queue-skip b lists t es ps λ p i. none_there p (ground arith))

-- A new best price of the other side.
abbrev pub with_best : Side → Price → Book → Book
with_best s best b = set_passive s (record (passive s b) { best = best }) b

module _ (z : Sizes) (read_cycles : ℕ → ℕ) where
  pub with_best-Run :
      (s : Side) (a : Ref) (ps : List Price) (best : Price) {b : Book} {lists : Lists}
      {free : List Ref}
      → IsWhole z b lists free
      → IsLoose z.order_pool_size z.max_price_levels lists free a
      → Run z read_cycles s a ps b lists (with_best s best b) lists free
  with_best-Run buy a ps best {b} v loose =
      let b' = with_best buy best b in
      record {
        whole =
            IsBook-cong refl (Side-ind buy (λ t. (own t b').levels ≡ (own t b).levels) refl refl)
              (Side-ind buy (λ t. (own t b').total_qty ≡ (own t b).total_qty) refl refl) v;
        loose = loose;
        aggressor = refl;
        shrunk = omega arith;
        emptied = λ p e. e;
        others = λ r p i. refl;
        outcome = refl;
        own_side = refl;
        lessened = IsLessened-fields z b b' refl refl;
        index = λ narrow i. i;
      }
  with_best-Run sell a ps best {b} v loose =
      let b' = with_best sell best b in
      record {
        whole =
            IsBook-cong refl (Side-ind sell (λ t. (own t b').levels ≡ (own t b).levels) refl refl)
              (Side-ind sell (λ t. (own t b').total_qty ≡ (own t b).total_qty) refl refl) v;
        loose = loose;
        aggressor = refl;
        shrunk = omega arith;
        emptied = λ p e. e;
        others = λ r p i. refl;
        outcome = refl;
        own_side = refl;
        lessened = IsLessened-fields z b b' refl refl;
        index = λ narrow i. i;
      }

  -- Empty levels in front make no difference.
  pub Run-skip :
      {s : Side} {a : Ref} (es : List Price) {ps : List Price} {b b' : Book} {lists lists' : Lists}
      {free' : List Ref}
      → ((p : Price) → p ∈ es → lists (opposite s) p ≡ [])
      → Run z read_cycles s a ps b lists b' lists' free'
      → Run z read_cycles s a (es ++ ps) b lists b' lists' free'
  Run-skip {s} {a} es {ps} {b} {b'} {lists} {lists'} none_there r = record {
    whole = r.whole;
    loose = r.loose;
    aggressor = r.aggressor;
    shrunk = r.shrunk;
    emptied = r.emptied;
    others = λ t p i.
        r.others t p
          (elim i [ inl e ↦ inl e | inr out ↦ inr (ground (arith, has-append p es ps)) ]);
    outcome =
        rw
          (
            queue-skip b' lists' (opposite s) es ps (λ p i. r.emptied p (none_there p i)),
            queue-skip b lists (opposite s) es ps none_there,
          )
          r.outcome;
    own_side = r.own_side;
    lessened = r.lessened;
    index = r.index;
  }

  -- The orders of a level are no more than those in use.
  pub length-in_use :
      {b : Book} {lists : Lists} {free : List Ref} (t : Side) (p : Price)
      → IsWhole z b lists free
      → length (lists t p) ≤ b.pool.in_use
  length-in_use {b} {lists} {free} t p v = omega (
    arith,
    v.is_pool.counted,
    length-append (lists t p) free,
    length-Distinct z.order_pool_size (lists t p ++ free)
        (Distinct-append (lists t p) free (v.level t p).distinct v.is_pool.distinct
          (λ o i. (v.used t p o i).0))
        (λ o i. ground (arith, has-append o (lists t p) free, v.used t p o, v.is_pool.in_range o)),
  )

  level_at :
      {b : Book} {lists : Lists} {free : List Ref} {xs : List Ref} (s : Side) (p : Price)
      → IsWhole z b lists free
      → lists (opposite s) p ≡ xs
      → IsLevel b.pool.cells ((passive s b).levels p) xs
  level_at {b} s p v e =
      rw passive-own
        (subst (IsLevel b.pool.cells ((own (opposite s) b).levels p)) e (v.level (opposite s) p))

  -- A level is empty when its list is.
  pub no_list :
      {b : Book} {lists : Lists} {free : List Ref} (s : Side) (p : Price)
      → IsWhole z b lists free
      → is_empty ((passive s b).levels p) ≡ true
      → lists (opposite s) p ≡ []
  no_list {b} {lists} s p v e = elim (List-cases (lists (opposite s) p)) [
    | inl f ↦ f
    | inr (o, zs, f) ↦ absurd (ground (arith, IsLevel-filled [] o zs (level_at s p v f)))
  ]

  pub some_list :
      {b : Book} {lists : Lists} {free : List Ref} (s : Side) (p : Price)
      → IsWhole z b lists free
      → is_empty ((passive s b).levels p) ≡ false
      → one_if_any (lists (opposite s) p) ≡ 1
  some_list {b} {lists} s p v e = elim (List-cases (lists (opposite s) p)) [
    | inl f ↦ absurd (ground (arith, head-nil b.pool.cells (level_at s p v f)))
    | inr (o, zs, f) ↦ ap one_if_any f
  ]

  pub match_loop-filled :
      (fuel : ℕ) (s : Side) (a : Ref) (b : Book)
      → is_filled (order_at b a) ≡ true
      → match_loop z read_cycles fuel s a b ≡ b
  unfolding match_loop
  match_loop-filled zero s a b e = refl
  match_loop-filled (suc fuel) s a b e = rw (match_loop, e) refl

  pub match_loop-stop :
      (fuel : ℕ) (s : Side) (a : Ref) (limit : Price) (b : Book)
      → is_filled (order_at b a) ≡ false
      → (order_at b a).price ≡ limit
      → let (r, crosses) = advance_best z read_cycles s limit (passive s b) in
        crosses ≡ false → match_loop z read_cycles (suc fuel) s a b ≡ with_best s r b
  unfolding match_loop
  match_loop-stop fuel s a limit b e p =
      subst
        (λ k.
          let (r, crosses) = advance_best z read_cycles s k (passive s b) in
          crosses ≡ false → match_loop z read_cycles (suc fuel) s a b ≡ with_best s r b)
        p (λ f. rw (match_loop, e, f) refl)

  pub match_loop-level :
      (fuel : ℕ) (s : Side) (a : Ref) (limit : Price) (b : Book)
      → is_filled (order_at b a) ≡ false
      → (order_at b a).price ≡ limit
      → let (r, crosses) = advance_best z read_cycles s limit (passive s b) in
        let b' = with_best s r b in
        crosses ≡ true
        → match_loop z read_cycles (suc fuel) s a b
          ≡ match_loop z read_cycles fuel s a (fill_level z read_cycles b'.pool.in_use s r a b')
  unfolding match_loop
  match_loop-level fuel s a limit b e p =
      subst
        (λ k.
          let (r, crosses) = advance_best z read_cycles s k (passive s b) in
          let b' = with_best s r b in
          crosses ≡ true
          → match_loop z read_cycles (suc fuel) s a b
            ≡ match_loop z read_cycles fuel s a (fill_level z read_cycles b'.pool.in_use s r a b'))
        p (λ f. rw (match_loop, e, f) refl)
