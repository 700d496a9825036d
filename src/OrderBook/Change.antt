-- ===== src/OrderBook/Change.antt =====
-- A change of one level, and the rest of the book.
use lock_free_limit_order_bo.Prelude.{
  ℕ, ◌%◌, ◌<◌, ◌≡◌, ◌≢◌, ◌==◌, ap, sym, ◌∙◌, arith, List, update, update_self, Bool-cases, inl, inr,
  ==_iff, subst,
}
use lock_free_limit_order_bo.Prelude.Words.{u64_mod}
use lock_free_limit_order_bo.Prelude.Members.{◌∈◌, ◌∉◌}
use lock_free_limit_order_bo.Order.{Ref, Price, Side, Order}
use lock_free_limit_order_bo.PriceLevel.{PriceLevel}
use lock_free_limit_order_bo.PriceLevel.Valid.{IsLevel}
use lock_free_limit_order_bo.OrderPool.{OrderPool}
use lock_free_limit_order_bo.OrderBook.Totals.{side_shares, side_shares-same, side_shares-update}
use lock_free_limit_order_bo.OrderBook.Sides.{
  opposite, opposite-ne, set_side, Side-ind, set_side_self, set_side-opposite,
}
use lock_free_limit_order_bo.OrderBook.Whole.{
  Same, Placed, Used, IsBook, Change, apart_side, apart_price, framed,
}

module _ {size max : ℕ} {pool pool' : OrderPool} {levels : Side → Price → PriceLevel}
    {totals : Side → ℕ} {lists : Side → Price → List Ref} {free free' : List Ref} {s : Side}
    {p : Price} {l : PriceLevel} {total' : ℕ} {xs : List Ref}
    (v : IsBook size max pool levels totals lists free)
    (c : Change size max pool levels totals lists s p pool' l total' xs free') where
  -- The orders at another price, and those of the other side, are untouched.
  beside :
      (q : Price) (o : Ref) → p ≢ q → o ∈ lists s q → Same pool.cells pool'.cells o × (o ∉ free')
  beside q o ne i = c.others s q o i (apart_price size max v s p q o ne i)

  across :
      (q : Price) (o : Ref) → o ∈ lists (opposite s) q → Same pool.cells pool'.cells o × (o ∉ free')
  across q o i =
      c.others (opposite s) q o i (apart_side size max v s (opposite s) p q o (opposite-ne s) i)

  -- What the book says of one level.
  abbrev At : Side → Price → PriceLevel → List Ref → Type 0
  At t q k ys =
      IsLevel pool'.cells k ys
      × ((o : Ref) → o ∈ ys → Placed pool'.cells.order t q o)
      × ((o : Ref) → o ∈ ys → Used size max pool'.cells.order free' o)
      × ((o : Ref) → o ∈ ys → q < max)

  At-own : (q : Price) → At s q (update (levels s) p l q) (update (lists s) p xs q)
  At-own q = elim (Bool-cases (p == q)) [
    | inl e ↦
        let same = (==_iff p q).0 e in
        subst (λ r. At s r (update (levels s) p l r) (update (lists s) p xs r)) same
          (rw (update_self (levels s) p l, update_self (lists s) p xs)
            (c.level, c.placed, c.used, λ o i. c.in_range))
    | inr e ↦
        let (k, a, u) = framed size max v pool' free' s q (λ o i. beside q o (ground arith) i) in
        rw e (k, a, u, λ o i. v.in_range s q o i)
  ]

  At-side :
      (t : Side) (q : Price)
      → At t q
          (set_side s (update (levels s) p l) levels t q)
          (set_side s (update (lists s) p xs) lists t q)
  At-side =
      Side-ind s
        (λ t.
          (q : Price)
          → At t q (set_side s (update (levels s) p l) levels t q)
              (set_side s (update (lists s) p xs) lists t q))
        (rw (set_side_self, set_side_self) At-own)
        (rw (set_side-opposite, set_side-opposite)
          λ q.
            let (k, a, u) = framed size max v pool' free' (opposite s) q (across q) in
            (k, a, u, λ o i. v.in_range (opposite s) q o i))

  total_own : total' ≡ side_shares pool'.cells.order max (update (lists s) p xs) % u64_mod
  total_own = omega (
    arith,
    c.total,
    c.small,
    v.total s,
    side_shares-update pool.cells.order pool'.cells.order (lists s) p xs
        (λ q o ne i. ap Order.remaining (beside q o ne i).0.0) max c.in_range,
  )

  total_side :
      (t : Side)
      → set_side s total' totals t
        ≡ side_shares pool'.cells.order max (set_side s (update (lists s) p xs) lists t) % u64_mod
  total_side =
      Side-ind s
        (λ t.
          set_side s total' totals t
          ≡ side_shares pool'.cells.order max (set_side s (update (lists s) p xs) lists t)
            % u64_mod)
        (rw (set_side_self, set_side_self) total_own)
        (rw (set_side-opposite, set_side-opposite)
          (v.total (opposite s)
            ∙ ap (λ n. n % u64_mod)
                (sym (
                  side_shares-same pool.cells.order pool'.cells.order max (lists (opposite s))
                    (λ q o i. ap Order.remaining (across q o i).0.0)))))

  pub Change-IsBook :
      IsBook size max pool'
        (set_side s (update (levels s) p l) levels)
        (set_side s total' totals)
        (set_side s (update (lists s) p xs) lists)
        free'
  Change-IsBook = record {
    is_pool = c.is_pool;
    level = λ t q. (At-side t q).0;
    placed = λ t q. (At-side t q).1;
    used = λ t q. (At-side t q).2;
    in_range = λ t q. (At-side t q).3;
    total = total_side;
  }
