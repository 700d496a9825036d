-- ===== src/OrderBook/Whole.antt =====
-- When the pool, the levels and the totals of a book stand for lists of orders at each side and price.
use lock_free_limit_order_bo.Prelude.{
  ℕ, ◌+◌, ◌%◌, ◌<◌, ◌≡◌, ◌≢◌, ap, sym, ◌∙◌, arith, List, Bool-cases, inl, inr,
}
use lock_free_limit_order_bo.Prelude.Words.{u32_mod, u64_mod}
use lock_free_limit_order_bo.Prelude.Members.{has, ◌∈◌, ◌∉◌}
use lock_free_limit_order_bo.Order.{Ref, Price, Side, Order, Cells}
use lock_free_limit_order_bo.PriceLevel.{PriceLevel}
use lock_free_limit_order_bo.PriceLevel.Valid.{IsLevel, IsLevel-frame, shares}
use lock_free_limit_order_bo.OrderPool.{OrderPool}
use lock_free_limit_order_bo.OrderPool.FreeList.{IsPool}
use lock_free_limit_order_bo.OrderBook.State.{Sizes, Book, own}
use lock_free_limit_order_bo.OrderBook.Totals.{side_shares, side_shares-same}

-- The order and its links are the same.
abbrev pub Same : Cells → Cells → Ref → Type 0
Same c g o = (g.order o ≡ c.order o) × (g.next o ≡ c.next o) × (g.prev o ≡ c.prev o)

-- An order stands at the side and price it was entered with.
abbrev pub Placed : (Ref → Order) → Side → Price → Ref → Type 0
Placed f s p o = ((f o).side ≡ s) × ((f o).price ≡ p)

module _ (size max : ℕ) where
  -- An order of the array that is not free and has a 32-bit number of shares.
  abbrev pub Used : (Ref → Order) → List Ref → Ref → Type 0
  Used f free o = (o ∉ free) × (o < size) × ((f o).remaining < u32_mod)

  pub record IsBook (pool : OrderPool) (levels : Side → Price → PriceLevel) (totals : Side → ℕ)
      (lists : Side → Price → List Ref) (free : List Ref) : Type 0 where
    pub is_pool : IsPool size pool free
    pub level : (s : Side) (p : Price) → IsLevel pool.cells (levels s p) (lists s p)
    pub placed : (s : Side) (p : Price) (o : Ref) → o ∈ lists s p → Placed pool.cells.order s p o
    pub used : (s : Side) (p : Price) (o : Ref) → o ∈ lists s p → Used pool.cells.order free o
    pub in_range : (s : Side) (p : Price) (o : Ref) → o ∈ lists s p → p < max
    pub total : (s : Side) → totals s ≡ side_shares pool.cells.order max (lists s) % u64_mod

  -- A change of the pool and of one level: the list at `s` and `p` is exchanged for `xs`.
  pub record Change (pool : OrderPool) (levels : Side → Price → PriceLevel) (totals : Side → ℕ)
      (lists : Side → Price → List Ref) (s : Side) (p : Price) (pool' : OrderPool) (l : PriceLevel)
      (total' : ℕ) (xs free : List Ref) : Type 0 where
    pub is_pool : IsPool size pool' free
    pub level : IsLevel pool'.cells l xs
    pub placed : (o : Ref) → o ∈ xs → Placed pool'.cells.order s p o
    pub used : (o : Ref) → o ∈ xs → Used pool'.cells.order free o
    pub in_range : p < max
    pub others :
        (t : Side) (q : Price) (o : Ref)
        → o ∈ lists t q
        → o ∉ lists s p
        → Same pool.cells pool'.cells o × (o ∉ free)
    pub small : total' < u64_mod
    pub total :
        (total' + shares pool.cells.order (lists s p)) % u64_mod
        ≡ (totals s + shares pool'.cells.order xs) % u64_mod

  module _ {pool : OrderPool} {levels : Side → Price → PriceLevel} {totals : Side → ℕ}
      {lists : Side → Price → List Ref} {free : List Ref}
      (v : IsBook pool levels totals lists free) where
    -- An order stands in one list.
    pub apart_side : (s t : Side) (p q : Price) (o : Ref) → s ≢ t → o ∈ lists t q → o ∉ lists s p
    apart_side s t p q o ne i = elim (Bool-cases (has o (lists s p))) [
      | inl j ↦ absurd (ne (sym (v.placed s p o j).0 ∙ (v.placed t q o i).0))
      | inr j ↦ j
    ]

    pub apart_price : (s : Side) (p q : Price) (o : Ref) → p ≢ q → o ∈ lists s q → o ∉ lists s p
    apart_price s p q o ne i = elim (Bool-cases (has o (lists s p))) [
      | inl j ↦ absurd (ne (sym (v.placed s p o j).1 ∙ (v.placed s q o i).1))
      | inr j ↦ j
    ]

    module _ (pool' : OrderPool) (free' : List Ref) where
      -- What the book says of a level whose orders are untouched.
      pub framed :
          (t : Side) (q : Price)
          → ((o : Ref) → o ∈ lists t q → Same pool.cells pool'.cells o × (o ∉ free'))
          → IsLevel pool'.cells (levels t q) (lists t q)
            × ((o : Ref) → o ∈ lists t q → Placed pool'.cells.order t q o)
            × ((o : Ref) → o ∈ lists t q → Used pool'.cells.order free' o)
      framed t q same = (
        IsLevel-frame (v.level t q) (λ o i. ((same o i).0.1, (same o i).0.2))
            (λ o i. ap Order.remaining (same o i).0.0),
        λ o i. (
          ap Order.side (same o i).0.0 ∙ (v.placed t q o i).0,
          ap Order.price (same o i).0.0 ∙ (v.placed t q o i).1,
        ),
        λ o i. (
          (same o i).1,
          (v.used t q o i).1,
          ground (arith, (v.used t q o i).2, ap Order.remaining (same o i).0.0),
        ),
      )

      -- A change of the pool alone, which leaves the orders in the lists as they are.
      pub IsBook-frame :
          IsPool size pool' free'
          → ((t : Side) (q : Price) (o : Ref)
              → o ∈ lists t q
              → Same pool.cells pool'.cells o × (o ∉ free'))
          → IsBook pool' levels totals lists free'
      IsBook-frame is_pool same = record {
        is_pool = is_pool;
        level = λ t q. (framed t q (same t q)).0;
        placed = λ t q. (framed t q (same t q)).1;
        used = λ t q. (framed t q (same t q)).2;
        in_range = v.in_range;
        total = λ t.
            v.total t
            ∙ ap (λ n. n % u64_mod)
                (sym (
                  side_shares-same pool.cells.order pool'.cells.order max (lists t)
                    (λ q o i. ap Order.remaining (same t q o i).0.0)));
      }

  -- An order of the array that is neither free nor in a list.
  pub record IsLoose (lists : Side → Price → List Ref) (free : List Ref) (o : Ref) : Type 0 where
    pub not_free : o ∉ free
    pub inside : o < size
    pub unlisted : (s : Side) (p : Price) → o ∉ lists s p

-- The same of a book.
abbrev pub IsWhole : Sizes → Book → (Side → Price → List Ref) → List Ref → Type 0
IsWhole z b lists free =
    IsBook z.order_pool_size z.max_price_levels b.pool (λ s. (own s b).levels)
      (λ s. (own s b).total_qty) lists free
