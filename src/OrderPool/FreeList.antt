-- ===== src/OrderPool/FreeList.antt =====
-- The free list of the pool: which orders can be acquired, and in which order.
use lock_free_limit_order_bo.Prelude.{
  ℕ, zero, suc, ◌+◌, ◌-◌, ◌≤◌, ◌<◌, ◌≡◌, refl, ◌≢◌, none, some, List, [], ◌∷◌, arith, length, ap,
  sym, subst, ltb, leb, if◌then◌else◌, ◌&&◌,
}
use lock_free_limit_order_bo.Prelude.Words.{u64_mod}
use lock_free_limit_order_bo.Prelude.Members.{has, Distinct, ◌∈◌, ◌∉◌}
use lock_free_limit_order_bo.Order.{Ref, Ptr, Cells, set_next}
use lock_free_limit_order_bo.OrderPool.{OrderPool, link_from, new_pool, acquire, release}

-- From `h` the `next` links lead through `xs` to null.
pub data FreeList (c : Cells) : Ptr → List Ref → Type 0 where
  nil : {h : Ptr} → h ≡ none → FreeList c h []
  cons :
      {h : Ptr} {x : Ref} {xs : List Ref}
      → h ≡ some x
      → FreeList c (c.next x) xs
      → FreeList c h (x ∷ xs)

-- The pool of `capacity` orders, of which `free` are free, the next one to be acquired first.
pub record IsPool (capacity : ℕ) (p : OrderPool) (free : List Ref) : Type 0 where
  pub chain : FreeList p.cells p.free_head free
  pub distinct : Distinct free
  pub in_range : (a : Ref) → a ∈ free → a < capacity
  pub counted : p.in_use + length free ≡ capacity
  pub small : capacity < u64_mod

pub FreeList-frame :
    {c g : Cells} {h : Ptr} {xs : List Ref}
    → FreeList c h xs
    → ((a : Ref) → a ∈ xs → g.next a ≡ c.next a)
    → FreeList g h xs
FreeList-frame (nil e) same = nil e
FreeList-frame {g} (cons {x} {xs} e k) same = cons e (
    subst (λ j. FreeList g j xs) (sym (same x (ground arith)))
      (FreeList-frame k λ a i. same a (ground arith)))

pub FreeList-uncons :
    {c : Cells} {h : Ptr} {x : Ref} {xs : List Ref}
    → FreeList c h (x ∷ xs)
    → (h ≡ some x) × FreeList c (c.next x) xs
FreeList-uncons (cons e k) = (e, k)

FreeList-null : {c : Cells} {h : Ptr} → FreeList c h [] → h ≡ none
FreeList-null (nil e) = e

-- The references `i`, `i + 1`, …, `n` of them.
abbrev pub range : ℕ → ℕ → List Ref
range i zero = []
range i (suc n) = i ∷ range (suc i) n

length-range : (i n : ℕ) → length (range i n) ≡ n
length-range i zero = refl
length-range i (suc n) = ap suc (length-range (suc i) n)

has-range : (i n a : ℕ) → has a (range i n) ≡ (leb i a && ltb a (i + n))
has-range i zero a = ground arith
has-range i (suc n) a = ground (arith, has-range (suc i) n a)

Distinct-range : (i n : ℕ) → Distinct (range i n)
Distinct-range i zero = tt
Distinct-range i (suc n) = (ground (arith, has-range (suc i) n i), Distinct-range (suc i) n)

link_from-next :
    (n i : ℕ) (c : Cells) (a : Ref)
    → (link_from n i c).next a ≡ (if leb i a && ltb a (i + n) then some (a + 1) else c.next a)
unfolding link_from
link_from-next zero i c a = ground arith
link_from-next (suc n) i c a =
    ground (arith, link_from-next n (i + 1) (set_next i (some (i + 1)) c) a)

FreeList-range :
    {c : Cells} (n i : ℕ) {h : Ptr}
    → h ≡ some i
    → ((a : Ref) → i ≤ a → a < i + n → c.next a ≡ some (suc a))
    → c.next (i + n) ≡ none
    → FreeList c h (range i (suc n))
FreeList-range {c} zero i e up stop = cons e (nil (subst (λ k. c.next k ≡ none) (omega arith) stop))
FreeList-range {c} (suc n) i e up stop = cons e (
    FreeList-range n (suc i) (up i (omega arith) (omega arith))
      (λ a p q. up a (omega arith) (omega arith)) (subst (λ k. c.next k ≡ none) (omega arith) stop))

-- A new pool of at least one and fewer than 2 ^ 64 orders has every order of its array free, in the
-- array's order.
pub new_pool-IsPool :
    (n : ℕ) (c : Cells) → suc n < u64_mod → IsPool (suc n) (new_pool (suc n) c) (range 0 (suc n))
unfolding new_pool
new_pool-IsPool n c small = record {
  chain =
      FreeList-range n 0 refl (λ a p q. ground (arith, link_from-next (suc n - 1) 0 c a))
        (ground arith);
  distinct = Distinct-range 0 (suc n);
  in_range = λ a i. ground (arith, has-range 0 (suc n) a);
  counted = omega (arith, length-range 0 (suc n));
  small = small;
}

module _ {capacity : ℕ} {p : OrderPool} where
  -- An exhausted pool gives null and stays as it is.
  pub acquire-none : IsPool capacity p [] → acquire p ≡ (none, p)
  unfolding acquire
  acquire-none v = ground (arith, FreeList-null v.chain)

  -- `acquire` from a pool with a free order gives the first of the free list and leaves the pool
  -- with the others free; it changes no order's data and no links but those of the order it gives.
  pub acquire-IsPool :
      {o : Ref} {free : List Ref}
      → IsPool capacity p (o ∷ free)
      → let (got, p') = acquire p in
        (got ≡ some o)
        × IsPool capacity p' free
        × (p'.cells.order ≡ p.cells.order)
        × ((a : Ref)
            → a ≢ o
            → (p'.cells.next a ≡ p.cells.next a) × (p'.cells.prev a ≡ p.cells.prev a))
  unfolding acquire
  acquire-IsPool v =
      rw ((FreeList-uncons v.chain).0, acquire)
        (
          refl,
          record {
            chain = FreeList-frame (FreeList-uncons v.chain).1 λ a i. ground (arith, v.distinct.0);
            distinct = v.distinct.1;
            in_range = λ a i. ground (arith, v.in_range a);
            counted = omega (arith, v.counted, v.small);
            small = v.small;
          },
          refl,
          λ a ne. (ground arith, ground arith),
        )

  -- `release` of an order of the array that is not free puts it in front of the free list; it
  -- changes no order's data and no links but those of the order it takes back. Fewer orders are
  -- free than the pool has.
  pub release-IsPool :
      {o : Ref} {free : List Ref}
      → IsPool capacity p free
      → o ∉ free
      → o < capacity
      → length free < capacity
      → let p' = release o p in
        IsPool capacity p' (o ∷ free)
        × (p'.cells.order ≡ p.cells.order)
        × ((a : Ref)
            → a ≢ o
            → (p'.cells.next a ≡ p.cells.next a) × (p'.cells.prev a ≡ p.cells.prev a))
  unfolding release
  release-IsPool {o} {free} v out inside some_used = (
    record {
      chain = cons refl (
          subst (λ h. FreeList (release o p).cells h free) (ground arith)
            (FreeList-frame v.chain λ a i. ground arith));
      distinct = (out, v.distinct);
      in_range = λ a i. ground (arith, v.in_range a);
      counted = omega (arith, v.counted, v.small);
      small = v.small;
    },
    refl,
    λ a ne. (ground arith, ground arith),
  )
