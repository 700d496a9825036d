-- ===== src/PriceLevel/Valid.antt =====
-- When the fields of a level and the links of its orders stand for a list of orders.
use lock_free_limit_order_bo.Prelude.{
  ℕ, Bool, true, some, ◌<◌, false, ◌+◌, ◌%◌, ◌≡◌, refl, ◌≢◌, none, List, [], ◌∷◌, ◌++◌, arith,
  length,
}
use lock_free_limit_order_bo.Prelude.Words.{u32_mod, sub32}
use lock_free_limit_order_bo.Prelude.Members.{Distinct, Distinct-split, ◌∉◌, ◌∈◌}
use lock_free_limit_order_bo.Order.{Ref, Order, Cells}
use lock_free_limit_order_bo.PriceLevel.{PriceLevel}
use lock_free_limit_order_bo.PriceLevel.Chain.{Chain, cons, SameLinks, Chain-frame}

-- The shares that the orders of a list have left, as an unbounded sum.
abbrev pub shares : (Ref → Order) → List Ref → ℕ
shares f [] = 0
shares f (x ∷ xs) = (f x).remaining + shares f xs

pub shares-append :
    (f : Ref → Order) (xs ys : List Ref) → shares f (xs ++ ys) ≡ shares f xs + shares f ys
shares-append f [] ys = omega arith
shares-append f (x ∷ xs) ys = omega (arith, shares-append f xs ys)

-- The cells differ at most in the links of `o` and of the orders of `xs`.
pub record Frame (xs : List Ref) (o : Ref) (c g : Cells) : Type 0 where
  pub same_order : g.order ≡ c.order
  pub same_next : (a : Ref) → a ∉ xs → a ≢ o → g.next a ≡ c.next a
  pub same_prev : (a : Ref) → a ∉ xs → a ≢ o → g.prev a ≡ c.prev a

-- No order stands first on a level.
abbrev pub vacant : PriceLevel → Bool
vacant l = elim l.head [ none ↦ true | some _ ↦ false ]

-- `l` holds the orders `xs`, oldest first. `count` and `total_quantity` are 32-bit words.
pub record IsLevel (c : Cells) (l : PriceLevel) (xs : List Ref) : Type 0 where
  pub chain : Chain c none l.head xs l.tail none
  pub distinct : Distinct xs
  pub counted : l.count ≡ length xs % u32_mod
  pub totalled : l.total_quantity ≡ shares c.order xs % u32_mod

-- The orders of a list have the same shares left.
abbrev pub SameShares : List Ref → Cells → Cells → Type 0
SameShares xs c g = (a : Ref) → a ∈ xs → (g.order a).remaining ≡ (c.order a).remaining

pub shares-frame :
    (c g : Cells) (xs : List Ref) → SameShares xs c g → shares g.order xs ≡ shares c.order xs
shares-frame c g [] same = refl
shares-frame c g (x ∷ xs) same =
    omega (arith, same x (ground arith), shares-frame c g xs (λ a i. same a (ground arith)))

-- A level reads the cells of its own orders only.
pub IsLevel-frame :
    {c g : Cells} {l : PriceLevel} {xs : List Ref}
    → IsLevel c l xs
    → SameLinks xs c g
    → SameShares xs c g
    → IsLevel g l xs
IsLevel-frame {c} {g} {xs} v links same = record {
  chain = Chain-frame v.chain links;
  distinct = v.distinct;
  counted = v.counted;
  totalled = omega (arith, v.totalled, shares-frame c g xs same);
}

-- A level with an order is not empty.
pub IsLevel-filled :
    {c : Cells} {l : PriceLevel} (ys : List Ref) (o : Ref) (zs : List Ref)
    → IsLevel c l (ys ++ o ∷ zs)
    → vacant l ≡ false
IsLevel-filled [] o zs v = elim v.chain [ cons e b r ↦ rw e refl ]
IsLevel-filled (y ∷ ys) o zs v = elim v.chain [ cons e b r ↦ rw e refl ]

abbrev pub less_shares : ℕ → PriceLevel → PriceLevel
less_shares delta l = record l { total_quantity = sub32 l.total_quantity delta }

-- A level whose total loses the shares that one of its orders loses.
pub IsLevel-less :
    {c g : Cells} {l : PriceLevel} (o : Ref) (ys zs : List Ref) (delta : ℕ)
    → IsLevel c l (ys ++ o ∷ zs)
    → SameLinks (ys ++ o ∷ zs) c g
    → ((a : Ref) → a ≢ o → (g.order a).remaining ≡ (c.order a).remaining)
    → (g.order o).remaining + delta ≡ (c.order o).remaining
    → (c.order o).remaining < u32_mod
    → IsLevel g (less_shares delta l) (ys ++ o ∷ zs)
IsLevel-less {c} {g} o ys zs delta v links same fewer small =
    let (_, dz, apart) = Distinct-split ys (o ∷ zs) v.distinct in
    let front = shares-frame c g ys (λ a i. same a (ground (arith, apart a))) in
    let back = shares-frame c g zs (λ a i. same a (ground (arith, dz.0))) in
    record {
      chain = Chain-frame v.chain links;
      distinct = v.distinct;
      counted = v.counted;
      totalled = omega (
        arith,
        front,
        back,
        fewer,
        v.totalled,
        shares-append c.order ys (o ∷ zs),
        shares-append g.order ys (o ∷ zs),
      );
    }
