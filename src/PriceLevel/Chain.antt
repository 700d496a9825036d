-- ===== src/PriceLevel/Chain.antt =====
-- What the links of a level stand for: the doubly-linked chain of a list of orders.
use lock_free_limit_order_bo.Prelude.{◌≡◌, refl, ◌∙◌, sym, subst, some, List, [], ◌∷◌, ◌++◌, arith}
use mathlib.Core.Path.{subst₂}
use lock_free_limit_order_bo.Prelude.Members.{◌∈◌, ◌∉◌, Distinct}
use lock_free_limit_order_bo.Order.{Ref, Ptr, Cells, set_next, set_prev}

-- From `h` the `next` links lead through `xs` to `n`, the `prev` links lead back to `p`, and `l` is
-- the last order (`p`, if there is none).
pub data Chain (c : Cells) : (p h : Ptr) → List Ref → (l n : Ptr) → Type 0 where
  nil : {p h l n : Ptr} → h ≡ n → l ≡ p → Chain c p h [] l n
  cons :
      {p h l n : Ptr} {x : Ref} {xs : List Ref}
      → h ≡ some x
      → c.prev x ≡ p
      → Chain c (some x) (c.next x) xs l n
      → Chain c p h (x ∷ xs) l n

-- The links of the orders of `xs` are the same.
abbrev pub SameLinks : List Ref → Cells → Cells → Type 0
SameLinks xs c g = (a : Ref) → a ∈ xs → (g.next a ≡ c.next a) × (g.prev a ≡ c.prev a)

module _ {c : Cells} where
  pub Chain-frame :
      {g : Cells} {p h l n : Ptr} {xs : List Ref}
      → Chain c p h xs l n
      → SameLinks xs c g
      → Chain g p h xs l n
  Chain-frame (nil e f) same = nil e f
  Chain-frame {g} (cons {l} {n} {x} {xs} e b r) same =
      let (sn, sp) = same x (ground arith) in
      cons e (sp ∙ b) (
        subst (λ k. Chain g (some x) k xs l n) (sym sn)
          (Chain-frame r λ a i. same a (ground arith)))

  pub Chain-split :
      (xs : List Ref) {p h l n : Ptr} {ys : List Ref}
      → Chain c p h (xs ++ ys) l n
      → (m : Ptr) × (k : Ptr) × Chain c p h xs m k × Chain c m k ys l n
  Chain-split [] {p} {h} k = (p, h, nil refl refl, k)
  Chain-split (x ∷ xs) (cons e b r) = let (m, j, s, t) = Chain-split xs r in (m, j, cons e b s, t)

  pub Chain-join :
      {p h m k l n : Ptr} {xs ys : List Ref}
      → Chain c p h xs m k
      → Chain c m k ys l n
      → Chain c p h (xs ++ ys) l n
  Chain-join {l} {n} {ys} (nil e f) t = subst₂ (λ x y. Chain c x y ys l n) f (sym e) t
  Chain-join (cons e b r) t = cons e b (Chain-join r t)

  -- The last order of a chain is led on to `k` by a write to its `next`.
  pub relink_last :
      {p h l n : Ptr} (k : Ptr) {x : Ref} (xs : List Ref)
      → Distinct (x ∷ xs)
      → Chain c p h (x ∷ xs) l n
      → (t : Ref) × (l ≡ some t) × (t ∈ x ∷ xs) × Chain (set_next t k c) p h (x ∷ xs) l k
  relink_last k {x} [] d (cons e b (nil f g)) =
      (x, g, ground arith, cons e (ground arith) (nil (ground arith) g))
  relink_last {p} {h} {l} {n} k {x} (y ∷ ys) d (cons e b r) =
      let (t, f, i, s) = relink_last {p = some x} {h = c.next x} k ys d.1 r in
      (
        t,
        f,
        ground arith,
        cons e (ground arith)
            (subst (λ j. Chain (set_next t k c) (some x) j (y ∷ ys) l k) (ground arith) s),
      )

  -- The first order of a chain is led back to `q` by a write to its `prev`.
  pub relink_first :
      {p h l n : Ptr} (q : Ptr) {x : Ref} {xs : List Ref}
      → x ∉ xs
      → Chain c p h (x ∷ xs) l n
      → Chain (set_prev x q c) q h (x ∷ xs) l n
  relink_first {l} {n} q {x} {xs} out (cons e b r) = cons e (ground arith) (
      subst (λ k. Chain (set_prev x q c) (some x) k xs l n) (ground arith)
        (Chain-frame r λ a i. ground arith))
