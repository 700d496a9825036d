-- ===== src/Prelude/Members.antt =====
-- Membership of a reference in a list as a Boolean test, and lists without repetition.
use mathlib.Core.Bool.{or_assoc}
use Prim.Native.Nat.{ℕ, zero, suc, ◌≤◌, ◌<◌}
use mathlib.Core.Path.{◌≡◌, refl, ap, subst}
use mathlib.Core.Logic.{inl, inr}
use mathlib.Core.Bool.{Bool, true, false, ◌||◌}
use mathlib.Core.List.{List, [], ◌∷◌, ◌++◌}
use native.Mathlib.Omega.{arith}
use lock_free_limit_order_bo.Prelude.Tests.{◌==◌, ==_iff, Bool-cases}
use lock_free_limit_order_bo.Prelude.Lists.{length, length-append}

abbrev pub has : ℕ → List ℕ → Bool
has a [] = false
has a (x ∷ xs) = (x == a) || has a xs

infix 40 ◌∈◌ ◌∉◌
abbrev pub ◌∈◌ : ℕ → List ℕ → Type 0
a ∈ xs = has a xs ≡ true

abbrev pub ◌∉◌ : ℕ → List ℕ → Type 0
a ∉ xs = has a xs ≡ false

abbrev pub Distinct : List ℕ → Type 0
Distinct [] = Unit {0}
Distinct (x ∷ xs) = (x ∉ xs) × Distinct xs

pub has-append : (a : ℕ) (xs ys : List ℕ) → has a (xs ++ ys) ≡ (has a xs || has a ys)
has-append a [] ys = refl
has-append a (x ∷ xs) ys = rw (has-append a xs ys, or_assoc)

pub Distinct-append :
    (xs ys : List ℕ) → Distinct xs → Distinct ys → ((a : ℕ) → a ∈ xs → a ∉ ys) → Distinct (xs ++ ys)
Distinct-append [] ys dx dy apart = dy
Distinct-append (x ∷ xs) ys dx dy apart = (
  rw (has-append, dx.0) (apart x (ground arith)),
  Distinct-append xs ys dx.1 dy λ a i. apart a (ground arith),
)

-- What a list without repetition says of its two parts.
pub Distinct-split :
    (xs ys : List ℕ) → Distinct (xs ++ ys) → Distinct xs × Distinct ys × ((a : ℕ) → a ∈ xs → a ∉ ys)
Distinct-split [] ys d = (tt, d, λ a i. cc)
Distinct-split (x ∷ xs) ys d =
    let (dx, dy, apart) = Distinct-split xs ys d.1 in
    (
      (ground (arith, has-append x xs ys), dx),
      dy,
      λ a i. ground (arith, has-append x xs ys, apart a),
    )

-- A list without repetition, less one of its members.
pub Distinct-drop :
    (xs : List ℕ) (a : ℕ) (ys : List ℕ)
    → Distinct (xs ++ a ∷ ys)
    → Distinct (xs ++ ys) × (a ∉ xs ++ ys)
Distinct-drop [] a ys d = (d.1, d.0)
Distinct-drop (x ∷ xs) a ys d =
    let (rest, out) = Distinct-drop xs a ys d.1 in
    (
      (ground (arith, d.0, has-append x xs ys, has-append x xs (a ∷ ys)), rest),
      ground (arith, d.0, out, has-append x xs (a ∷ ys)),
    )

-- A member of a list stands between two parts of it.
pub has-split : (a : ℕ) (xs : List ℕ) → a ∈ xs → (ys : List ℕ) × (zs : List ℕ) × (xs ≡ ys ++ a ∷ zs)
has-split a [] i = absurd (ground arith)
has-split a (x ∷ xs) i = elim (Bool-cases (x == a)) [
  | inl e ↦ ([], xs, ap (λ y. y ∷ xs) ((==_iff x a).0 e))
  | inr e ↦ let (ys, zs, f) = has-split a xs (ground arith) in (x ∷ ys, zs, ap (λ l. x ∷ l) f)
]

pub has-middle : (a : ℕ) (ys zs : List ℕ) → a ∈ ys ++ a ∷ zs
has-middle a ys zs = ground (arith, has-append a ys (a ∷ zs))

pub has-rest : (b a : ℕ) (ys zs : List ℕ) → b ∈ ys ++ zs → b ∈ ys ++ a ∷ zs
has-rest b a ys zs i = ground (arith, has-append b ys (a ∷ zs), has-append b ys zs)

-- A list without repetition of numbers below a bound is no longer than it.
pub length-Distinct :
    (n : ℕ) (xs : List ℕ) → Distinct xs → ((a : ℕ) → a ∈ xs → a < n) → length xs ≤ n
length-Distinct zero [] d below = omega arith
length-Distinct zero (x ∷ xs) d below = absurd (omega (arith, below x (ground arith)))
length-Distinct (suc n) xs d below = elim (Bool-cases (has n xs)) [
  | inr out ↦ omega (arith, length-Distinct n xs d λ a i. ground (arith, below a i))
  | inl i ↦
      let (ys, zs, e) = has-split n xs i in
      let (d', out) = Distinct-drop ys n zs (subst Distinct e d) in
      omega (
        arith,
        ap length e,
        length-append ys (n ∷ zs),
        length-append ys zs,
        length-Distinct n (ys ++ zs) d'
            (λ a j. ground (arith, below a (rw e (has-rest a n ys zs j)))),
      )
]
