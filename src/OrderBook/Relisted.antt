-- ===== src/OrderBook/Relisted.antt =====
-- The lists of a book, of which one is exchanged for another.
use lock_free_limit_order_bo.Prelude.{
  ◌≡◌, ◌≢◌, ◌⊎◌, ◌==◌, ap, sym, ◌∙◌, false, List, update, update_self, update_ne, subst, Bool-cases,
  inl, inr, ==_iff,
}
use lock_free_limit_order_bo.Prelude.Members.{has, ◌∈◌}
use lock_free_limit_order_bo.Order.{Ref, Price, Side}
use lock_free_limit_order_bo.OrderBook.Sides.{set_side, Side-ind, set_side_self, set_side-opposite}

-- The orders of a book by side and price.
abbrev pub Lists : Type 0
Lists = Side → Price → List Ref

abbrev pub relisted : Side → Price → List Ref → Lists → Lists
relisted s p xs lists = set_side s (update (lists s) p xs) lists

module _ (s : Side) (p : Price) (xs : List Ref) (lists : Lists) where
  pub relisted-here : relisted s p xs lists s p ≡ xs
  relisted-here =
      ap (λ f. f p) (set_side_self (update (lists s) p xs) lists s) ∙ update_self (lists s) p xs

  pub relisted-beside : (q : Price) → p ≢ q → relisted s p xs lists s q ≡ lists s q
  relisted-beside q ne =
      ap (λ f. f q) (set_side_self (update (lists s) p xs) lists s) ∙ update_ne (lists s) p xs q ne

  -- An order that does not leave the list keeps its place.
  pub relisted-kept :
      (x : Ref)
      → (x ∈ lists s p → x ∈ xs)
      → (t : Side) (q : Price) → x ∈ lists t q
      → x ∈ relisted s p xs lists t q
  relisted-kept x stays =
      Side-ind s (λ t. (q : Price) → x ∈ lists t q → x ∈ relisted s p xs lists t q)
        (λ q i. elim (Bool-cases (p == q)) [
          | inl e ↦
              let same = (==_iff p q).0 e in
              subst (λ r. x ∈ relisted s p xs lists s r) same
                (ap (has x) relisted-here ∙ stays (ap (has x) (ap (lists s) same) ∙ i))
          | inr e ↦ ap (has x) (relisted-beside q (apart e)) ∙ i
        ])
        (λ q i. rw set_side-opposite i)
    where
      apart : {q : Price} → (p == q) ≡ false → p ≢ q
      apart {q} e f = cc (sym ((==_iff p q).1 f) ∙ e)

  -- An order of the new lists was in the old ones, or is one of `more`.
  pub relisted-was :
      (more : List Ref) (x : Ref)
      → (x ∈ xs → (x ∈ lists s p) ⊎ (x ∈ more))
      → (t : Side) (q : Price) → x ∈ relisted s p xs lists t q
      → (x ∈ lists t q) ⊎ (x ∈ more)
  relisted-was more x was =
      Side-ind s (λ t. (q : Price) → x ∈ relisted s p xs lists t q → (x ∈ lists t q) ⊎ (x ∈ more))
        (λ q i. elim (Bool-cases (p == q)) [
          | inl e ↦
              let same = (==_iff p q).0 e in
              subst (λ r. (x ∈ lists s r) ⊎ (x ∈ more)) same
                (was (ap (has x) (sym relisted-here ∙ ap (relisted s p xs lists s) same) ∙ i))
          | inr e ↦ inl (ap (has x) (sym (relisted-beside q (apart e))) ∙ i)
        ])
        (λ q i. inl (rw set_side-opposite at i))
    where
      apart : {q : Price} → (p == q) ≡ false → p ≢ q
      apart {q} e f = cc (sym ((==_iff p q).1 f) ∙ e)
