-- ===== src/OrderBook/Totals.antt =====
-- The shares of one side, and a change of one of its lists.
use lock_free_limit_order_bo.Prelude.{
  ℕ, zero, suc, ◌+◌, ◌≤◌, ◌<◌, ◌≡◌, ◌≢◌, ◌==◌, refl, ap, sym, ◌∙◌, arith, List, [], ◌∷◌, update,
  update_self, update_ne, Bool-cases, inl, inr, ==_iff,
}
use lock_free_limit_order_bo.Prelude.Members.{◌∈◌}
use lock_free_limit_order_bo.Order.{Ref, Price, Order}
use lock_free_limit_order_bo.PriceLevel.Valid.{shares}

-- The shares of the orders at the prices below `n`.
abbrev pub side_shares : (Ref → Order) → ℕ → (Price → List Ref) → ℕ
side_shares f zero lists = 0
side_shares f (suc n) lists = side_shares f n lists + shares f (lists n)

module _ (f g : Ref → Order) where
  pub shares-same :
      (xs : List Ref)
      → ((o : Ref) → o ∈ xs → (g o).remaining ≡ (f o).remaining)
      → shares g xs ≡ shares f xs
  shares-same [] same = refl
  shares-same (x ∷ xs) same =
      omega (arith, same x (ground arith), shares-same xs (λ a i. same a (ground arith)))

  pub side_shares-same :
      (n : ℕ) (lists : Price → List Ref)
      → ((p : Price) (o : Ref) → o ∈ lists p → (g o).remaining ≡ (f o).remaining)
      → side_shares g n lists ≡ side_shares f n lists
  side_shares-same zero lists same = refl
  side_shares-same (suc n) lists same =
      omega (arith, side_shares-same n lists same, shares-same (lists n) (same n))

  module _ (lists : Price → List Ref) (p : Price) (xs : List Ref)
      (same : (q : Price) (o : Ref) → p ≢ q → o ∈ lists q → (g o).remaining ≡ (f o).remaining) where
    shares-update_ne : (n : ℕ) → p ≢ n → shares g (update lists p xs n) ≡ shares f (lists n)
    shares-update_ne n ne =
        ap (shares g) (update_ne lists p xs n ne) ∙ shares-same (lists n) (λ o i. same n o ne i)

    side_shares-update_above :
        (n : ℕ) → n ≤ p → side_shares g n (update lists p xs) ≡ side_shares f n lists
    side_shares-update_above zero h = refl
    side_shares-update_above (suc n) h =
        omega (arith, side_shares-update_above n (omega arith), shares-update_ne n (omega arith))

    -- The list at `p` is exchanged for `xs`.
    pub side_shares-update :
        (n : ℕ)
        → p < n
        → side_shares g n (update lists p xs) + shares f (lists p)
          ≡ side_shares f n lists + shares g xs
    side_shares-update zero h = absurd (omega arith)
    side_shares-update (suc n) h = elim (Bool-cases (p == n)) [
      | inl e ↦ omega (
        arith,
        side_shares-update_above n (ground arith),
        ap (shares g) (ap (update lists p xs) (sym ((==_iff p n).0 e)) ∙ update_self lists p xs),
        ap (λ q. shares f (lists q)) ((==_iff p n).0 e),
      )
      | inr e ↦
          omega (arith, side_shares-update n (ground arith), shares-update_ne n (ground arith))
    ]
