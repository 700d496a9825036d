-- ===== src/SpscQueue/Ring.antt =====
-- The items that a ring holds: those from `tail` up to `head`, going round at the capacity.
use native.Mathlib.Nat.{mod-eq_of_lt, mod-add-mod, mod-lt, add-zero}
use lock_free_limit_order_bo.Prelude.{
  ℕ, zero, suc, ◌+◌, ◌%◌, ◌^◌, ◌≤◌, ◌<◌, ◌≡◌, ◌≢◌, refl, ap, ap₂, ◌∙◌, sym, arith, List, [], ◌∷◌,
  ◌++◌, length, update, update_ne,
}
use lock_free_limit_order_bo.Prelude.Mask.{bit_and-mask, pow_pos}
use lock_free_limit_order_bo.Prelude.Powers.{mod_below, mod_word}
use lock_free_limit_order_bo.Prelude.Words.{u64_mod}
use lock_free_limit_order_bo.SpscQueue.{advance}

-- The index `n` steps behind `i`.
abbrev pub steps : ℕ → ℕ → ℕ → ℕ
steps k i n = (i + n) % 2 ^ k

module _ {ℓ} {A : Type ℓ} (k : ℕ) (buffer : ℕ → A) where
  abbrev pub window : ℕ → ℕ → List A
  window i zero = []
  window i (suc n) = buffer i ∷ window (advance k i) n

  pub length-window : (i n : ℕ) → length (window i n) ≡ n
  length-window i zero = refl
  length-window i (suc n) = ap suc (length-window (advance k i) n)

pub steps-zero : (k i : ℕ) → i < 2 ^ k → steps k i 0 ≡ i
steps-zero k i h = ap (λ t. t % 2 ^ k) (add-zero i) ∙ mod-eq_of_lt h

module _ (k : ℕ) (narrow : k ≤ 64) where
  pub advance_lem : (i : ℕ) → i < 2 ^ k → advance k i ≡ (i + 1) % 2 ^ k
  unfolding advance
  advance_lem i h = bit_and-mask k _ ∙ mod_word k narrow (i + 1)

  pub advance-lt : (i : ℕ) → advance k i < 2 ^ k
  unfolding advance
  advance-lt i =
      omega (arith, bit_and-mask k ((i + 1) % u64_mod), mod-lt ((i + 1) % u64_mod) (pow_pos k))

  pub steps-advance : (i n : ℕ) → i < 2 ^ k → steps k (advance k i) n ≡ steps k i (suc n)
  steps-advance i n h =
      ap (λ t. (t + n) % 2 ^ k) (advance_lem i h)
      ∙ mod-add-mod (i + 1) (2 ^ k) n
      ∙ ap (λ t. t % 2 ^ k) {y = i + suc n} (omega arith)

  pub advance-steps : (i n : ℕ) → i < 2 ^ k → advance k (steps k i n) ≡ steps k i (suc n)
  advance-steps i n h =
      advance_lem _ (mod-lt (i + n) (pow_pos k))
      ∙ mod-add-mod (i + n) (2 ^ k) 1
      ∙ ap (λ t. t % 2 ^ k) {y = i + suc n} (omega arith)

  pub steps-injective :
      (i m n : ℕ) → i < 2 ^ k → m < 2 ^ k → n < 2 ^ k → steps k i m ≡ steps k i n → m ≡ n
  steps-injective i m n hi hm hn e = omega (
    arith,
    mod_below (2 ^ k) (i + m) (pow_pos k) (omega arith),
    mod_below (2 ^ k) (i + n) (pow_pos k) (omega arith),
  )

module _ {ℓ} {A : Type ℓ} (k : ℕ) (narrow : k ≤ 64) (buffer : ℕ → A) where
  -- A write outside the window does not show in it.
  pub window-update :
      (j : ℕ) (item : A) (i n : ℕ)
      → i < 2 ^ k
      → ((m : ℕ) → m < n → steps k i m ≢ j)
      → window k (update buffer j item) i n ≡ window k buffer i n
  window-update j item i zero hi out = refl
  window-update j item i (suc n) hi out =
      ap₂ ◌∷◌ (update_ne buffer j item i (λ e. out 0 (omega arith) (steps-zero k i hi ∙ sym e))) (
        window-update j item (advance k i) n (advance-lt k narrow i)
          λ m h e. out (suc m) (omega arith) (sym (steps-advance k narrow i m hi) ∙ e))

  -- A window is one step shorter without its last item.
  pub window-snoc :
      (i n : ℕ)
      → i < 2 ^ k
      → window k buffer i (suc n) ≡ window k buffer i n ++ buffer (steps k i n) ∷ []
  window-snoc i zero hi = ap (λ j. buffer j ∷ []) (sym (steps-zero k i hi))
  window-snoc i (suc n) hi =
      ap (λ w. buffer i ∷ w)
        (window-snoc (advance k i) n (advance-lt k narrow i)
          ∙ ap (λ j. window k buffer (advance k i) n ++ buffer j ∷ [])
              (steps-advance k narrow i n hi))
