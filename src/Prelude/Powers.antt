-- ===== src/Prelude/Powers.antt =====
-- Remainders by powers of two, and by capacities that divide the 64-bit word.
use native.Mathlib.Nat.{
  mod-eq_of_lt, mod-eq-sub-mod, mod-mod_of_dvd, dvd-mul_left, mul_assoc, pow-suc,
}
use Prim.Native.Nat.{ℕ, zero, suc, ◌+◌, ◌-◌, ◌*◌, ◌%◌, ◌^◌, ◌≤◌, ◌<◌, ◌∣◌}
use mathlib.Core.Path.{◌≡◌, ap, ◌∙◌, sym, subst}
use mathlib.Core.Logic.{◌⊎◌, inl, inr}
use native.Mathlib.Decide.{dec_lt}
use native.Mathlib.Omega.{arith}
use lock_free_limit_order_bo.Prelude.Words.{u64_mod}

-- A remainder below twice the modulus.
pub mod_below :
    (c x : ℕ) → 0 < c → x < c + c → ((x < c) × (x % c ≡ x)) ⊎ ((c ≤ x) × (x % c + c ≡ x))
mod_below c x pos h = elim (dec_lt x c) [
  | yes p ↦ inl (p, mod-eq_of_lt p)
  | no p ↦ inr (
    omega arith,
    omega (
      arith,
      mod-eq-sub-mod {n = x} {m = c} (omega arith),
      mod-eq_of_lt {n = x - c} {m = c} (omega arith),
    ),
  )
]

pow-add : (m n : ℕ) → 2 ^ (m + n) ≡ 2 ^ m * 2 ^ n
pow-add m zero = ap (λ e. 2 ^ e) {y = m} (omega arith) ∙ omega arith
pow-add m (suc n) =
    ap (λ e. 2 ^ e) {y = suc (m + n)} (omega arith)
    ∙ pow-suc 2 (m + n)
    ∙ ap (λ t. t * 2) (pow-add m n)
    ∙ mul_assoc (2 ^ m) (2 ^ n) 2
    ∙ ap (λ t. 2 ^ m * t) (sym (pow-suc 2 n))

-- The word's modulus is a multiple of the capacity.
pub word_split : (k : ℕ) → k ≤ 64 → u64_mod ≡ 2 ^ (64 - k) * 2 ^ k
word_split k h = ap (λ e. 2 ^ e) {x = 64} {y = 64 - k + k} (omega arith) ∙ pow-add (64 - k) k

pub mod_word : (k : ℕ) → k ≤ 64 → (x : ℕ) → x % u64_mod % 2 ^ k ≡ x % 2 ^ k
mod_word k h x =
    mod-mod_of_dvd (2 ^ k) x
      (subst (λ t. 2 ^ k ∣ t) (sym (word_split k h)) (dvd-mul_left (2 ^ k) (2 ^ (64 - k))))
