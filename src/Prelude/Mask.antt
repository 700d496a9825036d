-- ===== src/Prelude/Mask.antt =====
-- `x & (2 ^ k - 1)` is `x % 2 ^ k`.
use Prim.Native.Nat.{
  ℕ, zero, suc, ◌+◌, ◌-◌, ◌*◌, ◌/◌, ◌%◌, ◌^◌, ◌≤◌, ◌<◌, min, bit_and, digits, bit_and-bitwise,
}
use mathlib.Core.Path.{◌≡◌, ap, ◌∙◌}
use native.Mathlib.Nat.{pow-suc, mod-lt, mod-eq_of_lt, mul-add-mod_self_right, div-add-mod'}
use native.Mathlib.Omega.{arith}

pub pow_pos : (k : ℕ) → 0 < 2 ^ k
pow_pos zero = omega arith
pow_pos (suc k) = omega (arith, pow_pos k, pow-suc 2 k)

pub square_pos : (k : ℕ) → 0 < 2 ^ k * 2 ^ k
square_pos k = grind (arith, pow_pos k)

-- One digit of a remainder by a doubled modulus.
mod_double : (x m : ℕ) → 0 < m → x % (m * 2) ≡ x / 2 % m * 2 + x % 2
mod_double x m h =
    ap (λ y. y % (m * 2)) split
    ∙ mul-add-mod_self_right (x / 2 / m) (m * 2) digit
    ∙ mod-eq_of_lt {n = digit} {m = m * 2} (omega (arith, mod-lt (x / 2) h))
  where
    digit : ℕ
    digit = x / 2 % m * 2 + x % 2

    split : x ≡ x / 2 / m * (m * 2) + digit
    split = omega (arith, div-add-mod' (x / 2) m)

-- Digit by digit, on enough digits for `x`, the conjunction with a mask keeps the `k` low ones.
mask_digits : (n k x : ℕ) → x ≤ n → digits (λ rest. zero) min n x (2 ^ k - 1) ≡ x % 2 ^ k
mask_digits zero k zero small = omega arith
mask_digits zero k (suc x) small = absurd (omega arith)
mask_digits (suc n) k zero small = omega arith
mask_digits (suc n) zero (suc x) small = omega (arith, mask_digits n zero (suc x / 2) (omega arith))
mask_digits (suc n) (suc k) (suc x) small =
    rw (pow-suc 2 k, half)
      (omega (
        arith,
        odd,
        mod_double (suc x) (2 ^ k) (pow_pos k),
        mask_digits n k (suc x / 2) (omega arith),
      ))
  where
    half : (2 ^ k * 2 - 1) / 2 ≡ 2 ^ k - 1
    half = omega (arith, pow_pos k)

    odd : (2 ^ k * 2 - 1) % 2 ≡ 1
    odd = omega (arith, pow_pos k)

pub bit_and-mask : (k x : ℕ) → bit_and x (2 ^ k - 1) ≡ x % 2 ^ k
bit_and-mask k x = bit_and-bitwise x (2 ^ k - 1) ∙ mask_digits x k x (omega arith)
