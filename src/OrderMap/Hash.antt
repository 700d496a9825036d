-- ===== src/OrderMap/Hash.antt =====
-- How the bits of an id determine its home slot.
use native.Mathlib.Nat.{add-mul-mod_self_right, div-add-mod'}
use lock_free_limit_order_bo.Prelude.{
  ℕ, ◌+◌, ◌-◌, ◌*◌, ◌/◌, ◌%◌, ◌^◌, ◌≤◌, ◌≡◌, ◌↔◌, ap, ◌∙◌, sym, arith,
}
use lock_free_limit_order_bo.Prelude.Powers.{word_split, mod_word}
use lock_free_limit_order_bo.Order.{OrderId}
use lock_free_limit_order_bo.OrderMap.{hash}
use lock_free_limit_order_bo.OrderMap.Places.{mask_lem}

mul-mod : (x y c : ℕ) → x * y % c ≡ x % c * y % c
mul-mod x y c = ap (λ t. t % c) split ∙ add-mul-mod_self_right (x % c * y) (x / c * y) c
  where
    split : x * y ≡ x % c * y + x / c * y * c
    split = omega (arith, ap (λ t. t * y) (div-add-mod' x c))

abbrev multiplier : ℕ
multiplier = 11400714819323198485

-- Its inverse modulo `2 ^ 64`.
abbrev inverse : ℕ
inverse = 17428512612931826493

module _ (k : ℕ) (narrow : k ≤ 64) where
  pub hash-mod : (id : OrderId) → hash k id ≡ id * multiplier % 2 ^ k
  unfolding hash
  hash-mod id = mask_lem k _ ∙ mod_word k narrow (id * multiplier)

  -- Multiplying by the inverse gives the low bits back.
  low_bits-hash : (id : OrderId) → hash k id * inverse % 2 ^ k ≡ id % 2 ^ k
  low_bits-hash id =
      ap (λ t. t * inverse % 2 ^ k) (hash-mod id)
      ∙ sym (mul-mod (id * multiplier) inverse (2 ^ k))
      ∙ ap (λ t. t % 2 ^ k) unit
      ∙ add-mul-mod_self_right id (id * 10771413168148108919 * 2 ^ (64 - k)) (2 ^ k)
    where
      unit : id * multiplier * inverse ≡ id + id * 10771413168148108919 * 2 ^ (64 - k) * 2 ^ k
      unit = omega (arith, ap (λ t. id * t) (word_split k narrow))

  -- In a table of 2 ^ k slots (k ≤ 64), two ids have the same home slot exactly when their k low
  -- bits agree.
  pub hash-eq_iff : (a b : OrderId) → (hash k a ≡ hash k b) ↔ (a % 2 ^ k ≡ b % 2 ^ k)
  hash-eq_iff a b = (
    λ e. sym (low_bits-hash a) ∙ ap (λ t. t * inverse % 2 ^ k) e ∙ low_bits-hash b,
    λ e.
        hash-mod a
        ∙ mul-mod a multiplier (2 ^ k)
        ∙ ap (λ t. t * multiplier % 2 ^ k) e
        ∙ sym (mul-mod b multiplier (2 ^ k))
        ∙ sym (hash-mod b),
  )
