-- ===== src/OrderMap/Places.antt =====
-- The slots that a search visits: in range, and each once.
use native.Mathlib.Nat.{mod-lt, mod-eq_of_lt, add-zero}
use lock_free_limit_order_bo.Prelude.{ℕ, ◌+◌, ◌-◌, ◌*◌, ◌%◌, ◌^◌, ◌<◌, ◌≡◌, ap, ◌∙◌, arith, dec_lt}
use lock_free_limit_order_bo.Prelude.Words.{u64_mod}
use lock_free_limit_order_bo.Prelude.Powers.{mod_below}
use lock_free_limit_order_bo.Prelude.Mask.{bit_and-mask, pow_pos}
use lock_free_limit_order_bo.Order.{OrderId}
use lock_free_limit_order_bo.OrderMap.{mask, hash, place}

module _ (k : ℕ) where
  pub mask_lem : (x : ℕ) → mask k x ≡ x % 2 ^ k
  unfolding mask
  mask_lem x = bit_and-mask k x

  pub mask-lt : (x : ℕ) → mask k x < 2 ^ k
  mask-lt x = omega (arith, mask_lem x, mod-lt x (pow_pos k))

  pub mask-eq_of_lt : {x : ℕ} → x < 2 ^ k → mask k x ≡ x
  mask-eq_of_lt {x} h = mask_lem x ∙ mod-eq_of_lt h

  pub hash-lt : (id : OrderId) → hash k id < 2 ^ k
  unfolding hash
  hash-lt id = mask-lt (id * 11400714819323198485 % u64_mod)

  pub place-zero : (id : OrderId) → place k id 0 ≡ hash k id
  place-zero id = ap (mask k) (add-zero (hash k id)) ∙ mask-eq_of_lt (hash-lt id)

  -- One round of probes visits each slot once.
  pub place-injective :
      (id : OrderId) (i j : ℕ) → i < 2 ^ k → j < 2 ^ k → place k id i ≡ place k id j → i ≡ j
  place-injective id i j hi hj e = omega (
    arith,
    hash-lt id,
    mask_lem (hash k id + i),
    mask_lem (hash k id + j),
    mod_below (2 ^ k) (hash k id + i) (pow_pos k) (omega (arith, hash-lt id)),
    mod_below (2 ^ k) (hash k id + j) (pow_pos k) (omega (arith, hash-lt id)),
  )

  pub place-onto :
      (id : OrderId) (pos : ℕ) → pos < 2 ^ k → (i : ℕ) × (i < 2 ^ k) × (place k id i ≡ pos)
  place-onto id pos h = elim (dec_lt pos (hash k id)) [
    | yes p ↦ (
      pos + 2 ^ k - hash k id,
      omega (arith, hash-lt id),
      mask_lem _
          ∙ omega (
            arith,
            hash-lt id,
            mod_below (2 ^ k) (hash k id + (pos + 2 ^ k - hash k id)) (pow_pos k)
                (omega (arith, hash-lt id)),
          ),
    )
    | no p ↦ (
      pos - hash k id,
      omega arith,
      mask_lem _
          ∙ omega (
            arith,
            mod_below (2 ^ k) (hash k id + (pos - hash k id)) (pow_pos k)
                (omega (arith, hash-lt id)),
          ),
    )
  ]
