-- ===== src/Itch/Lanes.antt =====
-- The bytes of a word make up the word again.
use lock_free_limit_order_bo.Prelude.{ℕ, ◌+◌, ◌*◌, ◌%◌, ◌^◌, ◌<◌, ◌≡◌, arith}
use lock_free_limit_order_bo.Itch.Bytes.{lane}

pub lanes16 : (v : ℕ) → v < 2 ^ 16 → lane v 8 * 2 ^ 8 + v % 2 ^ 8 ≡ v
lanes16 v h = omega arith

pub lanes32 :
    (v : ℕ)
    → v < 2 ^ 32
    → lane v 24 * 2 ^ 24 + lane v 16 * 2 ^ 16 + lane v 8 * 2 ^ 8 + v % 2 ^ 8 ≡ v
lanes32 v h = omega arith

pub lanes48 :
    (v : ℕ)
    → v < 2 ^ 48
    → lane v 40 * 2 ^ 40
        + lane v 32 * 2 ^ 32
        + lane v 24 * 2 ^ 24
        + lane v 16 * 2 ^ 16
        + lane v 8 * 2 ^ 8
        + v % 2 ^ 8
      ≡ v
lanes48 v h = omega arith

pub lanes64 :
    (v : ℕ)
    → v < 2 ^ 64
    → lane v 56 * 2 ^ 56
        + lane v 48 * 2 ^ 48
        + lane v 40 * 2 ^ 40
        + lane v 32 * 2 ^ 32
        + lane v 24 * 2 ^ 24
        + lane v 16 * 2 ^ 16
        + lane v 8 * 2 ^ 8
        + v % 2 ^ 8
      ≡ v
lanes64 v h = omega arith
