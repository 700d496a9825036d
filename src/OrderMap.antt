-- ===== src/OrderMap.antt =====
-- include/order_map.h: the open-addressing table from order ids to orders. The template's capacity
-- is a power of two, given here by its exponent `k`.
use Prim.Native.Nat.{bit_and}
pub mod Places
pub mod Search
pub mod Insert
pub mod Hash
pub mod Direct
pub mod Erase
pub mod Lost
pub mod Table
pub mod Entries
use lock_free_limit_order_bo.Prelude.{
  ℕ, zero, suc, ◌+◌, ◌-◌, ◌*◌, ◌%◌, ◌^◌, Bool, true, false, none, update, ltb, ◌==◌, if◌then◌else◌,
}
use lock_free_limit_order_bo.Prelude.Words.{u64_mod, add64, sub64}
use lock_free_limit_order_bo.Order.{OrderId, Ref, Ptr}
use mathlib.Core.Option.{some}

-- 0 is never a valid order id.
abbrev pub empty_key : OrderId
empty_key = 0

pub record Slot : Type 0 where
  pub key : OrderId
  pub val : Ptr

abbrev pub no_slot : Slot
no_slot = record { key = empty_key; val = none }

pub record OrderMap : Type 0 where
  pub slots : ℕ → Slot
  pub size : ℕ

abbrev pub new_map : OrderMap
new_map = record { slots = λ i. no_slot; size = 0 }

module _ (k : ℕ) where
  -- `x & MASK`
  unfoldable pub mask : ℕ → ℕ
  mask x = bit_and x (2 ^ k - 1)

  unfoldable pub hash : OrderId → ℕ
  hash id = mask (id * 11400714819323198485 % u64_mod)

  -- The slot that a probe looks at.
  abbrev pub place : OrderId → ℕ → ℕ
  place id probe = mask (hash id + probe)

  -- Each loop has the rounds left, and the number of the next probe.
  unfoldable pub insert_from : OrderId → Ref → ℕ → ℕ → OrderMap → Bool × OrderMap
  insert_from id o zero probe m = (false, m)
  insert_from id o (suc n) probe m =
      let rest = insert_from id o n (probe + 1) m in
      if (m.slots (place id probe)).key == empty_key
      then (
        true,
        record {
          slots = update m.slots (place id probe) (record { key = id; val = some o });
          size = add64 m.size 1;
        },
      )
      else rest

  unfoldable pub insert : OrderId → Ref → OrderMap → Bool × OrderMap
  unfolding insert_from
  insert id o m = insert_from id o (2 ^ k) 0 m

  unfoldable pub find_from : OrderId → ℕ → ℕ → OrderMap → Ptr
  find_from id zero probe m = none
  find_from id (suc n) probe m =
      let rest = find_from id n (probe + 1) m in
      let s = m.slots (place id probe) in
      if s.key == id then s.val else if s.key == empty_key then none else rest

  unfoldable pub find : OrderId → OrderMap → Ptr
  find id m = find_from id (2 ^ k) 0 m

  -- Whether the entry behind a hole moves into it.
  unfoldable pub should_shift : ℕ → ℕ → ℕ → Bool
  should_shift pos next natural = ltb (mask (sub64 (sub64 next pos) 1)) (mask (sub64 next natural))

  -- `for (;;)` on fuel. Each round but the last brings one of the other entries a slot nearer to its
  -- home, and none is as far from it as there are slots: a round for each pair of slots is enough.
  unfoldable pub backward_shift : ℕ → ℕ → (ℕ → Slot) → ℕ → Slot
  backward_shift zero pos slots = slots
  backward_shift (suc fuel) pos slots =
      let next = mask (pos + 1) in
      let rest = backward_shift fuel next (update slots pos (slots next)) in
      if (slots next).key == empty_key
      then update slots pos no_slot
      else if should_shift pos next (hash (slots next).key)
      then rest
      else update slots pos no_slot

  unfoldable pub erase_from : OrderId → ℕ → ℕ → OrderMap → Bool × OrderMap
  erase_from id zero probe m = (false, m)
  erase_from id (suc n) probe m =
      let rest = erase_from id n (probe + 1) m in
      let pos = place id probe in
      if (m.slots pos).key == id
      then (
        true,
        record { slots = backward_shift (2 ^ k * 2 ^ k) pos m.slots; size = sub64 m.size 1 },
      )
      else if (m.slots pos).key == empty_key
      then (false, m)
      else rest

  unfoldable pub erase : OrderId → OrderMap → Bool × OrderMap
  erase id m = erase_from id (2 ^ k) 0 m
