-- ===== src/OrderMap/Lost.antt =====
-- `erase` in tables where a displaced key stands behind one that is at home.
use lock_free_limit_order_bo.Prelude.{
  ℕ, zero, suc, ◌+◌, ◌*◌, ◌^◌, ◌≤◌, ◌<◌, ◌≡◌, ◌≢◌, refl, ap, ◌∙◌, sym, arith, true, none, update,
  ==_iff, ==_ne, ==_self,
}
use lock_free_limit_order_bo.Prelude.Mask.{pow_pos, square_pos}
use lock_free_limit_order_bo.Prelude.Words.{sub64}
use lock_free_limit_order_bo.Order.{OrderId}
use lock_free_limit_order_bo.OrderMap.{
  OrderMap, empty_key, Slot, no_slot, mask, hash, place, find, find_from, erase, erase_from,
  backward_shift,
}
use lock_free_limit_order_bo.OrderMap.Places.{hash-lt, place-zero, place-injective}
use lock_free_limit_order_bo.OrderMap.Search.{find_from-hit}
use lock_free_limit_order_bo.OrderMap.Direct.{backward_shift-home}

module _ (k : ℕ) (narrow : k ≤ 64) where
  erase_from-first :
      (m : OrderMap) (id : OrderId) (n : ℕ)
      → (m.slots (hash k id)).key ≡ id
      → 0 < n
      → erase_from k id n 0 m ≡ (
        true,
        record {
          slots = backward_shift k (2 ^ k * 2 ^ k) (hash k id) m.slots;
          size = sub64 m.size 1;
        },
      )
  unfolding erase_from
  erase_from-first m id zero here some_round = absurd (omega arith)
  erase_from-first m id (suc n) here some_round =
      rw (place-zero k id, (==_iff (m.slots (hash k id)).key id).1 here) refl

  find_from-empty :
      (m : OrderMap) (id : OrderId) (n : ℕ)
      → id ≢ empty_key
      → (m.slots (hash k id)).key ≡ empty_key
      → find_from k id n 0 m ≡ none
  unfolding find_from
  find_from-empty m id zero ne free = refl
  find_from-empty m id (suc n) ne free = rw (place-zero k id) (ground (arith, free))

  backward_shift-stays :
      (fuel pos : ℕ) (slots : ℕ → Slot)
      → pos < 2 ^ k
      → 0 < fuel
      → hash k (slots (mask k (pos + 1))).key ≡ mask k (pos + 1)
      → backward_shift k fuel pos slots ≡ update slots pos no_slot
  backward_shift-stays zero pos slots h some_round home = absurd (omega arith)
  backward_shift-stays (suc fuel) pos slots h some_round home =
      backward_shift-home k narrow fuel pos slots h (λ full. home)

  -- `erase` of a key at home in front of another one at home empties its slot and moves nothing.
  erase-stays :
      (m : OrderMap) (a b : OrderId)
      → (m.slots (hash k a)).key ≡ a
      → (m.slots (mask k (hash k a + 1))).key ≡ b
      → hash k b ≡ mask k (hash k a + 1)
      → erase k a m
        ≡ (true, record { slots = update m.slots (hash k a) no_slot; size = sub64 m.size 1 })
  unfolding erase
  erase-stays m a b at_a at_b home_b =
      rw
        (
          erase_from-first m a (2 ^ k) at_a (pow_pos k),
          backward_shift-stays (2 ^ k * 2 ^ k) (hash k a) m.slots (hash-lt k a) (square_pos k)
              (ap (hash k) at_b ∙ home_b),
        )
        refl

  -- If two keys stand at home in two slots in a row, and a third key with the home of the first
  -- stands behind them, then `find` returns the third's order, and returns null once the first is
  -- erased, while the third's entry stays in the table. The table has at least three slots (and at
  -- most 2 ^ 64), the keys are not 0, and the third is not the first.
  pub erase-find_lost :
      (m : OrderMap) (a b c : OrderId)
      → 3 ≤ 2 ^ k
      → a ≢ empty_key
      → b ≢ empty_key
      → c ≢ empty_key
      → c ≢ a
      → hash k c ≡ hash k a
      → (m.slots (hash k a)).key ≡ a
      → (m.slots (mask k (hash k a + 1))).key ≡ b
      → hash k b ≡ mask k (hash k a + 1)
      → (m.slots (mask k (hash k a + 2))).key ≡ c
      → (find k c m ≡ (m.slots (mask k (hash k a + 2))).val)
        × ((erase k a m).0 ≡ true)
        × (find k c (erase k a m).1 ≡ none)
        × (((erase k a m).1.slots (mask k (hash k a + 2))).key ≡ c)
  erase-find_lost m a b c room na nb nc ne same at_a at_b home_b at_c =
      rw (erase-stays m a b at_a at_b home_b) (
        found,
        refl,
        unfold find in find_from-empty _ c (2 ^ k) nc (rw (same, ==_self (hash k a)) refl),
        rw (==_ne (hash k a) (mask k (hash k a + 2)) apart) at_c,
      )
    where
      apart : hash k a ≢ mask k (hash k a + 2)
      apart e =
          absurd (omega (arith, place-injective k a 0 2 (pow_pos k) room (place-zero k a ∙ e)))

      first : place k c 0 ≡ hash k a
      first = place-zero k c ∙ same

      later : (i : ℕ) → place k c i ≡ mask k (hash k a + i)
      later i = ap (λ h. mask k (h + i)) same

      ne' : b ≢ c
      ne' e = absurd (
          omega (
            arith,
            place-injective k a 0 1 (pow_pos k) (omega arith)
                (place-zero k a ∙ sym same ∙ sym (ap (hash k) e) ∙ home_b),
          ))

      before :
          (i : ℕ)
          → i < 2
          → ((m.slots (place k c i)).key ≢ c) × ((m.slots (place k c i)).key ≢ empty_key)
      before zero h = rw first (λ e. ne (sym e ∙ at_a), λ e. na (sym at_a ∙ e))
      before (suc zero) h = rw (later 1) (λ e. ne' (sym at_b ∙ e), λ e. nb (sym at_b ∙ e))
      before (suc (suc i)) h = absurd (omega arith)

      found : find k c m ≡ (m.slots (mask k (hash k a + 2))).val
      found =
          unfold find in
          find_from-hit k c (2 ^ k) 0 2 m (omega arith) (omega arith) (λ i p q. before i q)
            (ap (λ i. (m.slots i).key) (later 2) ∙ at_c)
          ∙ ap (λ i. (m.slots i).val) (later 2)
