-- ===== src/SpscQueue.antt =====
-- include/spsc_queue.h: the ring between one producer and one consumer. The capacity is a power of
-- two, given by its exponent `k`.
pub mod Ring
pub mod Refine
pub mod Threads
pub mod Fits
pub mod Linear
use Prim.Native.Nat.{bit_and}
use lock_free_limit_order_bo.Prelude.{
  ℕ, ◌+◌, ◌-◌, ◌^◌, Bool, true, false, Option, none, some, update, ◌==◌, if◌then◌else◌,
}
use lock_free_limit_order_bo.Prelude.Words.{add64}

module _ {ℓ} (A : Type ℓ) where
  -- `head` is written by the producer, `tail` by the consumer.
  pub record SpscQueue : Type ℓ where
    pub head : ℕ
    pub tail : ℕ
    pub buffer : ℕ → A

module _ (k : ℕ) where
  -- `(i + 1) & MASK`
  unfoldable pub advance : ℕ → ℕ
  advance i = bit_and (add64 i 1) (2 ^ k - 1)

  module _ {ℓ} {A : Type ℓ} where
    unfoldable pub push : A → SpscQueue A → Bool × SpscQueue A
    push item q =
        let next = advance q.head in
        if next == q.tail
        then (false, q)
        else (true, record { head = next; tail = q.tail; buffer = update q.buffer q.head item })

    pub pop : SpscQueue A → Option A × SpscQueue A
    pop q =
        if q.tail == q.head
        then (none, q)
        else (some (q.buffer q.tail), record q { tail = advance q.tail })

module _ {ℓ} {A : Type ℓ} where
  pub empty : SpscQueue A → Bool
  empty q = q.tail == q.head
