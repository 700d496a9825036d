-- ===== src/OrderBook/Future.antt =====
-- What is still to come of a queue, before and after a fill at its front.
use mathlib.Core.List.{append_assoc}
use lock_free_limit_order_bo.Prelude.{
  ℕ, zero, suc, ◌+◌, ◌-◌, ◌≤◌, ◌<◌, ◌≡◌, ◌≢◌, true, false, refl, ap, ap₂, arith, leb, List, [], ◌∷◌,
  ◌++◌, map,
}
use lock_free_limit_order_bo.Prelude.Members.{◌∈◌}
use lock_free_limit_order_bo.Order.{Ref, Price, Side, Order, Event, Quantity, OrderId}
use lock_free_limit_order_bo.OrderBook.State.{Book}
use lock_free_limit_order_bo.OrderBook.Priority.{
  fill_event, trade_events, remainder, unfilled, view, queue,
}
use lock_free_limit_order_bo.OrderBook.Run.{Lists, future_of}

-- A list of orders of which none has changed.
pub map-same :
    (f g : Ref → Order) (xs : List Ref) → ((x : Ref) → x ∈ xs → g x ≡ f x) → map g xs ≡ map f xs
map-same f g [] same = refl
map-same f g (x ∷ xs) same =
    ap₂ (λ y ys. y ∷ ys) (same x (ground arith)) (map-same f g xs (λ y i. same y (ground arith)))

pub queue-same :
    (b b' : Book) (lists lists' : Lists) (t : Side) (ps : List Price)
    → ((p : Price) → p ∈ ps → view b' lists' t p ≡ view b lists t p)
    → queue b' lists' t ps ≡ queue b lists t ps
queue-same b b' lists lists' t [] same = refl
queue-same b b' lists lists' t (p ∷ ps) same =
    ap₂ (λ x y. x ++ y) (same p (ground arith))
      (queue-same b b' lists lists' t ps (λ q i. same q (ground arith)))

module _ (read_cycles : ℕ → ℕ) where
  pub same_future :
      {n n' : ℕ} {es es' : List Event} {id id' : OrderId} {q q' : Quantity} {xs xs' : List Order}
      → n' ≡ n
      → es' ≡ es
      → id' ≡ id
      → q' ≡ q
      → xs' ≡ xs
      → future_of read_cycles n' es' id' q' xs' ≡ future_of read_cycles n es id q xs
  same_future e f g h k = rw (e, f, g, h, k) refl

  -- The outcome after the fill of the whole first order, and of a part of it.
  pub future-met :
      (n : ℕ) (es : List Event) (id : OrderId) (q : Quantity) (x : Order) (xs : List Order)
      → q ≢ 0
      → x.remaining ≤ q
      → future_of read_cycles
          (n + 1)
          (es ++ fill_event read_cycles n id q x ∷ [])
          id
          (q - x.remaining)
          xs
        ≡ future_of read_cycles n es id q (x ∷ xs)
  future-met n es id zero x xs ne below = absurd (ne refl)
  future-met n es id (suc q) x xs ne below =
      let e : leb x.remaining (suc q) ≡ true = ground arith in
      rw e (
        ap (λ l. (l, remainder (suc q - x.remaining) xs, unfilled (suc q - x.remaining) xs))
          (append_assoc es (fill_event read_cycles n id (suc q) x ∷ [])
            (trade_events read_cycles (n + 1) id (suc q - x.remaining) xs)))

  pub future-part :
      (n : ℕ) (es : List Event) (id : OrderId) (q : Quantity) (x : Order) (xs : List Order)
      → q ≢ 0
      → q < x.remaining
      → future_of read_cycles
          (n + 1)
          (es ++ fill_event read_cycles n id q x ∷ [])
          id
          0
          (record x { remaining = x.remaining - q } ∷ xs)
        ≡ future_of read_cycles n es id q (x ∷ xs)
  future-part n es id zero x xs ne below = absurd (ne refl)
  future-part n es id (suc q) x xs ne below =
      let e : leb x.remaining (suc q) ≡ false = ground arith in
      let f : suc q - x.remaining ≡ 0 = omega arith in
      let g : 0 - (x.remaining - suc q) ≡ 0 = omega arith in
      rw (e, f, g)
        (ap (λ l. (l, record x { remaining = x.remaining - suc q } ∷ xs, unfilled 0 xs))
          (append_assoc es (fill_event read_cycles n id (suc q) x ∷ []) []))
