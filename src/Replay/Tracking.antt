-- ===== src/Replay/Tracking.antt =====
-- The operations that the engine calls, for its book and its tracker.
use lock_free_limit_order_bo.Prelude.{
  ℕ, ◌≤◌, ◌<◌, ◌≡◌, ◌≢◌, ◌==◌, ◌∙◌, Option, none, some, refl, ap, sym, subst, arith, List, [], ◌∷◌,
  update, inl, inr, if◌then◌else◌, Bool-cases, Option-cases,
}
use lock_free_limit_order_bo.Prelude.Words.{u32_mod}
use lock_free_limit_order_bo.Prelude.Members.{has, ◌∉◌}
use lock_free_limit_order_bo.Order.{OrderId, Ref, Price, Quantity, Side}
use lock_free_limit_order_bo.OrderMap.{empty_key, find}
use lock_free_limit_order_bo.OrderBook.State.{Sizes, Book}
use lock_free_limit_order_bo.OrderBook.Operations.{add_order, cancel_order, modify_order}
use lock_free_limit_order_bo.OrderBook.Sound.{
  IsSound, GoodId, add_order-IsSound, cancel_order-IsSound, modify_order-IsSound,
}
use lock_free_limit_order_bo.OrderBook.Follows.{Was, Was-refl, Holds, Follows, add_order-Follows}
use lock_free_limit_order_bo.OrderBook.Amends.{cancel_order-Follows, modify_order-Follows}
use lock_free_limit_order_bo.Replay.{OrderState}

module _ (z : Sizes) (read_cycles : ℕ → ℕ) (narrow : z.order_map_bits ≤ 64) where
  abbrev pub Tracker : Type 0
  Tracker = OrderId → Option OrderState

  -- The book is sound. Every order that its table finds is tracked with its side and its price, and
  -- with at least the shares that it has left.
  pub record IsTracking (b : Book) (t : Tracker) : Type 0 where
    pub sound : IsSound z read_cycles narrow b
    pub tracked :
        (j : OrderId) (x : Ref)
        → j ≢ empty_key
        → find z.order_map_bits j b.order_map ≡ some x
        → (os : OrderState) × (t j ≡ some os) × Holds z b x os.side os.price os.remaining
    pub words : (j : OrderId) (os : OrderState) → t j ≡ some os → os.remaining < u32_mod

  -- From one book and tracker to another: the table has new ids of the list only.
  pub record Next (refs : List OrderId) (b b' : Book) (t' : Tracker) : Type 0 where
    pub tracking : IsTracking b' t'
    pub fresh :
        (j : OrderId)
        → j ≢ empty_key
        → j ∉ refs
        → find z.order_map_bits j b.order_map ≡ none
        → find z.order_map_bits j b'.order_map ≡ none

  pub Next-refl : (refs : List OrderId) (b : Book) (t : Tracker) → IsTracking b t → Next refs b b t
  Next-refl refs b t v = record { tracking = v; fresh = λ j ne out e. e }

  pub Next-trans :
      (refs : List OrderId) (b c d : Book) (t u : Tracker)
      → Next [] b c t
      → Next refs c d u
      → Next refs b d u
  Next-trans refs b c d t u v w = record {
    tracking = w.tracking;
    fresh = λ j ne out e. w.fresh j ne out (v.fresh j ne refl e);
  }

  some_inj : {x y : OrderState} → some x ≡ some y → x ≡ y
  some_inj e = cc

  some-ne-none : {x : Ref} → some x ≢ none
  some-ne-none e = cc

  -- What was found before is tracked still.
  Was-Holds :
      (b b' : Book) (t : Tracker) (j : OrderId) (x : Ref)
      → IsTracking b t
      → j ≢ empty_key
      → Was z b b' j x
      → (os : OrderState) × (t j ≡ some os) × Holds z b' x os.side os.price os.remaining
  Was-Holds b b' t j x v ne w =
      let (os, e, h) = v.tracked j x ne w.found in
      let (_, s, p) = w.key in
      (
        os,
        e,
        record {
          same_side = s ∙ h.same_side;
          same_price = p ∙ h.same_price;
          at_most = omega (arith, w.shares, h.at_most);
        },
      )

  -- An operation after which one id is tracked anew.
  Follows-Next :
      (refs : List OrderId) (id : OrderId) (os : OrderState) (b b' : Book) (t : Tracker)
      → IsTracking b t
      → IsSound z read_cycles narrow b'
      → os.remaining < u32_mod
      → Follows z id os.side os.price os.remaining b b'
      → (id ∉ refs
          → find z.order_map_bits id b.order_map ≡ none
          → find z.order_map_bits id b'.order_map ≡ none)
      → Next refs b b' (update t id (some os))
  Follows-Next refs id os b b' t v sound small follows known = record {
    tracking = record {
      sound = sound;
      tracked = λ j x ne e. elim (follows j x ne e) [
        | inl (h, here) ↦ (os, ground (arith, h), here)
        | inr (h, w) ↦
            let (os', e', here) = Was-Holds b b' t j x v ne w in (os', ground (arith, h, e'), here)
      ];
      words = λ j os' e. elim (Bool-cases (id == j)) [
        | inl h ↦ omega (arith, small, ap (λ (o : OrderState). o.remaining) (some_inj (rw h at e)))
        | inr h ↦ v.words j os' (rw h at e)
      ];
    };
    fresh = λ j ne out e. elim (Option-cases (find z.order_map_bits j b'.order_map)) [
      | inl f ↦ f
      | inr (x, f) ↦ elim (follows j x ne f) [
        | inr (_, w) ↦ absurd (some-ne-none (sym w.found ∙ e))
        | inl (h, _) ↦
            ap (λ k. find z.order_map_bits k b'.order_map) h
            ∙ known (ap (λ k. has k refs) (sym h) ∙ out)
                (ap (λ k. find z.order_map_bits k b.order_map) (sym h) ∙ e)
      ]
    ];
  }

  pub entered-Next :
      (id : OrderId) (price : Price) (qty : Quantity) (side : Side) (b : Book) (t : Tracker)
      → IsTracking b t
      → GoodId z read_cycles narrow id
      → find z.order_map_bits id b.order_map ≡ none
      → qty < u32_mod
      → let (done, b') = add_order z read_cycles id price qty side b in
        Next (id ∷ []) b b' (
          if done
          then update t id (some (record { price = price; remaining = qty; side = side }))
          else t)
  entered-Next id price qty side b t v good fresh small =
      elim (add_order-Follows z read_cycles narrow id price qty side b v.sound good fresh small) [
        | inl (refused, same) ↦ rw (refused, same) (Next-refl (id ∷ []) b t v)
        | inr (done, follows) ↦ rw done (
            Follows-Next (id ∷ []) id (record { price = price; remaining = qty; side = side }) b
              (add_order z read_cycles id price qty side b).1 t v
              (add_order-IsSound z read_cycles narrow id price qty side b v.sound good fresh small)
              small follows (λ out e. absurd (ground arith)))
      ]

  pub dropped-Next :
      (id : OrderId) (b : Book) (t : Tracker)
      → IsTracking b t
      → id ≢ empty_key
      → Next [] b (cancel_order z id b).1 (update t id none)
  dropped-Next id b t v good =
      let b' = (cancel_order z id b).1 in
      let kept = cancel_order-Follows z read_cycles narrow id b v.sound good in
      record {
        tracking = record {
          sound = cancel_order-IsSound z read_cycles narrow id b v.sound good;
          tracked = λ j x ne e.
              let (h, w) = kept j x ne e in
              let (os, e', here) = Was-Holds b b' t j x v ne w in (os, ground (arith, h, e'), here);
          words = λ j os e. elim (Bool-cases (id == j)) [
            | inl h ↦ absurd (gone (rw h at e))
            | inr h ↦ v.words j os (rw h at e)
          ];
        };
        fresh = λ j ne out e. elim (Option-cases (find z.order_map_bits j b'.order_map)) [
          | inl f ↦ f
          | inr (x, f) ↦ absurd (some-ne-none (sym (kept j x ne f).1.found ∙ e))
        ];
      }
    where
      gone : {os : OrderState} → none ≢ some os
      gone e = cc

  pub shrunk-Next :
      (id : OrderId) (os : OrderState) (rest : Quantity) (b : Book) (t : Tracker)
      → IsTracking b t
      → GoodId z read_cycles narrow id
      → t id ≡ some os
      → rest < u32_mod
      → Next [] b
          (modify_order z read_cycles id os.price rest b).1
          (update t id (some (record os { remaining = rest })))
  shrunk-Next id os rest b t v good known small =
      let b' = (modify_order z read_cycles id os.price rest b).1 in
      let sound = modify_order-IsSound z read_cycles narrow id os.price rest b v.sound good small in
      elim (modify_order-Follows z read_cycles narrow id os.price rest b v.sound good small) [
        | inl (absent, same) ↦
            Follows-Next [] id (record os { remaining = rest }) b b' t v sound small
              (λ j x ne e.
                let f = sym (ap (λ y. find z.order_map_bits j y.order_map) same) ∙ e in
                inr (
                  (λ h.
                      some-ne-none
                        (sym f ∙ ap (λ k. find z.order_map_bits k b.order_map) h ∙ absent)),
                  subst (λ y. Was z b y j x) (sym same) (Was-refl z b j x f),
                ))
              (λ out e. ap (λ y. find z.order_map_bits id y.order_map) same ∙ e)
        | inr (o, e, follows) ↦
            let (os', e', here) = v.tracked id o good.0 e in
            let same : os'.side ≡ os.side =
              ap (λ (y : OrderState). y.side) (some_inj (sym e' ∙ known)) in
            Follows-Next [] id (record os { remaining = rest }) b b' t v sound small
              (subst (λ s. Follows z id s os.price rest b b') (here.same_side ∙ same) follows)
              (λ out f. absurd (some-ne-none (sym e ∙ f)))
      ]
