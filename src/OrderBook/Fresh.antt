-- ===== src/OrderBook/Fresh.antt =====
-- Commands that add each order under an id of its own.
use lock_free_limit_order_bo.Prelude.{
  ℕ, suc, ◌≤◌, ◌<◌, ◌≡◌, ◌≢◌, ◌==◌, ◌∙◌, none, some, refl, ap, sym, arith, List, [], ◌∷◌, inl, inr,
  Bool-cases, Option-cases, ==_iff,
}
use lock_free_limit_order_bo.Prelude.Words.{u32_mod, u64_mod}
use lock_free_limit_order_bo.Prelude.Members.{has, ◌∈◌, ◌∉◌, Distinct}
use lock_free_limit_order_bo.Order.{OrderId, Ref, Cells}
use lock_free_limit_order_bo.OrderMap.{empty_key, find}
use lock_free_limit_order_bo.OrderBook.State.{Sizes, Book, new_book}
use lock_free_limit_order_bo.OrderBook.Sound.{IsSound, GoodId}
use lock_free_limit_order_bo.OrderBook.Follows.{add_order-Follows}
use lock_free_limit_order_bo.OrderBook.Amends.{cancel_order-Follows, modify_order-Follows}
use lock_free_limit_order_bo.OrderBook.Commands.{
  Command, add, cancel, modify, call, run, Permitted, AllPermitted, call-IsSound, new_book-IsSound,
  find-new_map, run-IsSound,
}

-- The ids that the commands add orders under.
abbrev pub new_ids : List Command → List OrderId
new_ids [] = []
new_ids (add id price qty side ∷ cs) = id ∷ new_ids cs
new_ids (cancel id ∷ cs) = new_ids cs
new_ids (modify id price qty ∷ cs) = new_ids cs

module _ (z : Sizes) (read_cycles : ℕ → ℕ) (narrow : z.order_map_bits ≤ 64) where
  -- Ids that the table is made for, and 32-bit quantities.
  abbrev pub InWidth : Command → Type 0
  InWidth (add id price qty side) = GoodId z read_cycles narrow id × (qty < u32_mod)
  InWidth (cancel id) = GoodId z read_cycles narrow id
  InWidth (modify id price qty) = GoodId z read_cycles narrow id × (qty < u32_mod)

  abbrev pub AllInWidth : List Command → Type 0
  AllInWidth [] = Unit {0}
  AllInWidth (c ∷ cs) = InWidth c × AllInWidth cs

  some-ne-none : {x : Ref} → some x ≢ none
  some-ne-none e = cc

  -- A command makes no id known but the one that it adds.
  call-unknown :
      (c : Command) (b : Book)
      → IsSound z read_cycles narrow b
      → Permitted z read_cycles narrow c b
      → (j : OrderId) → j ≢ empty_key
      → j ∉ new_ids (c ∷ [])
      → find z.order_map_bits j b.order_map ≡ none
      → find z.order_map_bits j (call z read_cycles c b).1.order_map ≡ none
  call-unknown c b v ok j ne out e =
      elim (Option-cases (find z.order_map_bits j (call z read_cycles c b).1.order_map)) [
        | inl f ↦ f
        | inr (x, f) ↦ absurd (found c ok out x f)
      ]
    where
      found :
          (c : Command)
          → Permitted z read_cycles narrow c b
          → j ∉ new_ids (c ∷ [])
          → (x : Ref) → find z.order_map_bits j (call z read_cycles c b).1.order_map ≡ some x
          → ⊥
      found (add id price qty side) (good, small, fresh) out x f =
          elim (add_order-Follows z read_cycles narrow id price qty side b v good fresh small) [
            | inl (_, same) ↦
                some-ne-none (sym f ∙ ap (λ y. find z.order_map_bits j y.order_map) same ∙ e)
            | inr (_, follows) ↦ elim (follows j x ne f) [
              | inl (h, _) ↦ ground (arith, h)
              | inr (_, w) ↦ some-ne-none (sym w.found ∙ e)
            ]
          ]
      found (cancel id) good out x f =
          some-ne-none
            (sym (cancel_order-Follows z read_cycles narrow id b v good.0 j x ne f).1.found ∙ e)
      found (modify id price qty) (good, small) out x f =
          elim (modify_order-Follows z read_cycles narrow id price qty b v good small) [
            | inl (_, same) ↦
                some-ne-none (sym f ∙ ap (λ y. find z.order_map_bits j y.order_map) same ∙ e)
            | inr (o, g, follows) ↦ elim (follows j x ne f) [
              | inl (h, _) ↦
                  some-ne-none (sym g ∙ ap (λ k. find z.order_map_bits k b.order_map) (sym h) ∙ e)
              | inr (_, w) ↦ some-ne-none (sym w.found ∙ e)
            ]
          ]

  new_ids-ne : (cs : List Command) (j : OrderId) → AllInWidth cs → j ∈ new_ids cs → j ≢ empty_key
  new_ids-ne [] j ok i = absurd (ground arith)
  new_ids-ne (add id price qty side ∷ cs) j ok i = ground (arith, ok.0.0.0, new_ids-ne cs j ok.1)
  new_ids-ne (cancel id ∷ cs) j ok i = new_ids-ne cs j ok.1 i
  new_ids-ne (modify id price qty ∷ cs) j ok i = new_ids-ne cs j ok.1 i

  Unknown : List Command → Book → Type 0
  Unknown cs b = (j : OrderId) → j ∈ new_ids cs → find z.order_map_bits j b.order_map ≡ none

  Permitted_of_fresh :
      (cs : List Command) (b : Book)
      → IsSound z read_cycles narrow b
      → AllInWidth cs
      → Distinct (new_ids cs)
      → Unknown cs b
      → AllPermitted z read_cycles narrow cs b
  unfolding Unknown
  Permitted_of_fresh [] b v ok d fresh = tt
  Permitted_of_fresh (add id price qty side ∷ cs) b v ok d fresh =
      let c = add id price qty side in
      let p : Permitted z read_cycles narrow c b = (ok.0.0, ok.0.1, fresh id (ground arith)) in
      (
        p,
        Permitted_of_fresh cs (call z read_cycles c b).1 (call-IsSound z read_cycles narrow c b v p)
            ok.1 d.1
            λ j i.
              call-unknown c b v p j (new_ids-ne cs j ok.1 i) (other j d.0 i)
                (fresh j (ground arith)),
      )
    where
      other : (j : OrderId) → id ∉ new_ids cs → j ∈ new_ids cs → j ∉ id ∷ []
      other j out i = elim (Bool-cases (id == j)) [
        | inl h ↦ absurd (ground (arith, ap (λ k. has k (new_ids cs)) ((==_iff id j).0 h)))
        | inr h ↦ rw h refl
      ]
  Permitted_of_fresh (cancel id ∷ cs) b v ok d fresh =
      let c = cancel id in
      (
        ok.0,
        Permitted_of_fresh cs (call z read_cycles c b).1
            (call-IsSound z read_cycles narrow c b v ok.0) ok.1 d
            λ j i. call-unknown c b v ok.0 j (new_ids-ne cs j ok.1 i) refl (fresh j i),
      )
  Permitted_of_fresh (modify id price qty ∷ cs) b v ok d fresh =
      let c = modify id price qty in
      (
        ok.0,
        Permitted_of_fresh cs (call z read_cycles c b).1
            (call-IsSound z read_cycles narrow c b v ok.0) ok.1 d
            λ j i. call-unknown c b v ok.0 j (new_ids-ne cs j ok.1 i) refl (fresh j i),
      )

  new_book-unknown :
      (c : Cells) (id : OrderId)
      → id ≢ empty_key
      → find z.order_map_bits id (new_book z c).order_map ≡ none
  unfolding new_book
  new_book-unknown c id ne = find-new_map z read_cycles narrow id ne

  pub fresh_run-IsSound :
      (n : ℕ) (c : Cells) (cs : List Command)
      → z.order_pool_size ≡ suc n
      → suc n < u64_mod
      → 0 < z.max_price_levels
      → AllInWidth cs
      → Distinct (new_ids cs)
      → IsSound z read_cycles narrow (run z read_cycles cs (new_book z c))
  unfolding Unknown
  fresh_run-IsSound n c cs size small some_price ok d =
      run-IsSound z read_cycles narrow n c cs size small some_price (
        Permitted_of_fresh cs (new_book z c)
          (new_book-IsSound z read_cycles narrow n c size small some_price) ok d
          λ j i. new_book-unknown c j (new_ids-ne cs j ok i))
