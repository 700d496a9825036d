-- ===== src/OrderBook/Joined.antt =====
-- The lists of a book with an order added.
use lock_free_limit_order_bo.Prelude.{arith, ◌⊎◌, ap, ◌∙◌, List, [], ◌∷◌, ◌++◌}
use lock_free_limit_order_bo.Order.{Ref, Price, Side}
use lock_free_limit_order_bo.Prelude.Members.{has, ◌∈◌, has-append}
use lock_free_limit_order_bo.OrderBook.Run.{Lists}
use lock_free_limit_order_bo.OrderBook.Relisted.{
  relisted, relisted-here, relisted-kept, relisted-was,
}

-- The lists with orders at the end of one of them.
abbrev pub joined : Side → Price → List Ref → Lists → Lists
joined side price xs lists = relisted side price (lists side price ++ xs) lists

module _ (side : Side) (price : Price) (o : Ref) (lists : Lists) where
  pub joined-kept :
      (x : Ref) (t : Side) (q : Price) → x ∈ lists t q → x ∈ joined side price (o ∷ []) lists t q
  joined-kept x =
      relisted-kept side price (lists side price ++ o ∷ []) lists x
        λ i. ground (arith, has-append x (lists side price) (o ∷ []))

  pub joined-was :
      (t : Side) (q : Price) (x : Ref)
      → x ∈ joined side price (o ∷ []) lists t q
      → (x ∈ lists t q) ⊎ (x ∈ o ∷ [])
  joined-was t q x =
      relisted-was side price (lists side price ++ o ∷ []) lists (o ∷ []) x
        (λ j. ground (arith, has-append x (lists side price) (o ∷ []))) t q

  pub joined-new : o ∈ joined side price (o ∷ []) lists side price
  joined-new =
      ap (has o) (relisted-here side price (lists side price ++ o ∷ []) lists)
      ∙ ground (arith, has-append o (lists side price) (o ∷ []))
