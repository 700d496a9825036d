-- ===== src/OrderBook/Views.antt =====
-- The orders at each side and price when `add_order` is done.
use lock_free_limit_order_bo.Prelude.{
  ◌≡◌, ◌≢◌, Bool, true, false, refl, ap, ◌∙◌, List, [], ◌∷◌, ◌++◌, map, update, update_self,
  update_ne, if◌then◌else◌,
}
use lock_free_limit_order_bo.Order.{Ref, Price, Side, OrderId}
use lock_free_limit_order_bo.OrderBook.State.{Sizes, Book, order_at}
use lock_free_limit_order_bo.OrderBook.Sides.{opposite, set_side_self, set_side-opposite}
use lock_free_limit_order_bo.OrderBook.Priority.{view}
use lock_free_limit_order_bo.OrderBook.Future.{map-same}
use lock_free_limit_order_bo.OrderBook.Run.{Lists}
use lock_free_limit_order_bo.OrderBook.Joined.{joined}
use lock_free_limit_order_bo.OrderBook.Settle.{Settled}

module _ (z : Sizes) where
  -- The orders at each side and price at the end.
  module _ {filled : Bool} {id : OrderId} {side : Side} {price : Price} {o : Ref} {b : Book}
      {lists : Lists} {b' : Book} (t : Settled z filled id side price o b lists b') where
    abbrev after : Lists
    after = joined side price (if filled then [] else (o ∷ [])) lists

    same_orders : (xs : List Ref) → map (order_at b') xs ≡ map (order_at b) xs
    same_orders xs = map-same (order_at b) (order_at b') xs (λ x i. t.orders x)

    pub view-opposite :
        (p : Price) → view b' after (opposite side) p ≡ view b lists (opposite side) p
    view-opposite p =
        ap (λ f. map (order_at b') (f p))
          (set_side-opposite
            (update (lists side) price (lists side price ++ (if filled then [] else (o ∷ []))))
            lists side)
        ∙ same_orders (lists (opposite side) p)

    pub view-beside : (p : Price) → price ≢ p → view b' after side p ≡ view b lists side p
    view-beside p ne =
        ap (λ f. map (order_at b') (f p))
          (set_side_self
            (update (lists side) price (lists side price ++ (if filled then [] else (o ∷ []))))
            lists side)
        ∙ ap (map (order_at b')) (
            update_ne (lists side) price (lists side price ++ (if filled then [] else (o ∷ []))) p
              ne)
        ∙ same_orders (lists side p)

    pub view-joined :
        view b' after side price
        ≡ view b lists side price ++ (if filled then [] else (order_at b o ∷ []))
    view-joined =
        ap (λ f. map (order_at b') (f price))
          (set_side_self
            (update (lists side) price (lists side price ++ (if filled then [] else (o ∷ []))))
            lists side)
        ∙ ap (map (order_at b'))
            (update_self (lists side) price (lists side price ++ (if filled then [] else (o ∷ []))))
        ∙ same_orders (lists side price ++ (if filled then [] else (o ∷ [])))
        ∙ last filled (lists side price)
      where
        last :
            (k : Bool) (xs : List Ref)
            → map (order_at b) (xs ++ (if k then [] else (o ∷ [])))
              ≡ map (order_at b) xs ++ (if k then [] else (order_at b o ∷ []))
        last true [] = refl
        last false [] = refl
        last k (x ∷ xs) = ap (λ l. order_at b x ∷ l) (last k xs)
