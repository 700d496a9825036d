-- ===== src/OrderBook/Entry.antt =====
-- The start of `add_order`: a free order is acquired, filled in, and put into the table.
use lock_free_limit_order_bo.Prelude.{
  ◌≤◌, ◌≢◌, ◌==◌, ◌⊎◌, ◌^◌, none, inl, inr, Bool-cases, ==_iff, ap, sym, ◌∙◌, ℕ, ◌<◌, ◌≡◌, true,
  false, some, refl, arith, leb, List, [], ◌∷◌, subst, update_self,
}
use lock_free_limit_order_bo.Prelude.Members.{◌∈◌}
use lock_free_limit_order_bo.Order.{Order, OrderId, Ref, Price, Quantity, Side}
use lock_free_limit_order_bo.OrderPool.FreeList.{FreeList-uncons, acquire-none}
use lock_free_limit_order_bo.OrderMap.{empty_key, insert, find}
use lock_free_limit_order_bo.OrderMap.Table.{insert-IsTable, find-insert}
use lock_free_limit_order_bo.OrderBook.Index.{Indexed}
use lock_free_limit_order_bo.OrderBook.State.{Sizes, Book, own, order_at}
use lock_free_limit_order_bo.OrderBook.Operations.{add_order, fill_in, place_order}
use lock_free_limit_order_bo.OrderBook.Rests.{new_order, entered, acquire-some}
use lock_free_limit_order_bo.OrderBook.Whole.{IsBook, IsLoose, IsWhole}
use lock_free_limit_order_bo.OrderBook.Moves.{written-IsBook}
use lock_free_limit_order_bo.OrderBook.Joins.{acquired-IsBook, released-IsBook}
use lock_free_limit_order_bo.OrderBook.Priority.{view, queue}
use lock_free_limit_order_bo.OrderBook.Run.{Lists}
use lock_free_limit_order_bo.OrderBook.Resting.{with_pool-IsWhole}
use lock_free_limit_order_bo.OrderBook.Future.{map-same, queue-same}

module _ (z : Sizes) (read_cycles : ℕ → ℕ) (id : OrderId) (price : Price) (qty : Quantity)
    (side : Side) where
  module _ {o : Ref} (b : Book) {lists : Lists} {free : List Ref}
      (v : IsWhole z b lists (o ∷ free)) where
    first_free : b.pool.free_head ≡ some o
    first_free = (FreeList-uncons v.is_pool.chain).0

    abbrev written : Book
    written = entered z read_cycles id price qty side o b

    pub entered-IsLoose : IsLoose z.order_pool_size z.max_price_levels lists free o
    entered-IsLoose = (acquired-IsBook v).1

    pub entered-IsWhole : IsWhole z written lists free
    entered-IsWhole =
        let got =
          subst
            (λ p.
              IsBook z.order_pool_size z.max_price_levels p.1 (λ t. (own t b).levels)
                (λ t. (own t b).total_qty) lists free)
            (acquire-some b.pool first_free) (acquired-IsBook v).0 in
        with_pool-IsWhole z refl refl refl (
          written-IsBook got o (new_order z read_cycles id price qty side b)
            entered-IsLoose.unlisted)

    pub view-entered : (t : Side) (p : Price) → view written lists t p ≡ view b lists t p
    view-entered t p =
        map-same (order_at b) (order_at written) (lists t p)
          λ x i. ground (arith, entered-IsLoose.unlisted t p)

    pub queue-entered : (t : Side) (ps : List Price) → queue written lists t ps ≡ queue b lists t ps
    queue-entered t ps = queue-same b written lists lists t ps (λ p i. view-entered t p)

    pub order_at-entered : order_at written o ≡ new_order z read_cycles id price qty side b
    order_at-entered = update_self (order_at b) o (new_order z read_cycles id price qty side b)

    unwritten : (t : Side) (p : Price) (x : Ref) → x ∈ lists t p → order_at written x ≡ order_at b x
    unwritten t p x i = ground (arith, entered-IsLoose.unlisted t p)

    -- The table has the new order, which is in no list yet.
    pub entered-Indexed :
        z.order_map_bits ≤ 64
        → id ≢ empty_key
        → id < 2 ^ z.order_map_bits
        → find z.order_map_bits id b.order_map ≡ none
        → Indexed z b lists []
        → Indexed z written lists (o ∷ [])
    entered-Indexed narrow ne small fresh v' = record {
      table = (insert-IsTable z.order_map_bits narrow b.order_map v'.table id ne o small fresh).1;
      found = λ j x full e. elim (Bool-cases (id == j)) [
        | inl h ↦ new_found j x ((==_iff id j).0 h) (
            sym (
              rw h at (
                find-insert z.order_map_bits narrow b.order_map v'.table id ne o small fresh j
                  full))
            ∙ e)
        | inr h ↦ old_found j x (
            v'.found j x full (
              sym (
                rw h at (
                  find-insert z.order_map_bits narrow b.order_map v'.table id ne o small fresh j
                    full))
              ∙ e))
      ];
      ids = λ s p x i e. v'.ids s p x i (sym (ap Order.id (unwritten s p x i)) ∙ e);
      loose_ids = λ x i e.
          let same : o ≡ x = ground arith in
          ne (ap Order.id (sym order_at-entered ∙ ap (order_at written) same) ∙ e);
    }
      where
        new_found :
            (j : OrderId) (x : Ref)
            → id ≡ j
            → some o ≡ some x
            → ((order_at written x).id ≡ j)
              × ((x ∈ lists (order_at written x).side (order_at written x).price) ⊎ (x ∈ o ∷ []))
        new_found j x h e =
            let same : o ≡ x = some_inj e in
            (
              ap Order.id (ap (order_at written) (sym same) ∙ order_at-entered) ∙ h,
              inr (ground arith),
            )
          where
            some_inj : some o ≡ some x → o ≡ x
            some_inj f = cc

        old_found :
            (j : OrderId) (x : Ref)
            → ((order_at b x).id ≡ j)
              × ((x ∈ lists (order_at b x).side (order_at b x).price) ⊎ (x ∈ []))
            → ((order_at written x).id ≡ j)
              × ((x ∈ lists (order_at written x).side (order_at written x).price) ⊎ (x ∈ o ∷ []))
        old_found j x (h, inl i) =
            let k = unwritten (order_at b x).side (order_at b x).price x i in
            subst (λ y. (y.id ≡ j) × ((x ∈ lists y.side y.price) ⊎ (x ∈ o ∷ []))) (sym k) (h, inl i)
        old_found j x (h, inr i) = absurd (ground arith)

    pub add_order-place_order :
        price < z.max_price_levels
        → (insert z.order_map_bits id o b.order_map).0 ≡ true
        → add_order z read_cycles id price qty side b
          ≡ (true, place_order z read_cycles id price side o written)
    unfolding add_order fill_in
    add_order-place_order inside done =
        let out : leb z.max_price_levels price ≡ false = ground arith in
        rw (out, acquire-some b.pool first_free, acquire-some b.pool first_free, done) refl

    -- A failed insertion gives the order back.
    pub full_table-IsWhole :
        price < z.max_price_levels
        → (insert z.order_map_bits id o b.order_map).0 ≡ false
        → IsWhole z (add_order z read_cycles id price qty side b).1 lists (o ∷ free)
    unfolding add_order fill_in
    full_table-IsWhole inside full =
        let out : leb z.max_price_levels price ≡ false = ground arith in
        rw (out, acquire-some b.pool first_free, acquire-some b.pool first_free, full)
          (with_pool-IsWhole z refl refl refl (released-IsBook entered-IsWhole entered-IsLoose))

    pub full_table-sides :
        price < z.max_price_levels
        → (insert z.order_map_bits id o b.order_map).0 ≡ false
        → let b' = (add_order z read_cycles id price qty side b).1 in
          (b'.bid ≡ b.bid) × (b'.ask ≡ b.ask)
    unfolding add_order fill_in
    full_table-sides inside full =
        let out : leb z.max_price_levels price ≡ false = ground arith in
        rw (out, acquire-some b.pool first_free, acquire-some b.pool first_free, full) (refl, refl)

  -- A price out of range, and an exhausted pool.
  pub add_order-out :
      (b : Book)
      → leb z.max_price_levels price ≡ true
      → add_order z read_cycles id price qty side b ≡ (false, b)
  unfolding add_order
  add_order-out b e = rw e refl

  pub add_order-exhausted :
      (b : Book) {lists : Lists}
      → IsWhole z b lists []
      → price < z.max_price_levels
      → add_order z read_cycles id price qty side b ≡ (false, b)
  unfolding add_order
  add_order-exhausted b v inside =
      let out : leb z.max_price_levels price ≡ false = ground arith in
      rw (out, acquire-none v.is_pool, acquire-none v.is_pool) refl
