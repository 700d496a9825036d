-- ===== src/OrderBook/Traded.antt =====
-- One fill: the book before and after, and the book with one level exchanged.
use lock_free_limit_order_bo.Prelude.{
  ℕ, ◌+◌, ◌≡◌, ◌==◌, refl, ap, sym, ◌∙◌, List, [], ◌∷◌, ◌++◌, update, subst, fun_ext, if◌then◌else◌,
  min, Bool-cases, inl, inr, ==_iff,
}
use lock_free_limit_order_bo.Order.{
  Ref, Price, Side, buy, sell, Cells, Event, Quantity, trade, is_filled,
}
use lock_free_limit_order_bo.PriceLevel.{PriceLevel, remove}
use lock_free_limit_order_bo.OrderMap.{erase}
use lock_free_limit_order_bo.OrderPool.{OrderPool, release}
use lock_free_limit_order_bo.OrderBook.State.{
  Sizes, Book, BookSide, own, passive, set_passive, set_level, set_cells, order_at, publish,
}
use lock_free_limit_order_bo.OrderBook.Match.{less_remaining, less_total, retire, fill_order}
use lock_free_limit_order_bo.OrderBook.Sides.{
  opposite, set_side, Side-ind, ap-set_side, set_side_self, set_side-opposite,
}
use lock_free_limit_order_bo.OrderBook.Whole.{IsBook, IsWhole, Change}
use lock_free_limit_order_bo.OrderBook.Change.{Change-IsBook}

-- A book with another pool and another side.
pub record Replaced (s : Side) (pool : OrderPool) (h : BookSide) (b b' : Book) : Type 0 where
  pub pool_now : b'.pool ≡ pool
  pub bid_now : b'.bid ≡ set_side s h (λ t. own t b) buy
  pub ask_now : b'.ask ≡ set_side s h (λ t. own t b) sell

pub own-Replaced :
    {s : Side} {pool : OrderPool} {h : BookSide} {b b' : Book}
    → Replaced s pool h b b'
    → (r : Side) → own r b' ≡ set_side s h (λ t. own t b) r
own-Replaced v buy = v.bid_now
own-Replaced v sell = v.ask_now

pub IsBook-cong :
    {size max : ℕ} {pool pool' : OrderPool} {levels levels' : Side → Price → PriceLevel}
    {totals totals' : Side → ℕ} {lists : Side → Price → List Ref} {free : List Ref}
    → pool' ≡ pool
    → ((t : Side) → levels' t ≡ levels t)
    → ((t : Side) → totals' t ≡ totals t)
    → IsBook size max pool levels totals lists free
    → IsBook size max pool' levels' totals' lists free
IsBook-cong {size} {max} {pool} {pool'} {levels} {levels'} {totals} {totals'} {lists} {free} e f g
      v =
    subst (λ k. IsBook size max k levels' totals' lists free) (sym e)
      (subst (λ k. IsBook size max pool k totals' lists free) (sym (fun_ext f))
        (subst (λ k. IsBook size max pool levels k lists free) (sym (fun_ext g)) v))

-- The change of one level, read in the book.
pub Replaced-IsWhole :
    (z : Sizes) (s : Side) {p : Price} {before pool : OrderPool} {h : BookSide} {l : PriceLevel}
    {b b' : Book} {total' : ℕ} {lists : Side → Price → List Ref} {xs free free' : List Ref}
    → IsBook z.order_pool_size z.max_price_levels before
        (λ t. (own t b).levels)
        (λ t. (own t b).total_qty)
        lists
        free
    → Replaced s pool h b b'
    → h.levels ≡ update (own s b).levels p l
    → h.total_qty ≡ total'
    → Change z.order_pool_size z.max_price_levels before
        (λ t. (own t b).levels)
        (λ t. (own t b).total_qty)
        lists
        s
        p
        pool
        l
        total'
        xs
        free'
    → IsWhole z b' (set_side s (update (lists s) p xs) lists) free'
Replaced-IsWhole z s {h} {b} v r levels total c =
    IsBook-cong r.pool_now
      (λ t.
        ap BookSide.levels (own-Replaced r t)
        ∙ ap-set_side BookSide.levels s h (λ u. own u b) t
        ∙ ap (λ k. set_side s k (λ u. (own u b).levels) t) levels)
      (λ t.
        ap BookSide.total_qty (own-Replaced r t)
        ∙ ap-set_side BookSide.total_qty s h (λ u. own u b) t
        ∙ ap (λ k. set_side s k (λ u. (own u b).total_qty) t) total)
      (Change-IsBook v c)

-- A list that is exchanged for itself.
pub set_side-update_same :
    {A : Type 0} (s : Side) (f : Side → Price → A) (p : Price)
    → set_side s (update (f s) p (f s p)) f ≡ f
set_side-update_same s f p = fun_ext (
    Side-ind s (λ t. set_side s (update (f s) p (f s p)) f t ≡ f t)
      (set_side_self (update (f s) p (f s p)) f s
        ∙ fun_ext (λ q. elim (Bool-cases (p == q)) [
          | inl e ↦ rw e (ap (f s) ((==_iff p q).0 e))
          | inr e ↦ rw e refl
        ]))
      (set_side-opposite (update (f s) p (f s p)) f s))

update_twice :
    {A : Type 0} (f : Price → A) (p : Price) (x y : A) → update (update f p x) p y ≡ update f p y
update_twice f p x y =
    fun_ext (λ q. elim (Bool-cases (p == q)) [ inl e ↦ rw e refl | inr e ↦ rw e refl ])

-- The second of two lists for one level stays.
pub set_side-update_twice :
    {A : Type 0} (s : Side) (f : Side → Price → A) (p : Price) (x y : A)
    → let g = set_side s (update (f s) p x) f in
      set_side s (update (g s) p y) g ≡ set_side s (update (f s) p y) f
set_side-update_twice buy f p x y = fun_ext (
    Side-ind buy
      (λ t.
        set_side buy (update (update (f buy) p x) p y) (set_side buy (update (f buy) p x) f) t
        ≡ set_side buy (update (f buy) p y) f t)
      (update_twice (f buy) p x y) refl)
set_side-update_twice sell f p x y = fun_ext (
    Side-ind sell
      (λ t.
        set_side sell (update (update (f sell) p x) p y) (set_side sell (update (f sell) p x) f) t
        ≡ set_side sell (update (f sell) p y) f t)
      (update_twice (f sell) p x y) refl)

module _ (z : Sizes) (read_cycles : ℕ → ℕ) (price : Price) (a o : Ref) where
  abbrev pub filled_qty : Book → Quantity
  filled_qty b = min (order_at b a).remaining (order_at b o).remaining

  -- The cells and the event of a fill.
  abbrev pub traded_cells : Book → Cells
  traded_cells b = less_remaining o (filled_qty b) (less_remaining a (filled_qty b) b.pool.cells)

  abbrev pub traded_event : Book → Event
  traded_event b =
      let c = traded_cells b in
      trade (record {
        aggressor_id = (c.order a).id;
        passive_id = (c.order o).id;
        price = (c.order o).price;
        quantity = filled_qty b;
        timestamp = read_cycles b.clock;
      })

  -- A fill before the order that it fills leaves its level.
  abbrev pub traded : Side → Book → Book
  traded s b =
      publish z (traded_event b)
        (record (set_passive s (less_total price (filled_qty b) (passive s b))
          (set_cells (traded_cells b) b)) { clock = b.clock + 1 })

  pub fill_order-traded :
      (s : Side) (b : Book)
      → fill_order z read_cycles s price a o b ≡ (
          if is_filled ((traded_cells b).order o)
          then retire z s price o (traded s b)
          else traded s b)
  unfolding fill_order
  fill_order-traded s b = refl

  pub traded-Replaced :
      (s : Side) (b : Book)
      → Replaced
          (opposite s)
          (record b.pool { cells = traded_cells b })
          (less_total price (filled_qty b) (own (opposite s) b))
          b
          (traded s b)
  unfolding publish
  traded-Replaced buy b = record { pool_now = refl; bid_now = refl; ask_now = refl }
  traded-Replaced sell b = record { pool_now = refl; bid_now = refl; ask_now = refl }

  pub traded-log :
      (s : Side) (b : Book)
      → ((traded s b).events ≡ b.events ++ traded_event b ∷ [])
        × ((traded s b).clock ≡ b.clock + 1)
        × ((passive s (traded s b)).best ≡ (passive s b).best)
        × (own s (traded s b) ≡ own s b)
        × ((traded s b).order_map ≡ b.order_map)
  unfolding publish
  traded-log buy b = (refl, refl, refl, refl, refl)
  traded-log sell b = (refl, refl, refl, refl, refl)

module _ (z : Sizes) (price : Price) (o : Ref) where
  pub retire-Replaced :
      (s : Side) (b : Book)
      → let (c, l) = remove o b.pool.cells ((own (opposite s) b).levels price) in
        Replaced
          (opposite s)
          (release o (record b.pool { cells = c }))
          (set_level price l (own (opposite s) b))
          b
          (retire z s price o b)
  unfolding retire
  retire-Replaced buy b = record { pool_now = refl; bid_now = refl; ask_now = refl }
  retire-Replaced sell b = record { pool_now = refl; bid_now = refl; ask_now = refl }

  pub retire-log :
      (s : Side) (b : Book)
      → ((retire z s price o b).events ≡ b.events)
        × ((retire z s price o b).clock ≡ b.clock)
        × ((passive s (retire z s price o b)).best ≡ (passive s b).best)
        × (own s (retire z s price o b) ≡ own s b)
        × ((retire z s price o b).order_map
            ≡ (erase z.order_map_bits
                ((remove o b.pool.cells ((own (opposite s) b).levels price)).0.order o).id
                b.order_map).1)
  unfolding retire
  retire-log buy b = (refl, refl, refl, refl, refl)
  retire-log sell b = (refl, refl, refl, refl, refl)
