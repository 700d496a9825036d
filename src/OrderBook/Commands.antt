-- ===== src/OrderBook/Commands.antt =====
-- Runs of commands on a new book.
use lock_free_limit_order_bo.Prelude.{
  ℕ, suc, ◌≤◌, ◌<◌, ◌≡◌, ◌≢◌, ◌==◌, Bool, true, false, none, some, refl, sym, ◌∙◌, arith, List, [],
  ◌∷◌, if◌then◌else◌,
}
use lock_free_limit_order_bo.Prelude.Words.{u32_mod, u64_mod}
use lock_free_limit_order_bo.Order.{OrderId, Ref, Ptr, Price, Quantity, Side, Cells}
use lock_free_limit_order_bo.OrderMap.{new_map, empty_key, find}
use lock_free_limit_order_bo.OrderMap.Direct.{find-home}
use lock_free_limit_order_bo.OrderMap.Table.{new_map-IsTable}
use lock_free_limit_order_bo.OrderPool.FreeList.{range}
use lock_free_limit_order_bo.OrderBook.State.{Sizes, Book, new_book}
use lock_free_limit_order_bo.OrderBook.Operations.{add_order, cancel_order, modify_order}
use lock_free_limit_order_bo.OrderBook.Validity.{new_book-IsWhole}
use lock_free_limit_order_bo.OrderBook.Sound.{
  IsSound, GoodId, add_order-IsSound, cancel_order-IsSound, modify_order-IsSound,
}

-- A call of the book's interface.
pub data Command : Type 0 where
  add : OrderId → Price → Quantity → Side → Command
  cancel : OrderId → Command
  modify : OrderId → Price → Quantity → Command

none_both : (k : Bool) → (if◌then◌else◌ {A = Ptr} k none none) ≡ none
none_both true = refl
none_both false = refl

module _ (z : Sizes) (read_cycles : ℕ → ℕ) where
  abbrev pub call : Command → Book → Bool × Book
  call (add id price qty side) b = add_order z read_cycles id price qty side b
  call (cancel id) b = cancel_order z id b
  call (modify id price qty) b = modify_order z read_cycles id price qty b

  abbrev pub run : List Command → Book → Book
  run [] b = b
  run (c ∷ cs) b = run cs (call c b).1

  module _ (narrow : z.order_map_bits ≤ 64) where
    -- The ids are those that the table is made for, quantities are 32-bit words, and an order is added
    -- under an id that the table does not have.
    abbrev pub Permitted : Command → Book → Type 0
    Permitted (add id price qty side) b =
        GoodId z read_cycles narrow id
        × (qty < u32_mod)
        × (find z.order_map_bits id b.order_map ≡ none)
    Permitted (cancel id) b = GoodId z read_cycles narrow id
    Permitted (modify id price qty) b = GoodId z read_cycles narrow id × (qty < u32_mod)

    abbrev pub AllPermitted : List Command → Book → Type 0
    AllPermitted [] b = Unit {0}
    AllPermitted (c ∷ cs) b = Permitted c b × AllPermitted cs (call c b).1

    pub call-IsSound :
        (c : Command) (b : Book)
        → IsSound z read_cycles narrow b
        → Permitted c b
        → IsSound z read_cycles narrow (call c b).1
    call-IsSound (add id price qty side) b v (good, small, fresh) =
        add_order-IsSound z read_cycles narrow id price qty side b v good fresh small
    call-IsSound (cancel id) b v good = cancel_order-IsSound z read_cycles narrow id b v good.0
    call-IsSound (modify id price qty) b v (good, small) =
        modify_order-IsSound z read_cycles narrow id price qty b v good small

    run-call :
        (cs : List Command) (b : Book)
        → IsSound z read_cycles narrow b
        → AllPermitted cs b
        → IsSound z read_cycles narrow (run cs b)
    run-call [] b v ok = v
    run-call (c ∷ cs) b v ok = run-call cs (call c b).1 (call-IsSound c b v ok.0) ok.1

    pub find-new_map : (id : OrderId) → id ≢ empty_key → find z.order_map_bits id new_map ≡ none
    find-new_map id ne =
        find-home z.order_map_bits narrow new_map (new_map-IsTable z.order_map_bits).direct id ne
        ∙ none_both (0 == id)

    pub new_book-IsSound :
        (n : ℕ) (c : Cells)
        → z.order_pool_size ≡ suc n
        → suc n < u64_mod
        → 0 < z.max_price_levels
        → IsSound z read_cycles narrow (new_book z c)
    unfolding new_book
    new_book-IsSound n c size small some_price = record {
      lists = λ s p. [];
      free = range 0 (suc n);
      whole = new_book-IsWhole z n c size small;
      bests = (some_price, omega arith);
      index = record {
        table = new_map-IsTable z.order_map_bits;
        found = λ id o ne e. absurd (gone (sym (find-new_map id ne) ∙ e));
        ids = λ s p o i. absurd (ground arith);
        loose_ids = λ o i. absurd (ground arith);
      };
    }
      where
        gone : {o : Ref} → none ≢ some o
        gone h = cc

    -- From a new book with at least one price and a pool of at least one and fewer than 2 ^ 64
    -- orders, every sequence of `add_order`, `cancel_order` and `modify_order` leads to a sound
    -- book, if the ids are neither 0 nor as large as the number of slots of the table, 2 ^ k (k ≤
    -- 64), the quantities are 32-bit words, and an order is added under an id that the table does
    -- not have. A book is sound if it stands for lists of orders by side and price (the links,
    -- counts and totals of the levels, the totals of the sides and the free list all agree with
    -- them), its best prices are in range, and whatever the table finds for an id is an order with
    -- that id in the list of its side and price.
    pub run-IsSound :
        (n : ℕ) (c : Cells) (cs : List Command)
        → z.order_pool_size ≡ suc n
        → suc n < u64_mod
        → 0 < z.max_price_levels
        → AllPermitted cs (new_book z c)
        → IsSound z read_cycles narrow (run cs (new_book z c))
    run-IsSound n c cs size small some_price ok =
        run-call cs (new_book z c) (new_book-IsSound n c size small some_price) ok
