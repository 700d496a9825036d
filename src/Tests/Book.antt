-- ===== src/Tests/Book.antt =====
-- Runs of a book of ten prices.
use lock_free_limit_order_bo.OrderBook.State.{order_at, own}
use lock_free_limit_order_bo.OrderBook.Queries.{top_of_book, best_level}
use lock_free_limit_order_bo.Prelude.{zero, suc}
use lock_free_limit_order_bo.Prelude.{
  ℕ, ◌-◌, ◌≡◌, refl, inr, none, some, true, false, [], ◌∷◌, ◌++◌, arith, take,
}
use lock_free_limit_order_bo.Order.{buy, sell, Cells, order_ack}
use lock_free_limit_order_bo.PriceLevel.{
  is_empty, no_orders, push_back, link_tail, remove, unlink_prev, unlink_next,
}
use lock_free_limit_order_bo.PriceLevel.Chain.{nil, cons}
use lock_free_limit_order_bo.PriceLevel.Valid.{IsLevel}
use lock_free_limit_order_bo.OrderMap.{
  insert, insert_from, hash, mask, find, find_from, erase, erase_from, backward_shift, should_shift,
}
use lock_free_limit_order_bo.OrderPool.{new_pool, link_from, acquire, release}
use lock_free_limit_order_bo.OrderBook.Match.{
  match, match_loop, fill_level, fill_order, retire, skip_up, advance_best,
}
use lock_free_limit_order_bo.SpscQueue.{push, advance}
use lock_free_limit_order_bo.OrderBook.State.{publish, Sizes, Book, new_book, cells}
use lock_free_limit_order_bo.OrderBook.Operations.{
  add_order, fill_in, place_order, rest_order, cancel_order, modify_order,
}
use lock_free_limit_order_bo.OrderBook.Queries.{get_depth}
use lock_free_limit_order_bo.OrderBook.Depth.{get_depth-take, resting, down_from, up_from}
use lock_free_limit_order_bo.OrderBook.Refused.{Unchanged, add_order-Unchanged}
use lock_free_limit_order_bo.OrderBook.Rests.{Rested, add_order-Rested}
use lock_free_limit_order_bo.OrderBook.Cancels.{Cancelled, cancel_order-Cancelled}
use lock_free_limit_order_bo.OrderBook.Better.{NoneBetter, cancel_order-NoneBetter}
use lock_free_limit_order_bo.OrderBook.Reduces.{Reduced, modify_order-Reduced}
use lock_free_limit_order_bo.OrderBook.Crossed.{Crossed, add_order-Crossed}
use lock_free_limit_order_bo.Tests.Levels.{cells as blank}

abbrev pub small : Sizes
small = record {
  max_price_levels = 10;
  order_pool_size = 6;
  order_map_bits = 3;
  event_queue_bits = 3;
}

abbrev pub tick : ℕ → ℕ
tick n = n

-- Asks at 5 and 7; a buy takes all of the ask at 5, which leaves the best ask there.
abbrev pub stale_book : Book
stale_book =
    let b1 = (add_order small tick 1 5 200 sell (new_book small blank)).1 in
    let b2 = (add_order small tick 2 7 400 sell b1).1 in (add_order small tick 3 8 200 buy b2).1

stale_book-reads :
    let b = stale_book in
    (b.ask.best ≡ 5)
    × (is_empty (b.ask.levels 5) ≡ true)
    × (is_empty (b.ask.levels 7) ≡ false)
    × ((b.bid.levels 8).head ≡ none)
    × ((b.bid.levels 8).tail ≡ none)
    × ((b.bid.levels 8).count ≡ 0)
    × ((b.bid.levels 8).total_quantity ≡ 0)
    × (b.pool.free_head ≡ some 2)
    × ((insert 3 4 2 b.order_map).0 ≡ true)
unfolding new_book new_pool link_from add_order fill_in place_order rest_order acquire release
    insert insert_from hash mask find find_from erase erase_from backward_shift should_shift
    push_back link_tail remove unlink_prev unlink_next match match_loop fill_level fill_order retire
    skip_up publish push advance advance_best
stale_book-reads = (refl, refl, refl, refl, refl, refl, refl, refl, refl)

stale_book-IsLevel : IsLevel (cells stale_book) (stale_book.bid.levels 8) []
stale_book-IsLevel =
    let (_, _, _, h, t, n, q, _, _) = stale_book-reads in
    record { chain = nil h t; distinct = tt; counted = n; totalled = q }

add_order-Crossed_example :
    let (done, b') = add_order small tick 4 8 100 buy stale_book in
    (done ≡ true) × (b'.events ≡ stale_book.events ++ order_ack 4 ∷ []) × Crossed b'
add_order-Crossed_example =
    let (best, here, deeper, _, _, _, _, free, room) = stale_book-reads in
    add_order-Crossed small tick 4 8 100 buy stale_book 7 (rw best here) deeper (omega arith)
      (omega arith) free room (omega arith) stale_book-IsLevel refl

new_book-room : (insert 3 1 0 (new_book small blank).order_map).0 ≡ true
unfolding new_book new_pool link_from insert insert_from hash mask
new_book-room = refl

no_orders-IsLevel : (c : Cells) → IsLevel c no_orders []
no_orders-IsLevel c = record {
  chain = nil refl refl;
  distinct = tt;
  counted = refl;
  totalled = refl;
}

add_order-Rested_example :
    let (done, b') = add_order small tick 1 5 200 sell (new_book small blank) in
    (done ≡ true) × Rested small tick 1 5 200 sell 0 [] (new_book small blank) b'
add_order-Rested_example =
    unfold new_book new_pool in
    add_order-Rested small tick 1 5 200 sell {o = 0} {xs = []} (new_book small blank) (omega arith)
      refl new_book-room (inr refl) (omega arith) (no_orders-IsLevel _) refl

-- The levels from 5 to 7 of the asks, of which 6 was never used.
get_depth-take_example : get_depth small stale_book 2 ≡ (
  take 2 (resting stale_book.bid.levels (down_from stale_book.bid.best)),
  take 2 (resting stale_book.ask.levels (up_from stale_book.ask.best (10 - stale_book.ask.best))),
)
get_depth-take_example = get_depth-take small stale_book 2

stale_book-in_use : stale_book.pool.in_use ≡ 1
unfolding new_book new_pool link_from add_order fill_in place_order rest_order acquire release
    insert insert_from hash mask find find_from erase erase_from backward_shift should_shift
    push_back link_tail remove unlink_prev unlink_next match match_loop fill_level fill_order retire
    skip_up publish push advance advance_best
stale_book-in_use = refl

add_order-Unchanged_example : Unchanged stale_book (add_order small tick 9 10 5 buy stale_book).1
add_order-Unchanged_example =
    add_order-Unchanged small tick 9 10 5 buy stale_book (omega (arith, stale_book-in_use))
      (unfold add_order in refl)

-- The ask of order 2 rests in cell 1, alone at price 7.
ask_level-reads :
    let b = stale_book in
    (find 3 2 b.order_map ≡ some 1)
    × ((b.ask.levels 7).head ≡ some 1)
    × ((b.ask.levels 7).tail ≡ some 1)
    × ((cells b).prev 1 ≡ none)
    × ((cells b).next 1 ≡ none)
    × ((b.ask.levels 7).count ≡ 1)
    × ((b.ask.levels 7).total_quantity ≡ 400)
    × (((cells b).order 1).remaining ≡ 400)
    × (((cells b).order 1).side ≡ sell)
    × (((cells b).order 1).price ≡ 7)
unfolding new_book new_pool link_from add_order fill_in place_order rest_order acquire release
    insert insert_from hash mask find find_from erase erase_from backward_shift should_shift
    push_back link_tail remove unlink_prev unlink_next match match_loop fill_level fill_order retire
    skip_up publish push advance advance_best
ask_level-reads = (refl, refl, refl, refl, refl, refl, refl, refl, refl, refl)

ask_level-IsLevel : IsLevel (cells stale_book) (stale_book.ask.levels 7) (1 ∷ [])
ask_level-IsLevel =
    let (_, h, t, p, n, c, q, left, _, _) = ask_level-reads in
    record {
      chain = cons h p (nil n t);
      distinct = (refl, tt);
      counted = c;
      totalled = omega (arith, q, left);
    }

ask_level-found :
    let o = order_at stale_book 1 in
    IsLevel (cells stale_book) ((own o.side stale_book).levels o.price) (1 ∷ [])
unfolding new_book new_pool link_from add_order fill_in place_order rest_order acquire release
    insert insert_from hash mask find find_from erase erase_from backward_shift should_shift
    push_back link_tail remove unlink_prev unlink_next match match_loop fill_level fill_order retire
    skip_up publish push advance advance_best
ask_level-found = ask_level-IsLevel

asks-NoneBetter :
    NoneBetter (order_at stale_book 1).side (own (order_at stale_book 1).side stale_book)
unfolding new_book new_pool link_from add_order fill_in place_order rest_order acquire release
    insert insert_from hash mask find find_from erase erase_from backward_shift should_shift
    push_back link_tail remove unlink_prev unlink_next match match_loop fill_level fill_order retire
    skip_up publish push advance advance_best
asks-NoneBetter zero above = refl
asks-NoneBetter (suc zero) above = refl
asks-NoneBetter (suc (suc zero)) above = refl
asks-NoneBetter (suc (suc (suc zero))) above = refl
asks-NoneBetter (suc (suc (suc (suc zero)))) above = refl
asks-NoneBetter (suc (suc (suc (suc (suc p))))) above = ground arith

cancel_order-Cancelled_example :
    let side = (order_at stale_book 1).side in
    let price = (order_at stale_book 1).price in
    let (done, b') = cancel_order small 2 stale_book in
    (done ≡ true) × Cancelled small 2 side price 1 [] stale_book b'
cancel_order-Cancelled_example =
    cancel_order-Cancelled small 2 [] [] stale_book ask_level-reads.0 ask_level-found
      (omega (arith, ask_level-reads.7))

cancel_order-NoneBetter_example :
    let side = (order_at stale_book 1).side in
    NoneBetter side (own side (cancel_order small 2 stale_book).1)
cancel_order-NoneBetter_example =
    cancel_order-NoneBetter small 2 [] [] stale_book ask_level-reads.0 ask_level-found
      (omega (arith, ask_level-reads.7)) asks-NoneBetter

modify_order-Reduced_example :
    let o = order_at stale_book 1 in
    let (done, b') = modify_order small tick 2 o.price 150 stale_book in
    (done ≡ true) × Reduced small tick 2 o.side o.price 1 150 (1 ∷ []) stale_book b'
modify_order-Reduced_example =
    modify_order-Reduced small tick 2 [] [] 150 stale_book ask_level-reads.0 ask_level-found
      (omega (arith, ask_level-reads.7)) (omega (arith, ask_level-reads.7))

-- A buy that takes every ask moves the best ask out of the array, and `top_of_book` reads there.
abbrev swept_book : Book
swept_book =
    let b = (add_order small tick 1 5 200 sell (new_book small blank)).1 in
    (add_order small tick 2 8 300 buy b).1

swept_book-out_of_range : (swept_book.ask.best ≡ 10) × (top_of_book small swept_book ≡ none)
unfolding new_book new_pool link_from add_order fill_in place_order rest_order acquire release
    insert insert_from hash mask find find_from erase erase_from backward_shift should_shift
    push_back link_tail remove unlink_prev unlink_next match match_loop fill_level fill_order retire
    skip_up publish push advance advance_best top_of_book best_level
swept_book-out_of_range = (refl, refl)
