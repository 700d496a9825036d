-- ===== src/Tests/Whole.antt =====
-- A book of ten prices that stands for lists of orders.
use lock_free_limit_order_bo.Prelude.{
  ◌≤◌, ℕ, ◌≡◌, ◌≢◌, refl, ap, sym, ◌∙◌, none, some, true, List, [], ◌∷◌, arith, subst, inl, inr,
}
use lock_free_limit_order_bo.Prelude.Members.{◌∈◌}
use lock_free_limit_order_bo.Order.{Ref, buy, sell}
use lock_free_limit_order_bo.PriceLevel.{push_back, link_tail, remove, unlink_prev, unlink_next}
use lock_free_limit_order_bo.PriceLevel.Valid.{IsLevel}
use lock_free_limit_order_bo.OrderMap.{
  insert, insert_from, hash, mask, find, find_from, erase, erase_from, backward_shift, should_shift,
}
use lock_free_limit_order_bo.OrderPool.{new_pool, link_from, acquire, release}
use lock_free_limit_order_bo.OrderPool.FreeList.{range}
use lock_free_limit_order_bo.SpscQueue.{push, advance}
use lock_free_limit_order_bo.OrderBook.State.{publish, Book, new_book, order_at, cells}
use lock_free_limit_order_bo.OrderBook.Match.{
  match, match_loop, fill_level, fill_order, retire, skip_up, advance_best,
}
use lock_free_limit_order_bo.OrderBook.Operations.{
  add_order, fill_in, place_order, rest_order, cancel_order, modify_order,
}
use lock_free_limit_order_bo.OrderBook.Whole.{IsWhole}
use lock_free_limit_order_bo.OrderBook.Priority.{within, queue, unfilled, view}
use lock_free_limit_order_bo.OrderBook.Level.{List-cases, head-nil, head-cons}
use lock_free_limit_order_bo.OrderBook.Rests.{entered}
use lock_free_limit_order_bo.OrderBook.Entry.{entered-IsWhole, entered-IsLoose}
use lock_free_limit_order_bo.OrderBook.Matched.{Matched, match-Matched}
use lock_free_limit_order_bo.OrderBook.Reach.{reach, Accepted}
use lock_free_limit_order_bo.OrderBook.Accept.{add_order-Accepted}
use lock_free_limit_order_bo.OrderBook.Joins.{IsWhole-uncons}
use lock_free_limit_order_bo.OrderBook.Conserve.{Conserved, add_order-Conserved, add_order-drained}
use lock_free_limit_order_bo.OrderBook.Validity.{IsValid, new_book-IsWhole, add_order-IsValid}
use lock_free_limit_order_bo.OrderBook.Sound.{IsSound}
use lock_free_limit_order_bo.OrderBook.Commands.{
  Command, add, cancel, modify, run, AllPermitted, run-IsSound,
}
use lock_free_limit_order_bo.OrderBook.Withdraw.{Listed, cancel_order-IsValid, modify_order-IsValid}
use lock_free_limit_order_bo.Tests.Levels.{cells as blank}
use lock_free_limit_order_bo.Tests.Book.{small, tick}

start-IsWhole : IsWhole small (new_book small blank) (λ s p. []) (range 0 6)
start-IsWhole = new_book-IsWhole small 5 blank refl (omega arith)

-- An ask of 200 shares at 5.
abbrev one_book : Book
one_book = (add_order small tick 1 5 200 sell (new_book small blank)).1

one-Accepted : Accepted small tick 1 5 200 sell (new_book small blank) (λ s p. []) one_book
one-Accepted =
    unfold new_book new_pool link_from in
    (add_order-Accepted small tick 1 5 200 sell {o = 0} (new_book small blank) start-IsWhole
      (omega arith, omega arith) (omega arith) (omega arith) refl
      (unfold insert insert_from hash mask in refl)).1

one_book-reads :
    (one_book.pool.free_head ≡ some 1)
    × ((insert 3 2 1 one_book.order_map).0 ≡ true)
    × (find 3 1 one_book.order_map ≡ some 0)
    × ((one_book.ask.levels 5).head ≡ some 0)
    × ((order_at one_book 0).side ≡ sell)
    × ((order_at one_book 0).price ≡ 5)
    × (reach buy 8 one_book ≡ 5 ∷ 6 ∷ 7 ∷ 8 ∷ [])
    × (one_book.ask.best ≡ 5)
unfolding new_book new_pool link_from add_order fill_in place_order rest_order acquire insert
    insert_from hash mask find find_from push_back link_tail publish push advance
one_book-reads = (refl, refl, refl, refl, refl, refl, refl, refl)

-- A bid of 300 shares at 8 takes the ask, and 100 of its shares rest.
add_order-Accepted_example :
    let (done, b') = add_order small tick 2 8 300 buy one_book in
    (done ≡ true) × Accepted small tick 2 8 300 buy one_book one-Accepted.lists_now b'
add_order-Accepted_example =
    add_order-Accepted small tick 2 8 300 buy {o = 1} one_book one-Accepted.whole one-Accepted.bests
      (omega arith) (omega arith) one_book-reads.0 one_book-reads.1

add_order-Conserved_example :
    let b' = (add_order small tick 2 8 300 buy one_book).1 in
    let r =
      (add_order-Accepted small tick 2 8 300 buy one_book one-Accepted.whole one-Accepted.bests
        (omega arith)
        (omega arith)
        one_book-reads.0
        one_book-reads.1).1 in
    Conserved small tick 8 300 buy one_book one-Accepted.lists_now b' r.lists_now
add_order-Conserved_example =
    add_order-Conserved small tick 2 8 300 buy {o = 1} one_book one-Accepted.whole
      one-Accepted.bests (omega arith) (omega arith) one_book-reads.0 one_book-reads.1

one_level : (p : ℕ) → 5 ≢ p → view one_book one-Accepted.lists_now sell p ≡ []
one_level p ne = one-Accepted.other_levels p ne

-- The bid takes the ask's 200 shares.
some_left : unfilled 300 (queue one_book one-Accepted.lists_now sell (reach buy 8 one_book)) ≢ 0
some_left e = omega (
  arith,
  sym left
      ∙ ap (λ ps. unfilled 300 (queue one_book one-Accepted.lists_now sell ps))
          (sym one_book-reads.6)
      ∙ e,
)
  where
    left : unfilled 300 (queue one_book one-Accepted.lists_now sell (5 ∷ 6 ∷ 7 ∷ 8 ∷ [])) ≡ 100
    left =
        rw
          (
            one-Accepted.level,
            one_level 6 (omega arith),
            one_level 7 (omega arith),
            one_level 8 (omega arith),
          )
          (unfold new_book in refl)

add_order-drained_example :
    let b' = (add_order small tick 2 8 300 buy one_book).1 in
    let r =
      (add_order-Accepted small tick 2 8 300 buy one_book one-Accepted.whole one-Accepted.bests
        (omega arith)
        (omega arith)
        one_book-reads.0
        one_book-reads.1).1 in
    queue b' r.lists_now sell (reach buy 8 one_book) ≡ []
add_order-drained_example =
    add_order-drained small tick 2 8 300 buy {o = 1} one_book one-Accepted.whole one-Accepted.bests
      (omega arith) (omega arith) one_book-reads.0 one_book-reads.1 some_left

-- The bid, written down but not yet matched.
bid-free : (rest : List Ref) × IsWhole small one_book one-Accepted.lists_now (1 ∷ rest)
bid-free = IsWhole-uncons small one-Accepted.free_now one-Accepted.whole one_book-reads.0

abbrev bid_book : Book
bid_book = entered small tick 2 8 300 buy 1 one_book

match-Matched_example :
    Matched small tick buy 1
      (within buy 8 bid_book.ask.best)
      bid_book
      one-Accepted.lists_now
      (match small tick 1 bid_book)
match-Matched_example =
    match-Matched small tick (entered-IsWhole small tick 2 8 300 buy one_book bid-free.1)
      (entered-IsLoose small tick 2 8 300 buy one_book bid-free.1) refl (omega arith)
      (omega arith, omega (arith, one_book-reads.7))

one-IsValid : IsValid small tick one_book
one-IsValid = record {
  lists = one-Accepted.lists_now;
  free = one-Accepted.free_now;
  whole = one-Accepted.whole;
  bests = one-Accepted.bests;
}

add_order-IsValid_example : IsValid small tick (add_order small tick 2 8 300 buy one_book).1
add_order-IsValid_example =
    add_order-IsValid small tick 2 8 300 buy one_book one-IsValid (omega arith)

-- The ask is the first of its list.
ask_listed : 0 ∈ one-IsValid.lists sell 5
ask_listed = elim (List-cases (one-IsValid.lists sell 5)) [
  | inl f ↦ absurd (
      no_order 0 (
        sym one_book-reads.3
        ∙ head-nil (cells one_book) (
            subst (IsLevel (cells one_book) (one_book.ask.levels 5)) f
              (one-IsValid.whole.level sell 5))))
  | inr (x, xs, f) ↦
      let first =
        sym one_book-reads.3
        ∙ head-cons (cells one_book) (
            subst (IsLevel (cells one_book) (one_book.ask.levels 5)) f
              (one-IsValid.whole.level sell 5)) in
      rw f (here x xs (same x first))
]
  where
    no_order : (x : Ref) → some x ≢ none
    no_order x e = cc

    same : (x : Ref) → some 0 ≡ some x → 0 ≡ x
    same x e = cc

    here : (x : Ref) (xs : List Ref) → 0 ≡ x → 0 ∈ x ∷ xs
    here x xs e = ground arith

one-Listed : Listed small tick 1 one_book one-IsValid.lists
one-Listed o e =
    subst (λ x. x ∈ one-IsValid.lists (order_at one_book x).side (order_at one_book x).price)
      (same o (sym one_book-reads.2 ∙ e)) (rw (one_book-reads.4, one_book-reads.5) ask_listed)
  where
    same : (x : Ref) → some 0 ≡ some x → 0 ≡ x
    same x f = cc

cancel_order-IsValid_example : IsValid small tick (cancel_order small 1 one_book).1
cancel_order-IsValid_example = cancel_order-IsValid small tick 1 one_book one-IsValid one-Listed

modify_order-IsValid_example : IsValid small tick (modify_order small tick 1 7 500 one_book).1
modify_order-IsValid_example =
    modify_order-IsValid small tick 1 7 500 one_book one-IsValid (omega arith) one-Listed

-- An ask, a bid that takes it, a reduction of what rests, and its cancellation.
abbrev four_commands : List Command
four_commands = add 1 5 200 sell ∷ add 2 7 300 buy ∷ modify 2 7 50 ∷ cancel 2 ∷ []

pub small_narrow : 3 ≤ 64
small_narrow = omega arith

four-Permitted : AllPermitted small tick small_narrow four_commands (new_book small blank)
unfolding new_book new_pool link_from add_order fill_in place_order rest_order acquire insert
    insert_from hash mask find find_from push_back link_tail publish push advance match match_loop
    fill_level fill_order retire skip_up advance_best release remove unlink_prev unlink_next erase
    erase_from backward_shift should_shift
four-Permitted = (
  ((omega arith, omega arith), omega arith, refl),
  (
    ((omega arith, omega arith), omega arith, refl),
    (((omega arith, omega arith), omega arith), ((omega arith, omega arith), tt)),
  ),
)

run-IsSound_example :
    IsSound small tick small_narrow (run small tick four_commands (new_book small blank))
run-IsSound_example =
    run-IsSound small tick small_narrow 5 blank four_commands refl (omega arith) (omega arith)
      four-Permitted
