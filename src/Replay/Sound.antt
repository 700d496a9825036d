-- ===== src/Replay/Sound.antt =====
-- The engine's book and its tracker, over the messages of a stream.
use lock_free_limit_order_bo.Prelude.{
  ℕ, suc, ◌≤◌, ◌<◌, ◌≡◌, ◌≢◌, ◌∙◌, none, some, ap, sym, subst, arith, List, [], ◌∷◌, ◌++◌, length,
}
use lock_free_limit_order_bo.Prelude.Words.{u64_mod}
use lock_free_limit_order_bo.Prelude.Members.{has, ◌∈◌, ◌∉◌, Distinct, Distinct-split, has-append}
use lock_free_limit_order_bo.Order.{OrderId, Cells}
use lock_free_limit_order_bo.OrderMap.{empty_key, find}
use lock_free_limit_order_bo.Itch.RoundTrip.{
  Message, deliver, stock_directory, add_order, order_executed, order_cancel, order_delete,
  order_replace,
}
use lock_free_limit_order_bo.Itch.Stream.{stream, AllFit, deliver_all, parse-stream, Cut}
use lock_free_limit_order_bo.OrderBook.State.{Sizes, new_book}
use lock_free_limit_order_bo.OrderBook.Commands.{new_book-IsSound, find-new_map}
use lock_free_limit_order_bo.OrderBook.Sound.{IsSound}
use lock_free_limit_order_bo.Replay.{ReplayConfig, ReplayEngine, callbacks, started, run}
use lock_free_limit_order_bo.Replay.Tracking.{IsTracking}
use lock_free_limit_order_bo.Replay.Handlers.{
  new_refs, new_refs-cons, GoodRefs, Tracks, deliver-Kept,
}

module _ (z : Sizes) (read_cycles : ℕ → ℕ) (cfg : ReplayConfig)
    (narrow : z.order_map_bits ≤ 64) where
  abbrev pub AllGoodRefs : List Message → Type 0
  AllGoodRefs [] = Unit {0}
  AllGoodRefs (m ∷ ms) = GoodRefs z read_cycles cfg narrow m × AllGoodRefs ms

  -- New references are good.
  new_refs-ne : (ms : List Message) (j : OrderId) → AllGoodRefs ms → j ∈ new_refs ms → j ≢ empty_key
  new_refs-ne [] j good i = absurd (ground arith)
  new_refs-ne (stock_directory locate ts_ns stock ∷ ms) j good i = new_refs-ne ms j good.1 i
  new_refs-ne (add_order locate ts_ns order_ref buy_sell shares stock price ∷ ms) j good i =
      ground (arith, good.0.0, new_refs-ne ms j good.1)
  new_refs-ne (order_executed locate ts_ns order_ref exec_shares match_num ∷ ms) j good i =
      new_refs-ne ms j good.1 i
  new_refs-ne (order_cancel locate ts_ns order_ref cancelled_shares ∷ ms) j good i =
      new_refs-ne ms j good.1 i
  new_refs-ne (order_delete locate ts_ns order_ref ∷ ms) j good i = new_refs-ne ms j good.1 i
  new_refs-ne (order_replace locate ts_ns orig_ref new_ref shares price ∷ ms) j good i =
      ground (arith, good.0.1.0, new_refs-ne ms j good.1)

  deliver_all-Tracks :
      (ms : List Message) (e : ReplayEngine)
      → AllFit ms
      → AllGoodRefs ms
      → Distinct (new_refs ms)
      → ((j : OrderId) → j ∈ new_refs ms → find z.order_map_bits j e.book.order_map ≡ none)
      → Tracks z read_cycles cfg narrow e
      → Tracks z read_cycles cfg narrow (deliver_all (callbacks z read_cycles cfg) ms e)
  deliver_all-Tracks [] e fit good distinct fresh v = v
  deliver_all-Tracks (m ∷ ms) e fit good distinct fresh v =
      let (_, later, apart) =
        Distinct-split (new_refs (m ∷ [])) (new_refs ms)
          (subst Distinct (new_refs-cons m ms) distinct) in
      let member = λ (j : OrderId).
        ap (has j) (new_refs-cons m ms) ∙ has-append j (new_refs (m ∷ [])) (new_refs ms) in
      let k =
        deliver-Kept z read_cycles cfg narrow m e fit.0 good.0
          (λ j i. fresh j (member j ∙ ground arith)) v in
      deliver_all-Tracks ms (deliver (callbacks z read_cycles cfg) m e) fit.1 good.1 later
        (λ j i.
          k.fresh j (new_refs-ne ms j good.1 i) (not_first j i apart)
            (fresh j (member j ∙ ground arith)))
        k.tracking
    where
      not_first :
          (j : OrderId)
          → j ∈ new_refs ms
          → ((a : OrderId) → a ∈ new_refs (m ∷ []) → a ∉ new_refs ms)
          → j ∉ new_refs (m ∷ [])
      not_first j i apart = ground (arith, apart j)

  find-new_book :
      (c : Cells) (id : OrderId)
      → id ≢ empty_key
      → find z.order_map_bits id (new_book z c).order_map ≡ none
  unfolding new_book
  find-new_book c id ne = find-new_map z read_cycles narrow id ne

  -- A run of a new engine, over a stream of fewer than 2 ^ 64 built messages, whose fields fit
  -- their widths, and a rest that holds no whole message, leads to a sound book; every order that
  -- the book's table finds is tracked with its side and its price, and with at least the shares
  -- that it has left. The references of the messages are neither 0 nor as large as the number of
  -- slots of the table, 2 ^ k (k ≤ 64), and the messages that add or replace an order give each a
  -- reference of its own. The book has at least one price, and its pool at least one and fewer than
  -- 2 ^ 64 orders.
  pub run-IsTracking :
      (n : ℕ) (c : Cells) (ms : List Message) (rest : List ℕ) (e : ReplayEngine)
      → z.order_pool_size ≡ suc n
      → suc n < u64_mod
      → 0 < z.max_price_levels
      → e.book ≡ new_book z c
      → AllFit ms
      → AllGoodRefs ms
      → Distinct (new_refs ms)
      → Cut rest
      → length ms < u64_mod
      → let e' = run z read_cycles cfg (stream ms ++ rest) e in
        IsTracking z read_cycles narrow e'.book e'.order_tracker
  unfolding run
  run-IsTracking n c ms rest e size small some_price new fit good distinct cut short =
      let e0 = started z read_cycles cfg e in
      let unknown = λ (j : OrderId) (ne : j ≢ empty_key).
        ap (λ y. find z.order_map_bits j y.order_map) new ∙ find-new_book c j ne in
      let parsed = parse-stream (callbacks z read_cycles cfg) ms rest e0 fit cut short in
      subst (Tracks z read_cycles cfg narrow) (sym (ap (λ r. r.1) parsed)) (
        deliver_all-Tracks ms e0 fit good distinct (λ j i. unknown j (new_refs-ne ms j good i))
          (record {
            sound =
                subst (IsSound z read_cycles narrow) (sym new)
                  (new_book-IsSound z read_cycles narrow n c size small some_price);
            tracked = λ j x ne f. absurd (none_some (sym (unknown j ne) ∙ f));
            words = λ j os f. absurd (none_some f);
          }))
    where
      none_some : {A : Type 0} {x : A} → none ≢ some x
      none_some f = cc
