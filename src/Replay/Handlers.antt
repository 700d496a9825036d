-- ===== src/Replay/Handlers.antt =====
-- The engine's book and its tracker, after one message.
use lock_free_limit_order_bo.Prelude.{
  ℕ, ◌-◌, ◌≤◌, ◌<◌, ◌≡◌, ◌≢◌, ◌==◌, Bool, true, false, not, ◌&&◌, Option, none, some, refl, arith,
  min, ltb, List, [], ◌∷◌, ◌++◌, inl, inr, if◌then◌else◌, Bool-cases,
}
use lock_free_limit_order_bo.Prelude.Words.{u32_mod}
use lock_free_limit_order_bo.Prelude.Members.{◌∈◌}
use lock_free_limit_order_bo.Order.{OrderId, Price, Quantity, Side, buy, sell}
use lock_free_limit_order_bo.OrderMap.{empty_key, find}
use lock_free_limit_order_bo.Itch.Messages.{OrderExecutedMsg, OrderCancelMsg, OrderReplaceMsg}
use lock_free_limit_order_bo.Itch.RoundTrip.{
  Message, Fits, deliver, stock_directory, add_order, order_executed, order_cancel, order_delete,
  order_replace,
}
use lock_free_limit_order_bo.OrderBook.State.{Sizes}
use lock_free_limit_order_bo.OrderBook.Operations
use lock_free_limit_order_bo.OrderBook.Operations.{cancel_order}
use lock_free_limit_order_bo.OrderBook.Sound.{GoodId}
use lock_free_limit_order_bo.StatsCounter.{StatsCounter, inc_message, inc_replace, inc_add}
use lock_free_limit_order_bo.Replay.{
  ReplayConfig, ReplayEngine, OrderState, callbacks, to_tick, enter, drop, executed, cancelled,
  is_foreign, set_stats, side_of, on_stock_directory, on_add_order, on_order_executed,
  on_order_cancel, on_order_delete, on_order_replace,
}
use lock_free_limit_order_bo.Replay.Tracking.{
  IsTracking, Next, Next-refl, Next-trans, entered-Next, dropped-Next, shrunk-Next,
}

-- The references that the messages give to new orders.
abbrev pub new_refs : List Message → List OrderId
new_refs [] = []
new_refs (add_order locate ts_ns order_ref buy_sell shares stock price ∷ ms) =
    order_ref ∷ new_refs ms
new_refs (order_replace locate ts_ns orig_ref new_ref shares price ∷ ms) = new_ref ∷ new_refs ms
new_refs (m ∷ ms) = new_refs ms

either {ℓ κ} :
    {A : Type ℓ} (P : A → Type κ) (k : Bool) {x y : A} → P x → P y → P (if k then x else y)
either P true px py = px
either P false px py = py

pub new_refs-cons :
    (m : Message) (ms : List Message) → new_refs (m ∷ ms) ≡ new_refs (m ∷ []) ++ new_refs ms
new_refs-cons (stock_directory locate ts_ns stock) ms = refl
new_refs-cons (add_order locate ts_ns order_ref buy_sell shares stock price) ms = refl
new_refs-cons (order_executed locate ts_ns order_ref exec_shares match_num) ms = refl
new_refs-cons (order_cancel locate ts_ns order_ref cancelled_shares) ms = refl
new_refs-cons (order_delete locate ts_ns order_ref) ms = refl
new_refs-cons (order_replace locate ts_ns orig_ref new_ref shares price) ms = refl

module _ (z : Sizes) (read_cycles : ℕ → ℕ) (cfg : ReplayConfig)
    (narrow : z.order_map_bits ≤ 64) where
  -- The references of a message are ids that the book's table is made for.
  abbrev pub GoodRefs : Message → Type 0
  GoodRefs (stock_directory locate ts_ns stock) = Unit {0}
  GoodRefs (add_order locate ts_ns order_ref buy_sell shares stock price) =
      GoodId z read_cycles narrow order_ref
  GoodRefs (order_executed locate ts_ns order_ref exec_shares match_num) =
      GoodId z read_cycles narrow order_ref
  GoodRefs (order_cancel locate ts_ns order_ref cancelled_shares) =
      GoodId z read_cycles narrow order_ref
  GoodRefs (order_delete locate ts_ns order_ref) = GoodId z read_cycles narrow order_ref
  GoodRefs (order_replace locate ts_ns orig_ref new_ref shares price) =
      GoodId z read_cycles narrow orig_ref × GoodId z read_cycles narrow new_ref

  -- From one engine to another that a message of new references `refs` leads to.
  abbrev pub Kept : List OrderId → ReplayEngine → ReplayEngine → Type 0
  Kept refs e e' = Next z read_cycles narrow refs e.book e'.book e'.order_tracker

  abbrev pub Tracks : ReplayEngine → Type 0
  Tracks e = IsTracking z read_cycles narrow e.book e.order_tracker

  enter-Kept :
      (inc : StatsCounter → StatsCounter) (id : OrderId) (price : Price) (qty : Quantity)
      (side : Side) (e : ReplayEngine)
      → Tracks e
      → GoodId z read_cycles narrow id
      → find z.order_map_bits id e.book.order_map ≡ none
      → qty < u32_mod
      → Kept (id ∷ []) e (enter z read_cycles cfg inc id price qty side e)
  enter-Kept inc id price qty side e v good fresh small =
      let n =
        entered-Next z read_cycles narrow id price qty side e.book e.order_tracker v good fresh
          small in
      elim (Bool-cases (Operations.add_order z read_cycles id price qty side e.book).0) [
        | inl d ↦ rw d (rw d at n)
        | inr d ↦ rw d (rw d at n)
      ]

  drop-Kept :
      (id : OrderId) (e : ReplayEngine)
      → Tracks e
      → id ≢ empty_key
      → Kept [] e (drop z read_cycles cfg id e)
  drop-Kept id e v good = dropped-Next z read_cycles narrow id e.book e.order_tracker v good

  executed-Kept :
      (m : OrderExecutedMsg) (os : OrderState) (e : ReplayEngine)
      → Tracks e
      → GoodId z read_cycles narrow m.order_ref
      → e.order_tracker m.order_ref ≡ some os
      → Kept [] e (executed z read_cycles cfg m os e)
  unfolding executed
  executed-Kept m os e v good known =
      let rest = os.remaining - min m.executed_shares os.remaining in
      either (Kept [] e) (rest == 0)
        (dropped-Next z read_cycles narrow m.order_ref e.book e.order_tracker v good.0)
        (shrunk-Next z read_cycles narrow m.order_ref os rest e.book e.order_tracker v good known
          (omega (arith, v.words m.order_ref os known)))

  cancelled-Kept :
      (m : OrderCancelMsg) (os : OrderState) (e : ReplayEngine)
      → Tracks e
      → GoodId z read_cycles narrow m.order_ref
      → e.order_tracker m.order_ref ≡ some os
      → Kept [] e (cancelled z read_cycles cfg m os e)
  unfolding cancelled
  cancelled-Kept m os e v good known =
      let rest = os.remaining - min m.cancelled_shares os.remaining in
      either (Kept [] e) (rest == 0)
        (dropped-Next z read_cycles narrow m.order_ref e.book e.order_tracker v good.0)
        (shrunk-Next z read_cycles narrow m.order_ref os rest e.book e.order_tracker v good known
          (omega (arith, v.words m.order_ref os known)))

  same-Kept : (refs : List OrderId) (e : ReplayEngine) → Tracks e → Kept refs e e
  same-Kept refs e v = Next-refl z read_cycles narrow refs e.book e.order_tracker v

  -- A known order's message, or none.
  known-Kept :
      (s : Option OrderState) (e e' : ReplayEngine) (f : OrderState → ReplayEngine)
      → Kept [] e e'
      → ((os : OrderState) → s ≡ some os → Kept [] e (f os))
      → Kept [] e (elim s [ none ↦ e' | some os ↦ f os ])
  known-Kept none e e' f v w = v
  known-Kept (some os) e e' f v w = w os refl

  replace-Kept :
      (m : OrderReplaceMsg) (e : ReplayEngine)
      → Tracks e
      → GoodId z read_cycles narrow m.orig_order_ref
      → GoodId z read_cycles narrow m.new_order_ref
      → find z.order_map_bits m.new_order_ref e.book.order_map ≡ none
      → m.shares < u32_mod
      → Kept (m.new_order_ref ∷ []) e (on_order_replace z read_cycles cfg m e)
  unfolding on_order_replace to_tick
  replace-Kept m e v old good fresh small =
      let e0 = set_stats (inc_message e.stats) e in
      let d = drop z read_cycles cfg m.orig_order_ref e0 in
      let tick = to_tick z read_cycles cfg m.price in
      let side = side_of z read_cycles cfg m.orig_order_ref e in
      let e' = enter z read_cycles cfg inc_replace m.new_order_ref tick m.shares side d in
      let v' = drop-Kept m.orig_order_ref e0 v old.0 in
      either (Kept (m.new_order_ref ∷ []) e) (is_foreign z read_cycles cfg m.stock_locate e)
        (same-Kept (m.new_order_ref ∷ []) e v)
        (Next-trans z read_cycles narrow (m.new_order_ref ∷ []) e.book d.book e'.book
          d.order_tracker e'.order_tracker v'
          (enter-Kept inc_replace m.new_order_ref tick m.shares side d v'.tracking good
            (v'.fresh m.new_order_ref good.0 refl fresh) small))

  pub deliver-Kept :
      (m : Message) (e : ReplayEngine)
      → Fits m
      → GoodRefs m
      → ((j : OrderId) → j ∈ new_refs (m ∷ []) → find z.order_map_bits j e.book.order_map ≡ none)
      → Tracks e
      → Kept (new_refs (m ∷ [])) e (deliver (callbacks z read_cycles cfg) m e)
  unfolding callbacks on_stock_directory on_add_order on_order_executed on_order_cancel
      on_order_delete to_tick
  deliver-Kept (stock_directory locate ts_ns stock) e fit good fresh v =
      either (Kept [] e) _ (same-Kept [] e v) (same-Kept [] e v)
  deliver-Kept (add_order locate ts_ns order_ref buy_sell shares stock price) e fit good fresh v =
      let refs = order_ref ∷ [] in
      let e' = set_stats (inc_message e.stats) e in
      either (Kept refs e) (is_foreign z read_cycles cfg locate e) (same-Kept refs e v) (
        either (Kept refs e)
          (not (cfg.max_messages == 0) && ltb cfg.max_messages e'.stats.messages_processed)
          (same-Kept refs e v)
          (enter-Kept inc_add order_ref (to_tick z read_cycles cfg price) shares
            (if buy_sell == b'B' then buy else sell) e' v good (fresh order_ref (ground arith))
            fit.3))
  deliver-Kept (order_executed locate ts_ns order_ref exec_shares match_num) e fit good fresh v =
      let m : OrderExecutedMsg = record {
        stock_locate = locate;
        timestamp_ns = ts_ns;
        order_ref = order_ref;
        executed_shares = exec_shares;
        match_number = match_num;
      } in
      let e' = set_stats (inc_message e.stats) e in
      either (Kept [] e) (is_foreign z read_cycles cfg locate e) (same-Kept [] e v) (
        known-Kept (e.order_tracker order_ref) e e' (λ os. executed z read_cycles cfg m os e')
          (same-Kept [] e v) λ os known. executed-Kept m os e' v good known)
  deliver-Kept (order_cancel locate ts_ns order_ref cancelled_shares) e fit good fresh v =
      let m : OrderCancelMsg = record {
        stock_locate = locate;
        timestamp_ns = ts_ns;
        order_ref = order_ref;
        cancelled_shares = cancelled_shares;
      } in
      let e' = set_stats (inc_message e.stats) e in
      either (Kept [] e) (is_foreign z read_cycles cfg locate e) (same-Kept [] e v) (
        known-Kept (e.order_tracker order_ref) e e' (λ os. cancelled z read_cycles cfg m os e')
          (same-Kept [] e v) λ os known. cancelled-Kept m os e' v good known)
  deliver-Kept (order_delete locate ts_ns order_ref) e fit good fresh v =
      either (Kept [] e) (is_foreign z read_cycles cfg locate e) (same-Kept [] e v)
        (drop-Kept order_ref (set_stats (inc_message e.stats) e) v good.0)
  deliver-Kept (order_replace locate ts_ns orig_ref new_ref shares price) e fit good fresh v =
      replace-Kept
        (record {
          stock_locate = locate;
          timestamp_ns = ts_ns;
          orig_order_ref = orig_ref;
          new_order_ref = new_ref;
          shares = shares;
          price = price;
        })
        e v good.0 good.1 (fresh new_ref (ground arith)) fit.4
