-- ===== src/Replay.antt =====
-- include/replay_engine.h: the engine that feeds an ITCH buffer into the book. `order_tracker_` is a
-- function from order references; a reference that is not in it gives `none`. Printing is left out, and
-- a snapshot of the counters is the counters.
pub mod Tick
pub mod Tracked
pub mod Foreign
pub mod Tracking
pub mod Handlers
pub mod Sound
use lock_free_limit_order_bo.Prelude.{
  ℕ, ◌-◌, ◌/◌, Bool, true, false, not, ◌&&◌, ◌||◌, Option, none, some, List, [], ◌∷◌, ltb, leb,
  ◌==◌, min, if◌then◌else◌, update,
}
use lock_free_limit_order_bo.Order.{OrderId, Price, Quantity, Side, buy, sell}
use lock_free_limit_order_bo.Itch.Messages.{
  StockDirectoryMsg, AddOrderMsg, OrderExecutedMsg, OrderCancelMsg, OrderDeleteMsg, OrderReplaceMsg,
}
use lock_free_limit_order_bo.Itch.Parser.{ItchParser, parse}
use lock_free_limit_order_bo.OrderBook.State.{Sizes, Book}
use lock_free_limit_order_bo.OrderBook.Operations.{add_order, cancel_order, modify_order}
use lock_free_limit_order_bo.StatsCounter.{
  StatsCounter, inc_message, inc_add, inc_cancel, inc_replace, inc_executed, inc_rejected,
  inc_trade, zeros,
}

pub record ReplayConfig : Type 0 where
  pub symbol : List ℕ
  pub tick_divisor : ℕ
  pub max_messages : ℕ

pub record OrderState : Type 0 where
  pub price : Price
  pub remaining : Quantity
  pub side : Side

pub record ReplayEngine : Type 0 where
  pub book : Book
  pub stats : StatsCounter
  pub locate : ℕ
  pub found_sym : Bool
  pub order_tracker : OrderId → Option OrderState

-- `std::strcmp(stock, symbol) == 0`: the characters of `stock` up to its first null are those of
-- `symbol`, which has none.
abbrev pub same_string : List ℕ → List ℕ → Bool
same_string [] [] = true
same_string [] (y ∷ ys) = false
same_string (x ∷ xs) [] = x == 0
same_string (x ∷ xs) (y ∷ ys) = not (x == 0) && (x == y) && same_string xs ys

abbrev set_stats : StatsCounter → ReplayEngine → ReplayEngine
set_stats s e = record e { stats = s }

abbrev pub track : OrderId → Option OrderState → ReplayEngine → ReplayEngine
track id s e = record e { order_tracker = update e.order_tracker id s }

module _ (z : Sizes) (read_cycles : ℕ → ℕ) (cfg : ReplayConfig) where
  pub to_tick : ℕ → Price
  to_tick itch_price =
      let t = itch_price / cfg.tick_divisor in
      if leb z.max_price_levels t then z.max_price_levels - 1 else t

  -- `!found_sym_ || m.stock_locate != locate_`
  abbrev pub is_foreign : ℕ → ReplayEngine → Bool
  is_foreign stock_locate e = not e.found_sym || not (stock_locate == e.locate)

  pub on_stock_directory : StockDirectoryMsg → ReplayEngine → ReplayEngine
  on_stock_directory m e =
      if not e.found_sym && same_string m.stock cfg.symbol
      then record e { locate = m.stock_locate; found_sym = true }
      else e

  -- An order of the message, counted as rejected, or tracked and counted by `inc`.
  abbrev pub enter :
      (StatsCounter → StatsCounter)
      → OrderId
      → Price
      → Quantity
      → Side
      → ReplayEngine
      → ReplayEngine
  enter inc id tick qty side e =
      let (done, book) = add_order z read_cycles id tick qty side e.book in
      let e' = record e { book = book } in
      if done
      then track id (some (record { price = tick; remaining = qty; side = side }))
          (set_stats (inc e.stats) e')
      else set_stats (inc_rejected e.stats) e'

  pub on_add_order : AddOrderMsg → ReplayEngine → ReplayEngine
  unfolding to_tick
  on_add_order m e =
      let e' = set_stats (inc_message e.stats) e in
      if is_foreign m.stock_locate e
      then e
      else if not (cfg.max_messages == 0) && ltb cfg.max_messages e'.stats.messages_processed
      then e'
      else enter inc_add m.order_ref (to_tick m.price) m.shares
          (if m.buy_sell == b'B' then buy else sell) e'

  -- `book_.cancel_order(id); order_tracker_.erase(id);`
  abbrev pub drop : OrderId → ReplayEngine → ReplayEngine
  drop id e = track id none (record e { book = (cancel_order z id e.book).1 })

  -- `os.remaining = rest; book_.modify_order(id, os.price, rest);`
  abbrev pub shrink : OrderId → OrderState → Quantity → ReplayEngine → ReplayEngine
  shrink id os rest e =
      track id (some (record os { remaining = rest }))
        (record e { book = (modify_order z read_cycles id os.price rest e.book).1 })

  executed : OrderExecutedMsg → OrderState → ReplayEngine → ReplayEngine
  executed m os e =
      let exec = min m.executed_shares os.remaining in
      let rest = os.remaining - exec in
      let e' = set_stats (inc_trade exec e.stats) e in
      if rest == 0
      then set_stats (inc_cancel e'.stats) (drop m.order_ref e')
      else set_stats (inc_executed e'.stats) (shrink m.order_ref os rest e')

  pub on_order_executed : OrderExecutedMsg → ReplayEngine → ReplayEngine
  unfolding executed
  on_order_executed m e =
      let e' = set_stats (inc_message e.stats) e in
      if is_foreign m.stock_locate e
      then e
      else elim (e.order_tracker m.order_ref) [ none ↦ e' | some os ↦ executed m os e' ]

  cancelled : OrderCancelMsg → OrderState → ReplayEngine → ReplayEngine
  cancelled m os e =
      let rest = os.remaining - min m.cancelled_shares os.remaining in
      let e' = if rest == 0 then drop m.order_ref e else shrink m.order_ref os rest e in
      set_stats (inc_cancel e.stats) e'

  pub on_order_cancel : OrderCancelMsg → ReplayEngine → ReplayEngine
  unfolding cancelled
  on_order_cancel m e =
      let e' = set_stats (inc_message e.stats) e in
      if is_foreign m.stock_locate e
      then e
      else elim (e.order_tracker m.order_ref) [ none ↦ e' | some os ↦ cancelled m os e' ]

  pub on_order_delete : OrderDeleteMsg → ReplayEngine → ReplayEngine
  on_order_delete m e =
      let e' = set_stats (inc_message e.stats) e in
      if is_foreign m.stock_locate e
      then e
      else set_stats (inc_cancel e'.stats) (drop m.order_ref e')

  -- The side of the replaced order; a buy, if it is not tracked.
  abbrev pub side_of : OrderId → ReplayEngine → Side
  side_of id e = elim (e.order_tracker id) [ none ↦ buy | some os ↦ os.side ]

  pub on_order_replace : OrderReplaceMsg → ReplayEngine → ReplayEngine
  unfolding to_tick
  on_order_replace m e =
      let e' = set_stats (inc_message e.stats) e in
      if is_foreign m.stock_locate e
      then e
      else enter inc_replace m.new_order_ref (to_tick m.price) m.shares (side_of m.orig_order_ref e)
          (drop m.orig_order_ref e')

  pub callbacks : ItchParser ReplayEngine
  unfolding on_stock_directory on_add_order on_order_executed on_order_cancel on_order_delete
      on_order_replace
  callbacks = record {
    on_stock_directory = some on_stock_directory;
    on_add_order = some on_add_order;
    on_order_executed = some on_order_executed;
    on_order_cancel = some on_order_cancel;
    on_order_delete = some on_order_delete;
    on_order_replace = some on_order_replace;
  }

  -- The engine before a run: the book stays as the last run left it.
  abbrev pub started : ReplayEngine → ReplayEngine
  started e = record {
    book = e.book;
    stats = zeros;
    locate = 0;
    found_sym = false;
    order_tracker = λ id. none;
  }

  pub run : List ℕ → ReplayEngine → ReplayEngine
  unfolding callbacks
  run bytes e = (parse callbacks bytes (started e)).1
