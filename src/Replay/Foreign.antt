-- ===== src/Replay/Foreign.antt =====
-- Messages of other symbols.
use lock_free_limit_order_bo.Prelude.{
  ℕ, ◌<◌, ◌≡◌, ◌∙◌, ap, subst, sym, none, refl, false, arith, List, [], ◌∷◌, length, ◌++◌,
}
use lock_free_limit_order_bo.Prelude.Words.{u64_mod}
use lock_free_limit_order_bo.Order.{OrderId}
use lock_free_limit_order_bo.Itch.RoundTrip.{
  Message, deliver, stock_directory, add_order, order_executed, order_cancel, order_delete,
  order_replace,
}
use lock_free_limit_order_bo.Itch.Stock.{stock_field}
use lock_free_limit_order_bo.Itch.Stream.{stream, AllFit, deliver_all, parse-stream, Cut}
use lock_free_limit_order_bo.OrderBook.State.{Sizes}
use lock_free_limit_order_bo.Replay.{
  ReplayConfig, ReplayEngine, same_string, callbacks, started, run, on_stock_directory,
  on_add_order, on_order_executed, on_order_cancel, on_order_delete, on_order_replace,
}

-- No message is the directory entry of a symbol.
abbrev pub Unlisted : List ℕ → List Message → Type 0
Unlisted sym [] = Unit {0}
Unlisted sym (stock_directory locate ts_ns stock ∷ ms) =
    (same_string (stock_field stock) sym ≡ false) × Unlisted sym ms
Unlisted sym (m ∷ ms) = Unlisted sym ms

Unlisted-split :
    (sym : List ℕ) (m : Message) (ms : List Message)
    → Unlisted sym (m ∷ ms)
    → Unlisted sym (m ∷ []) × Unlisted sym ms
Unlisted-split sym (stock_directory locate ts_ns stock) ms un = ((un.0, tt), un.1)
Unlisted-split sym (add_order locate ts_ns order_ref buy_sell shares stock price) ms un = (tt, un)
Unlisted-split sym (order_executed locate ts_ns order_ref exec_shares match_num) ms un = (tt, un)
Unlisted-split sym (order_cancel locate ts_ns order_ref cancelled_shares) ms un = (tt, un)
Unlisted-split sym (order_delete locate ts_ns order_ref) ms un = (tt, un)
Unlisted-split sym (order_replace locate ts_ns orig_ref new_ref shares price) ms un = (tt, un)

module _ (z : Sizes) (read_cycles : ℕ → ℕ) (cfg : ReplayConfig) where
  -- Until the symbol is found, a message that is not its directory entry changes nothing.
  deliver-Unlisted :
      (m : Message) (e : ReplayEngine)
      → e.found_sym ≡ false
      → Unlisted cfg.symbol (m ∷ [])
      → deliver (callbacks z read_cycles cfg) m e ≡ e
  unfolding callbacks on_stock_directory on_add_order on_order_executed on_order_cancel
      on_order_delete on_order_replace
  deliver-Unlisted (stock_directory locate ts_ns stock) e unknown un = ground (arith, un.0)
  deliver-Unlisted (add_order locate ts_ns order_ref buy_sell shares stock price) e unknown un =
      ground arith
  deliver-Unlisted (order_executed locate ts_ns order_ref exec_shares match_num) e unknown un =
      ground arith
  deliver-Unlisted (order_cancel locate ts_ns order_ref cancelled_shares) e unknown un =
      ground arith
  deliver-Unlisted (order_delete locate ts_ns order_ref) e unknown un = ground arith
  deliver-Unlisted (order_replace locate ts_ns orig_ref new_ref shares price) e unknown un =
      ground arith

  deliver_all-Unlisted :
      (ms : List Message) (e : ReplayEngine)
      → e.found_sym ≡ false
      → Unlisted cfg.symbol ms
      → deliver_all (callbacks z read_cycles cfg) ms e ≡ e
  deliver_all-Unlisted [] e unknown un = refl
  deliver_all-Unlisted (m ∷ ms) e unknown un =
      let (first, others) = Unlisted-split cfg.symbol m ms un in
      ap (deliver_all (callbacks z read_cycles cfg) ms) (deliver-Unlisted m e unknown first)
      ∙ deliver_all-Unlisted ms e unknown others

  -- The engine after a run that has found no messages of its symbol.
  pub record Untouched (e e' : ReplayEngine) : Type 0 where
    pub book : e'.book ≡ e.book
    pub found_sym : e'.found_sym ≡ false
    pub order_tracker : (id : OrderId) → e'.order_tracker id ≡ none
    pub messages_processed : e'.stats.messages_processed ≡ 0
    pub orders_added : e'.stats.orders_added ≡ 0
    pub orders_cancelled : e'.stats.orders_cancelled ≡ 0
    pub orders_replaced : e'.stats.orders_replaced ≡ 0
    pub orders_executed : e'.stats.orders_executed ≡ 0
    pub orders_rejected : e'.stats.orders_rejected ≡ 0
    pub trades : e'.stats.trades ≡ 0
    pub shares_traded : e'.stats.shares_traded ≡ 0

  started-Untouched : (e : ReplayEngine) → Untouched e (started z read_cycles cfg e)
  started-Untouched e = record {
    book = refl;
    found_sym = refl;
    order_tracker = λ id. refl;
    messages_processed = refl;
    orders_added = refl;
    orders_cancelled = refl;
    orders_replaced = refl;
    orders_executed = refl;
    orders_rejected = refl;
    trades = refl;
    shares_traded = refl;
  }

  -- A run over a stream of fewer than 2 ^ 64 built messages, whose fields fit their widths, and a
  -- rest that holds no whole message, in which no directory message names the configured symbol,
  -- leaves the book as it was, every counter at 0, the tracker empty and the symbol not found.
  pub run-Unlisted :
      (ms : List Message) (rest : List ℕ) (e : ReplayEngine)
      → AllFit ms
      → Cut rest
      → length ms < u64_mod
      → Unlisted cfg.symbol ms
      → Untouched e (run z read_cycles cfg (stream ms ++ rest) e)
  unfolding run
  run-Unlisted ms rest e fit cut small un =
      let e0 = started z read_cycles cfg e in
      subst (Untouched e)
        (sym (
          ap (λ r. r.1) (parse-stream (callbacks z read_cycles cfg) ms rest e0 fit cut small)
          ∙ deliver_all-Unlisted ms e0 refl un))
        (started-Untouched e)
