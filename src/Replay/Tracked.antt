-- ===== src/Replay/Tracked.antt =====
-- What the engine knows of an order after an execution or a partial cancellation.
use lock_free_limit_order_bo.Prelude.{
  ℕ, ◌-◌, ◌≡◌, ◌≢◌, arith, false, some, none, Option, leb, if◌then◌else◌,
}
use lock_free_limit_order_bo.Order.{OrderId, Quantity}
use lock_free_limit_order_bo.Itch.Messages.{OrderExecutedMsg, OrderCancelMsg}
use lock_free_limit_order_bo.OrderBook.State.{Sizes}
use lock_free_limit_order_bo.Replay.{
  ReplayConfig, OrderState, ReplayEngine, is_foreign, on_order_executed, executed, on_order_cancel,
  cancelled,
}

-- An order less `taken` shares; gone, if that is all it had.
abbrev pub less : Quantity → OrderState → Option OrderState
less taken os =
    if leb os.remaining taken then none else some (record os { remaining = os.remaining - taken })

module _ (z : Sizes) (read_cycles : ℕ → ℕ) (cfg : ReplayConfig) (e : ReplayEngine) where
  -- An execution, of the engine's symbol, of a tracked order leaves it tracked with its price and
  -- side and as many shares fewer, or takes it from the tracker if it has no more than those; all
  -- other orders are tracked as before.
  pub on_order_executed-less :
      (m : OrderExecutedMsg) (os : OrderState)
      → is_foreign z read_cycles cfg m.stock_locate e ≡ false
      → e.order_tracker m.order_ref ≡ some os
      → let e' = on_order_executed z read_cycles cfg m e in
        (e'.order_tracker m.order_ref ≡ less m.executed_shares os)
        × ((id : OrderId) → m.order_ref ≢ id → e'.order_tracker id ≡ e.order_tracker id)
  unfolding on_order_executed executed
  on_order_executed-less m os own known = (ground arith, λ id ne. ground arith)

  -- A partial cancellation, of the engine's symbol, of a tracked order leaves it tracked with its
  -- price and side and as many shares fewer, or takes it from the tracker if it has no more than
  -- those; all other orders are tracked as before.
  pub on_order_cancel-less :
      (m : OrderCancelMsg) (os : OrderState)
      → is_foreign z read_cycles cfg m.stock_locate e ≡ false
      → e.order_tracker m.order_ref ≡ some os
      → let e' = on_order_cancel z read_cycles cfg m e in
        (e'.order_tracker m.order_ref ≡ less m.cancelled_shares os)
        × ((id : OrderId) → m.order_ref ≢ id → e'.order_tracker id ≡ e.order_tracker id)
  unfolding on_order_cancel cancelled
  on_order_cancel-less m os own known = (ground arith, λ id ne. ground arith)
