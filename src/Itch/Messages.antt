-- ===== src/Itch/Messages.antt =====
-- The message structs that the parser hands to its callbacks.
use lock_free_limit_order_bo.Prelude.{ℕ, List}

pub record StockDirectoryMsg : Type 0 where
  pub stock_locate : ℕ
  pub timestamp_ns : ℕ
  pub stock : List ℕ

pub record AddOrderMsg : Type 0 where
  pub stock_locate : ℕ
  pub timestamp_ns : ℕ
  pub order_ref : ℕ
  pub buy_sell : ℕ
  pub shares : ℕ
  pub stock : List ℕ
  pub price : ℕ

pub record OrderExecutedMsg : Type 0 where
  pub stock_locate : ℕ
  pub timestamp_ns : ℕ
  pub order_ref : ℕ
  pub executed_shares : ℕ
  pub match_number : ℕ

pub record OrderCancelMsg : Type 0 where
  pub stock_locate : ℕ
  pub timestamp_ns : ℕ
  pub order_ref : ℕ
  pub cancelled_shares : ℕ

pub record OrderDeleteMsg : Type 0 where
  pub stock_locate : ℕ
  pub timestamp_ns : ℕ
  pub order_ref : ℕ

pub record OrderReplaceMsg : Type 0 where
  pub stock_locate : ℕ
  pub timestamp_ns : ℕ
  pub orig_order_ref : ℕ
  pub new_order_ref : ℕ
  pub shares : ℕ
  pub price : ℕ
