-- ===== src/StatsCounter.antt =====
-- include/stats_counter.h: the counters of the replay. Each is a 64-bit word; one thread writes them.
use lock_free_limit_order_bo.Prelude.{ℕ}
use lock_free_limit_order_bo.Prelude.Words.{add64}

pub record StatsCounter : Type 0 where
  pub messages_processed : ℕ
  pub orders_added : ℕ
  pub orders_cancelled : ℕ
  pub orders_replaced : ℕ
  pub orders_executed : ℕ
  pub orders_rejected : ℕ
  pub trades : ℕ
  pub shares_traded : ℕ

abbrev pub inc_message : StatsCounter → StatsCounter
inc_message s = record s { messages_processed = add64 s.messages_processed 1 }

abbrev pub inc_add : StatsCounter → StatsCounter
inc_add s = record s { orders_added = add64 s.orders_added 1 }

abbrev pub inc_cancel : StatsCounter → StatsCounter
inc_cancel s = record s { orders_cancelled = add64 s.orders_cancelled 1 }

abbrev pub inc_replace : StatsCounter → StatsCounter
inc_replace s = record s { orders_replaced = add64 s.orders_replaced 1 }

abbrev pub inc_executed : StatsCounter → StatsCounter
inc_executed s = record s { orders_executed = add64 s.orders_executed 1 }

abbrev pub inc_rejected : StatsCounter → StatsCounter
inc_rejected s = record s { orders_rejected = add64 s.orders_rejected 1 }

abbrev pub inc_trade : ℕ → StatsCounter → StatsCounter
inc_trade qty s = record s { trades = add64 s.trades 1; shares_traded = add64 s.shares_traded qty }

-- What `reset` leaves.
abbrev pub zeros : StatsCounter
zeros = record {
  messages_processed = 0;
  orders_added = 0;
  orders_cancelled = 0;
  orders_replaced = 0;
  orders_executed = 0;
  orders_rejected = 0;
  trades = 0;
  shares_traded = 0;
}
