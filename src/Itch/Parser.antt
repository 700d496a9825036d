-- ===== src/Itch/Parser.antt =====
-- `ItchParser`: the dispatch on a message's type byte, and the walk through a buffer. A callback takes
-- the state that it changes; a null callback is `none`.
use lock_free_limit_order_bo.Prelude.{
  ℕ, zero, suc, Option, none, some, List, leb, ltb, ◌==◌, if◌then◌else◌, length, drop,
}
use lock_free_limit_order_bo.Prelude.Words.{add64}
use lock_free_limit_order_bo.Itch.Bytes.{byte, be16, be32, be48, be64, parse_stock}
use lock_free_limit_order_bo.Itch.Messages.{
  StockDirectoryMsg, AddOrderMsg, OrderExecutedMsg, OrderCancelMsg, OrderDeleteMsg, OrderReplaceMsg,
}

pub record ItchParser (S : Type 0) : Type 0 where
  pub on_stock_directory : Option (StockDirectoryMsg → S → S)
  pub on_add_order : Option (AddOrderMsg → S → S)
  pub on_order_executed : Option (OrderExecutedMsg → S → S)
  pub on_order_cancel : Option (OrderCancelMsg → S → S)
  pub on_order_delete : Option (OrderDeleteMsg → S → S)
  pub on_order_replace : Option (OrderReplaceMsg → S → S)

-- The bodies of the switch's cases, before the callback.
abbrev pub read_stock_directory : List ℕ → StockDirectoryMsg
read_stock_directory msg = record {
  stock_locate = be16 msg 1;
  timestamp_ns = be48 msg 5;
  stock = parse_stock msg 11;
}

abbrev pub read_add_order : List ℕ → AddOrderMsg
read_add_order msg = record {
  stock_locate = be16 msg 1;
  timestamp_ns = be48 msg 5;
  order_ref = be64 msg 11;
  buy_sell = byte msg 19;
  shares = be32 msg 20;
  stock = parse_stock msg 24;
  price = be32 msg 32;
}

abbrev pub read_order_executed : List ℕ → OrderExecutedMsg
read_order_executed msg = record {
  stock_locate = be16 msg 1;
  timestamp_ns = be48 msg 5;
  order_ref = be64 msg 11;
  executed_shares = be32 msg 19;
  match_number = be64 msg 23;
}

abbrev pub read_order_cancel : List ℕ → OrderCancelMsg
read_order_cancel msg = record {
  stock_locate = be16 msg 1;
  timestamp_ns = be48 msg 5;
  order_ref = be64 msg 11;
  cancelled_shares = be32 msg 19;
}

abbrev pub read_order_delete : List ℕ → OrderDeleteMsg
read_order_delete msg = record {
  stock_locate = be16 msg 1;
  timestamp_ns = be48 msg 5;
  order_ref = be64 msg 11;
}

abbrev pub read_order_replace : List ℕ → OrderReplaceMsg
read_order_replace msg = record {
  stock_locate = be16 msg 1;
  timestamp_ns = be48 msg 5;
  orig_order_ref = be64 msg 11;
  new_order_ref = be64 msg 19;
  shares = be32 msg 27;
  price = be32 msg 31;
}

module _ {S : Type 0} where
  -- `if (on_x && len >= least) { …; on_x(m); }`
  abbrev pub call : {M : Type 0} → Option (M → S → S) → ℕ → ℕ → M → S → S
  call none least len m s = s
  call (some on) least len m s = if leb least len then on m s else s

  unfoldable pub dispatch : ItchParser S → List ℕ → ℕ → S → S
  dispatch c msg len s =
      if len == 0
      then s
      else if byte msg 0 == b'R'
      then call c.on_stock_directory 33 len (read_stock_directory msg) s
      else if byte msg 0 == b'A'
      then call c.on_add_order 36 len (read_add_order msg) s
      else if byte msg 0 == b'F'
      then call c.on_add_order 40 len (read_add_order msg) s
      else if byte msg 0 == b'E'
      then call c.on_order_executed 31 len (read_order_executed msg) s
      else if byte msg 0 == b'C'
      then call c.on_order_executed 36 len (read_order_executed msg) s
      else if byte msg 0 == b'X'
      then call c.on_order_cancel 23 len (read_order_cancel msg) s
      else if byte msg 0 == b'D'
      then call c.on_order_delete 19 len (read_order_delete msg) s
      else if byte msg 0 == b'U'
      then call c.on_order_replace 35 len (read_order_replace msg) s
      else s

  -- The loop on fuel, over the bytes from `p` to `end`.
  unfoldable pub parse_from : ItchParser S → ℕ → List ℕ → ℕ → S → ℕ × S
  parse_from c zero p count s = (count, s)
  parse_from c (suc fuel) p count s =
      let msg_len = be16 p 0 in
      let msg = drop 2 p in
      let rest = parse_from c fuel (drop msg_len msg) (add64 count 1) (dispatch c msg msg_len s) in
      if leb 2 (length p)
      then (if ltb (length msg) msg_len then (count, s) else rest)
      else (count, s)

  -- Every round takes at least two bytes, so a round for each byte is enough.
  unfoldable pub parse : ItchParser S → List ℕ → S → ℕ × S
  parse c bytes s = parse_from c (length bytes) bytes 0 s
