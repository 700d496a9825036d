-- ===== src/Itch/Build.antt =====
-- `itch_build`: the messages that tests and synthetic streams are made of. A builder returns the bytes
-- that it writes; their number is what the code returns.
use lock_free_limit_order_bo.Prelude.{ℕ, List, [], ◌∷◌, ◌++◌, set, replicate, length}
use lock_free_limit_order_bo.Itch.Bytes.{put16, put32, put48, put64, put_stock}

-- The length prefix and the message.
unfoldable pub frame : List ℕ → List ℕ
frame msg = put16 (0 ∷ 0 ∷ []) 0 (length msg) ++ msg

-- The fields that every message begins with: type, locate, tracking number 0, timestamp.
abbrev header : ℕ → ℕ → ℕ → ℕ → List ℕ
header size type locate ts_ns =
    put48 (put16 (put16 (set (replicate size 0) 0 type) 1 locate) 3 0) 5 ts_ns

unfoldable pub stock_directory_msg : ℕ → ℕ → List ℕ → List ℕ
stock_directory_msg locate ts_ns sym = put_stock (header 33 b'R' locate ts_ns) 11 sym

unfoldable pub add_order_msg : ℕ → ℕ → ℕ → ℕ → ℕ → List ℕ → ℕ → List ℕ
add_order_msg locate ts_ns order_ref buy_sell shares sym price =
    put32
      (put_stock
        (put32 (set (put64 (header 36 b'A' locate ts_ns) 11 order_ref) 19 buy_sell) 20 shares) 24
        sym)
      32 price

unfoldable pub order_executed_msg : ℕ → ℕ → ℕ → ℕ → ℕ → List ℕ
order_executed_msg locate ts_ns order_ref exec_shares match_num =
    put64 (put32 (put64 (header 31 b'E' locate ts_ns) 11 order_ref) 19 exec_shares) 23 match_num

unfoldable pub order_cancel_msg : ℕ → ℕ → ℕ → ℕ → List ℕ
order_cancel_msg locate ts_ns order_ref cancelled_shares =
    put32 (put64 (header 23 b'X' locate ts_ns) 11 order_ref) 19 cancelled_shares

unfoldable pub order_delete_msg : ℕ → ℕ → ℕ → List ℕ
order_delete_msg locate ts_ns order_ref = put64 (header 19 b'D' locate ts_ns) 11 order_ref

unfoldable pub order_replace_msg : ℕ → ℕ → ℕ → ℕ → ℕ → ℕ → List ℕ
order_replace_msg locate ts_ns orig_ref new_ref shares price =
    put32 (put32 (put64 (put64 (header 35 b'U' locate ts_ns) 11 orig_ref) 19 new_ref) 27 shares) 31
      price

unfoldable pub stock_directory : ℕ → ℕ → List ℕ → List ℕ
stock_directory locate ts_ns sym = frame (stock_directory_msg locate ts_ns sym)

unfoldable pub add_order : ℕ → ℕ → ℕ → ℕ → ℕ → List ℕ → ℕ → List ℕ
add_order locate ts_ns order_ref buy_sell shares sym price =
    frame (add_order_msg locate ts_ns order_ref buy_sell shares sym price)

unfoldable pub order_executed : ℕ → ℕ → ℕ → ℕ → ℕ → List ℕ
order_executed locate ts_ns order_ref exec_shares match_num =
    frame (order_executed_msg locate ts_ns order_ref exec_shares match_num)

unfoldable pub order_cancel : ℕ → ℕ → ℕ → ℕ → List ℕ
order_cancel locate ts_ns order_ref cancelled_shares =
    frame (order_cancel_msg locate ts_ns order_ref cancelled_shares)

unfoldable pub order_delete : ℕ → ℕ → ℕ → List ℕ
order_delete locate ts_ns order_ref = frame (order_delete_msg locate ts_ns order_ref)

unfoldable pub order_replace : ℕ → ℕ → ℕ → ℕ → ℕ → ℕ → List ℕ
order_replace locate ts_ns orig_ref new_ref shares price =
    frame (order_replace_msg locate ts_ns orig_ref new_ref shares price)
