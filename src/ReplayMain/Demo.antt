-- ===== src/ReplayMain/Demo.antt =====
-- The streams and the callbacks of `demo_parser_correctness` and `demo_replay_basic`.
use lock_free_limit_order_bo.Prelude.{ℕ, zero, suc, ◌+◌, ◌*◌, some, []}
use lock_free_limit_order_bo.Prelude.Words.{sub32, add32, add64}
use lock_free_limit_order_bo.Itch.Parser.{ItchParser}
use lock_free_limit_order_bo.ReplayMain.{
  SyntheticStream, stock_dir, add, exec, cancel, del, replace, aapl,
}

-- One of every type of message.
unfoldable pub correctness_stream : SyntheticStream
unfolding stock_dir add exec cancel del replace
correctness_stream =
    let s0 : SyntheticStream = record { buf = [] } in
    let s1 = stock_dir 1 0 aapl s0 in
    let s2 = add 100_000_000 1001 b'B' 500 aapl 1_505_000 1 s1 in
    let s3 = add 200_000_000 1002 b'S' 300 aapl 1_510_000 1 s2 in
    let s4 = add 300_000_000 1003 b'B' 200 aapl 1_504_000 1 s3 in
    let s5 = exec 400_000_000 1002 100 9001 1 s4 in
    let s6 = cancel 500_000_000 1003 100 1 s5 in
    let s7 = del 600_000_000 1001 1 s6 in replace 700_000_000 1002 2001 150 1_512_000 1 s7

-- The callbacks, for `msg_count`; what they print is left out.
abbrev pub counting : ItchParser ℕ
counting = record {
  on_stock_directory = some (λ m n. n + 1);
  on_add_order = some (λ m n. n + 1);
  on_order_executed = some (λ m n. n + 1);
  on_order_cancel = some (λ m n. n + 1);
  on_order_delete = some (λ m n. n + 1);
  on_order_replace = some (λ m n. n + 1);
}

-- The variables of the loop of `demo_replay_basic`.
pub record Opening : Type 0 where
  pub stream : SyntheticStream
  pub ref : ℕ

-- The first rounds: a bid and an ask each, at prices further and further apart.
unfoldable pub opening : ℕ → Opening
unfolding add stock_dir
opening zero = record { stream = stock_dir 1 0 aapl (record { buf = [] }); ref = 1000 }
opening (suc i) =
    let o = opening i in
    let bid =
      add (i * 1_000_000) o.ref b'B' (100 * (i + 1)) aapl (sub32 1_500_000 (i * 100)) 1 o.stream in
    let next = add64 o.ref 1 in
    let ask =
      add (i * 1_000_000 + 500) next b'S' (80 * (i + 1)) aapl (add32 1_500_100 (i * 100)) 1 bid in
    record { stream = ask; ref = add64 next 1 }

unfoldable pub basic_stream : SyntheticStream
unfolding exec replace del opening
basic_stream =
    let o = opening 5 in
    let s1 = exec 6_000_000 1001 80 9001 1 o.stream in
    let s2 = replace 7_000_000 1000 o.ref 200 1_500_500 1 s1 in
    del 8_000_001 1005 1 (del 8_000_000 1003 1 s2)
