-- ===== src/ReplayMain.antt =====
-- src/replay_main.cpp: the synthetic stream, and the load that `demo_replay_throughput` builds with it.
-- A method takes the stream that it appends to last. The parameters `locate`, which default to 1, are
-- written out.
pub mod Throughput
pub mod Demo
pub mod File
pub mod Written
use lock_free_limit_order_bo.Prelude.{
  ℕ, zero, suc, ◌+◌, ◌-◌, ◌*◌, ◌%◌, ◌&&◌, List, [], ◌∷◌, ◌++◌, ltb, ◌==◌, if◌then◌else◌,
}
use lock_free_limit_order_bo.Prelude.Words.{add32, sub32, add64, sub64}
use lock_free_limit_order_bo.Itch.Build
use lock_free_limit_order_bo.Replay.{ReplayConfig}

pub record SyntheticStream : Type 0 where
  pub buf : List ℕ

unfoldable pub append : List ℕ → SyntheticStream → SyntheticStream
append bytes s = record { buf = s.buf ++ bytes }

unfoldable pub stock_dir : ℕ → ℕ → List ℕ → SyntheticStream → SyntheticStream
unfolding append
stock_dir locate ts sym s = append (Build.stock_directory locate ts sym) s

unfoldable pub add : ℕ → ℕ → ℕ → ℕ → List ℕ → ℕ → ℕ → SyntheticStream → SyntheticStream
unfolding append
add ts ref side qty sym price locate s = append (Build.add_order locate ts ref side qty sym price) s

unfoldable pub exec : ℕ → ℕ → ℕ → ℕ → ℕ → SyntheticStream → SyntheticStream
unfolding append
exec ts ref exec_qty match_num locate s =
    append (Build.order_executed locate ts ref exec_qty match_num) s

unfoldable pub cancel : ℕ → ℕ → ℕ → ℕ → SyntheticStream → SyntheticStream
unfolding append
cancel ts ref cancel_qty locate s = append (Build.order_cancel locate ts ref cancel_qty) s

unfoldable pub del : ℕ → ℕ → ℕ → SyntheticStream → SyntheticStream
unfolding append
del ts ref locate s = append (Build.order_delete locate ts ref) s

unfoldable pub replace : ℕ → ℕ → ℕ → ℕ → ℕ → ℕ → SyntheticStream → SyntheticStream
unfolding append
replace ts orig next_ref qty price locate s =
    append (Build.order_replace locate ts orig next_ref qty price) s

abbrev pub aapl : List ℕ
aapl = b'A' ∷ b'A' ∷ b'P' ∷ b'L' ∷ []

abbrev pub msft : List ℕ
msft = b'M' ∷ b'S' ∷ b'F' ∷ b'T' ∷ []

abbrev pub mid_price : ℕ
mid_price = 1_500_000

-- The variables of the loop: the stream, `ref` and `ts`.
pub record Load : Type 0 where
  pub stream : SyntheticStream
  pub ref : ℕ
  pub ts : ℕ

unfoldable pub load_start : Load
unfolding stock_dir
load_start = record {
  stream = stock_dir 2 0 msft (stock_dir 1 0 aapl (record { buf = [] }));
  ref = 1;
  ts = 1_000_000;
}

-- The body of the loop, for the counter `i`.
unfoldable pub load_round : ℕ → Load → Load
unfolding add del
load_round i l =
    let ts = add64 l.ts 1_000 in
    let next = add64 l.ref 1 in
    let r = i % 10 in
    if ltb r 4
    then record {
      stream = add ts l.ref b'B' 100 aapl (sub32 mid_price (i % 10 * 100)) 1 l.stream;
      ref = next;
      ts = ts;
    }
    else if ltb r 8
    then record {
      stream = add ts l.ref b'S' 100 aapl (add32 mid_price ((i % 10 + 1) * 100)) 1 l.stream;
      ref = next;
      ts = ts;
    }
    else if (r == 8) && ltb 50 l.ref
    then record { stream = del ts (sub64 l.ref 50) 1 l.stream; ref = l.ref; ts = ts }
    else record { stream = add ts l.ref b'B' 100 msft mid_price 2 l.stream; ref = next; ts = ts }

-- The first rounds of the loop; the source runs `total`.
unfoldable pub load : ℕ → Load
unfolding load_start load_round
load zero = load_start
load (suc i) = load_round i (load i)

abbrev pub total : ℕ
total = 500_000

-- The configuration of the run over it.
abbrev pub throughput_config : ReplayConfig
throughput_config = record { symbol = aapl; tick_divisor = 100; max_messages = 0 }
