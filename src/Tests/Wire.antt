-- ===== src/Tests/Wire.antt =====
-- A session of three messages, built and parsed.
use lock_free_limit_order_bo.Prelude.{ℕ, ◌≡◌, inr, none, some, List, [], ◌∷◌, ◌++◌, arith}
use lock_free_limit_order_bo.Itch.Build.{add_order_msg}
use lock_free_limit_order_bo.Itch.Bytes.{be16, put16, put32, put48, put64, put_stock}
use lock_free_limit_order_bo.Itch.Parser.{ItchParser, dispatch, parse, parse_from}
use lock_free_limit_order_bo.Itch.Local.{Agree-append, dispatch-local}
use lock_free_limit_order_bo.Itch.RoundTrip.{
  Message, payload, stock_directory, add_order, order_executed,
}
use lock_free_limit_order_bo.Itch.Stream.{Cut, stream, AllFit, parse-stream, parse_from-enough}

-- The callbacks write down the number or the stock that the message carries; there is none for
-- executions.
abbrev log : ItchParser (List ℕ)
log = record {
  on_stock_directory = some (λ m s. m.stock_locate ∷ m.stock ++ s);
  on_add_order = some (λ m s. m.shares ∷ m.price ∷ s);
  on_order_executed = none;
  on_order_cancel = some (λ m s. m.cancelled_shares ∷ s);
  on_order_delete = some (λ m s. m.order_ref ∷ s);
  on_order_replace = some (λ m s. m.new_order_ref ∷ s);
}

abbrev pub session : List Message
session =
    stock_directory 7 1 (65 ∷ 66 ∷ [])
    ∷ add_order 7 2 1000 66 300 (65 ∷ []) 1_500_000
    ∷ order_executed 7 3 1000 100 1
    ∷ []

abbrev pub cut_rest : List ℕ
cut_rest = 0 ∷ 19 ∷ 68 ∷ []

pub session-AllFit : AllFit session
session-AllFit = (
  (omega arith, omega arith),
  (
    (omega arith, omega arith, omega arith, omega arith, omega arith),
    ((omega arith, omega arith, omega arith, omega arith, omega arith), tt),
  ),
)

pub cut_rest-Cut : Cut cut_rest
unfolding be16
cut_rest-Cut = inr (omega arith)

parse-stream_example :
    parse log (stream session ++ cut_rest) []
    ≡ (3, 300 ∷ 1_500_000 ∷ 7 ∷ 65 ∷ 66 ∷ 0 ∷ 0 ∷ 0 ∷ 0 ∷ 0 ∷ 0 ∷ 0 ∷ [])
parse-stream_example =
    parse-stream log session cut_rest [] session-AllFit cut_rest-Cut (omega arith)

parse_from-enough_example : parse_from log 3 cut_rest 0 [] ≡ parse_from log 100 cut_rest 0 []
parse_from-enough_example = parse_from-enough log 3 100 cut_rest 0 [] (omega arith) (omega arith)

-- The bytes of an order for 300 shares.
abbrev order_bytes : List ℕ
order_bytes = payload (add_order 7 2 1000 66 300 (65 ∷ []) 1_500_000)

-- What follows the bytes of a message makes no difference.
dispatch-local_example :
    dispatch log (order_bytes ++ cut_rest) 36 [] ≡ dispatch log (order_bytes ++ 255 ∷ []) 36 []
unfolding add_order_msg put16 put32 put48 put64 put_stock
dispatch-local_example =
    dispatch-local log (order_bytes ++ cut_rest) (order_bytes ++ 255 ∷ []) 36 []
      (Agree-append order_bytes cut_rest (255 ∷ []))
