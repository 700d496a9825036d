-- ===== src/ReplayMain/Written.antt =====
-- What is read of a stream that the methods wrote.
use mathlib.Core.List.{append-nil, append_assoc}
use lock_free_limit_order_bo.Prelude.{
  ℕ, ◌+◌, ◌<◌, ◌≡◌, ◌∙◌, refl, ap, sym, arith, List, [], ◌∷◌, ◌++◌, length, inl,
}
use lock_free_limit_order_bo.Prelude.Words.{u64_mod}
use lock_free_limit_order_bo.Itch.Parser.{parse}
use lock_free_limit_order_bo.Itch.RoundTrip.{
  Message, stock_directory, add_order, order_executed, order_cancel, order_delete, order_replace,
}
use lock_free_limit_order_bo.Itch.Stream.{stream, built, AllFit, deliver_all, parse-stream}
use lock_free_limit_order_bo.ReplayMain.{
  SyntheticStream, append, stock_dir, add, exec, cancel, del, replace,
}
use lock_free_limit_order_bo.ReplayMain.Demo.{counting}

-- The method that appends a message.
abbrev pub write : Message → SyntheticStream → SyntheticStream
write (stock_directory locate ts_ns stock) s = stock_dir locate ts_ns stock s
write (add_order locate ts_ns order_ref buy_sell shares stock price) s =
    add ts_ns order_ref buy_sell shares stock price locate s
write (order_executed locate ts_ns order_ref exec_shares match_num) s =
    exec ts_ns order_ref exec_shares match_num locate s
write (order_cancel locate ts_ns order_ref cancelled_shares) s =
    cancel ts_ns order_ref cancelled_shares locate s
write (order_delete locate ts_ns order_ref) s = del ts_ns order_ref locate s
write (order_replace locate ts_ns orig_ref new_ref shares price) s =
    replace ts_ns orig_ref new_ref shares price locate s

abbrev pub write_all : List Message → SyntheticStream → SyntheticStream
write_all [] s = s
write_all (m ∷ ms) s = write_all ms (write m s)

buf-write : (m : Message) (s : SyntheticStream) → (write m s).buf ≡ s.buf ++ built m
unfolding stock_dir add exec cancel del replace append
buf-write (stock_directory locate ts_ns stock) s = refl
buf-write (add_order locate ts_ns order_ref buy_sell shares stock price) s = refl
buf-write (order_executed locate ts_ns order_ref exec_shares match_num) s = refl
buf-write (order_cancel locate ts_ns order_ref cancelled_shares) s = refl
buf-write (order_delete locate ts_ns order_ref) s = refl
buf-write (order_replace locate ts_ns orig_ref new_ref shares price) s = refl

pub buf-write_all :
    (ms : List Message) (s : SyntheticStream) → (write_all ms s).buf ≡ s.buf ++ stream ms
buf-write_all [] s = sym (append-nil s.buf)
buf-write_all (m ∷ ms) s =
    buf-write_all ms (write m s)
    ∙ ap (λ p. p ++ stream ms) (buf-write m s)
    ∙ append_assoc s.buf (built m) (stream ms)

abbrev pub new_stream : SyntheticStream
new_stream = record { buf = [] }

deliver_all-counting : (ms : List Message) (n : ℕ) → deliver_all counting ms n ≡ n + length ms
deliver_all-counting [] n = omega arith
deliver_all-counting (stock_directory locate ts_ns stock ∷ ms) n =
    omega (arith, deliver_all-counting ms (n + 1))
deliver_all-counting (add_order locate ts_ns order_ref buy_sell shares stock price ∷ ms) n =
    omega (arith, deliver_all-counting ms (n + 1))
deliver_all-counting (order_executed locate ts_ns order_ref exec_shares match_num ∷ ms) n =
    omega (arith, deliver_all-counting ms (n + 1))
deliver_all-counting (order_cancel locate ts_ns order_ref cancelled_shares ∷ ms) n =
    omega (arith, deliver_all-counting ms (n + 1))
deliver_all-counting (order_delete locate ts_ns order_ref ∷ ms) n =
    omega (arith, deliver_all-counting ms (n + 1))
deliver_all-counting (order_replace locate ts_ns orig_ref new_ref shares price ∷ ms) n =
    omega (arith, deliver_all-counting ms (n + 1))

pub parse-write_all :
    (ms : List Message)
    → AllFit ms
    → length ms < u64_mod
    → parse counting (write_all ms new_stream).buf 0 ≡ (length ms, length ms)
parse-write_all ms fit short =
    ap (λ p. parse counting p 0) (buf-write_all ms new_stream ∙ sym (append-nil (stream ms)))
    ∙ parse-stream counting ms [] 0 fit (inl (omega arith)) short
    ∙ ap {A = ℕ} (λ n. (length ms, n)) (deliver_all-counting ms 0 ∙ omega arith)
