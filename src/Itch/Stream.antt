-- ===== src/Itch/Stream.antt =====
-- The parser's loop over a buffer: its fuel, and streams of built messages.
use lock_free_limit_order_bo.Prelude.{
  ℕ, zero, suc, ◌+◌, ◌%◌, ◌^◌, ◌≤◌, ◌<◌, ◌≡◌, ◌⊎◌, refl, ap, ap₂, ◌∙◌, sym, arith, List, [], ◌∷◌,
  ◌++◌, length, drop, length-drop, length-append,
}
use mathlib.Core.List.{append_assoc}
use lock_free_limit_order_bo.Prelude.Words.{add64, u64_mod}
use lock_free_limit_order_bo.Itch.Bytes.{be16, put16, put32, put48, put64, put_stock}
use lock_free_limit_order_bo.Itch.Parser.{ItchParser, dispatch, parse_from, parse}
use lock_free_limit_order_bo.Itch.Build
use lock_free_limit_order_bo.Itch.Build.{frame}
use lock_free_limit_order_bo.Itch.Lanes.{lanes16}
use lock_free_limit_order_bo.Itch.RoundTrip.{
  Message, payload, Fits, deliver, dispatch-payload, stock_directory, add_order, order_executed,
  order_cancel, order_delete, order_replace,
}

drop-append : (xs ys : List ℕ) → drop (length xs) (xs ++ ys) ≡ ys
drop-append [] ys = refl
drop-append (x ∷ xs) ys = drop-append xs ys

-- What is left of a buffer holds no whole message.
abbrev pub Cut : List ℕ → Type 0
Cut p = (length p < 2) ⊎ (length p < be16 p 0 + 2)

module _ {S : Type 0} (c : ItchParser S) where
  -- The parser's loop gives the same count and the same deliveries for any fuel of at least the
  -- number of bytes.
  pub parse_from-enough :
      (f g : ℕ) (p : List ℕ) (count : ℕ) (s : S)
      → length p ≤ f
      → length p ≤ g
      → parse_from c f p count s ≡ parse_from c g p count s
  unfolding parse_from
  parse_from-enough zero zero p count s hf hg = refl
  parse_from-enough zero (suc g) p count s hf hg = ground arith
  parse_from-enough (suc f) zero p count s hf hg = ground arith
  parse_from-enough (suc f) (suc g) p count s hf hg = ground (
    arith,
    length-drop 2 p,
    length-drop (be16 p 0) (drop 2 p),
    parse_from-enough f g (drop (be16 p 0) (drop 2 p)) (add64 count 1)
        (dispatch c (drop 2 p) (be16 p 0) s),
  )

  parse_from-Cut :
      (f : ℕ) (p : List ℕ) (count : ℕ) (s : S) → Cut p → parse_from c f p count s ≡ (count, s)
  unfolding parse_from
  parse_from-Cut zero p count s cut = refl
  parse_from-Cut (suc f) p count s cut = ground (arith, length-drop 2 p)

  parse_from-frame :
      (f : ℕ) (msg rest : List ℕ) (count : ℕ) (s : S)
      → length msg < 2 ^ 16
      → parse_from c (suc f) (frame msg ++ rest) count s
        ≡ parse_from c f rest (add64 count 1) (dispatch c (msg ++ rest) (length msg) s)
  unfolding parse_from frame put16 be16
  parse_from-frame f msg rest count s h =
      rw (lanes16 (length msg) h, drop-append msg rest) (ground (arith, length-append msg rest))

length-frame : (msg : List ℕ) → length (frame msg) ≡ suc (suc (length msg))
unfolding frame put16
length-frame msg = refl

length-payload : (m : Message) → length (payload m) < 2 ^ 16
unfolding put16 put32 put48 put64 put_stock Build.stock_directory_msg Build.add_order_msg
    Build.order_executed_msg Build.order_cancel_msg Build.order_delete_msg Build.order_replace_msg
length-payload (stock_directory locate ts_ns sym) = omega arith
length-payload (add_order locate ts_ns order_ref buy_sell shares sym price) = omega arith
length-payload (order_executed locate ts_ns order_ref exec_shares match_num) = omega arith
length-payload (order_cancel locate ts_ns order_ref cancelled_shares) = omega arith
length-payload (order_delete locate ts_ns order_ref) = omega arith
length-payload (order_replace locate ts_ns orig_ref new_ref shares price) = omega arith

-- The bytes that the builder of a message writes.
abbrev pub built : Message → List ℕ
built (stock_directory locate ts_ns sym) = Build.stock_directory locate ts_ns sym
built (add_order locate ts_ns order_ref buy_sell shares sym price) =
    Build.add_order locate ts_ns order_ref buy_sell shares sym price
built (order_executed locate ts_ns order_ref exec_shares match_num) =
    Build.order_executed locate ts_ns order_ref exec_shares match_num
built (order_cancel locate ts_ns order_ref cancelled_shares) =
    Build.order_cancel locate ts_ns order_ref cancelled_shares
built (order_delete locate ts_ns order_ref) = Build.order_delete locate ts_ns order_ref
built (order_replace locate ts_ns orig_ref new_ref shares price) =
    Build.order_replace locate ts_ns orig_ref new_ref shares price

built-frame : (m : Message) → built m ≡ frame (payload m)
unfolding Build.stock_directory Build.add_order Build.order_executed Build.order_cancel
    Build.order_delete Build.order_replace
built-frame (stock_directory locate ts_ns sym) = refl
built-frame (add_order locate ts_ns order_ref buy_sell shares sym price) = refl
built-frame (order_executed locate ts_ns order_ref exec_shares match_num) = refl
built-frame (order_cancel locate ts_ns order_ref cancelled_shares) = refl
built-frame (order_delete locate ts_ns order_ref) = refl
built-frame (order_replace locate ts_ns orig_ref new_ref shares price) = refl

-- Messages as they are built, one behind the other, and as frames of their payloads.
abbrev pub stream : List Message → List ℕ
stream [] = []
stream (m ∷ ms) = built m ++ stream ms

abbrev frames : List Message → List ℕ
frames [] = []
frames (m ∷ ms) = frame (payload m) ++ frames ms

stream-frames : (ms : List Message) → stream ms ≡ frames ms
stream-frames [] = refl
stream-frames (m ∷ ms) = ap₂ (λ p q. p ++ q) (built-frame m) (stream-frames ms)

abbrev pub AllFit : List Message → Type 0
AllFit [] = Unit {0}
AllFit (m ∷ ms) = Fits m × AllFit ms

module _ {S : Type 0} (c : ItchParser S) where
  abbrev pub deliver_all : List Message → S → S
  deliver_all [] s = s
  deliver_all (m ∷ ms) s = deliver_all ms (deliver c m s)

  parse_from-frames :
      (f : ℕ) (ms : List Message) (rest : List ℕ) (count : ℕ) (s : S)
      → length (frames ms ++ rest) ≤ f
      → AllFit ms
      → Cut rest
      → count < u64_mod
      → parse_from c f (frames ms ++ rest) count s
        ≡ ((count + length ms) % u64_mod, deliver_all ms s)
  parse_from-frames f [] rest count s enough fit cut small =
      parse_from-Cut c f rest count s cut
      ∙ ap (λ n. (n, s)) {y = (count + 0) % u64_mod} (omega arith)
  parse_from-frames zero (m ∷ ms) rest count s enough fit cut small = absurd (
      omega (
        arith,
        length-frame (payload m),
        length-append (frame (payload m)) (frames ms),
        length-append (frames (m ∷ ms)) rest,
      ))
  parse_from-frames (suc f) (m ∷ ms) rest count s enough fit cut small =
      ap (λ p. parse_from c (suc f) p count s) (append_assoc (frame (payload m)) (frames ms) rest)
      ∙ parse_from-frame c f (payload m) (frames ms ++ rest) count s (length-payload m)
      ∙ ap (parse_from c f (frames ms ++ rest) (add64 count 1))
          (dispatch-payload c m fit.0 (frames ms ++ rest) s)
      ∙ parse_from-frames f ms rest (add64 count 1) (deliver c m s) less fit.1 cut (omega arith)
      ∙ ap (λ n. (n, deliver_all (m ∷ ms) s)) {x = (add64 count 1 + length ms) % u64_mod}
          (omega arith)
    where
      less : length (frames ms ++ rest) ≤ f
      less = omega (
        arith,
        length-frame (payload m),
        length-append (frame (payload m)) (frames ms),
        length-append (frames (m ∷ ms)) rest,
        length-append (frames ms) rest,
      )

  -- The parser delivers a stream of fewer than 2 ^ 64 built messages, whose fields fit their
  -- widths, each once, in order, to the callback of its type and with the arguments of its builder,
  -- of the symbol the first eight characters without the spaces at their end, filled up with null
  -- bytes to nine, returns their number, and stops at a rest that holds no whole message.
  pub parse-stream :
      (ms : List Message) (rest : List ℕ) (s : S)
      → AllFit ms
      → Cut rest
      → length ms < u64_mod
      → parse c (stream ms ++ rest) s ≡ (length ms, deliver_all ms s)
  unfolding parse
  parse-stream ms rest s fit cut small = rw (stream-frames ms) (
      parse_from-frames (length (frames ms ++ rest)) ms rest 0 s (omega arith) fit cut (omega arith)
      ∙ ap (λ n. (n, deliver_all ms s)) {y = length ms} (omega arith))
