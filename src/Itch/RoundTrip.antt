-- ===== src/Itch/RoundTrip.antt =====
-- What the parser makes of the messages that the builders write.
use lock_free_limit_order_bo.Prelude.{
  ℕ, ◌^◌, ◌<◌, ◌≡◌, refl, sym, ap, ◌∙◌, arith, Option, none, some, List, ◌++◌, length,
}
use lock_free_limit_order_bo.Itch.Bytes.{
  be16, be32, be48, be64, put16, put32, put48, put64, put_stock, parse_stock,
}
use lock_free_limit_order_bo.Itch.Stock.{stock_field, parse_stock-put_stock}
use lock_free_limit_order_bo.Itch.Parser.{ItchParser, dispatch, call}
use lock_free_limit_order_bo.Itch.Build
use lock_free_limit_order_bo.Itch.Lanes.{lanes16, lanes32, lanes48, lanes64}

-- A message that a builder writes, with its arguments.
pub data Message : Type 0 where
  stock_directory : (locate ts_ns : ℕ) → List ℕ → Message
  add_order : (locate ts_ns order_ref buy_sell shares : ℕ) → List ℕ → (price : ℕ) → Message
  order_executed : (locate ts_ns order_ref exec_shares match_num : ℕ) → Message
  order_cancel : (locate ts_ns order_ref cancelled_shares : ℕ) → Message
  order_delete : (locate ts_ns order_ref : ℕ) → Message
  order_replace : (locate ts_ns orig_ref new_ref shares price : ℕ) → Message

abbrev pub payload : Message → List ℕ
payload (stock_directory locate ts_ns sym) = Build.stock_directory_msg locate ts_ns sym
payload (add_order locate ts_ns order_ref buy_sell shares sym price) =
    Build.add_order_msg locate ts_ns order_ref buy_sell shares sym price
payload (order_executed locate ts_ns order_ref exec_shares match_num) =
    Build.order_executed_msg locate ts_ns order_ref exec_shares match_num
payload (order_cancel locate ts_ns order_ref cancelled_shares) =
    Build.order_cancel_msg locate ts_ns order_ref cancelled_shares
payload (order_delete locate ts_ns order_ref) = Build.order_delete_msg locate ts_ns order_ref
payload (order_replace locate ts_ns orig_ref new_ref shares price) =
    Build.order_replace_msg locate ts_ns orig_ref new_ref shares price

-- The arguments fit the fields of the wire format.
abbrev pub Fits : Message → Type 0
Fits (stock_directory locate ts_ns sym) = (locate < 2 ^ 16) × (ts_ns < 2 ^ 48)
Fits (add_order locate ts_ns order_ref buy_sell shares sym price) =
    (locate < 2 ^ 16)
    × (ts_ns < 2 ^ 48)
    × (order_ref < 2 ^ 64)
    × (shares < 2 ^ 32)
    × (price < 2 ^ 32)
Fits (order_executed locate ts_ns order_ref exec_shares match_num) =
    (locate < 2 ^ 16)
    × (ts_ns < 2 ^ 48)
    × (order_ref < 2 ^ 64)
    × (exec_shares < 2 ^ 32)
    × (match_num < 2 ^ 64)
Fits (order_cancel locate ts_ns order_ref cancelled_shares) =
    (locate < 2 ^ 16) × (ts_ns < 2 ^ 48) × (order_ref < 2 ^ 64) × (cancelled_shares < 2 ^ 32)
Fits (order_delete locate ts_ns order_ref) =
    (locate < 2 ^ 16) × (ts_ns < 2 ^ 48) × (order_ref < 2 ^ 64)
Fits (order_replace locate ts_ns orig_ref new_ref shares price) =
    (locate < 2 ^ 16)
    × (ts_ns < 2 ^ 48)
    × (orig_ref < 2 ^ 64)
    × (new_ref < 2 ^ 64)
    × (shares < 2 ^ 32)
    × (price < 2 ^ 32)

module _ {S : Type 0} where
  -- The callback of the message's type, if there is one, with the builder's arguments.
  abbrev pub run : {M : Type 0} → Option (M → S → S) → M → S → S
  run none m s = s
  run (some on) m s = on m s

  abbrev pub deliver : ItchParser S → Message → S → S
  deliver c (stock_directory locate ts_ns sym) s =
      run c.on_stock_directory
        (record { stock_locate = locate; timestamp_ns = ts_ns; stock = stock_field sym }) s
  deliver c (add_order locate ts_ns order_ref buy_sell shares sym price) s =
      run c.on_add_order
        (record {
          stock_locate = locate;
          timestamp_ns = ts_ns;
          order_ref = order_ref;
          buy_sell = buy_sell;
          shares = shares;
          stock = stock_field sym;
          price = price;
        })
        s
  deliver c (order_executed locate ts_ns order_ref exec_shares match_num) s =
      run c.on_order_executed
        (record {
          stock_locate = locate;
          timestamp_ns = ts_ns;
          order_ref = order_ref;
          executed_shares = exec_shares;
          match_number = match_num;
        })
        s
  deliver c (order_cancel locate ts_ns order_ref cancelled_shares) s =
      run c.on_order_cancel
        (record {
          stock_locate = locate;
          timestamp_ns = ts_ns;
          order_ref = order_ref;
          cancelled_shares = cancelled_shares;
        })
        s
  deliver c (order_delete locate ts_ns order_ref) s =
      run c.on_order_delete
        (record { stock_locate = locate; timestamp_ns = ts_ns; order_ref = order_ref }) s
  deliver c (order_replace locate ts_ns orig_ref new_ref shares price) s =
      run c.on_order_replace
        (record {
          stock_locate = locate;
          timestamp_ns = ts_ns;
          orig_order_ref = orig_ref;
          new_order_ref = new_ref;
          shares = shares;
          price = price;
        })
        s

  call-run :
      {M : Type 0} (on : Option (M → S → S)) (least : ℕ) (m : M) (s : S)
      → call on least least m s ≡ run on m s
  call-run none least m s = refl
  call-run (some on) least m s = ground arith

  abbrev pub Dispatched : ItchParser S → Message → Type 0
  Dispatched c m =
      (rest : List ℕ) (s : S)
      → dispatch c (payload m ++ rest) (length (payload m)) s ≡ deliver c m s

  dispatch-stock_directory_msg :
      (c : ItchParser S) (locate ts_ns : ℕ) (sym : List ℕ)
      → Fits (stock_directory locate ts_ns sym)
      → Dispatched c (stock_directory locate ts_ns sym)
  unfolding dispatch be16 be48 put16 put48 put_stock parse_stock Build.stock_directory_msg
  dispatch-stock_directory_msg c locate ts_ns sym (fl, ft) rest s =
      rw (lanes16 locate fl, lanes48 ts_ns ft)
        (call-run c.on_stock_directory 33 _ s
          ∙ ap
              (λ stock.
                run c.on_stock_directory
                  (record { stock_locate = locate; timestamp_ns = ts_ns; stock = stock }) s)
              (parse_stock-put_stock sym))

  dispatch-add_order_msg :
      (c : ItchParser S) (locate ts_ns order_ref buy_sell shares : ℕ) (sym : List ℕ) (price : ℕ)
      → Fits (add_order locate ts_ns order_ref buy_sell shares sym price)
      → Dispatched c (add_order locate ts_ns order_ref buy_sell shares sym price)
  unfolding dispatch be16 be48 put16 put48 put64 put32 be32 be64 put_stock parse_stock
      Build.add_order_msg
  dispatch-add_order_msg c locate ts_ns order_ref buy_sell shares sym price (fl, ft, fr, fs, fp)
        rest s =
      rw
        (
          lanes16 locate fl,
          lanes48 ts_ns ft,
          lanes64 order_ref fr,
          lanes32 shares fs,
          lanes32 price fp,
        )
        (call-run c.on_add_order 36 _ s
          ∙ ap
              (λ stock.
                run c.on_add_order
                  (record {
                    stock_locate = locate;
                    timestamp_ns = ts_ns;
                    order_ref = order_ref;
                    buy_sell = buy_sell;
                    shares = shares;
                    stock = stock;
                    price = price;
                  })
                  s)
              (parse_stock-put_stock sym))

  dispatch-order_executed_msg :
      (c : ItchParser S) (locate ts_ns order_ref exec_shares match_num : ℕ)
      → Fits (order_executed locate ts_ns order_ref exec_shares match_num)
      → Dispatched c (order_executed locate ts_ns order_ref exec_shares match_num)
  unfolding dispatch be16 be48 put16 put48 put64 put32 be32 be64 Build.order_executed_msg
  dispatch-order_executed_msg c locate ts_ns order_ref exec_shares match_num (fl, ft, fr, fs, fm)
        rest s =
      rw
        (
          lanes16 locate fl,
          lanes48 ts_ns ft,
          lanes64 order_ref fr,
          lanes32 exec_shares fs,
          lanes64 match_num fm,
        )
        (call-run c.on_order_executed 31 _ s)

  dispatch-order_cancel_msg :
      (c : ItchParser S) (locate ts_ns order_ref cancelled_shares : ℕ)
      → Fits (order_cancel locate ts_ns order_ref cancelled_shares)
      → Dispatched c (order_cancel locate ts_ns order_ref cancelled_shares)
  unfolding dispatch be16 be48 put16 put48 put64 put32 be32 be64 Build.order_cancel_msg
  dispatch-order_cancel_msg c locate ts_ns order_ref cancelled_shares (fl, ft, fr, fs) rest s =
      rw (lanes16 locate fl, lanes48 ts_ns ft, lanes64 order_ref fr, lanes32 cancelled_shares fs)
        (call-run c.on_order_cancel 23 _ s)

  dispatch-order_delete_msg :
      (c : ItchParser S) (locate ts_ns order_ref : ℕ)
      → Fits (order_delete locate ts_ns order_ref)
      → Dispatched c (order_delete locate ts_ns order_ref)
  unfolding dispatch be16 be48 put16 put48 put64 be64 Build.order_delete_msg
  dispatch-order_delete_msg c locate ts_ns order_ref (fl, ft, fr) rest s =
      rw (lanes16 locate fl, lanes48 ts_ns ft, lanes64 order_ref fr)
        (call-run c.on_order_delete 19 _ s)

  dispatch-order_replace_msg :
      (c : ItchParser S) (locate ts_ns orig_ref new_ref shares price : ℕ)
      → Fits (order_replace locate ts_ns orig_ref new_ref shares price)
      → Dispatched c (order_replace locate ts_ns orig_ref new_ref shares price)
  unfolding dispatch be16 be48 put16 put48 put64 put32 be32 be64 Build.order_replace_msg
  dispatch-order_replace_msg c locate ts_ns orig_ref new_ref shares price (fl, ft, fo, fn, fs, fp)
        rest s =
      rw
        (
          lanes16 locate fl,
          lanes48 ts_ns ft,
          lanes64 orig_ref fo,
          lanes64 new_ref fn,
          lanes32 shares fs,
          lanes32 price fp,
        )
        (call-run c.on_order_replace 35 _ s)

  pub dispatch-payload : (c : ItchParser S) (m : Message) → Fits m → Dispatched c m
  dispatch-payload c (stock_directory locate ts_ns sym) =
      dispatch-stock_directory_msg c locate ts_ns sym
  dispatch-payload c (add_order locate ts_ns order_ref buy_sell shares sym price) =
      dispatch-add_order_msg c locate ts_ns order_ref buy_sell shares sym price
  dispatch-payload c (order_executed locate ts_ns order_ref exec_shares match_num) =
      dispatch-order_executed_msg c locate ts_ns order_ref exec_shares match_num
  dispatch-payload c (order_cancel locate ts_ns order_ref cancelled_shares) =
      dispatch-order_cancel_msg c locate ts_ns order_ref cancelled_shares
  dispatch-payload c (order_delete locate ts_ns order_ref) =
      dispatch-order_delete_msg c locate ts_ns order_ref
  dispatch-payload c (order_replace locate ts_ns orig_ref new_ref shares price) =
      dispatch-order_replace_msg c locate ts_ns orig_ref new_ref shares price
