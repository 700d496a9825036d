-- ===== src/Itch/Local.antt =====
-- The bytes that `dispatch` reads.
use lock_free_limit_order_bo.Prelude.{
  ℕ, zero, suc, length, ◌++◌, ◌+◌, ◌≤◌, ◌<◌, ◌≡◌, ◌==◌, refl, ap, arith, Option, none, some, List,
  [], ◌∷◌, leb, if◌then◌else◌, Bool-cases, inl, inr,
}
use lock_free_limit_order_bo.Itch.Bytes.{byte, be16, be32, be48, be64, parse_stock}
use lock_free_limit_order_bo.Itch.Parser.{
  ItchParser, call, dispatch, read_stock_directory, read_add_order, read_order_executed,
  read_order_cancel, read_order_delete, read_order_replace,
}

-- Two buffers have the same first bytes.
abbrev pub Agree : ℕ → List ℕ → List ℕ → Type 0
Agree n p q = (i : ℕ) → i < n → byte p i ≡ byte q i

pub Agree-append : (xs ys zs : List ℕ) → Agree (length xs) (xs ++ ys) (xs ++ zs)
Agree-append [] ys zs i h = absurd (omega arith)
Agree-append (x ∷ xs) ys zs zero h = refl
Agree-append (x ∷ xs) ys zs (suc i) h = Agree-append xs ys zs i (omega arith)

module _ (n : ℕ) (p q : List ℕ) (same : Agree n p q) where
  be16-local : (k : ℕ) → k + 2 ≤ n → be16 p k ≡ be16 q k
  unfolding be16
  be16-local k h = omega (arith, same k (omega arith), same (k + 1) (omega arith))

  be32-local : (k : ℕ) → k + 4 ≤ n → be32 p k ≡ be32 q k
  unfolding be32
  be32-local k h = omega (
    arith,
    same k (omega arith),
    same (k + 1) (omega arith),
    same (k + 2) (omega arith),
    same (k + 3) (omega arith),
  )

  be48-local : (k : ℕ) → k + 6 ≤ n → be48 p k ≡ be48 q k
  unfolding be48
  be48-local k h = omega (
    arith,
    same k (omega arith),
    same (k + 1) (omega arith),
    same (k + 2) (omega arith),
    same (k + 3) (omega arith),
    same (k + 4) (omega arith),
    same (k + 5) (omega arith),
  )

  be64-local : (k : ℕ) → k + 8 ≤ n → be64 p k ≡ be64 q k
  unfolding be64
  be64-local k h = omega (
    arith,
    same k (omega arith),
    same (k + 1) (omega arith),
    same (k + 2) (omega arith),
    same (k + 3) (omega arith),
    same (k + 4) (omega arith),
    same (k + 5) (omega arith),
    same (k + 6) (omega arith),
    same (k + 7) (omega arith),
  )

  parse_stock-local : (k : ℕ) → k + 8 ≤ n → parse_stock p k ≡ parse_stock q k
  unfolding parse_stock
  parse_stock-local k h =
      rw
        (
          same k (omega arith),
          same (k + 1) (omega arith),
          same (k + 2) (omega arith),
          same (k + 3) (omega arith),
          same (k + 4) (omega arith),
          same (k + 5) (omega arith),
          same (k + 6) (omega arith),
          same (k + 7) (omega arith),
        )
        refl

  stock_directory-local : 33 ≤ n → read_stock_directory p ≡ read_stock_directory q
  stock_directory-local h i = record {
    stock_locate = be16-local 1 (omega arith) i;
    timestamp_ns = be48-local 5 (omega arith) i;
    stock = parse_stock-local 11 (omega arith) i;
  }

  add_order-local : 36 ≤ n → read_add_order p ≡ read_add_order q
  add_order-local h i = record {
    stock_locate = be16-local 1 (omega arith) i;
    timestamp_ns = be48-local 5 (omega arith) i;
    order_ref = be64-local 11 (omega arith) i;
    buy_sell = same 19 (omega arith) i;
    shares = be32-local 20 (omega arith) i;
    stock = parse_stock-local 24 (omega arith) i;
    price = be32-local 32 (omega arith) i;
  }

  order_executed-local : 31 ≤ n → read_order_executed p ≡ read_order_executed q
  order_executed-local h i = record {
    stock_locate = be16-local 1 (omega arith) i;
    timestamp_ns = be48-local 5 (omega arith) i;
    order_ref = be64-local 11 (omega arith) i;
    executed_shares = be32-local 19 (omega arith) i;
    match_number = be64-local 23 (omega arith) i;
  }

  order_cancel-local : 23 ≤ n → read_order_cancel p ≡ read_order_cancel q
  order_cancel-local h i = record {
    stock_locate = be16-local 1 (omega arith) i;
    timestamp_ns = be48-local 5 (omega arith) i;
    order_ref = be64-local 11 (omega arith) i;
    cancelled_shares = be32-local 19 (omega arith) i;
  }

  order_delete-local : 19 ≤ n → read_order_delete p ≡ read_order_delete q
  order_delete-local h i = record {
    stock_locate = be16-local 1 (omega arith) i;
    timestamp_ns = be48-local 5 (omega arith) i;
    order_ref = be64-local 11 (omega arith) i;
  }

  order_replace-local : 35 ≤ n → read_order_replace p ≡ read_order_replace q
  order_replace-local h i = record {
    stock_locate = be16-local 1 (omega arith) i;
    timestamp_ns = be48-local 5 (omega arith) i;
    orig_order_ref = be64-local 11 (omega arith) i;
    new_order_ref = be64-local 19 (omega arith) i;
    shares = be32-local 27 (omega arith) i;
    price = be32-local 31 (omega arith) i;
  }

module _ {S : Type 0} where
  -- A callback that is called gets the same message.
  call-local :
      {M : Type 0} (on : Option (M → S → S)) (least len : ℕ) (m m' : M) (s : S)
      → (least ≤ len → m ≡ m')
      → call on least len m s ≡ call on least len m' s
  call-local none least len m m' s e = refl
  call-local (some on) least len m m' s e = elim (Bool-cases (leb least len)) [
    | inl h ↦ rw h (ap (λ x. on x s) (e (ground arith)))
    | inr h ↦ rw h refl
  ]

  -- `dispatch` reads no byte behind its message: on two buffers with the same first `len` bytes it
  -- calls the same callback with the same message, or none.
  pub dispatch-local :
      (c : ItchParser S) (p q : List ℕ) (len : ℕ) (s : S)
      → Agree len p q
      → dispatch c p len s ≡ dispatch c q len s
  unfolding dispatch
  dispatch-local c p q len s same = elim (Bool-cases (len == 0)) [
    | inl h ↦ rw h refl
    | inr h ↦ rw h λ i.
        let kind = same 0 (ground arith) i in
        if kind == b'R'
        then call-local c.on_stock_directory 33 len _ _ s
            (λ k. stock_directory-local len p q same k) i
        else if kind == b'A'
        then call-local c.on_add_order 36 len _ _ s (λ k. add_order-local len p q same k) i
        else if kind == b'F'
        then call-local c.on_add_order 40 len _ _ s
            (λ k. add_order-local len p q same (omega arith)) i
        else if kind == b'E'
        then call-local c.on_order_executed 31 len _ _ s (λ k. order_executed-local len p q same k)
            i
        else if kind == b'C'
        then call-local c.on_order_executed 36 len _ _ s
            (λ k. order_executed-local len p q same (omega arith)) i
        else if kind == b'X'
        then call-local c.on_order_cancel 23 len _ _ s (λ k. order_cancel-local len p q same k) i
        else if kind == b'D'
        then call-local c.on_order_delete 19 len _ _ s (λ k. order_delete-local len p q same k) i
        else if kind == b'U'
        then call-local c.on_order_replace 35 len _ _ s (λ k. order_replace-local len p q same k) i
        else s
  ]
