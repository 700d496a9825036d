-- ===== src/ReplayMain/Throughput.antt =====
-- The stream of the throughput run: what messages it holds, and the run over it.
use mathlib.Core.List.{append-nil, append_assoc}
use lock_free_limit_order_bo.Prelude.{
  ℕ, zero, suc, ◌+◌, ◌*◌, ◌%◌, ◌^◌, ◌≤◌, ◌<◌, ◌≡◌, ◌==◌, ◌&&◌, ◌∙◌, refl, ap, sym, subst, arith,
  List, [], ◌∷◌, ◌++◌, length, length-append, ltb, Bool-cases, if◌then◌else◌, inl, inr,
}
use lock_free_limit_order_bo.Prelude.Words.{add32, sub32, add64, sub64}
use lock_free_limit_order_bo.Prelude.Members.{has, ◌∈◌, Distinct, Distinct-append, has-append}
use lock_free_limit_order_bo.Order.{OrderId, Cells}
use lock_free_limit_order_bo.Itch.Build
use lock_free_limit_order_bo.Itch.RoundTrip.{Message, stock_directory, add_order, order_delete}
use lock_free_limit_order_bo.Itch.Stream.{stream, built, AllFit}
use lock_free_limit_order_bo.OrderBook.State.{source_sizes, new_book}
use lock_free_limit_order_bo.Replay.{ReplayEngine, run}
use lock_free_limit_order_bo.Replay.Handlers.{new_refs, new_refs-cons}
use lock_free_limit_order_bo.Replay.Sound.{AllGoodRefs, run-IsTracking}
use lock_free_limit_order_bo.Replay.Tracking.{IsTracking}
use lock_free_limit_order_bo.ReplayMain.{
  Load, load, load_round, load_start, add, del, stock_dir, append, aapl, msft, mid_price,
  throughput_config,
}

stream-append : (ms ns : List Message) → stream (ms ++ ns) ≡ stream ms ++ stream ns
stream-append [] ns = refl
stream-append (m ∷ ms) ns =
    ap (λ p. built m ++ p) (stream-append ms ns)
    ∙ sym (append_assoc (built m) (stream ms) (stream ns))

new_refs-append : (ms ns : List Message) → new_refs (ms ++ ns) ≡ new_refs ms ++ new_refs ns
new_refs-append [] ns = refl
new_refs-append (m ∷ ms) ns =
    new_refs-cons m (ms ++ ns)
    ∙ ap (λ p. new_refs (m ∷ []) ++ p) (new_refs-append ms ns)
    ∙ sym (append_assoc (new_refs (m ∷ [])) (new_refs ms) (new_refs ns))
    ∙ ap (λ p. p ++ new_refs ns) (sym (new_refs-cons m ms))

AllFit-append : (ms ns : List Message) → AllFit ms → AllFit ns → AllFit (ms ++ ns)
AllFit-append [] ns v w = w
AllFit-append (m ∷ ms) ns v w = (v.0, AllFit-append ms ns v.1 w)

-- The message of a round.
abbrev message : ℕ → Load → Message
message i l =
    let ts = add64 l.ts 1_000 in
    let r = i % 10 in
    if ltb r 4
    then add_order 1 ts l.ref b'B' 100 aapl (sub32 mid_price (i % 10 * 100))
    else if ltb r 8
    then add_order 1 ts l.ref b'S' 100 aapl (add32 mid_price ((i % 10 + 1) * 100))
    else if (r == 8) && ltb 50 l.ref
    then order_delete 1 ts (sub64 l.ref 50)
    else add_order 2 ts l.ref b'B' 100 msft mid_price

messages : ℕ → List Message
messages zero = stock_directory 1 0 aapl ∷ stock_directory 2 0 msft ∷ []
messages (suc i) = messages i ++ message i (load i) ∷ []

buf-load_round :
    (i : ℕ) (l : Load) → (load_round i l).stream.buf ≡ l.stream.buf ++ built (message i l)
unfolding load_round add del append
buf-load_round i l = ground arith

module _ (read_cycles : ℕ → ℕ) where
  pub narrow : 20 ≤ 64
  narrow = omega arith

  abbrev Good : List Message → Type 0
  Good ms = AllGoodRefs source_sizes read_cycles throughput_config narrow ms

  Good-append : (ms ns : List Message) → Good ms → Good ns → Good (ms ++ ns)
  Good-append [] ns v w = w
  Good-append (m ∷ ms) ns v w = (v.0, Good-append ms ns v.1 w)

  -- What the first `i` rounds have built.
  record IsLoaded (i : ℕ) : Type 0 where
    written : (load i).stream.buf ≡ stream (messages i)
    some_ref : 1 ≤ (load i).ref
    ref_bound : (load i).ref ≤ 1 + i
    clock : (load i).ts ≡ 1_000_000 + 1_000 * i
    fit : AllFit (messages i)
    good : Good (messages i)
    below : (j : OrderId) → j ∈ new_refs (messages i) → j < (load i).ref
    distinct : Distinct (new_refs (messages i))
    count : length (messages i) ≡ 2 + i

  message-fits :
      (i : ℕ) (l : Load)
      → 1 ≤ l.ref
      → l.ref ≤ 1 + i
      → l.ts ≡ 1_000_000 + 1_000 * i
      → i + 2 < 2 ^ 20
      → AllFit (message i l ∷ []) × Good (message i l ∷ [])
  message-fits i l some_ref ref_bound clock small = elim (Bool-cases (ltb (i % 10) 4)) [
    | inl e ↦ rw e (omega arith)
    | inr e ↦ elim (Bool-cases (ltb (i % 10) 8)) [
      | inl f ↦ rw (e, f) (omega arith)
      | inr f ↦ elim (Bool-cases ((i % 10 == 8) && ltb 50 l.ref)) [
        | inl g ↦ let h : 50 < l.ref = ground (arith, g) in rw (e, f, g) (omega arith)
        | inr g ↦ rw (e, f, g) (omega arith)
      ]
    ]
  ]

  next_ref :
      (i : ℕ) (l : Load)
      → 1 ≤ l.ref
      → l.ref ≤ 1 + i
      → i + 2 < 2 ^ 20
      → (l.ref ≤ (load_round i l).ref)
        × ((load_round i l).ref ≤ 2 + i)
        × ((j : OrderId)
            → j ∈ new_refs (message i l ∷ [])
            → (j ≡ l.ref) × (j < (load_round i l).ref))
        × Distinct (new_refs (message i l ∷ []))
        × ((load_round i l).ts ≡ add64 l.ts 1_000)
  unfolding load_round
  next_ref i l some_ref ref_bound small = elim (Bool-cases (ltb (i % 10) 4)) [
    | inl e ↦ rw e (new_ref l some_ref ref_bound small)
    | inr e ↦ elim (Bool-cases (ltb (i % 10) 8)) [
      | inl f ↦ rw (e, f) (new_ref l some_ref ref_bound small)
      | inr f ↦ elim (Bool-cases ((i % 10 == 8) && ltb 50 l.ref)) [
        | inl g ↦ rw (e, f, g) (omega arith, omega arith, (λ j k. absurd (ground arith)), tt, refl)
        | inr g ↦ rw (e, f, g) (new_ref l some_ref ref_bound small)
      ]
    ]
  ]
    where
      new_ref :
          (l : Load)
          → 1 ≤ l.ref
          → l.ref ≤ 1 + i
          → i + 2 < 2 ^ 20
          → (l.ref ≤ add64 l.ref 1)
            × (add64 l.ref 1 ≤ 2 + i)
            × ((j : OrderId) → j ∈ l.ref ∷ [] → (j ≡ l.ref) × (j < add64 l.ref 1))
            × Distinct (l.ref ∷ [])
            × (add64 l.ts 1_000 ≡ add64 l.ts 1_000)
      new_ref l some_ref ref_bound small =
          (omega arith, omega arith, (λ j k. (ground arith, ground arith)), (refl, tt), refl)

  load-IsLoaded : (i : ℕ) → i + 1 < 2 ^ 20 → IsLoaded i
  unfolding load load_start stock_dir append messages
  load-IsLoaded zero small = record {
    written =
        ap (λ p. Build.stock_directory 1 0 aapl ++ p)
          (sym (append-nil (Build.stock_directory 2 0 msft)));
    some_ref = omega arith;
    ref_bound = omega arith;
    clock = omega arith;
    fit = omega arith;
    good = (tt, (tt, tt));
    below = λ j k. absurd (ground arith);
    distinct = tt;
    count = omega arith;
  }
  load-IsLoaded (suc i) small =
      let v = load-IsLoaded i (omega arith) in
      let l = load i in
      let ms = messages i in
      let m = message i l in
      let ok = message-fits i l v.some_ref v.ref_bound v.clock (omega arith) in
      let (grown, bound, one, single, later) = next_ref i l v.some_ref v.ref_bound (omega arith) in
      record {
        written =
            buf-load_round i l
            ∙ ap (λ p. p ++ built m) v.written
            ∙ ap (λ p. stream ms ++ p) (sym (append-nil (built m)))
            ∙ sym (stream-append ms (m ∷ []));
        some_ref = omega (arith, v.some_ref);
        ref_bound = omega arith;
        clock = later ∙ omega (arith, v.clock);
        fit = AllFit-append ms (m ∷ []) v.fit ok.0;
        good = Good-append ms (m ∷ []) v.good ok.1;
        below = λ j k.
            let i' =
              sym (
                ap (has j) (new_refs-append ms (m ∷ []))
                ∙ has-append j (new_refs ms) (new_refs (m ∷ [])))
              ∙ k in
            elim (Bool-cases (has j (new_refs ms))) [
              | inl h ↦ omega (arith, v.below j h)
              | inr h ↦ (one j (rw h at i')).1
            ];
        distinct = subst Distinct (sym (new_refs-append ms (m ∷ []))) (
            Distinct-append (new_refs ms) (new_refs (m ∷ [])) v.distinct single λ a k.
              elim (Bool-cases (has a (new_refs (m ∷ [])))) [
                | inl h ↦ absurd (omega (arith, v.below a k, (one a h).0))
                | inr h ↦ h
              ]);
        count = omega (arith, length-append ms (m ∷ []), v.count);
      }

  -- The stream that the first n rounds of `demo_replay_throughput` build, for fewer than 2 ^ 20 - 1
  -- of them (the source has 500,000), leads a new engine, with the sizes of the source, to a sound
  -- book, whose table finds only orders that are tracked with their side, their price and at least
  -- the shares that they have left.
  pub load-IsTracking :
      (c : Cells) (n : ℕ) (e : ReplayEngine)
      → e.book ≡ new_book source_sizes c
      → n + 1 < 2 ^ 20
      → let e' = run source_sizes read_cycles throughput_config (load n).stream.buf e in
        IsTracking source_sizes read_cycles narrow e'.book e'.order_tracker
  load-IsTracking c n e new small =
      let v = load-IsLoaded n small in
      subst
        (λ bytes.
          let e' = run source_sizes read_cycles throughput_config bytes e in
          IsTracking source_sizes read_cycles narrow e'.book e'.order_tracker)
        (append-nil (stream (messages n)) ∙ sym v.written)
        (run-IsTracking source_sizes read_cycles throughput_config narrow 1_048_575 c (messages n)
          [] e (omega arith) (omega arith) (omega arith) new v.fit v.good v.distinct
          (inl (omega arith)) (omega (arith, v.count)))
