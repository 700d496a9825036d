-- ===== src/OrderBook/Within.antt =====
-- The prices that an order may trade at, and how `match` finds the next one that holds orders.
use lock_free_limit_order_bo.Prelude.{
  ℕ, zero, suc, ◌+◌, ◌-◌, ◌≤◌, ◌<◌, ◌≡◌, ◌⊎◌, ◌==◌, ◌&&◌, ◌||◌, true, false, refl, ap, ap₂, sym,
  ◌∙◌, arith, ltb, leb, List, [], ◌∷◌, ◌++◌, inl, inr, Bool-cases, length, subst, ==_iff,
}
use lock_free_limit_order_bo.Prelude.Members.{has, ◌∈◌, ◌∉◌}
use lock_free_limit_order_bo.Order.{Price, Side, buy, sell}
use lock_free_limit_order_bo.PriceLevel.{PriceLevel, is_empty}
use lock_free_limit_order_bo.OrderBook.State.{Sizes, BookSide}
use lock_free_limit_order_bo.OrderBook.Match.{advance_best, skip_up, skip_down}
use lock_free_limit_order_bo.OrderBook.Depth.{up_from}
use lock_free_limit_order_bo.OrderBook.Scan.{skip_up-IsFirst, skip_down-IsLast, IsLast}
use lock_free_limit_order_bo.OrderBook.Priority.{within}

has-up_from : (a p n : ℕ) → has a (up_from p n) ≡ (leb p a && ltb a (p + n))
has-up_from a p zero = ground arith
has-up_from a p (suc n) = ground (arith, has-up_from a (p + 1) n)

pub length-up_from : (p n : ℕ) → length (up_from p n) ≡ n
length-up_from p zero = refl
length-up_from p (suc n) = ap suc (length-up_from (p + 1) n)

up_from-append : (p m n : ℕ) → up_from p (m + n) ≡ up_from p m ++ up_from (p + m) n
up_from-append p zero n = ap₂ up_from {x = p} {y = p + 0} (omega arith) (omega arith)
up_from-append p (suc m) n =
    ap (λ k. up_from p k) {x = suc m + n} {y = suc (m + n)} (omega arith)
    ∙ ap (λ l. p ∷ l)
        (up_from-append (p + 1) m n ∙ ap (λ k. up_from (p + 1) m ++ up_from k n) (omega arith))

within_sell-bounds : (limit best a : ℕ) → a ∈ within sell limit best → (limit ≤ a) × (a ≤ best)
within_sell-bounds limit zero a i = elim (Bool-cases (leb limit zero)) [
  | inl e ↦ let j : a ∈ zero ∷ [] = rw e at i in (ground arith, ground arith)
  | inr e ↦ let j : a ∈ [] = rw e at i in (ground arith, ground arith)
]
within_sell-bounds limit (suc best) a i = elim (Bool-cases (leb limit (suc best))) [
  | inl e ↦
      let j : a ∈ suc best ∷ within sell limit best = rw e at i in
      (
        ground (arith, within_sell-bounds limit best a),
        ground (arith, within_sell-bounds limit best a),
      )
  | inr e ↦ let j : a ∈ [] = rw e at i in (ground arith, ground arith)
]

pub length-within_sell : (limit best : ℕ) → length (within sell limit best) ≤ best + 1
length-within_sell limit zero = ground arith
length-within_sell limit (suc best) = ground (arith, length-within_sell limit best)

-- The prices that are passed on the way from `best` to `r`.
abbrev pub Passed : Side → Price → Price → Price → Type 0
Passed buy best r p = (best ≤ p) × (p < r)
Passed sell best r p = (r < p) × (p ≤ best)

-- The prices from `best` on before `r` is reached, and those from `r` on.
pub record Split (s : Side) (limit best r : Price) : Type 0 where
  pub before : List Price
  pub rest : List Price
  pub here : within s limit r ≡ r ∷ rest
  pub once : r ∉ rest
  pub whole : within s limit best ≡ before ++ within s limit r
  pub passed : (p : Price) → p ∈ before → Passed s best r p

Split-buy : (limit best r : Price) → best ≤ r → r ≤ limit → Split buy limit best r
Split-buy limit best r from upto = record {
  before = up_from best (r - best);
  rest = up_from (r + 1) (limit - r);
  here = ap (up_from r) {x = limit + 1 - r} {y = suc (limit - r)} (omega arith);
  once = ground (arith, has-up_from r (r + 1) (limit - r));
  whole =
      ap (up_from best) {y = (r - best) + (limit + 1 - r)} (omega arith)
      ∙ up_from-append best (r - best) (limit + 1 - r)
      ∙ ap (λ k. up_from best (r - best) ++ up_from k (limit + 1 - r)) (omega arith);
  passed = λ p i. (
    ground (arith, has-up_from p best (r - best)),
    ground (arith, has-up_from p best (r - best)),
  );
}

Split-sell_self : (limit best : Price) → limit ≤ best → Split sell limit best best
Split-sell_self zero zero from = record {
  before = [];
  rest = [];
  here = refl;
  once = refl;
  whole = refl;
  passed = λ p i. absurd (ground arith);
}
Split-sell_self (suc limit) zero from = absurd (omega arith)
Split-sell_self limit (suc best) from = record {
  before = [];
  rest = within sell limit best;
  here = let e : leb limit (suc best) ≡ true = ground arith in rw e refl;
  once = elim (Bool-cases (has (suc best) (within sell limit best))) [
    | inl i ↦ absurd (omega (arith, (within_sell-bounds limit best (suc best) i).1))
    | inr out ↦ out
  ];
  whole = refl;
  passed = λ p i. absurd (ground arith);
}

Split-sell : (limit best r : Price) → r ≤ best → limit ≤ r → Split sell limit best r
Split-sell limit zero r upto from =
    subst (Split sell limit zero) {x = zero} {y = r} (omega arith)
      (Split-sell_self limit zero (omega arith))
Split-sell limit (suc best) r upto from = elim (Bool-cases (r == suc best)) [
  | inl e ↦
      subst (Split sell limit (suc best)) (sym ((==_iff r (suc best)).0 e))
        (Split-sell_self limit (suc best) (omega arith))
  | inr e ↦ deeper (ground arith) (Split-sell limit best r (ground arith) from)
]
  where
    deeper : r ≤ best → Split sell limit best r → Split sell limit (suc best) r
    deeper below t =
        let f : leb limit (suc best) ≡ true = ground arith in
        record {
          before = suc best ∷ t.before;
          rest = t.rest;
          here = t.here;
          once = t.once;
          whole = rw f (ap (λ l. suc best ∷ l) t.whole);
          passed = λ p i. (ground (arith, t.passed p), ground (arith, t.passed p));
        }

-- A scan down that ended at an empty level, or below the limit, passed every level in between.
below_last :
    {levels : Price → PriceLevel} {limit best r : Price}
    → IsLast levels best r
    → (is_empty (levels r) || ltb r limit) ≡ true
    → (p : Price) → limit ≤ p
    → p ≤ best
    → is_empty (levels p) ≡ true
below_last {levels} {r} f e p low high = elim (Bool-cases (ltb r p)) [
  | inl above ↦ f.skipped p (ground arith) high
  | inr not_above ↦
      let empty : is_empty (levels r) ≡ true = ground arith in
      let same : r ≡ p = ground (arith, f.stopped) in
      subst (λ q. is_empty (levels q) ≡ true) same empty
]

-- What `advance_best` finds: a level with orders within the limit, or that there is none.
abbrev pub Found : Side → Price → BookSide → Price → Type 0
Found s limit h r =
    (t : Split s limit h.best r) × ((p : Price) → p ∈ t.before → is_empty (h.levels p) ≡ true)
    × (is_empty (h.levels r) ≡ false)

abbrev pub NothingLeft : Side → Price → BookSide → Type 0
NothingLeft s limit h = (p : Price) → p ∈ within s limit h.best → is_empty (h.levels p) ≡ true

module _ (z : Sizes) (read_cycles : ℕ → ℕ) where
  -- The order's price is in the array, and the other side's best price is in it or, for the asks, at its end.
  abbrev pub InRange : Side → Price → Price → Type 0
  InRange buy limit best = (limit < z.max_price_levels) × (best ≤ z.max_price_levels)
  InRange sell limit best = best < z.max_price_levels

  pub advance_best-cases :
      (s : Side) (limit : Price) (h : BookSide)
      → InRange s limit h.best
      → let (r, crosses) = advance_best z read_cycles s limit h in
        ((crosses ≡ true) × Found s limit h r × InRange s limit r)
        ⊎ ((crosses ≡ false) × NothingLeft s limit h × InRange s limit r)
  unfolding advance_best
  advance_best-cases buy limit h (below, inside) =
      let r = skip_up (z.max_price_levels - h.best) z.max_price_levels h.levels h.best in
      let f =
        skip_up-IsFirst (z.max_price_levels - h.best) z.max_price_levels h.levels h.best inside
          (omega arith) in
      elim (Bool-cases (leb z.max_price_levels r || ltb limit r)) [
        | inl e ↦ inr (
          rw e refl,
          λ p i.
              f.skipped p (ground (arith, has-up_from p h.best (limit + 1 - h.best)))
                (ground (arith, has-up_from p h.best (limit + 1 - h.best))),
          (below, f.upto),
        )
        | inr e ↦
            let t = Split-buy limit h.best r f.from (ground arith) in
            inl (
              rw e refl,
              (t, λ p i. f.skipped p (t.passed p i).0 (t.passed p i).1, f.stopped (ground arith)),
              (below, f.upto),
            )
      ]
  advance_best-cases sell limit h inside =
      let r = skip_down h.levels h.best in
      let f = skip_down-IsLast h.levels h.best in
      elim (Bool-cases (is_empty (h.levels r) || ltb r limit)) [
        | inl e ↦ inr (
          rw e refl,
          λ p i. let (low, high) = within_sell-bounds limit h.best p i in below_last f e p low high,
          omega (arith, f.upto),
        )
        | inr e ↦
            let t = Split-sell limit h.best r f.upto (ground arith) in
            inl (
              rw e refl,
              (t, λ p i. f.skipped p (t.passed p i).0 (t.passed p i).1, ground arith),
              omega (arith, f.upto),
            )
      ]
