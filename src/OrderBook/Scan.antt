-- ===== src/OrderBook/Scan.antt =====
-- The loops that move a best price over empty levels.
use lock_free_limit_order_bo.Prelude.{
  max, subst, sym, ℕ, zero, suc, ◌+◌, ◌-◌, ◌≤◌, ◌<◌, ◌≡◌, true, false, arith, ltb, Bool-cases, inl,
  inr, ap,
}
use lock_free_limit_order_bo.PriceLevel.Valid.{vacant}
use lock_free_limit_order_bo.Order.{Price}
use lock_free_limit_order_bo.PriceLevel.{PriceLevel}
use lock_free_limit_order_bo.OrderBook.State.{Sizes, BookSide}
use lock_free_limit_order_bo.OrderBook.Match.{skip_up, skip_down}
use lock_free_limit_order_bo.OrderBook.Operations.{update_best_bid, update_best_ask}

-- `r` is the first price from `best` up to `limit` whose level holds an order, or the limit.
pub record IsFirst (levels : Price → PriceLevel) (best limit r : Price) : Type 0 where
  pub from : best ≤ r
  pub upto : r ≤ limit
  pub skipped : (p : Price) → best ≤ p → p < r → vacant (levels p) ≡ true
  pub stopped : r < limit → vacant (levels r) ≡ false

-- `r` is the first price from `best` down to 0 whose level holds an order, or 0.
pub record IsLast (levels : Price → PriceLevel) (best r : Price) : Type 0 where
  pub upto : r ≤ best
  pub skipped : (p : Price) → r < p → p ≤ best → vacant (levels p) ≡ true
  pub stopped : 0 < r → vacant (levels r) ≡ false

pub skip_up-IsFirst :
    (fuel limit : ℕ) (levels : Price → PriceLevel) (best : Price)
    → best ≤ limit
    → limit ≤ best + fuel
    → IsFirst levels best limit (skip_up fuel limit levels best)
unfolding skip_up
skip_up-IsFirst zero limit levels best below enough = record {
  from = omega arith;
  upto = below;
  skipped = λ p a b. absurd (omega arith);
  stopped = λ a. absurd (omega arith);
}
skip_up-IsFirst (suc fuel) limit levels best below enough = elim (Bool-cases (ltb best limit)) [
  | inr e ↦ rw e (record {
    from = omega arith;
    upto = below;
    skipped = λ p a b. absurd (omega arith);
    stopped = λ a. ground arith;
  })
  | inl e ↦ elim (Bool-cases (vacant (levels best))) [
    | inr f ↦
        rw (e, f)
          (record {
            from = omega arith;
            upto = below;
            skipped = λ p a b. absurd (omega arith);
            stopped = λ a. f;
          })
    | inl f ↦
        rw (e, f)
          (later f (skip_up-IsFirst fuel limit levels (best + 1) (ground arith) (omega arith)))
  ]
]
  where
    later :
        {r : Price}
        → vacant (levels best) ≡ true
        → IsFirst levels (best + 1) limit r
        → IsFirst levels best limit r
    later f rest = record {
      from = omega (arith, rest.from);
      upto = rest.upto;
      skipped =
          λ p a b. ground (arith, rest.skipped p, ap (λ q. vacant (levels q)) {x = p} {y = best});
      stopped = rest.stopped;
    }

pub skip_down-IsLast :
    (levels : Price → PriceLevel) (best : Price) → IsLast levels best (skip_down levels best)
unfolding skip_down
skip_down-IsLast levels zero = record {
  upto = omega arith;
  skipped = λ p a b. absurd (omega arith);
  stopped = λ a. absurd (omega arith);
}
skip_down-IsLast levels (suc best) = elim (Bool-cases (vacant (levels (suc best)))) [
  | inl e ↦ rw e (later e (skip_down-IsLast levels best))
  | inr e ↦
      rw e
        (record { upto = omega arith; skipped = λ p a b. absurd (omega arith); stopped = λ a. e })
]
  where
    later :
        {r : Price}
        → vacant (levels (suc best)) ≡ true
        → IsLast levels best r
        → IsLast levels (suc best) r
    later e rest = record {
      upto = omega (arith, rest.upto);
      skipped = λ p a b.
          ground (arith, rest.skipped p, ap (λ q. vacant (levels q)) {x = p} {y = suc best});
      stopped = rest.stopped;
    }

module _ (z : Sizes) where
  -- `update_best_bid` moves the best bid down to the first level from there on that holds an order,
  -- or to price 0 if there is none; it passes over empty levels only.
  pub update_best-IsLast : (h : BookSide) → IsLast h.levels h.best (update_best_bid z h).best
  unfolding update_best_bid
  update_best-IsLast h = skip_down-IsLast h.levels h.best

  -- From a best ask in range, `update_best_ask` moves it up to the first level from there on that
  -- holds an order, or to the last price if there is none; it passes over empty levels only.
  pub update_best-IsFirst :
      (h : BookSide)
      → h.best < z.max_price_levels
      → IsFirst h.levels h.best (z.max_price_levels - 1) (update_best_ask z h).best
  unfolding update_best_ask
  update_best-IsFirst h inside =
      skip_up-IsFirst (z.max_price_levels - 1 - h.best) (z.max_price_levels - 1) h.levels h.best
        (omega arith) (omega arith)

  -- Wherever the best ask is, `update_best_ask` stops at the first level from there up that holds an
  -- order, or at the last price.
  pub update_best_ask-IsFirst :
      (h : BookSide)
      → IsFirst h.levels h.best (max h.best (z.max_price_levels - 1)) (update_best_ask z h).best
  unfolding update_best_ask skip_up
  update_best_ask-IsFirst h = elim (Bool-cases (ltb h.best (z.max_price_levels - 1))) [
    | inl e ↦
        subst (λ n. IsFirst h.levels h.best n (update_best_ask z h).best) (ground (arith, e))
          (update_best-IsFirst h (ground (arith, e)))
    | inr e ↦
        let stays : skip_up (last - h.best) last h.levels h.best ≡ h.best =
          ap (λ n. skip_up n last h.levels h.best) {y = 0} (ground (arith, e)) in
        subst (IsFirst h.levels h.best (max h.best last)) (sym stays) (record {
          from = omega arith;
          upto = ground arith;
          skipped = λ p a b. absurd (omega arith);
          stopped = λ a. absurd (ground (arith, e));
        })
  ]
    where
      last : Price
      last = z.max_price_levels - 1
