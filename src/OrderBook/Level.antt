-- ===== src/OrderBook/Level.antt =====
-- The inner loop of `match`, on one level.
use lock_free_limit_order_bo.Prelude.{
  ℕ, zero, suc, ◌≤◌, ◌<◌, ◌≡◌, ◌≢◌, ◌⊎◌, true, false, none, some, refl, ap, ◌∙◌, arith, List, [],
  ◌∷◌, inl, inr, Bool-cases, subst, length,
}
use lock_free_limit_order_bo.Prelude.Words.{u32_mod}
use lock_free_limit_order_bo.Prelude.Members.{◌∉◌}
use lock_free_limit_order_bo.Order.{Ref, Price, Side, Cells, is_filled}
use lock_free_limit_order_bo.PriceLevel.{PriceLevel}
use lock_free_limit_order_bo.PriceLevel.Valid.{IsLevel}
use lock_free_limit_order_bo.PriceLevel.Chain.{nil, cons}
use lock_free_limit_order_bo.OrderBook.State.{Sizes, Book, own, passive, order_at}
use lock_free_limit_order_bo.OrderBook.Match.{fill_order, fill_level}
use lock_free_limit_order_bo.OrderBook.Sides.{opposite, passive-own}
use lock_free_limit_order_bo.OrderBook.Whole.{IsLoose, IsWhole}
use lock_free_limit_order_bo.OrderBook.Run.{Lists, Run, Run-refl, Run-trans}
use lock_free_limit_order_bo.OrderBook.Step.{fill_order-Run, best-fill_order, taken-out}

-- What the head of a level says of its list.
pub head-nil : {l : PriceLevel} (c : Cells) → IsLevel c l [] → l.head ≡ none
head-nil c v = elim v.chain [ nil e f ↦ e ]

pub head-cons :
    {l : PriceLevel} (c : Cells) {o : Ref} {zs : List Ref} → IsLevel c l (o ∷ zs) → l.head ≡ some o
head-cons c v = elim v.chain [ cons e f r ↦ e ]

pub List-cases : (xs : List Ref) → (xs ≡ []) ⊎ ((o : Ref) × (zs : List Ref) × (xs ≡ o ∷ zs))
List-cases [] = inl refl
List-cases (x ∷ xs) = inr (x, xs, refl)

module _ (z : Sizes) (read_cycles : ℕ → ℕ) (s : Side) (a : Ref) (p : Price) where
  fill_level-filled :
      (fuel : ℕ) (b : Book)
      → is_filled (order_at b a) ≡ true
      → fill_level z read_cycles fuel s p a b ≡ b
  unfolding fill_level
  fill_level-filled zero b e = refl
  fill_level-filled (suc fuel) b e = rw (fill_level, e) refl

  fill_level-empty :
      (fuel : ℕ) (b : Book)
      → ((passive s b).levels p).head ≡ none
      → fill_level z read_cycles fuel s p a b ≡ b
  unfolding fill_level
  fill_level-empty zero b e = refl
  fill_level-empty (suc fuel) b e = elim (Bool-cases (is_filled (order_at b a))) [
    | inl f ↦ rw (fill_level, f) refl
    | inr f ↦ rw (fill_level, f, e) refl
  ]

  fill_level-some :
      (fuel : ℕ) (b : Book) (o : Ref)
      → is_filled (order_at b a) ≡ false
      → ((passive s b).levels p).head ≡ some o
      → fill_level z read_cycles (suc fuel) s p a b
        ≡ fill_level z read_cycles fuel s p a (fill_order z read_cycles s p a o b)
  unfolding fill_level
  fill_level-some fuel b o f e = rw (fill_level, f, e) refl

  module _ (ps : List Price) (once : p ∉ ps) where
    -- The loop on one level, from `b` to `b'`.
    pub record Emptied (b : Book) (lists : Lists) (b' : Book) : Type 0 where
      pub lists_now : Lists
      pub free_now : List Ref
      pub run : Run z read_cycles s a (p ∷ ps) b lists b' lists_now free_now
      pub ended : ((order_at b' a).remaining ≡ 0) ⊎ (lists_now (opposite s) p ≡ [])
      pub best : (passive s b').best ≡ (passive s b).best

    stay-Emptied :
        {b : Book} {lists : Lists} {free : List Ref}
        → IsWhole z b lists free
        → IsLoose z.order_pool_size z.max_price_levels lists free a
        → ((order_at b a).remaining ≡ 0) ⊎ (lists (opposite s) p ≡ [])
        → Emptied b lists b
    stay-Emptied {lists} {free} v loose e = record {
      lists_now = lists;
      free_now = free;
      run = Run-refl z read_cycles s a (p ∷ ps) v loose;
      ended = e;
      best = refl;
    }

    -- What a loop of `n` rounds does from every book.
    abbrev Rounds : ℕ → Type 0
    Rounds n =
        (b : Book) (lists : Lists) (free : List Ref)
        → IsWhole z b lists free
        → IsLoose z.order_pool_size z.max_price_levels lists free a
        → (order_at b a).remaining < u32_mod
        → length (lists (opposite s) p) ≤ n
        → Emptied b lists (fill_level z read_cycles n s p a b)

    module _ (b : Book) {lists : Lists} {free : List Ref} (v : IsWhole z b lists free)
        (loose : IsLoose z.order_pool_size z.max_price_levels lists free a) where
      level_at :
          {xs : List Ref}
          → lists (opposite s) p ≡ xs
          → IsLevel b.pool.cells ((passive s b).levels p) xs
      level_at e =
          rw passive-own (
            subst (IsLevel b.pool.cells ((own (opposite s) b).levels p)) e (v.level (opposite s) p))

      idle-Emptied :
          (n : ℕ) → lists (opposite s) p ≡ [] → Emptied b lists (fill_level z read_cycles n s p a b)
      idle-Emptied n e =
          rw (fill_level-empty n b (head-nil b.pool.cells (level_at e)))
            (stay-Emptied v loose (inr e))

      one_more-Emptied :
          (n : ℕ) (o : Ref) (zs : List Ref)
          → Rounds n
          → lists (opposite s) p ≡ o ∷ zs
          → (order_at b a).remaining ≢ 0
          → (order_at b a).remaining < u32_mod
          → length zs ≤ n
          → Emptied b lists (fill_level z read_cycles (suc n) s p a b)
      one_more-Emptied n o zs rounds e ne small enough =
          let after = fill_order z read_cycles s p a o b in
          let r = fill_order-Run z read_cycles s a o p ps zs v loose small ne e once in
          let same_best = best-fill_order z read_cycles s a o p ps zs v loose small ne e once in
          let out = taken-out z read_cycles s a o p ps zs v loose small ne e once in
          rw (fill_level-some n b o (ground arith) (head-cons b.pool.cells (level_at e)))
            (elim (Bool-cases (is_filled (order_at after a))) [
              | inl g ↦ rw (fill_level-filled n after g) (record {
                lists_now = _;
                free_now = _;
                run = r;
                ended = inl (ground arith);
                best = same_best;
              })
              | inr g ↦
                  let rest =
                    rounds after _ _ r.whole r.loose (omega (arith, r.shrunk))
                      (omega (arith, ap length (out (ground arith)))) in
                  record {
                    lists_now = rest.lists_now;
                    free_now = rest.free_now;
                    run = Run-trans z read_cycles s a (p ∷ ps) r rest.run;
                    ended = rest.ended;
                    best = rest.best ∙ same_best;
                  }
            ])

    -- With a round for each order of the level, the loop ends with the order filled or the level empty.
    pub fill_level-Emptied : (n : ℕ) → Rounds n
    fill_level-Emptied zero b lists free v loose small enough =
        elim (List-cases (lists (opposite s) p)) [
          | inl e ↦ idle-Emptied b v loose zero e
          | inr (o, zs, e) ↦ absurd (omega (arith, ap length e))
        ]
    fill_level-Emptied (suc n) b lists free v loose small enough =
        elim (List-cases (lists (opposite s) p)) [
          | inl e ↦ idle-Emptied b v loose (suc n) e
          | inr (o, zs, e) ↦ elim (Bool-cases (is_filled (order_at b a))) [
            | inl f ↦ rw (fill_level-filled (suc n) b f) (stay-Emptied v loose (inl (ground arith)))
            | inr f ↦
                one_more-Emptied b v loose n o zs (fill_level-Emptied n) e (ground arith) small
                  (omega (arith, ap length e))
          ]
        ]
