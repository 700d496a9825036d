-- ===== src/PriceLevel/Push.antt =====
-- `PriceLevel::push_back` on a level that stands for a list of orders.
use lock_free_limit_order_bo.Prelude.{
  ◌≡◌, refl, none, some, List, [], ◌∷◌, ◌++◌, arith, length-append,
}
use lock_free_limit_order_bo.Prelude.Members.{Distinct, Distinct-append, ◌∈◌, ◌∉◌}
use lock_free_limit_order_bo.Order.{Ref, Cells, set_next, set_prev}
use lock_free_limit_order_bo.PriceLevel.{PriceLevel, push_back, link_tail}
use lock_free_limit_order_bo.PriceLevel.Chain.{
  Chain, nil, cons, Chain-frame, Chain-join, relink_last,
}
use lock_free_limit_order_bo.PriceLevel.Valid.{Frame, shares-append, IsLevel}

-- The level after the links of `o` were set.
record Linked (c : Cells) (l : PriceLevel) (o : Ref) (xs : List Ref) (out : Cells × PriceLevel)
    : Type 0 where
  chain : Chain out.0 none out.1.head (xs ++ o ∷ []) (some o) none
  frame : Frame xs o c out.0
  same_count : out.1.count ≡ l.count
  same_total : out.1.total_quantity ≡ l.total_quantity

abbrev fresh : Cells → PriceLevel → Ref → Cells
fresh c l o = set_next o none (set_prev o l.tail c)

module _ {c : Cells} {l : PriceLevel} {o : Ref} {xs : List Ref} where
  tail-Linked :
      (t : Ref)
      → l.tail ≡ some t
      → t ∈ xs
      → o ∉ xs
      → Chain (set_next t (some o) (fresh c l o)) none l.head xs l.tail (some o)
      → Linked c l o xs (link_tail o (fresh c l o) l)
  unfolding link_tail
  tail-Linked t e i out k =
      let k' = rw e at k in
      rw e (record {
        chain = Chain-join k' (cons refl (ground arith) (nil (ground arith) refl));
        frame = record { same_order = refl; same_next = ground arith; same_prev = ground arith };
        same_count = refl;
        same_total = refl;
      })

module _ {c : Cells} {l : PriceLevel} {o : Ref} where
  link_tail-Linked :
      (xs : List Ref)
      → Chain c none l.head xs l.tail none
      → Distinct xs
      → o ∉ xs
      → Linked c l o xs (link_tail o (fresh c l o) l)
  unfolding link_tail
  link_tail-Linked [] (nil e f) d out = rw f (record {
    chain = cons refl (ground arith) (nil (ground arith) refl);
    frame = record { same_order = refl; same_next = ground arith; same_prev = ground arith };
    same_count = refl;
    same_total = refl;
  })
  link_tail-Linked (x ∷ xs) k d out =
      let k' = Chain-frame {g = fresh c l o} k (λ a i. ground arith) in
      let (t, e, i, k'') = relink_last (some o) xs d k' in tail-Linked t e i out k''

  -- `push_back` of an order that is not in the list a level stands for appends it as the newest,
  -- keeps the order of the others, counts it and its shares, and writes no link of an order outside
  -- the level.
  pub push_back-IsLevel :
      {xs : List Ref}
      → IsLevel c l xs
      → o ∉ xs
      → let (c', l') = push_back o c l in IsLevel c' l' (xs ++ o ∷ []) × Frame xs o c c'
  unfolding push_back
  push_back-IsLevel {xs} v out = (
    record {
      chain = linked.chain;
      distinct = Distinct-append xs (o ∷ []) v.distinct (ground arith) (λ a i. ground arith);
      counted = omega (arith, linked.same_count, v.counted, length-append xs (o ∷ []));
      totalled =
          rw linked.frame.same_order
            (omega (arith, linked.same_total, v.totalled, shares-append c.order xs (o ∷ [])));
    },
    linked.frame,
  )
    where
      linked : Linked c l o xs (link_tail o (fresh c l o) l)
      linked = link_tail-Linked xs v.chain v.distinct out
