-- ===== src/PriceLevel/Remove.antt =====
-- `PriceLevel::remove` on a level that stands for a list of orders.
use mathlib.Core.Path.{subst₂}
use lock_free_limit_order_bo.Prelude.{
  ◌<◌, ◌≡◌, refl, none, some, List, [], ◌∷◌, ◌++◌, arith, length-append, ap, ◌∙◌, sym, subst,
}
use lock_free_limit_order_bo.Prelude.Words.{u32_mod}
use lock_free_limit_order_bo.Prelude.Members.{
  Distinct, Distinct-drop, Distinct-split, has-append, ◌∈◌, ◌∉◌,
}
use lock_free_limit_order_bo.Order.{Ref, Ptr, Cells, set_next}
use lock_free_limit_order_bo.PriceLevel.{PriceLevel, remove, unlink_prev, unlink_next}
use lock_free_limit_order_bo.PriceLevel.Chain.{
  Chain, nil, cons, Chain-frame, Chain-join, Chain-split, relink_last, relink_first,
}
use lock_free_limit_order_bo.PriceLevel.Valid.{Frame, shares-append, IsLevel}

-- The orders in front of `o` lead past it.
record Front (c : Cells) (l : PriceLevel) (o : Ref) (ys : List Ref) (out : Cells × PriceLevel)
    : Type 0 where
  chain : Chain out.0 none out.1.head ys (c.prev o) (c.next o)
  same_order : out.0.order ≡ c.order
  same_prev : out.0.prev ≡ c.prev
  same_next : (a : Ref) → a ∉ ys → out.0.next a ≡ c.next a
  same_tail : out.1.tail ≡ l.tail
  same_count : out.1.count ≡ l.count
  same_total : out.1.total_quantity ≡ l.total_quantity

-- The orders behind `o` lead back past it.
record Back (c : Cells) (l : PriceLevel) (o : Ref) (zs : List Ref) (out : Cells × PriceLevel)
    : Type 0 where
  chain : Chain out.0 (c.prev o) (c.next o) zs out.1.tail none
  same_order : out.0.order ≡ c.order
  same_next : out.0.next ≡ c.next
  same_prev : (a : Ref) → a ∉ zs → out.0.prev a ≡ c.prev a
  same_head : out.1.head ≡ l.head
  same_count : out.1.count ≡ l.count
  same_total : out.1.total_quantity ≡ l.total_quantity

module _ {c : Cells} {l : PriceLevel} {o : Ref} where
  unlink_prev-some :
      (t : Ref) {ys : List Ref}
      → c.prev o ≡ some t
      → t ∈ ys
      → Chain (set_next t (c.next o) c) none l.head ys (c.prev o) (c.next o)
      → Front c l o ys (unlink_prev o c l)
  unfolding unlink_prev
  unlink_prev-some t e i k =
      rw (e, unlink_prev)
        (record {
          chain = k;
          same_order = refl;
          same_prev = refl;
          same_next = ground arith;
          same_tail = refl;
          same_count = refl;
          same_total = refl;
        })

  unlink_prev-Front :
      (ys : List Ref)
      → Chain c none l.head ys (c.prev o) (some o)
      → Distinct ys
      → Front c l o ys (unlink_prev o c l)
  unfolding unlink_prev
  unlink_prev-Front [] (nil e f) d =
      rw (f, unlink_prev)
        (record {
          chain = nil refl f;
          same_order = refl;
          same_prev = refl;
          same_next = λ a out. refl;
          same_tail = refl;
          same_count = refl;
          same_total = refl;
        })
  unlink_prev-Front (y ∷ ys) k d =
      let (t, e, i, k') = relink_last (c.next o) ys d k in unlink_prev-some t e i k'

  unlink_next-Back :
      (zs : List Ref)
      → Chain c (some o) (c.next o) zs l.tail none
      → Distinct zs
      → Back c l o zs (unlink_next o c l)
  unfolding unlink_next
  unlink_next-Back [] (nil e f) d =
      rw (e, unlink_next)
        (record {
          chain = nil e refl;
          same_order = refl;
          same_next = refl;
          same_prev = λ a out. refl;
          same_head = refl;
          same_count = refl;
          same_total = refl;
        })
  unlink_next-Back (z ∷ zs) (cons e b r) d =
      rw (e, unlink_next)
        (record {
          chain = relink_first (c.prev o) d.0 (cons e b r);
          same_order = refl;
          same_next = refl;
          same_prev = ground arith;
          same_head = refl;
          same_count = refl;
          same_total = refl;
        })

-- The level after both walks, with `o` still linked.
record Unlinked (c : Cells) (l : PriceLevel) (o : Ref) (ys zs : List Ref) (out : Cells × PriceLevel)
    : Type 0 where
  front : Chain out.0 none out.1.head ys (c.prev o) (c.next o)
  back : Chain out.0 (c.prev o) (c.next o) zs out.1.tail none
  frame : Frame (ys ++ zs) o c out.0
  same_count : out.1.count ≡ l.count
  same_total : out.1.total_quantity ≡ l.total_quantity

module _ {c : Cells} {l : PriceLevel} {o : Ref} (ys zs : List Ref) where
  Front-Back-Unlinked :
      {g : Cells} {l' : PriceLevel}
      → o ∉ ys
      → ((a : Ref) → a ∈ ys → a ∉ zs)
      → Front c l o ys (g, l')
      → Back g l' o zs (unlink_next o g l')
      → Unlinked c l o ys zs (unlink_next o g l')
  Front-Back-Unlinked {g} {l'} out apart f b = record {
    front =
        subst (λ k. Chain h none k ys (c.prev o) (c.next o)) (sym b.same_head)
          (Chain-frame f.chain λ a i. (ap (λ k. k a) b.same_next, b.same_prev a (apart a i)));
    back =
        subst₂ (λ x y. Chain h x y zs past.1.tail none) (ap (λ k. k o) f.same_prev)
          (f.same_next o out) b.chain;
    frame = record {
      same_order = b.same_order ∙ f.same_order;
      same_next =
          λ a i ne. ap (λ k. k a) b.same_next ∙ f.same_next a (ground (arith, has-append a ys zs));
      same_prev =
          λ a i ne. b.same_prev a (ground (arith, has-append a ys zs)) ∙ ap (λ k. k a) f.same_prev;
    };
    same_count = b.same_count ∙ f.same_count;
    same_total = b.same_total ∙ f.same_total;
  }
    where
      past : Cells × PriceLevel
      past = unlink_next o g l'

      h : Cells
      h = past.0

  Front-Back :
      {g : Cells} {l' : PriceLevel}
      → o ∉ ys
      → ((a : Ref) → a ∈ ys → a ∉ zs)
      → Front c l o ys (g, l')
      → Chain c (some o) (c.next o) zs l.tail none
      → Distinct zs
      → Back g l' o zs (unlink_next o g l')
  Front-Back {g} out apart f r d =
      unlink_next-Back zs
        (subst₂ (λ j t. Chain g (some o) j zs t none) (sym (f.same_next o out)) (sym f.same_tail)
          (Chain-frame r
            λ a i. (f.same_next a (ground (arith, apart a)), ap (λ k. k a) f.same_prev)))
        d

  unlink-Unlinked :
      Chain c none l.head (ys ++ o ∷ zs) l.tail none
      → Distinct (ys ++ o ∷ zs)
      → let (g, l') = unlink_prev o c l in Unlinked c l o ys zs (unlink_next o g l')
  unlink-Unlinked k d = parts (Chain-split ys k) (Distinct-split ys (o ∷ zs) d)
    where
      parts :
          (m : Ptr) × (j : Ptr) × Chain c none l.head ys m j × Chain c m j (o ∷ zs) l.tail none
          → Distinct ys × Distinct (o ∷ zs) × ((a : Ref) → a ∈ ys → a ∉ o ∷ zs)
          → let (g, l') = unlink_prev o c l in Unlinked c l o ys zs (unlink_next o g l')
      parts (m, j, a, cons e b r) (dy, dz, apart) =
          let front : Front c l o ys (unlink_prev o c l) =
            unlink_prev-Front ys (subst₂ (λ x y. Chain c none l.head ys x y) (sym b) e a) dy in
          let out : o ∉ ys = ground (arith, apart o) in
          let apart' : (x : Ref) → x ∈ ys → x ∉ zs = λ x i. ground (arith, apart x) in
          Front-Back-Unlinked out apart' front (Front-Back out apart' front r dz.1)

module _ {c : Cells} {l : PriceLevel} {o : Ref} (ys zs : List Ref) where
  -- `remove` of an order, with fewer than 2 ^ 32 shares left, from a level that stands for a list
  -- with it takes it out, keeps the others in their order, counts it and its shares out, leaves it
  -- with null links, and writes no link of an order outside the level.
  pub remove-IsLevel :
      IsLevel c l (ys ++ o ∷ zs)
      → (c.order o).remaining < u32_mod
      → let (c', l') = remove o c l in
        IsLevel c' l' (ys ++ zs) × Frame (ys ++ zs) o c c' × (c'.next o ≡ none) × (c'.prev o ≡ none)
  unfolding remove
  remove-IsLevel v small = (
    record {
      chain = Chain-frame (Chain-join past.front past.back) λ a i. ground (arith, less.1);
      distinct = less.0;
      counted =
          omega (arith, past.same_count, v.counted, length-append ys zs, length-append ys (o ∷ zs));
      totalled = rw past.frame.same_order (
          omega (
            arith,
            past.same_total,
            v.totalled,
            shares-append c.order ys zs,
            shares-append c.order ys (o ∷ zs),
          ));
    },
    record {
      same_order = past.frame.same_order;
      same_next = λ a i ne. ground (arith, past.frame.same_next a);
      same_prev = λ a i ne. ground (arith, past.frame.same_prev a);
    },
    ground arith,
    ground arith,
  )
    where
      past : let (g, l') = unlink_prev o c l in Unlinked c l o ys zs (unlink_next o g l')
      past = unlink-Unlinked ys zs v.chain v.distinct

      less : Distinct (ys ++ zs) × (o ∉ ys ++ zs)
      less = Distinct-drop ys o zs v.distinct
