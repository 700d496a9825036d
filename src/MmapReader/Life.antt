-- ===== src/MmapReader/Life.antt =====
-- Readers that are made, moved and destroyed.
use lock_free_limit_order_bo.Prelude.{
  ℕ, zero, suc, ◌+◌, ◌≡◌, ◌∙◌, refl, ap, sym, arith, Bool, false, List, [], ◌∷◌, ◌++◌, ◌==◌, ◌&&◌,
  if◌then◌else◌,
}
use lock_free_limit_order_bo.MmapReader.{
  SysCall, opened, mapped, unmapped, closed, Answers, MmapReader, made, threw, Constructed,
  construct, map_file, open_fd, destroy, moved_from,
}

-- What the owner of some readers does: make another by moving from the reader at a place, or end the
-- life of the one at a place. Where there is no reader, nothing is done.
pub data Action : Type 0 where
  move : ℕ → Action
  end_life : ℕ → Action

abbrev pub move_at : ℕ → List MmapReader → List MmapReader
move_at i [] = []
move_at zero (r ∷ rs) = r ∷ moved_from ∷ rs
move_at (suc i) (r ∷ rs) = r ∷ move_at i rs

abbrev pub end_at : ℕ → List MmapReader → List MmapReader × List SysCall
end_at i [] = ([], [])
end_at zero (r ∷ rs) = (rs, destroy r)
end_at (suc i) (r ∷ rs) = let (rs', calls) = end_at i rs in (r ∷ rs', calls)

-- The readers left, and the calls made.
abbrev pub run : List Action → List MmapReader → List MmapReader × List SysCall
run [] rs = (rs, [])
run (move i ∷ as') rs = run as' (move_at i rs)
run (end_life i ∷ as') rs =
    let (rs', calls) = end_at i rs in let (rs'', more) = run as' rs' in (rs'', calls ++ more)

-- How often a call of a kind occurs.
abbrev pub count : (SysCall → Bool) → List SysCall → ℕ
count p [] = 0
count p (c ∷ cs) = (if p c then 1 else 0) + count p cs

abbrev pub closes : ℕ → SysCall → Bool
closes fd (closed fd') = fd' == fd
closes fd _ = false

abbrev pub opens : ℕ → SysCall → Bool
opens fd (opened fd') = fd' == fd
opens fd _ = false

abbrev pub unmaps : ℕ → ℕ → SysCall → Bool
unmaps a n (unmapped a' n') = (a' == a) && (n' == n)
unmaps a n _ = false

abbrev pub maps : ℕ → ℕ → SysCall → Bool
maps a n (mapped a' n') = (a' == a) && (n' == n)
maps a n _ = false

-- The calls that destroying every reader would make.
abbrev pending : List MmapReader → List SysCall
pending [] = []
pending (r ∷ rs) = destroy r ++ pending rs

module _ (p : SysCall → Bool) where
  count-append : (xs ys : List SysCall) → count p (xs ++ ys) ≡ count p xs + count p ys
  count-append [] ys = omega arith
  count-append (x ∷ xs) ys = omega (arith, count-append xs ys)

  count-move_at :
      (i : ℕ) (rs : List MmapReader) → count p (pending (move_at i rs)) ≡ count p (pending rs)
  unfolding destroy
  count-move_at i [] = refl
  count-move_at zero (r ∷ rs) = refl
  count-move_at (suc i) (r ∷ rs) = omega (
    arith,
    count-append (destroy r) (pending (move_at i rs)),
    count-append (destroy r) (pending rs),
    count-move_at i rs,
  )

  count-end_at :
      (i : ℕ) (rs : List MmapReader)
      → let (rs', calls) = end_at i rs in
        count p calls + count p (pending rs') ≡ count p (pending rs)
  count-end_at i [] = refl
  count-end_at zero (r ∷ rs) = sym (count-append (destroy r) (pending rs))
  count-end_at (suc i) (r ∷ rs) = omega (
    arith,
    count-append (destroy r) (pending (end_at i rs).0),
    count-append (destroy r) (pending rs),
    count-end_at i rs,
  )

  -- Every call that was pending is made once or still pending.
  count-run :
      (as' : List Action) (rs : List MmapReader)
      → let (rs', calls) = run as' rs in
        count p calls + count p (pending rs') ≡ count p (pending rs)
  count-run [] rs = omega arith
  count-run (move i ∷ as') rs = count-run as' (move_at i rs) ∙ count-move_at i rs
  count-run (end_life i ∷ as') rs =
      let (rs', calls) = end_at i rs in
      omega (arith, count-append calls (run as' rs').1, count-end_at i rs, count-run as' rs')

-- The reader that a constructor made, if it did not throw.
abbrev pub readers : Constructed → List MmapReader
readers (made r) = r ∷ []
readers (threw e) = []

-- The readers left, and the calls made, when a reader is constructed and the actions follow.
abbrev pub life : Answers → List Action → List MmapReader × List SysCall
life a as' = let (rs, calls) = run as' (readers (construct a).0) in (rs, (construct a).1 ++ calls)

-- The constructor makes each call together with its counterpart, or leaves that to the reader.
construct-balanced :
    (a : Answers) (fd q n : ℕ)
    → let rs = readers (construct a).0 in
      let calls = (construct a).1 in
      (count (closes fd) calls + count (closes fd) (pending rs) ≡ count (opens fd) calls)
      × (count (unmaps q n) calls + count (unmaps q n) (pending rs) ≡ count (maps q n) calls)
unfolding construct open_fd map_file destroy
construct-balanced a fd q n = ground arith

destroy-no_opens :
    (r : MmapReader) (fd q n : ℕ)
    → (count (opens fd) (destroy r) ≡ 0) × (count (maps q n) (destroy r) ≡ 0)
unfolding destroy
destroy-no_opens r fd q n = ground arith

no_opens :
    (rs : List MmapReader) (fd q n : ℕ)
    → (count (opens fd) (pending rs) ≡ 0) × (count (maps q n) (pending rs) ≡ 0)
no_opens [] fd q n = (refl, refl)
no_opens (r ∷ rs) fd q n = omega (
  arith,
  count-append (opens fd) (destroy r) (pending rs),
  count-append (maps q n) (destroy r) (pending rs),
  destroy-no_opens r fd q n,
  no_opens rs fd q n,
)

-- Whatever the system answers to the constructor, and however the reader that it makes, if it makes
-- one, is moved from and to: once no reader is left, each descriptor has been closed as often as it
-- was opened, and each mapping undone, with its size, as often as it was made.
pub life-released :
    (a : Answers) (as' : List Action) (fd q n : ℕ)
    → (life a as').0 ≡ []
    → let calls = (life a as').1 in
      (count (closes fd) calls ≡ count (opens fd) calls)
      × (count (unmaps q n) calls ≡ count (maps q n) calls)
life-released a as' fd q n over =
    let rs = readers (construct a).0 in
    let calls = (run as' rs).1 in
    let none_left = ap pending over in
    let (c, m) = construct-balanced a fd q n in
    let (o, w) = no_opens rs fd q n in
    (
      omega (
        arith,
        c,
        o,
        count-append (closes fd) (construct a).1 calls,
        count-append (opens fd) (construct a).1 calls,
        count-run (closes fd) as' rs,
        count-run (opens fd) as' rs,
        ap (count (closes fd)) none_left,
      ),
      omega (
        arith,
        m,
        w,
        count-append (unmaps q n) (construct a).1 calls,
        count-append (maps q n) (construct a).1 calls,
        count-run (unmaps q n) as' rs,
        count-run (maps q n) as' rs,
        ap (count (unmaps q n)) none_left,
      ),
    )
