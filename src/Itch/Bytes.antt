-- ===== src/Itch/Bytes.antt =====
-- Big-endian fields, read from and written to a buffer of bytes at an offset. A buffer is the list of
-- the bytes from a pointer on.
use lock_free_limit_order_bo.Prelude.{
  ℕ, zero, suc, ◌+◌, ◌*◌, ◌/◌, ◌%◌, ◌^◌, List, [], ◌∷◌, get_or, set, ◌==◌, if◌then◌else◌,
}

abbrev pub byte : List ℕ → ℕ → ℕ
byte p i = get_or p i 0

-- A shifted byte is a multiple of a power of two; the lanes of the bytes do not overlap, so `|` is
-- their sum.
unfoldable pub be16 : List ℕ → ℕ → ℕ
be16 p i = byte p i * 2 ^ 8 + byte p (i + 1)

unfoldable pub be32 : List ℕ → ℕ → ℕ
be32 p i = byte p i * 2 ^ 24 + byte p (i + 1) * 2 ^ 16 + byte p (i + 2) * 2 ^ 8 + byte p (i + 3)

unfoldable pub be48 : List ℕ → ℕ → ℕ
be48 p i =
    byte p i * 2 ^ 40
    + byte p (i + 1) * 2 ^ 32
    + byte p (i + 2) * 2 ^ 24
    + byte p (i + 3) * 2 ^ 16
    + byte p (i + 4) * 2 ^ 8
    + byte p (i + 5)

unfoldable pub be64 : List ℕ → ℕ → ℕ
be64 p i =
    byte p i * 2 ^ 56
    + byte p (i + 1) * 2 ^ 48
    + byte p (i + 2) * 2 ^ 40
    + byte p (i + 3) * 2 ^ 32
    + byte p (i + 4) * 2 ^ 24
    + byte p (i + 5) * 2 ^ 16
    + byte p (i + 6) * 2 ^ 8
    + byte p (i + 7)

-- `for (int i = 7; i >= 0 && dst9[i] == ' '; --i) dst9[i] = '\0';`, with `i + 1` for `i`.
unfoldable pub trim : ℕ → List ℕ → List ℕ
trim zero dst = dst
trim (suc i) dst = if byte dst i == b' ' then trim i (set dst i 0) else dst

unfoldable pub parse_stock : List ℕ → ℕ → List ℕ
unfolding trim
parse_stock src i = trim 8 (
    byte src i
    ∷ byte src (i + 1)
    ∷ byte src (i + 2)
    ∷ byte src (i + 3)
    ∷ byte src (i + 4)
    ∷ byte src (i + 5)
    ∷ byte src (i + 6)
    ∷ byte src (i + 7)
    ∷ 0
    ∷ [])

-- `(v >> s) & 0xFF`
abbrev pub lane : ℕ → ℕ → ℕ
lane v s = v / 2 ^ s % 2 ^ 8

unfoldable pub put16 : List ℕ → ℕ → ℕ → List ℕ
put16 p i v = set (set p i (lane v 8)) (i + 1) (v % 2 ^ 8)

unfoldable pub put32 : List ℕ → ℕ → ℕ → List ℕ
put32 p i v =
    set (set (set (set p i (lane v 24)) (i + 1) (lane v 16)) (i + 2) (lane v 8)) (i + 3) (v % 2 ^ 8)

unfoldable pub put48 : List ℕ → ℕ → ℕ → List ℕ
put48 p i v =
    set
      (set
        (set (set (set (set p i (lane v 40)) (i + 1) (lane v 32)) (i + 2) (lane v 24)) (i + 3)
          (lane v 16))
        (i + 4) (lane v 8))
      (i + 5) (v % 2 ^ 8)

unfoldable pub put64 : List ℕ → ℕ → ℕ → List ℕ
put64 p i v =
    set
      (set
        (set
          (set
            (set (set (set (set p i (lane v 56)) (i + 1) (lane v 48)) (i + 2) (lane v 40)) (i + 3)
              (lane v 32))
            (i + 4) (lane v 24))
          (i + 5) (lane v 16))
        (i + 6) (lane v 8))
      (i + 7) (v % 2 ^ 8)

-- The character of a symbol at a place, or the space that fills the field.
abbrev pub padded : List ℕ → ℕ → ℕ
padded sym j = get_or sym j b' '

-- Eight spaces, over which up to eight characters of the symbol are copied.
unfoldable pub put_stock : List ℕ → ℕ → List ℕ → List ℕ
put_stock p i sym =
    set
      (set
        (set
          (set
            (set (set (set (set p i (padded sym 0)) (i + 1) (padded sym 1)) (i + 2) (padded sym 2))
              (i + 3) (padded sym 3))
            (i + 4) (padded sym 4))
          (i + 5) (padded sym 5))
        (i + 6) (padded sym 6))
      (i + 7) (padded sym 7)
