-- ===== src/Itch/Stock.antt =====
-- The stock field: what the parser reads of the symbol that a builder writes.
use lock_free_limit_order_bo.Prelude.{
  ℕ, ◌≡◌, refl, ap, sym, ◌∙◌, arith, Bool, true, ◌&&◌, ◌==◌, List, [], ◌∷◌, ◌++◌, take,
  if◌then◌else◌,
}
use lock_free_limit_order_bo.Itch.Bytes.{padded, put_stock, parse_stock, trim}

abbrev eight_spaces : List ℕ
eight_spaces = b' ' ∷ b' ' ∷ b' ' ∷ b' ' ∷ b' ' ∷ b' ' ∷ b' ' ∷ b' ' ∷ []

abbrev all_spaces : List ℕ → Bool
all_spaces [] = true
all_spaces (x ∷ xs) = (x == b' ') && all_spaces xs

-- The spaces at the end are null bytes instead.
abbrev without_padding : List ℕ → List ℕ
without_padding [] = []
without_padding (x ∷ xs) = (if all_spaces (x ∷ xs) then 0 else x) ∷ without_padding xs

-- The first eight characters of a symbol, or all that it has; then null bytes, nine in all. Spaces at
-- the end of the eight are null bytes too.
abbrev pub stock_field : List ℕ → List ℕ
stock_field symbol = without_padding (take 8 (symbol ++ eight_spaces)) ++ 0 ∷ []

abbrev eight : List ℕ → List ℕ
eight symbol =
    padded symbol 0
    ∷ padded symbol 1
    ∷ padded symbol 2
    ∷ padded symbol 3
    ∷ padded symbol 4
    ∷ padded symbol 5
    ∷ padded symbol 6
    ∷ padded symbol 7
    ∷ []

take-eight : (symbol : List ℕ) → take 8 (symbol ++ eight_spaces) ≡ eight symbol
take-eight [] = refl
take-eight (a ∷ []) = refl
take-eight (a ∷ b ∷ []) = refl
take-eight (a ∷ b ∷ c ∷ []) = refl
take-eight (a ∷ b ∷ c ∷ d ∷ []) = refl
take-eight (a ∷ b ∷ c ∷ d ∷ e ∷ []) = refl
take-eight (a ∷ b ∷ c ∷ d ∷ e ∷ f ∷ []) = refl
take-eight (a ∷ b ∷ c ∷ d ∷ e ∷ f ∷ g ∷ []) = refl
take-eight (a ∷ b ∷ c ∷ d ∷ e ∷ f ∷ g ∷ h ∷ symbol) = refl

trim-eight :
    (a b c d e f g h : ℕ)
    → trim 8 (a ∷ b ∷ c ∷ d ∷ e ∷ f ∷ g ∷ h ∷ 0 ∷ [])
      ≡ without_padding (a ∷ b ∷ c ∷ d ∷ e ∷ f ∷ g ∷ h ∷ []) ++ 0 ∷ []
unfolding trim
trim-eight a b c d e f g h = ground arith

-- The parser reads the field that a builder wrote.
pub parse_stock-put_stock :
    (symbol : List ℕ)
    → parse_stock (put_stock (0 ∷ 0 ∷ 0 ∷ 0 ∷ 0 ∷ 0 ∷ 0 ∷ 0 ∷ []) 0 symbol) 0 ≡ stock_field symbol
unfolding parse_stock put_stock
parse_stock-put_stock symbol =
    trim-eight (padded symbol 0) (padded symbol 1) (padded symbol 2) (padded symbol 3)
      (padded symbol 4) (padded symbol 5) (padded symbol 6) (padded symbol 7)
    ∙ ap (λ l. without_padding l ++ 0 ∷ []) (sym (take-eight symbol))
