-- ===== src/BoundedText/Cut.antt =====
-- The cut of a text on a rune boundary (internal/boundedtext/boundedtext.go). A text is the list of its
-- bytes.
use kanban_store.Prelude.{
  ℕ, zero, suc, ◌-◌, Bool, true, ◌&&◌, not, List, [], ◌∷◌, ◌++◌, Option, none, some, leb, length,
  if◌then◌else◌,
}

-- valueLimit
abbrev pub value_limit : ℕ
value_limit = 60

-- errorLimit
abbrev pub error_limit : ℕ
error_limit = 80

-- `"…"`
abbrev pub ellipsis : List ℕ
ellipsis = 226 ∷ 128 ∷ 166 ∷ []

-- utf8.RuneStart: `b&0xC0 != 0x80`
abbrev pub rune_start : ℕ → Bool
rune_start b = not (leb 128 b && leb b 191)

-- Whether `s[end]` starts a rune; the cut asks only for indexes that the text has.
unfoldable pub starts_at : List ℕ → ℕ → Bool
starts_at [] i = true
starts_at (b ∷ bytes) zero = rune_start b
starts_at (b ∷ bytes) (suc i) = starts_at bytes i

-- `for end > 0 && !utf8.RuneStart(s[end])`
unfoldable pub back_to_start : List ℕ → ℕ → ℕ
back_to_start bytes zero = zero
back_to_start bytes (suc end) =
    let rest = back_to_start bytes end in if starts_at bytes (suc end) then suc end else rest

unfoldable pub prefix : ℕ → List ℕ → List ℕ
prefix zero bytes = []
prefix (suc n) [] = []
prefix (suc n) (b ∷ bytes) = b ∷ prefix n bytes

-- cut, of a limit that is not negative
unfoldable pub cut : List ℕ → ℕ → List ℕ
cut bytes limit =
    if leb (length bytes) limit
    then bytes
    else if leb limit 3
    then ellipsis
    else prefix (back_to_start bytes (limit - 3)) bytes ++ ellipsis

-- Value
unfoldable pub value : List ℕ → List ℕ
value bytes = cut bytes value_limit

-- ErrorMessage, of an error's message or nil
unfoldable pub error_message : Option (List ℕ) → List ℕ
error_message none = []
error_message (some message) = cut message error_limit
