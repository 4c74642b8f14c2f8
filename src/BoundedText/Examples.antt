-- ===== src/BoundedText/Examples.antt =====
-- A cut text at a concrete input (internal/boundedtext/boundedtext.go): the second rune of the text has
-- three bytes, of which the limit would keep one.
use kanban_store.Prelude.{ℕ, ◌≤◌, List, [], ◌∷◌, leb, length, if◌then◌else◌, ◌≡◌, arith}
use kanban_store.BoundedText.Cut.{cut}
use kanban_store.BoundedText.CutBounds.{IsCut, cut-IsCut}

abbrev bytes : List ℕ
bytes = 65 ∷ 226 ∷ 130 ∷ 172 ∷ 66 ∷ 67 ∷ []

cut-IsCut_example :
    (length (cut bytes 5) ≤ 5)
    × (if leb (length bytes) 5 then cut bytes 5 ≡ bytes else IsCut bytes (cut bytes 5))
cut-IsCut_example = cut-IsCut bytes 5 (omega arith)
