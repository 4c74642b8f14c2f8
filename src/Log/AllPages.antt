-- ===== src/Log/AllPages.antt =====
-- Reading page after page (internal/db/activity.go, ListPlacementsByColumnMatching).
use kanban_store.Prelude.{
  ℕ, zero, suc, ◌+◌, ◌*◌, ◌≤◌, String, Bool, List, [], ◌∷◌, ◌++◌, keep, length, ◌≡◌, refl, sym, ap,
  ◌∙◌, arith, Bool-cases, inl, inr,
}
use kanban_store.Prelude.Sort.{sort_stable, insert_sorted}
use kanban_store.Boards.Tables.{Floats, Placement}
use kanban_store.Tickets.Rows.{at_most}
use kanban_store.Log.Pages.{
  CardFilter, FilterTables, skip, page_of, stored_before, in_column, count_column_cards_matching,
  list_placements_by_column_matching,
}

skip-nil : {A : Type 0} (n : ℕ) → skip {A = A} n [] ≡ []
unfolding skip
skip-nil zero = refl
skip-nil (suc n) = refl

skip-skip : {A : Type 0} (m n : ℕ) (rows : List A) → skip m (skip n rows) ≡ skip (m + n) rows
unfolding skip
skip-skip m zero rows = ap (λ k. skip k rows) (omega arith)
skip-skip m (suc n) [] = skip-nil m ∙ sym (skip-nil (m + suc n))
skip-skip m (suc n) (a ∷ rows) = skip-skip m n rows ∙ ap (λ k. skip k (a ∷ rows)) (plus_suc m n)
  where
    plus_suc : (m n : ℕ) → suc (m + n) ≡ m + suc n
    plus_suc m n = omega arith

at_most-skip : {A : Type 0} (n : ℕ) (rows : List A) → at_most n rows ++ skip n rows ≡ rows
unfolding at_most skip
at_most-skip zero rows = refl
at_most-skip (suc n) [] = refl
at_most-skip (suc n) (a ∷ rows) = ap (λ xs. a ∷ xs) (at_most-skip n rows)

skip-length : {A : Type 0} (n : ℕ) (rows : List A) → length rows ≤ n → skip n rows ≡ []
unfolding skip
skip-length zero [] h = refl
skip-length zero (a ∷ rows) h = absurd (omega arith)
skip-length (suc n) [] h = refl
skip-length (suc n) (a ∷ rows) h = skip-length n rows (omega arith)

insert_sorted-length :
    {A : Type 0} (less : A → A → Bool) (x : A) (ys : List A)
    → length (insert_sorted less x ys) ≡ suc (length ys)
unfolding insert_sorted
insert_sorted-length less x [] = refl
insert_sorted-length less x (y ∷ ys) = elim (Bool-cases (less y x)) [
  | inl e ↦ rw e (omega (arith, insert_sorted-length less x ys))
  | inr e ↦ rw e refl
]

sort_stable-length :
    {A : Type 0} (less : A → A → Bool) (xs : List A) → length (sort_stable less xs) ≡ length xs
unfolding sort_stable
sort_stable-length less [] = refl
sort_stable-length less (x ∷ xs) =
    omega (arith, insert_sorted-length less x (sort_stable less xs), sort_stable-length less xs)

module _ {F : Type 0} (floats : Floats F) (tables : FilterTables) (f : CardFilter)
    (column_id : String) (rows : List (Placement F)) where
  -- The pages of `limit` cards that a reader asks for one after the other, `count` of them
  unfoldable pub read_pages : (limit count offset : ℕ) → List (Placement F)
  read_pages limit zero offset = []
  read_pages limit (suc count) offset =
      list_placements_by_column_matching floats tables f column_id limit offset rows
      ++ read_pages limit count (limit + offset)

  abbrev whole : List (Placement F)
  whole = sort_stable (stored_before floats) (keep (in_column floats tables f column_id) rows)

  read_pages-skip :
      (limit count offset : ℕ)
      → length whole ≤ count * suc limit + offset
      → read_pages (suc limit) count offset ≡ skip offset whole
  unfolding read_pages list_placements_by_column_matching page_of
  read_pages-skip limit zero offset h = sym (skip-length offset whole (omega arith))
  read_pages-skip limit (suc count) offset h =
      ap (λ xs. at_most (suc limit) (skip offset whole) ++ xs)
        (read_pages-skip limit count (suc limit + offset) (omega arith)
          ∙ sym (skip-skip (suc limit) offset whole))
      ∙ at_most-skip (suc limit) (skip offset whole)

  -- Pages of at least one card, read one after the other until they cover the number of cards that
  -- the count gives, are together the column's whole filtered list, each card in its place once; and
  -- the count is the length of this list.
  pub read_pages-whole :
      (limit count : ℕ)
      → count_column_cards_matching floats tables f column_id rows ≤ count * suc limit
      → (read_pages (suc limit) count 0
          ≡ list_placements_by_column_matching floats tables f column_id 0 0 rows)
        × (count_column_cards_matching floats tables f column_id rows
            ≡ length (list_placements_by_column_matching floats tables f column_id 0 0 rows))
  unfolding list_placements_by_column_matching page_of count_column_cards_matching skip
  read_pages-whole limit count h =
      let same =
        sort_stable-length (stored_before floats)
          (keep (in_column floats tables f column_id) rows) in
      (read_pages-skip limit count 0 (omega (arith, same)), sym same)
