-- ===== src/Classification/Counted.antt =====
-- The revisions of each board are counted from 1, and a table of them is a history that is only
-- appended to (internal/db/classification.go).
use kanban_store.Prelude.{
  ℕ, suc, ◌+◌, ◌<◌, String, true, false, List, [], ◌∷◌, ◌++◌, Option, none, some, map, keep,
  keep-append, length, ◌≡◌, refl, sym, ap, ◌∙◌, arith, Bool-cases, inl, inr, length-map, map-append,
  append_nil,
}
use kanban_store.Prelude.Text.{◌=?◌, text_eq_refl, text_eq_iff}
use kanban_store.Classification.Records.{Revision}
use kanban_store.Classification.Revisions.{newest, current, number, of_board, later}

module _ {A : Type 0} where
  -- `n`, `n + 1` and so on
  abbrev pub CountFrom : ℕ → List (Revision A) → Type 0
  CountFrom n [] = Unit
  CountFrom n (x ∷ xs) = (x.revision ≡ n) × CountFrom (suc n) xs

  later-number :
      (r : Revision A) (o : Option (Revision A))
      → r.revision < number o
      → number (later r o) ≡ number o
  later-number r none h = absurd (omega arith)
  later-number r (some s) h = ground arith

  newest-number :
      (n : ℕ) (r : Revision A) (rows : List (Revision A))
      → CountFrom n (r ∷ rows)
      → suc (number (newest (r ∷ rows))) ≡ n + length (r ∷ rows)
  unfolding newest
  newest-number n r [] h = omega (arith, h.0)
  newest-number n r (s ∷ rows) h =
      let rest : suc (number (newest (s ∷ rows))) ≡ suc n + length (s ∷ rows) =
        newest-number (suc n) s rows h.1 in
      let older : r.revision < number (newest (s ∷ rows)) = omega (arith, h.0) in
      omega (arith, later-number r (newest (s ∷ rows)) older)

  CountFrom-append :
      (n : ℕ) (rows : List (Revision A)) (r : Revision A)
      → CountFrom n rows
      → r.revision ≡ n + length rows
      → CountFrom n (rows ++ (r ∷ []))
  CountFrom-append n [] r h e = (omega (arith, e), tt)
  CountFrom-append n (s ∷ rows) r h e =
      (h.0, CountFrom-append (suc n) rows r h.1 (omega (arith, e)))

  -- The revisions of every board are 1, 2 and so on, in the order in which they were added.
  abbrev pub IsCounted : List (Revision A) → Type 0
  IsCounted rows = (board_id : String) → CountFrom 1 (keep (of_board board_id) rows)

  newest-length : (rows : List (Revision A)) → CountFrom 1 rows → number (newest rows) ≡ length rows
  unfolding newest
  newest-length [] h = refl
  newest-length (r ∷ rows) h = omega (arith, newest-number 1 r rows h)

  pub current-length :
      (rows : List (Revision A)) (board_id : String)
      → IsCounted rows
      → number (current rows board_id) ≡ length (keep (of_board board_id) rows)
  unfolding current
  current-length rows board_id h = newest-length (keep (of_board board_id) rows) (h board_id)

  pub keep-added :
      (rows : List (Revision A)) (r : Revision A) (board_id : String)
      → (r.board_id =? board_id) ≡ true
      → keep (of_board board_id) (rows ++ (r ∷ [])) ≡ keep (of_board board_id) rows ++ (r ∷ [])
  unfolding keep
  keep-added rows r board_id e = keep-append (of_board board_id) rows (r ∷ []) ∙ rw e refl

  pub keep-other :
      (rows : List (Revision A)) (r : Revision A) (board_id : String)
      → (r.board_id =? board_id) ≡ false
      → keep (of_board board_id) (rows ++ (r ∷ [])) ≡ keep (of_board board_id) rows
  unfolding keep
  keep-other rows r board_id e =
      keep-append (of_board board_id) rows (r ∷ [])
      ∙ rw e (append_nil (keep (of_board board_id) rows))

  pub IsCounted-added :
      (rows : List (Revision A)) (r : Revision A)
      → r.revision ≡ suc (number (current rows r.board_id))
      → IsCounted rows
      → IsCounted (rows ++ (r ∷ []))
  IsCounted-added rows r e h board_id = elim (Bool-cases (r.board_id =? board_id)) [
    | inl same ↦
        let there : r.board_id ≡ board_id = (text_eq_iff r.board_id board_id).0 same in
        rw (keep-added rows r board_id same) (
          CountFrom-append 1 (keep (of_board board_id) rows) r (h board_id) (
            omega
              (arith, e, ap (λ b. number (current rows b)) there, current-length rows board_id h)))
    | inr other ↦ rw (keep-other rows r board_id other) (h board_id)
  ]

  -- What a board has had, the oldest first
  unfoldable pub history : List (Revision A) → String → List A
  history rows board_id = map (λ r. r.content) (keep (of_board board_id) rows)

  pub history-length :
      (rows : List (Revision A)) (board_id : String)
      → IsCounted rows
      → length (history rows board_id) ≡ number (current rows board_id)
  unfolding history
  history-length rows board_id h = length-map _ _ ∙ sym (current-length rows board_id h)

  pub history-added :
      (rows : List (Revision A)) (r : Revision A)
      → history (rows ++ (r ∷ [])) r.board_id ≡ history rows r.board_id ++ (r.content ∷ [])
  unfolding history
  history-added rows r =
      ap (map (λ r. r.content)) (keep-added rows r r.board_id (text_eq_refl r.board_id))
      ∙ map-append (λ r. r.content) (keep (of_board r.board_id) rows) (r ∷ [])

  pub history-other :
      (rows : List (Revision A)) (r : Revision A) (board_id : String)
      → (r.board_id =? board_id) ≡ false
      → history (rows ++ (r ∷ [])) board_id ≡ history rows board_id
  unfolding history
  history-other rows r board_id e = ap (map (λ r. r.content)) (keep-other rows r board_id e)
