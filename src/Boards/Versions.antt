-- ===== src/Boards/Versions.antt =====
-- No update of a board is lost.
use kanban_store.Prelude.{
  ℕ, ◌<◌, String, List, [], ◌∷◌, Option, none, some, ◌==◌, ◌≡◌, refl, sym, ap, ◌∙◌, arith,
  Bool-cases, Option-cases, inl, inr, find, update_where, is_some,
}
use kanban_store.Prelude.Text.{◌=?◌}
use kanban_store.Boards.Settings.{
  BoardRow, UpdateBoardRequest, BoardWrite, prepared, prepare_found, prepare_update, commit_update,
  is_version, changed_board, next_version,
}

-- The row that a write was made from, with a later version.
abbrev WasRead : String → List BoardRow → BoardWrite → Type 0
WasRead id rows w =
    (b : BoardRow) × (find (λ b. b.id =? id) rows ≡ some b)
    × (w.board.id ≡ b.id)
    × (w.previous ≡ b.updated_at)
    × (w.previous < w.board.updated_at)

next_version-later : (now previous : ℕ) → previous < next_version now previous
unfolding next_version
next_version-later now previous = ground arith

prepare_found-read :
    (now : ℕ) (req : UpdateBoardRequest) (expected : Option ℕ) (b : BoardRow) (w : BoardWrite)
    → prepare_found now req expected b ≡ prepared w
    → w ≡ record { previous = b.updated_at; board = changed_board now req b }
unfolding prepare_found
prepare_found-read now req none b w h = ground arith
prepare_found-read now req (some e) b w h = elim (Bool-cases (e == b.updated_at)) [
  | inl same ↦ ground arith
  | inr other ↦ absurd (ground arith)
]

prepare_update-read :
    (now : ℕ) (id : String) (req : UpdateBoardRequest) (expected : Option ℕ) (rows : List BoardRow)
    (w : BoardWrite)
    → prepare_update now id req expected rows ≡ prepared w
    → WasRead id rows w
unfolding prepare_update changed_board
prepare_update-read now id req expected rows w h =
    elim (Option-cases (find (λ b. b.id =? id) rows)) [
      | inl e ↦ absurd (ground arith)
      | inr (b, e) ↦
          let made = prepare_found-read now req expected b w (ground arith) in
          (
            b,
            e,
            ap (λ w. w.board.id) made,
            ap (λ w. w.previous) made,
            rw made (next_version-later now b.updated_at),
          )
    ]

no_version_left :
    (new : BoardRow) (id : String) (previous : ℕ) (rows : List BoardRow)
    → previous < new.updated_at
    → find (is_version id previous) (update_where (is_version id previous) (λ b. new) rows) ≡ none
unfolding find update_where
no_version_left new id previous [] h = refl
no_version_left new id previous (b ∷ rows) h = elim (Bool-cases (is_version id previous b)) [
  | inl e ↦ ground (arith, no_version_left new id previous rows h)
  | inr e ↦ ground (arith, no_version_left new id previous rows h)
]

commit_update-some :
    (w : BoardWrite) (rows after : List BoardRow)
    → commit_update w rows ≡ some after
    → after ≡ update_where (is_version w.board.id w.previous) (λ b. w.board) rows
unfolding commit_update
commit_update-some w rows after h =
    elim (Bool-cases (is_some (find (is_version w.board.id w.previous) rows))) [
      | inl e ↦ ground arith
      | inr e ↦ absurd (ground arith)
    ]

-- When one of two updates of a board that have read the same version has been written, the other is
-- refused on the table that it leaves, whatever it changes and whatever version its caller expected.
pub commit_update-refused :
    (now now' : ℕ) (id : String) (req req' : UpdateBoardRequest) (expected expected' : Option ℕ)
    (read rows after : List BoardRow) (w w' : BoardWrite)
    → prepare_update now id req expected read ≡ prepared w
    → prepare_update now' id req' expected' read ≡ prepared w'
    → commit_update w rows ≡ some after
    → commit_update w' after ≡ none
unfolding commit_update
commit_update-refused now now' id req req' expected expected' read rows after w w' first second
      done =
    let (b, e, ids, version, later) = prepare_update-read now id req expected read w first in
    let (b', e', ids', version', _) = prepare_update-read now' id req' expected' read w' second in
    let same_row : some b' ≡ some b = sym e' ∙ e in
    let same_id : w'.board.id ≡ w.board.id = ground arith in
    let same_version : w'.previous ≡ w.previous = ground arith in
    let none_left : find (is_version w'.board.id w'.previous) after ≡ none =
      rw (same_id, same_version, commit_update-some w rows after done)
        (no_version_left w.board w.board.id w.previous rows later) in
    rw (none_left, commit_update) refl
