-- ===== src/Boards/Effects.antt =====
-- What placing a card and moving it leaves in the table of placements.
use kanban_store.Prelude.{
  ℕ, String, Bool, true, false, ◌&&◌, not, List, [], ◌∷◌, Option, none, some, ◌≡◌, refl, sym, ◌∙◌,
  arith, Bool-cases, Option-cases, inl, inr, find, keep, find-append_none, if◌then◌else◌,
}
use kanban_store.Prelude.Text.{◌=?◌, text_eq_iff, text_eq_refl}
use kanban_store.Prelude.Found.{
  find-update_where, find-update_where_other, find-delete_other, find-insert_other, find-deleted,
}
use kanban_store.Boards.Tables.{
  Floats, Column, Placement, Tables, done, get_column, get_placement, at_key,
}
use kanban_store.Boards.Placing.{
  AttachCardRequest, MoveCardRequest, new_placement, write_placement, upsert_placement, attach_card,
  move_placement, move_card, detach_card,
}
use kanban_store.Boards.Consistency.{text_eq_trans, text_eq_sym}

-- The two pairs name the same card on the same board.
abbrev pub same_key : String → String → String → String → Bool
same_key card board card' board' = card =? card' && board =? board'

module _ {F : Type 0} where
  keys_apart :
      (card board card' board' : String) (p : Placement F)
      → same_key card board card' board' ≡ false
      → at_key card board p ≡ true
      → at_key card' board' p ≡ false
  keys_apart card board card' board' p other e = elim (Bool-cases (at_key card' board' p)) [
    | inl e' ↦
        let cards =
          text_eq_trans card p.card_id card' (text_eq_sym p.card_id card (ground arith))
            (ground arith) in
        let boards =
          text_eq_trans board p.board_id board' (text_eq_sym p.board_id board (ground arith))
            (ground arith) in
        absurd (ground arith)
    | inr e' ↦ e'
  ]

  at_key-write_placement :
      (card board column : String) (position : F) (now : ℕ) (p : Placement F)
      → at_key card board (write_placement column position now p) ≡ at_key card board p
  unfolding write_placement
  at_key-write_placement card board column position now p = refl

  find-here :
      (card board : String) (p : Placement F)
      → (p.card_id =? card) ≡ true
      → (p.board_id =? board) ≡ true
      → find (at_key card board) (p ∷ []) ≡ some p
  unfolding find
  find-here card board p h k = ground arith

  -- What is read of a table at one key, and at every other, put together.
  read_both :
      (card board card' board' : String) (here : Option (Placement F)) (ps : List (Placement F))
      (t : Tables F)
      → find (at_key card board) ps ≡ here
      → (same_key card board card' board' ≡ false
          → find (at_key card' board') ps ≡ find (at_key card' board') t.placements)
      → find (at_key card' board') ps ≡ (
          if same_key card board card' board'
          then here
          else find (at_key card' board') t.placements)
  read_both card board card' board' here ps t at_it elsewhere =
      elim (Bool-cases (same_key card board card' board')) [
        | inl e ↦
            let cards = (text_eq_iff card card').0 (ground arith) in
            let boards = (text_eq_iff board board').0 (ground arith) in
            rw (e, sym cards, sym boards) at_it
        | inr e ↦ rw e (elsewhere e)
      ]

  -- A card that is on the board moves to any column of the board: the call answers with the card's
  -- placement, of the column and the position asked for and created when it was; that placement is
  -- what is read for the card afterwards, and every other placement is read as before.
  pub move_card-moves :
      (now : ℕ) (card_id : String) (req : MoveCardRequest F) (t : Tables F) (col : Column F)
      (old : Placement F)
      → get_column t req.column_id ≡ some col
      → (col.board_id =? req.board_id) ≡ true
      → get_placement t card_id req.board_id ≡ some old
      → (t' : Tables F) × (move_card now card_id req t
          ≡ done t' (write_placement req.column_id req.position now old))
        × ((card board : String)
            → get_placement t' card board ≡ (
                if same_key card_id req.board_id card board
                then some (write_placement req.column_id req.position now old)
                else get_placement t card board))
  unfolding move_card move_placement get_placement
  move_card-moves now card_id req t col old found on there =
      let write = write_placement req.column_id req.position now in
      let after =
        find-update_where (at_key card_id req.board_id) write
          (at_key-write_placement card_id req.board_id req.column_id req.position now) t.placements
          old there in
      (
        move_placement now card_id req t,
        rw (found, move_card, on, there, after) refl,
        (λ card board.
            read_both card_id req.board_id card board (some (write old)) _ t after (λ other.
              find-update_where_other (at_key card_id req.board_id) (at_key card board) write
                (at_key-write_placement card board req.column_id req.position now)
                (λ x e. keys_apart card_id req.board_id card board x other e) t.placements)),
      )

  -- A card can be put into any column of the column's own board. If it was not on the board, the
  -- placement that the call answers with is what is read for it afterwards; if it was, what is read is
  -- its old placement in the column and at the position and time answered with. Every other placement
  -- is read as before.
  pub attach_card-places :
      (floats : Floats F) (now : ℕ) (board_id card_id : String) (req : AttachCardRequest F)
      (t : Tables F) (col : Column F)
      → get_column t req.column_id ≡ some col
      → (col.board_id =? board_id) ≡ true
      → (t' : Tables F) × (attach_card floats now board_id card_id req t
          ≡ done t' (new_placement floats now board_id card_id req t))
        × ((card board : String)
            → get_placement t' card board ≡ (
                if same_key card_id board_id card board
                then some (elim (get_placement t card_id board_id) [
                  | none ↦ new_placement floats now board_id card_id req t
                  | some old ↦
                      write_placement req.column_id
                        (new_placement floats now board_id card_id req t).position
                        now
                        old
                ])
                else get_placement t card board))
  unfolding attach_card upsert_placement get_placement new_placement
  attach_card-places floats now board_id card_id req t col found on =
      let p = new_placement floats now board_id card_id req t in
      let write = write_placement req.column_id p.position now in
      elim (Option-cases (get_placement t card_id board_id)) [
        | inr (old, there) ↦ (
          upsert_placement p t,
          rw (found, attach_card, on) refl,
          (λ card board. rw there (
              read_both card_id board_id card board (some (write old)) _ t
                (find-update_where (at_key card_id board_id) write
                  (at_key-write_placement card_id board_id req.column_id p.position now)
                  t.placements old there)
                (λ other.
                  find-update_where_other (at_key card_id board_id) (at_key card board) write
                    (at_key-write_placement card board req.column_id p.position now)
                    (λ x e. keys_apart card_id board_id card board x other e) t.placements))),
        )
        | inl absent ↦ (
          upsert_placement p t,
          rw (found, attach_card, on) refl,
          (λ card board. rw absent (
              read_both card_id board_id card board (some p) _ t
                (find-append_none (at_key card_id board_id) t.placements (p ∷ []) absent
                  ∙ find-here card_id board_id p (text_eq_refl card_id) (text_eq_refl board_id))
                (λ other. find-insert_other (at_key card board) p t.placements (
                  keys_apart card_id board_id card board p other
                    (ground (arith, text_eq_refl card_id, text_eq_refl board_id)))))),
        )
      ]

  -- A card that is on a board is taken off it: it is then not found there, and every other placement
  -- is read as before.
  pub detach_card-removes :
      (board_id card_id : String) (t : Tables F) (old : Placement F)
      → get_placement t card_id board_id ≡ some old
      → (t' : Tables F) × (detach_card board_id card_id t ≡ done t' tt)
        × ((card board : String)
            → get_placement t' card board
              ≡ (if same_key card_id board_id card board then none else get_placement t card board))
  unfolding detach_card get_placement
  detach_card-removes board_id card_id t old there = (
    record {
      boards = t.boards;
      columns = t.columns;
      placements = keep (λ p. not (at_key card_id board_id p)) t.placements;
    },
    rw (there, detach_card) refl,
    (λ card board.
        read_both card_id board_id card board none _ t
          (find-deleted (at_key card_id board_id) t.placements)
          (λ other.
            find-delete_other (at_key card_id board_id) (at_key card board) (λ p. p) (λ x. refl)
              (λ x e. keys_apart card_id board_id card board x other e) t.placements)),
  )
