-- ===== src/Boards/Keeps.antt =====
-- Every operation on boards, columns and placements keeps the tables consistent.
use kanban_store.Prelude.{
  ℕ, String, Bool, true, [], ◌∷◌, some, ◌≡◌, refl, arith, Bool-cases, Option-cases, inl, inr, keep,
  update_where, find-none, All-append, All-keep, All-update_where, IsUnique-keep, IsUnique-insert,
  IsUnique-update_where, is_some,
}
use kanban_store.Prelude.Text.{◌=?◌}
use kanban_store.Boards.Tables.{
  Floats, Column, Placement, Tables, tables_after, get_column, get_placement, at_key,
}
use kanban_store.Boards.Placing.{
  AttachCardRequest, MoveCardRequest, new_placement, write_placement, upsert_placement, attach_card,
  move_placement, move_card, detach_card, detach_card_everywhere,
}
use kanban_store.Boards.Consistency.{same_placement, IsConsistent, text_eq_trans, text_eq_sym}

module _ {F : Type 0} where
  -- Deleting placements.
  IsConsistent-keep_placements :
      (p : Placement F → Bool) (t : Tables F)
      → IsConsistent t
      → IsConsistent
          (record { boards = t.boards; columns = t.columns; placements = keep p t.placements })
  IsConsistent-keep_placements p t ok = record {
    board_ids = ok.board_ids;
    column_ids = ok.column_ids;
    placement_keys = IsUnique-keep same_placement p t.placements ok.placement_keys;
    column_boards = ok.column_boards;
    placement_columns = All-keep _ p t.placements ok.placement_columns;
  }

  -- Writing a column and a position, where the column is on the board of the rows written.
  IsConsistent-write_placement :
      (card_id board_id column_id : String) (position : F) (now : ℕ) (col : Column F) (t : Tables F)
      → get_column t column_id ≡ some col
      → (col.board_id =? board_id) ≡ true
      → IsConsistent t
      → IsConsistent (record {
        boards = t.boards;
        columns = t.columns;
        placements =
            update_where
              (at_key card_id board_id)
              (write_placement column_id position now)
              t.placements;
      })
  unfolding get_column write_placement
  IsConsistent-write_placement card_id board_id column_id position now col t found on_board ok =
      record {
        board_ids = ok.board_ids;
        column_ids = ok.column_ids;
        placement_keys =
            IsUnique-update_where same_placement (at_key card_id board_id)
              (write_placement column_id position now) t.placements (λ x y. refl) (λ x y. refl)
              ok.placement_keys;
        column_boards = ok.column_boards;
        placement_columns =
            All-update_where (at_key card_id board_id) (write_placement column_id position now)
              t.placements
              (λ x at _. (
                col,
                found,
                text_eq_trans col.board_id board_id x.board_id on_board
                    (text_eq_sym x.board_id board_id (ground arith)),
              ))
              (λ x _ h. h) ok.placement_columns;
      }

  upsert_placement-IsConsistent :
      (p : Placement F) (col : Column F) (t : Tables F)
      → get_column t p.column_id ≡ some col
      → (col.board_id =? p.board_id) ≡ true
      → IsConsistent t
      → IsConsistent (upsert_placement p t)
  unfolding upsert_placement get_column get_placement
  upsert_placement-IsConsistent p col t found on_board ok =
      elim (Option-cases (get_placement t p.card_id p.board_id)) [
        | inl absent ↦ rw absent (record {
          board_ids = ok.board_ids;
          column_ids = ok.column_ids;
          placement_keys =
              IsUnique-insert same_placement t.placements p (find-none _ t.placements absent)
                ok.placement_keys;
          column_boards = ok.column_boards;
          placement_columns =
              All-append _ t.placements (p ∷ []) ok.placement_columns ((col, found, on_board), tt);
        })
        | inr (old, e) ↦ rw e (
            IsConsistent-write_placement p.card_id p.board_id p.column_id p.position p.updated_at
              col t found on_board ok)
      ]

  pub attach_card-IsConsistent :
      (floats : Floats F) (now : ℕ) (board_id card_id : String) (req : AttachCardRequest F)
      (t : Tables F)
      → IsConsistent t
      → IsConsistent (tables_after t (attach_card floats now board_id card_id req t))
  unfolding attach_card new_placement
  attach_card-IsConsistent floats now board_id card_id req t ok =
      elim (Option-cases (get_column t req.column_id)) [
        | inl e ↦ rw (e, tables_after) ok
        | inr (col, e) ↦ elim (Bool-cases (col.board_id =? board_id)) [
          | inl on ↦
              rw (e, on, tables_after)
                (upsert_placement-IsConsistent (new_placement floats now board_id card_id req t) col
                  t e on ok)
          | inr off ↦ rw (e, off, tables_after) ok
        ]
      ]

  pub move_card-IsConsistent :
      (now : ℕ) (card_id : String) (req : MoveCardRequest F) (t : Tables F)
      → IsConsistent t
      → IsConsistent (tables_after t (move_card now card_id req t))
  unfolding move_card move_placement
  move_card-IsConsistent now card_id req t ok = elim (Option-cases (get_column t req.column_id)) [
    | inl e ↦ rw (e, tables_after) ok
    | inr (col, e) ↦ elim (Bool-cases (col.board_id =? req.board_id)) [
      | inl on ↦ elim (Option-cases (get_placement t card_id req.board_id)) [
        | inl absent ↦ rw (e, on, absent, tables_after) ok
        | inr (old, present) ↦
            elim (Option-cases
              (get_placement (move_placement now card_id req t) card_id req.board_id)) [
                | inl gone ↦ rw (e, on, present, gone, tables_after) ok
                | inr (p, there) ↦
                    rw (e, on, present, there, tables_after)
                      (IsConsistent-write_placement card_id req.board_id req.column_id req.position
                        now col t e on ok)
              ]
      ]
      | inr off ↦ rw (e, off, tables_after) ok
    ]
  ]

  pub detach_card-IsConsistent :
      (board_id card_id : String) (t : Tables F)
      → IsConsistent t
      → IsConsistent (tables_after t (detach_card board_id card_id t))
  unfolding detach_card
  detach_card-IsConsistent board_id card_id t ok =
      elim (Bool-cases (is_some (get_placement t card_id board_id))) [
        | inl e ↦ rw (e, tables_after) (IsConsistent-keep_placements _ t ok)
        | inr e ↦ rw (e, tables_after) ok
      ]

  pub detach_card_everywhere-IsConsistent :
      (card_id : String) (t : Tables F)
      → IsConsistent t
      → IsConsistent (tables_after t (detach_card_everywhere card_id t))
  unfolding detach_card_everywhere
  detach_card_everywhere-IsConsistent card_id t ok = IsConsistent-keep_placements _ t ok
