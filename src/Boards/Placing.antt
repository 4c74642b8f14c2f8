-- ===== src/Boards/Placing.antt =====
-- Cards on boards: AttachCard, MoveCard, DetachCard, DetachCardEverywhere and CountColumnCards of
-- internal/db/db.go.
use kanban_store.Prelude.{
  ℕ, String, Option, none, some, ◌++◌, [], ◌∷◌, keep, not, if◌then◌else◌, update_where, is_some,
  map, ◌&&◌, length,
}
use kanban_store.Prelude.Text.{◌=?◌}
use kanban_store.Boards.Tables.{
  Floats, Placement, Tables, not_found, column_not_on_board, Reply, refused, done, get_column,
  get_placement, at_key,
}
use kanban_store.Boards.Columns.{position_or_last}

pub record AttachCardRequest (F : Type 0) : Type 0 where
  pub column_id : String
  pub position : Option F

pub record MoveCardRequest (F : Type 0) : Type 0 where
  pub board_id : String
  pub column_id : String
  pub position : F

module _ {F : Type 0} where
  -- The placement that AttachCard builds and answers with.
  unfoldable pub new_placement :
      Floats F → ℕ → String → String → AttachCardRequest F → Tables F → Placement F
  new_placement floats now board_id card_id req t = record {
    card_id = card_id;
    board_id = board_id;
    column_id = req.column_id;
    position = position_or_last floats req.position (
        map (λ p. p.position)
          (keep (λ p. p.board_id =? board_id && p.column_id =? req.column_id) t.placements));
    created_at = now;
    updated_at = now;
  }

  -- What an upsert and a move write into the row of a placement.
  unfoldable pub write_placement : String → F → ℕ → Placement F → Placement F
  write_placement column_id position updated_at row = record {
    card_id = row.card_id;
    board_id = row.board_id;
    column_id = column_id;
    position = position;
    created_at = row.created_at;
    updated_at = updated_at;
  }

  -- INSERT ... ON CONFLICT(card_id, board_id) DO UPDATE
  unfoldable pub upsert_placement : Placement F → Tables F → Tables F
  upsert_placement p t = record {
    boards = t.boards;
    columns = t.columns;
    placements =
        if is_some (get_placement t p.card_id p.board_id)
        then update_where (at_key p.card_id p.board_id)
            (write_placement p.column_id p.position p.updated_at) t.placements
        else t.placements ++ (p ∷ []);
  }

  -- AttachCard
  unfoldable pub attach_card :
      Floats F → ℕ → String → String → AttachCardRequest F → Tables F → Reply F (Placement F)
  attach_card floats now board_id card_id req t =
      let p = new_placement floats now board_id card_id req t in
      elim (get_column t req.column_id) [
        | none ↦ refused not_found
        | some col ↦
            if not (col.board_id =? board_id)
            then refused column_not_on_board
            else done (upsert_placement p t) p
      ]

  -- UPDATE placements SET column_id, position, updated_at WHERE card_id AND board_id
  unfoldable pub move_placement : ℕ → String → MoveCardRequest F → Tables F → Tables F
  move_placement now card_id req t = record {
    boards = t.boards;
    columns = t.columns;
    placements =
        update_where (at_key card_id req.board_id) (write_placement req.column_id req.position now)
          t.placements;
  }

  -- MoveCard
  unfoldable pub move_card : ℕ → String → MoveCardRequest F → Tables F → Reply F (Placement F)
  move_card now card_id req t =
      let moved = move_placement now card_id req t in
      elim (get_column t req.column_id) [
        | none ↦ refused not_found
        | some col ↦
            if not (col.board_id =? req.board_id)
            then refused column_not_on_board
            else if not (is_some (get_placement t card_id req.board_id))
            then refused not_found
            else elim (get_placement moved card_id req.board_id) [
              | none ↦ refused not_found
              | some p ↦ done moved p
            ]
      ]

  -- DetachCard
  unfoldable pub detach_card : String → String → Tables F → Reply F Unit
  detach_card board_id card_id t =
      if is_some (get_placement t card_id board_id)
      then done
          (record {
            boards = t.boards;
            columns = t.columns;
            placements = keep (λ p. not (at_key card_id board_id p)) t.placements;
          })
          tt
      else refused not_found

  -- DetachCardEverywhere
  unfoldable pub detach_card_everywhere : String → Tables F → Reply F Unit
  detach_card_everywhere card_id t =
      done
        (record {
          boards = t.boards;
          columns = t.columns;
          placements = keep (λ p. not (p.card_id =? card_id)) t.placements;
        })
        tt

  -- CountColumnCards
  unfoldable pub count_column_cards : String → Tables F → ℕ
  count_column_cards column_id t = length (keep (λ p. p.column_id =? column_id) t.placements)
