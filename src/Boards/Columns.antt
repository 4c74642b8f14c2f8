-- ===== src/Boards/Columns.antt =====
-- The columns of a board: CreateColumn, UpdateColumn and DeleteColumn of internal/db/db.go.
use kanban_store.Prelude.{
  ℕ, String, List, Option, none, some, ◌++◌, [], ◌∷◌, keep, not, if◌then◌else◌, update_where,
  is_some, map,
}
use kanban_store.Prelude.Int.{ℤ}
use kanban_store.Prelude.Text.{◌=?◌}
use kanban_store.Boards.Tables.{
  Floats, Column, Tables, not_found, constraint_failed, Reply, refused, done, has_board, get_column,
}

-- An optional text of a request, of which "" clears the setting: lifecycleStateFromRequest,
-- workStateFromRequest; and what the database keeps of one: clockStateValue, lifecycleStateValue,
-- workStateValue.
unfoldable pub state_from_request : Option String → Option String
state_from_request none = none
state_from_request (some raw) = if raw =? "" then none else some raw

module _ {F : Type 0} where
  -- `MAX(position)`
  unfoldable pub max_position : Floats F → List F → Option F
  max_position floats [] = none
  max_position floats (x ∷ xs) = elim (max_position floats xs) [
    | none ↦ some x
    | some y ↦ if floats.above x y then some x else some y
  ]

  -- The position of the request, or one after the last.
  unfoldable pub position_or_last : Floats F → Option F → List F → F
  position_or_last floats (some position) taken = position
  position_or_last floats none taken = elim (max_position floats taken) [
    | none ↦ floats.zero
    | some last ↦ floats.next last
  ]

pub record CreateColumnRequest (F : Type 0) : Type 0 where
  pub name : String
  pub position : Option F
  pub color : Option String
  pub wip_limit : Option ℤ
  pub auto_status : Option String
  pub budget_clock_state : Option String
  pub lifecycle_state : Option String
  pub work_state : Option String

-- A field that is left out is `none`.
pub record UpdateColumnRequest (F : Type 0) : Type 0 where
  pub name : Option String
  pub position : Option F
  pub color : Option String
  pub wip_limit : Option ℤ
  pub auto_status : Option String
  pub budget_clock_state : Option String
  pub lifecycle_state : Option String
  pub work_state : Option String

-- The field of the request, or else what the row has.
abbrev or_kept : {A : Type 0} → Option A → A → A
or_kept none old = old
or_kept (some new) old = new

abbrev or_kept_option : {A : Type 0} → Option A → Option A → Option A
or_kept_option none old = old
or_kept_option (some new) old = some new

-- An optional state of an update: "" clears it.
abbrev or_kept_state : Option String → Option String → Option String
or_kept_state none old = old
or_kept_state (some new) old = state_from_request (some new)

module _ {F : Type 0} where
  -- The column that CreateColumn builds and answers with; `id` is the new UUID.
  unfoldable pub new_column :
      Floats F → String → ℕ → String → CreateColumnRequest F → Tables F → Column F
  new_column floats id now board_id req t = record {
    id = id;
    board_id = board_id;
    name = req.name;
    position =
        position_or_last floats req.position
          (map (λ c. c.position) (keep (λ c. c.board_id =? board_id) t.columns));
    color = or_kept req.color "";
    wip_limit = req.wip_limit;
    auto_status = req.auto_status;
    budget_clock_state = req.budget_clock_state;
    lifecycle_state = state_from_request req.lifecycle_state;
    work_state = state_from_request req.work_state;
    created_at = now;
    updated_at = now;
  }

  -- The row of a column: "" is stored as NULL where `clockStateValue` and the like write it.
  unfoldable pub stored_column : Column F → Column F
  stored_column c = record {
    id = c.id;
    board_id = c.board_id;
    name = c.name;
    position = c.position;
    color = c.color;
    wip_limit = c.wip_limit;
    auto_status = c.auto_status;
    budget_clock_state = state_from_request c.budget_clock_state;
    lifecycle_state = state_from_request c.lifecycle_state;
    work_state = state_from_request c.work_state;
    created_at = c.created_at;
    updated_at = c.updated_at;
  }

  -- CreateColumn: the table's primary key refuses an id that is taken.
  unfoldable pub create_column :
      Floats F → String → ℕ → String → CreateColumnRequest F → Tables F → Reply F (Column F)
  create_column floats id now board_id req t =
      let c = new_column floats id now board_id req t in
      if not (has_board t board_id)
      then refused not_found
      else if is_some (get_column t id)
      then refused constraint_failed
      else done
          (record {
            boards = t.boards;
            columns = t.columns ++ (stored_column c ∷ []);
            placements = t.placements;
          })
          c

  -- The fields that UpdateColumn changes of the column that it has read.
  unfoldable pub apply_column_request : ℕ → UpdateColumnRequest F → Column F → Column F
  apply_column_request now req c = record {
    id = c.id;
    board_id = c.board_id;
    name = or_kept req.name c.name;
    position = or_kept req.position c.position;
    color = or_kept req.color c.color;
    wip_limit = or_kept_option req.wip_limit c.wip_limit;
    auto_status = or_kept_option req.auto_status c.auto_status;
    budget_clock_state = or_kept_state req.budget_clock_state c.budget_clock_state;
    lifecycle_state = or_kept_state req.lifecycle_state c.lifecycle_state;
    work_state = or_kept_state req.work_state c.work_state;
    created_at = c.created_at;
    updated_at = now;
  }

  -- What the UPDATE writes into a row: neither its id, nor its board, nor its creation.
  unfoldable pub write_column : Column F → Column F → Column F
  write_column c row = record {
    id = row.id;
    board_id = row.board_id;
    name = c.name;
    position = c.position;
    color = c.color;
    wip_limit = c.wip_limit;
    auto_status = c.auto_status;
    budget_clock_state = state_from_request c.budget_clock_state;
    lifecycle_state = state_from_request c.lifecycle_state;
    work_state = state_from_request c.work_state;
    created_at = row.created_at;
    updated_at = c.updated_at;
  }

  -- UpdateColumn
  unfoldable pub update_column : ℕ → String → UpdateColumnRequest F → Tables F → Reply F (Column F)
  update_column now id req t = elim (get_column t id) [
    | none ↦ refused not_found
    | some c ↦
        done
          (record {
            boards = t.boards;
            columns =
                update_where (λ row. row.id =? id) (write_column (apply_column_request now req c))
                  t.columns;
            placements = t.placements;
          })
          (apply_column_request now req c)
  ]

  -- DeleteColumn, with the placements that the schema deletes after it
  unfoldable pub delete_column : String → Tables F → Reply F Unit
  delete_column id t =
      if is_some (get_column t id)
      then done
          (record {
            boards = t.boards;
            columns = keep (λ c. not (c.id =? id)) t.columns;
            placements = keep (λ p. not (p.column_id =? id)) t.placements;
          })
          tt
      else refused not_found
