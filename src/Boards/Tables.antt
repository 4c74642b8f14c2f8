-- ===== src/Boards/Tables.antt =====
-- The tables of boards, columns and placements (internal/db/db.go, internal/model/model.go). Of a
-- board's row only the id is kept. A column's and a card's position is a `float64`: the type and what
-- the store does with it are parameters. Times are nanoseconds.
use kanban_store.Prelude.{
  ℕ, String, Bool, List, Option, find, ◌&&◌, not, keep, map, ◌++◌, [], ◌∷◌, if◌then◌else◌,
}
use kanban_store.Prelude.Int.{ℤ}
use kanban_store.Prelude.Text.{◌=?◌, contains}

-- `0.0`, `x + 1.0` and `x > y`
pub record Floats (F : Type 0) : Type 0 where
  pub zero : F
  pub next : F → F
  pub above : F → F → Bool

pub record Column (F : Type 0) : Type 0 where
  pub id : String
  pub board_id : String
  pub name : String
  pub position : F
  pub color : String
  pub wip_limit : Option ℤ
  pub auto_status : Option String
  pub budget_clock_state : Option String
  pub lifecycle_state : Option String
  pub work_state : Option String
  pub created_at : ℕ
  pub updated_at : ℕ

pub record Placement (F : Type 0) : Type 0 where
  pub card_id : String
  pub board_id : String
  pub column_id : String
  pub position : F
  pub created_at : ℕ
  pub updated_at : ℕ

pub record Tables (F : Type 0) : Type 0 where
  pub boards : List String
  pub columns : List (Column F)
  pub placements : List (Placement F)

pub data StoreError : Type 0 where
  not_found column_not_on_board constraint_failed : StoreError

-- What a call answers, and the tables it leaves; a refused call leaves them as they were.
pub data Reply (F A : Type 0) : Type 0 where
  refused : StoreError → Reply F A
  done : Tables F → A → Reply F A

abbrev pub tables_after : {F A : Type 0} → Tables F → Reply F A → Tables F
tables_after before (refused e) = before
tables_after before (done after a) = after

module _ {F : Type 0} where
  -- GetBoard, of which only the error matters here
  unfoldable pub has_board : Tables F → String → Bool
  has_board t id = contains t.boards id

  -- GetColumn
  unfoldable pub get_column : Tables F → String → Option (Column F)
  get_column t id = find (λ c. c.id =? id) t.columns

  -- The primary key of `placements`
  abbrev pub at_key : String → String → Placement F → Bool
  at_key card_id board_id p = p.card_id =? card_id && p.board_id =? board_id

  -- GetPlacement
  unfoldable pub get_placement : Tables F → String → String → Option (Placement F)
  get_placement t card_id board_id = find (at_key card_id board_id) t.placements

  -- CreateBoard, of which the new id matters here
  unfoldable pub create_board : String → Tables F → Reply F Unit
  create_board id t =
      if contains t.boards id
      then refused constraint_failed
      else done
          (record {
            boards = t.boards ++ (id ∷ []);
            columns = t.columns;
            placements = t.placements;
          })
          tt

  -- DeleteBoard, with the columns and the placements that the schema deletes after it
  unfoldable pub delete_board : Tables F → String → Reply F Unit
  delete_board t id =
      if contains t.boards id
      then done
          (record {
            boards = keep (λ b. not (b =? id)) t.boards;
            columns = keep (λ c. not (c.board_id =? id)) t.columns;
            placements =
                keep
                  (λ p.
                    not (p.board_id =? id)
                    && not (
                        contains (map (λ c. c.id) (keep (λ c. c.board_id =? id) t.columns))
                          p.column_id))
                  t.placements;
          })
          tt
      else refused not_found
