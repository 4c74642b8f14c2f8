-- ===== src/Boards/Examples.antt =====
-- Concrete tables for the theorems on boards, columns and placements. Whole numbers stand in for the
-- positions.
use kanban_store.Prelude.{
  ℕ, suc, String, List, [], ◌∷◌, none, some, ltb, if◌then◌else◌, ◌≡◌, refl, find,
}
use kanban_store.Boards.Tables.{Floats, Column, Placement, Tables, done, get_column, get_placement}
use kanban_store.Boards.Columns.{CreateColumnRequest}
use kanban_store.Boards.Placing.{
  AttachCardRequest, MoveCardRequest, new_placement, write_placement, attach_card,
}
use kanban_store.Boards.Consistency.{IsConsistent}
use kanban_store.Boards.History.{
  Operation, making_board, making_column, attaching, deleting_board, moving, perform_all,
  empty_tables, perform_all-IsConsistent,
}
use kanban_store.Boards.Settings.{
  BoardRow, UpdateBoardRequest, BoardWrite, changed_board, next_version, prepare_update,
  prepare_found, commit_update,
}
use kanban_store.Prelude.{false, update_where}
use kanban_store.Boards.Versions.{commit_update-refused}
use kanban_store.Prelude.{not, is_some}
use kanban_store.Boards.Assignments.{
  CardAssignment, existing_row, get_card_assignment, assign_principal_to_card,
  assign_principal_to_card-get_card_assignment,
}
use kanban_store.Boards.Effects.{same_key, attach_card-places}

abbrev whole : Floats ℕ
whole = record { zero = 0; next = λ n. suc n; above = λ a b. ltb b a }

abbrev column_named : String → String → Column ℕ
column_named id board = record {
  id = id;
  board_id = board;
  name = id;
  position = 0;
  color = "";
  wip_limit = none;
  auto_status = none;
  budget_clock_state = none;
  lifecycle_state = none;
  work_state = none;
  created_at = 1;
  updated_at = 1;
}

abbrev placed : Placement ℕ
placed = record {
  card_id = "c1";
  board_id = "b1";
  column_id = "todo";
  position = 0;
  created_at = 2;
  updated_at = 2;
}

abbrev tables : Tables ℕ
tables = record {
  boards = "b1" ∷ [];
  columns = column_named "todo" "b1" ∷ column_named "done" "b1" ∷ [];
  placements = placed ∷ [];
}

abbrev to_done : MoveCardRequest ℕ
to_done = record { board_id = "b1"; column_id = "done"; position = 4 }

abbrev at_done : AttachCardRequest ℕ
at_done = record { column_id = "done"; position = none }

abbrev new_todo : CreateColumnRequest ℕ
new_todo = record {
  name = "todo";
  position = none;
  color = none;
  wip_limit = none;
  auto_status = none;
  budget_clock_state = none;
  lifecycle_state = none;
  work_state = none;
}

abbrev operations : List (Operation ℕ)
operations =
    making_board "b1"
    ∷ making_column "todo" 1 "b1" new_todo
    ∷ attaching 2 "b1" "c1" (record { column_id = "todo"; position = none })
    ∷ moving 3 "c1" to_done
    ∷ deleting_board "b1"
    ∷ []

perform_all-IsConsistent_example : IsConsistent (perform_all whole operations empty_tables)
perform_all-IsConsistent_example = perform_all-IsConsistent whole operations

attach_card-places_example :
    (t' : Tables ℕ) × (attach_card whole 9 "b1" "c2" at_done tables
      ≡ done t' (new_placement whole 9 "b1" "c2" at_done tables))
    × ((card board : String)
        → get_placement t' card board ≡ (
            if same_key "c2" "b1" card board
            then some (elim (get_placement tables "c2" "b1") [
              | none ↦ new_placement whole 9 "b1" "c2" at_done tables
              | some old ↦
                  write_placement "done"
                    (new_placement whole 9 "b1" "c2" at_done tables).position
                    9
                    old
            ])
            else get_placement tables card board))
unfolding get_column find
attach_card-places_example =
    attach_card-places whole 9 "b1" "c2" at_done tables (column_named "done" "b1") refl refl

abbrev first_board : BoardRow
first_board = record {
  id = "b1";
  name = "Work";
  description = "";
  archived = false;
  business_hours = none;
  default_principal_id = "";
  default_agent_id = "";
  default_instance_id = "";
  default_bundle_id = "";
  classifier = none;
  assignment_pool = none;
  organization_id = "";
  updated_at = 7;
}

abbrev renamed : String → UpdateBoardRequest
renamed name = record {
  name = some name;
  description = none;
  archived = none;
  business_hours = none;
  default_principal_id = none;
  default_agent_id = none;
  default_instance_id = none;
  default_bundle_id = none;
  classifier = none;
  assignment_pool = none;
  organization_id = none;
}

abbrev write_of : String → BoardWrite
write_of name = record { previous = 7; board = changed_board 9 (renamed name) first_board }

commit_update-refused_example :
    commit_update (write_of "Play") ((write_of "Home").board ∷ []) ≡ none
unfolding prepare_update prepare_found commit_update changed_board next_version find update_where
commit_update-refused_example =
    commit_update-refused 9 9 "b1" (renamed "Home") (renamed "Play") none (some 7)
      (first_board ∷ []) (first_board ∷ []) ((write_of "Home").board ∷ []) (write_of "Home")
      (write_of "Play") refl refl refl

abbrev assigned_once : List CardAssignment
assigned_once =
    record { card_id = "c1"; principal_id = "ann"; assigned_by = "bob"; created_at = 3 } ∷ []

assign_principal_to_card-get_card_assignment_example :
    ((assign_principal_to_card 9 "c1" "ann" "cid" assigned_once).1
      ≡ existing_row
          (get_card_assignment "c1" "ann" assigned_once)
          (record { card_id = "c1"; principal_id = "ann"; assigned_by = "cid"; created_at = 9 }))
    × ((assign_principal_to_card 9 "c1" "ann" "cid" assigned_once).2
        ≡ not (is_some (get_card_assignment "c1" "ann" assigned_once)))
    × (get_card_assignment "c1" "ann" (assign_principal_to_card 9 "c1" "ann" "cid" assigned_once).0
        ≡ (if same_key "c1" "ann" "c1" "ann"
            then some (assign_principal_to_card 9 "c1" "ann" "cid" assigned_once).1
            else get_card_assignment "c1" "ann" assigned_once))
assign_principal_to_card-get_card_assignment_example =
    assign_principal_to_card-get_card_assignment 9 "c1" "ann" "cid" assigned_once "c1" "ann"
