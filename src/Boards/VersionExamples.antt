-- ===== src/Boards/VersionExamples.antt =====
-- Assignments under a version at concrete inputs (internal/db/assignment_version.go).
use kanban_store.Prelude.{String, ◌||◌, List, [], ◌∷◌, none, some, if◌then◌else◌, keep, ◌≡◌, arith}
use kanban_store.Prelude.Text.{◌=?◌}
use kanban_store.Boards.Assignments.{CardAssignment, assign_principal_to_card}
use kanban_store.Boards.SharedAssignments.{
  list_card_assignments, assign_principal_to_card_if_version,
}
use kanban_store.Boards.VersionedAssignment.{
  assign_principal_to_card_if_version-assign_principal_to_card,
}

abbrev first_assigned : List CardAssignment → String
first_assigned [] = "nobody"
first_assigned (a ∷ rows) = a.principal_id

abbrev two_rows : List CardAssignment
two_rows =
    record { card_id = "c1"; principal_id = "ann"; assigned_by = "bob"; created_at = 3 }
    ∷ record { card_id = "c2"; principal_id = "cid"; assigned_by = "bob"; created_at = 4 }
    ∷ []

assign_principal_to_card_if_version-assign_principal_to_card_example :
    assign_principal_to_card_if_version first_assigned 9 "c1" "cid" "bob" "ann" two_rows ≡ (
      if "ann" =? "" || first_assigned (list_card_assignments "c1" two_rows) =? "ann"
      then some (assign_principal_to_card 9 "c1" "cid" "bob" two_rows)
      else none)
unfolding keep
assign_principal_to_card_if_version-assign_principal_to_card_example =
    assign_principal_to_card_if_version-assign_principal_to_card first_assigned 9 "c1" "cid" "bob"
      "ann" two_rows (omega arith)
