-- ===== src/Boards/SharedAssignments.antt =====
-- The lists of assignments (internal/db/db.go) and the assignment under a version
-- (internal/db/assignment_version.go). AssignmentVersion, a digest of the encoded rows, is an argument.
use kanban_store.Prelude.{
  ℕ, String, Bool, true, false, ◌&&◌, ◌||◌, List, [], ◌∷◌, ◌++◌, Option, none, some, ltb, ◌==◌,
  if◌then◌else◌, find, keep,
}
use kanban_store.Prelude.Text.{◌=?◌, text_lt}
use kanban_store.Prelude.Sort.{sort_stable}
use kanban_store.Timeline.Events.{clock_stopped}
use kanban_store.Boards.Tables.{Column, Placement}
use kanban_store.Boards.Assignments.{CardAssignment, assign_principal_to_card}

-- `ORDER BY created_at ASC, principal_id ASC`
unfoldable pub assigned_before : CardAssignment → CardAssignment → Bool
assigned_before a b =
    ltb a.created_at b.created_at
    || (a.created_at == b.created_at && text_lt a.principal_id b.principal_id)

-- ListCardAssignments
unfoldable pub list_card_assignments : String → List CardAssignment → List CardAssignment
list_card_assignments card_id table =
    sort_stable assigned_before (keep (λ a. a.card_id =? card_id) table)

-- ListCardAssignmentsByPrincipal
unfoldable pub list_card_assignments_by_principal :
    String → List CardAssignment → List CardAssignment
list_card_assignments_by_principal principal_id table =
    sort_stable
      (λ a b.
        ltb a.created_at b.created_at
        || (a.created_at == b.created_at && text_lt a.card_id b.card_id))
      (keep (λ a. a.principal_id =? principal_id) table)

pub record AssignmentOnBoard : Type 0 where
  pub assignment : CardAssignment
  pub column_stops_the_clock : Bool

abbrev stops_the_clock : Option String → Bool
stops_the_clock none = "" =? clock_stopped
stops_the_clock (some state) = state =? clock_stopped

abbrev join_column :
    {F : Type 0}
    → CardAssignment
    → Option (Column F)
    → List AssignmentOnBoard
    → List AssignmentOnBoard
join_column a none rest = rest
join_column a (some c) rest =
    record { assignment = a; column_stops_the_clock = stops_the_clock c.budget_clock_state } ∷ rest

abbrev join_placement :
    {F : Type 0}
    → List (Column F)
    → CardAssignment
    → Option (Placement F)
    → List AssignmentOnBoard
    → List AssignmentOnBoard
join_placement columns a none rest = rest
join_placement columns a (some p) rest =
    join_column a (find (λ c. c.id =? p.column_id) columns) rest

-- The two joins; a card has one placement on a board and an id one column.
unfoldable pub joined_assignments :
    {F : Type 0}
    → List (Column F)
    → List (Placement F)
    → String
    → List CardAssignment
    → List AssignmentOnBoard
joined_assignments columns placements board_id [] = []
joined_assignments columns placements board_id (a ∷ table) =
    join_placement columns a
      (find (λ p. p.card_id =? a.card_id && p.board_id =? board_id) placements)
      (joined_assignments columns placements board_id table)

-- ListAssignmentsOnBoard
unfoldable pub list_assignments_on_board :
    {F : Type 0}
    → List (Column F)
    → List (Placement F)
    → String
    → List CardAssignment
    → List AssignmentOnBoard
list_assignments_on_board columns placements board_id table =
    sort_stable (λ a b. assigned_before a.assignment b.assignment)
      (joined_assignments columns placements board_id table)

abbrev pub of_principal : String → CardAssignment → Bool
of_principal principal_id a = a.principal_id =? principal_id

-- What is done once the snapshot is known to be the one that the caller read
abbrev pub found_or_insert :
    List CardAssignment
    → CardAssignment
    → Option CardAssignment
    → List CardAssignment × CardAssignment × Bool
found_or_insert table candidate none = (table ++ (candidate ∷ []), candidate, true)
found_or_insert table candidate (some item) = (table, item, false)

-- AssignPrincipalToCardIfVersion; `none` is ErrAssignmentsChanged. The arguments are the version
-- function, the time, the card, the principal, the actor and the version.
unfoldable pub assign_principal_to_card_if_version :
    (List CardAssignment → String)
    → ℕ
    → String
    → String
    → String
    → String
    → List CardAssignment
    → Option (List CardAssignment × CardAssignment × Bool)
assign_principal_to_card_if_version version_of now card_id principal_id actor version table =
    let snapshot = list_card_assignments card_id table in
    if version =? ""
    then some (assign_principal_to_card now card_id principal_id actor table)
    else if version_of snapshot =? version
    then some (
        found_or_insert table
          (record {
            card_id = card_id;
            principal_id = principal_id;
            assigned_by = actor;
            created_at = now;
          })
          (find (of_principal principal_id) snapshot))
    else none
