-- ===== src/Log/Ladder.antt =====
-- The rungs of a board's priority ladder: SetPriorityLadderRequest.Validate (internal/model/activity.go),
-- GetPriorityLadder and SetPriorityLadder (internal/db/activity.go). A rung's amount of money is a
-- text, and whether it is an amount of zero or more is an argument.
use kanban_store.Prelude.{
  String, Bool, true, false, ◌&&◌, ◌||◌, not, List, [], ◌∷◌, ◌++◌, Option, none, some,
  if◌then◌else◌, is_some, find, keep,
}
use kanban_store.Prelude.Int.{ℤ, pos, eq_ℤ, lt_ℤ}
use kanban_store.Prelude.Text.{◌=?◌, contains, trim_space}
use kanban_store.Prelude.Sort.{sort_stable}
use kanban_store.Log.Events.{LogReply, refused, done, not_found, failed}

-- BoardPriorityLevel, as a request sends it and as a row holds it
pub record Rung : Type 0 where
  pub board_id : String
  pub priority_value : ℤ
  pub label : String
  pub budget_seconds : Option ℤ
  pub default_auto_hold_at_usd : Option String

pub data LadderError : Type 0 where
  value_reserved value_negative value_duplicate label_required label_duplicate budget_not_positive
        amount_invalid :
      LadderError

abbrev pub is_positive : ℤ → Bool
is_positive z = lt_ℤ (pos 0) z

abbrev pub all_of : {A : Type 0} → (A → Bool) → Option A → Bool
all_of p none = true
all_of p (some a) = p a

-- `seenValue[v]`
unfoldable pub has_seen : List ℤ → ℤ → Bool
has_seen [] v = false
has_seen (w ∷ seen) v = eq_ℤ w v || has_seen seen v

-- One round of the loop
unfoldable pub check_rung : (String → Bool) → List ℤ → List String → Rung → Option LadderError
check_rung amount values labels l =
    if eq_ℤ l.priority_value (pos 0)
    then some value_reserved
    else if lt_ℤ l.priority_value (pos 0)
    then some value_negative
    else if has_seen values l.priority_value
    then some value_duplicate
    else if trim_space l.label =? ""
    then some label_required
    else if contains labels l.label
    then some label_duplicate
    else if not (all_of is_positive l.budget_seconds)
    then some budget_not_positive
    else if not (all_of amount l.default_auto_hold_at_usd)
    then some amount_invalid
    else none

abbrev pub or_next : Option LadderError → Option LadderError → Option LadderError
or_next none next = next
or_next (some e) next = some e

unfoldable pub check_rungs : (String → Bool) → List ℤ → List String → List Rung → Option LadderError
check_rungs amount values labels [] = none
check_rungs amount values labels (l ∷ levels) =
    or_next (check_rung amount values labels l)
      (check_rungs amount (l.priority_value ∷ values) (l.label ∷ labels) levels)

-- Validate
unfoldable pub validate_ladder : (String → Bool) → List Rung → Option LadderError
validate_ladder amount levels = check_rungs amount [] [] levels

abbrev pub on_board : String → Rung → Bool
on_board board_id l = l.board_id =? board_id

-- `ORDER BY priority_value DESC`
abbrev pub higher : Rung → Rung → Bool
higher a b = lt_ℤ b.priority_value a.priority_value

-- GetPriorityLadder
unfoldable pub get_priority_ladder : List Rung → String → List Rung
get_priority_ladder rows board_id = sort_stable higher (keep (on_board board_id) rows)

abbrev pub placed_on : String → Rung → Rung
placed_on board_id l = record l { board_id = board_id }

abbrev pub has_value : String → ℤ → Rung → Bool
has_value board_id v l = l.board_id =? board_id && eq_ℤ l.priority_value v

-- The rows that are inserted one after the other, unless the board has a value already
unfoldable pub insert_rungs : String → List Rung → List Rung → Option (List Rung)
insert_rungs board_id [] rows = some rows
insert_rungs board_id (l ∷ levels) rows =
    let rest = insert_rungs board_id levels (rows ++ (placed_on board_id l ∷ [])) in
    if is_some (find (has_value board_id l.priority_value) rows) then none else rest

abbrev pub committed : String → Option (List Rung) → LogReply (List Rung) (List Rung)
committed board_id none = refused failed
committed board_id (some rows) = done rows (get_priority_ladder rows board_id)

abbrev pub other_boards : String → List Rung → List Rung
other_boards board_id rows = keep (λ l. not (on_board board_id l)) rows

-- SetPriorityLadder, which a failed insertion rolls back
unfoldable pub set_priority_ladder :
    List String → String → List Rung → List Rung → LogReply (List Rung) (List Rung)
set_priority_ladder boards board_id levels rows =
    if contains boards board_id
    then committed board_id (insert_rungs board_id levels (other_boards board_id rows))
    else refused not_found
