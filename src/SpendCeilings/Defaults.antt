-- ===== src/SpendCeilings/Defaults.antt =====
-- The spend ceiling that a card is given with a priority (internal/api/priority_default_spend_ceiling.go,
-- internal/model/noteboard_item.go). An amount of money, a float64, is a text as on the ladder; how two
-- amounts compare and what whole number one is are arguments.
use kanban_store.Prelude.{
  String, Bool, false, List, [], ◌∷◌, Option, none, some, if◌then◌else◌, find, keep,
}
use kanban_store.Prelude.Int.{ℤ, pos, eq_ℤ}
use kanban_store.Prelude.Text.{◌=?◌}
use kanban_store.Boards.Tables.{Placement}
use kanban_store.Log.Ladder.{Rung, get_priority_ladder}

-- A value of the decoded map of a noteboard item
pub data ItemValue : Type 0 where
  missing null other_value : ItemValue
  float : String → ItemValue
  int : ℤ → ItemValue

pub record NoteboardItem : Type 0 where
  pub priority : ItemValue
  pub auto_hold_at_usd : ItemValue

-- UnsetPriorityValue
abbrev pub unset_priority_value : ℤ
unset_priority_value = pos 0

-- PriorityOfNoteboardItem; `int_of` is Go's conversion of a float64.
unfoldable pub priority_of_noteboard_item : (String → ℤ) → ItemValue → ℤ
priority_of_noteboard_item int_of missing = unset_priority_value
priority_of_noteboard_item int_of null = unset_priority_value
priority_of_noteboard_item int_of other_value = unset_priority_value
priority_of_noteboard_item int_of (float v) = int_of v
priority_of_noteboard_item int_of (int v) = v

-- LevelFor
unfoldable pub rung_for : List Rung → ℤ → Option Rung
rung_for levels v =
    if eq_ℤ v unset_priority_value then none else find (λ l. eq_ℤ l.priority_value v) levels

abbrev pub default_of : Option Rung → Option String
default_of none = none
default_of (some l) = l.default_auto_hold_at_usd

-- The default that a board gives a priority
unfoldable pub default_on : List Rung → String → ℤ → Option String
default_on rows board_id v = default_of (rung_for (get_priority_ladder rows board_id) v)

-- One round of the loop
unfoldable pub lower_of : (String → String → Bool) → Option String → Option String → Option String
lower_of below lowest none = lowest
lower_of below none (some d) = some d
lower_of below (some l) (some d) = if below d l then some d else some l

unfoldable pub lowest_from :
    (String → String → Bool) → List Rung → List String → ℤ → Option String → Option String
lowest_from below rows [] v lowest = lowest
lowest_from below rows (b ∷ board_ids) v lowest =
    lowest_from below rows board_ids v (lower_of below lowest (default_on rows b v))

-- lowestDefaultSpendCeilingForPriority
unfoldable pub lowest_default_spend_ceiling_for_priority :
    (String → String → Bool) → List Rung → List String → ℤ → Option String
lowest_default_spend_ceiling_for_priority below rows board_ids v =
    lowest_from below rows board_ids v none

unfoldable pub board_ids : {F : Type 0} → List (Placement F) → List String
board_ids [] = []
board_ids (p ∷ placements) = p.board_id ∷ board_ids placements

-- boardIDsOfCard
unfoldable pub board_ids_of_card : {F : Type 0} → List (Placement F) → String → List String
board_ids_of_card placements card_id = board_ids (keep (λ p. p.card_id =? card_id) placements)

-- spendCeilingOfNoteboardItem; the outer `none` is the error.
unfoldable pub spend_ceiling_of_noteboard_item : ItemValue → Option (Option String)
spend_ceiling_of_noteboard_item missing = some none
spend_ceiling_of_noteboard_item null = some none
spend_ceiling_of_noteboard_item (float v) = some (some v)
spend_ceiling_of_noteboard_item (int v) = none
spend_ceiling_of_noteboard_item other_value = none

-- `oldDefault != nil && *oldDefault == *currentCeiling`
abbrev pub is_default : (String → String → Bool) → Option String → String → Bool
is_default same_amount none ceiling = false
is_default same_amount (some d) ceiling = same_amount d ceiling

-- What a new default is written over
unfoldable pub replaced_ceiling :
    (String → String → Bool)
    → String
    → Option String
    → Option (Option String)
    → Option (Option String)
replaced_ceiling same_amount new_default old_default none = none
replaced_ceiling same_amount new_default old_default (some none) = some (some new_default)
replaced_ceiling same_amount new_default old_default (some (some ceiling)) =
    if is_default same_amount old_default ceiling then some (some new_default) else some none

abbrev over_default :
    (String → String → Bool)
    → Option String
    → Option String
    → Option (Option String)
    → Option (Option String)
over_default same_amount none old_default ceiling = some none
over_default same_amount (some d) old_default ceiling =
    replaced_ceiling same_amount d old_default ceiling

-- spendCeilingForPriorityChange: `none` is an error, `some none` leaves the ceiling. The arguments are
-- the comparisons, the conversion, the ladders, the card's boards, its item and the new priority.
unfoldable pub spend_ceiling_for_priority_change :
    (String → String → Bool)
    → (String → String → Bool)
    → (String → ℤ)
    → List Rung
    → List String
    → NoteboardItem
    → ℤ
    → Option (Option String)
spend_ceiling_for_priority_change below same_amount int_of rows boards item v =
    let old = priority_of_noteboard_item int_of item.priority in
    if eq_ℤ v unset_priority_value
    then some none
    else over_default same_amount (lowest_default_spend_ceiling_for_priority below rows boards v)
        (lowest_default_spend_ceiling_for_priority below rows boards old)
        (spend_ceiling_of_noteboard_item item.auto_hold_at_usd)

abbrev on_attach : Option (Option String) → Option String → Option (Option String)
on_attach none new_default = none
on_attach (some (some ceiling)) new_default = some none
on_attach (some none) new_default = some new_default

-- applyDefaultSpendCeilingOnAttach, up to the write to noteboard: what it writes
unfoldable pub default_spend_ceiling_on_attach :
    (String → String → Bool)
    → (String → ℤ)
    → List Rung
    → List String
    → NoteboardItem
    → Option (Option String)
default_spend_ceiling_on_attach below int_of rows boards item =
    let v = priority_of_noteboard_item int_of item.priority in
    if eq_ℤ v unset_priority_value
    then some none
    else on_attach (spend_ceiling_of_noteboard_item item.auto_hold_at_usd)
        (lowest_default_spend_ceiling_for_priority below rows boards v)

-- priorityValueOfPatch; `whole` is the whole number that a float64 is, if any. JSON has no other
-- numbers, and a missing key is read as null.
unfoldable pub priority_value_of_patch : (String → Option ℤ) → ItemValue → Option ℤ
priority_value_of_patch whole missing = some unset_priority_value
priority_value_of_patch whole null = some unset_priority_value
priority_value_of_patch whole (float v) = whole v
priority_value_of_patch whole (int v) = none
priority_value_of_patch whole other_value = none
