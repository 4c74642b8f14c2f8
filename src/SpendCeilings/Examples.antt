-- ===== src/SpendCeilings/Examples.antt =====
-- Default spend ceilings at concrete inputs (internal/api/priority_default_spend_ceiling.go). Amounts of
-- one digit compare as texts do.
use kanban_store.Prelude.{String, List, [], ◌∷◌, none, some, find, keep, refl}
use kanban_store.Prelude.Int.{ℤ, pos}
use kanban_store.Prelude.Text.{◌=?◌, text_lt}
use kanban_store.Prelude.TextOrder.{text_lt_asym, text_lt_step}
use kanban_store.Prelude.Sort.{insert_sorted, sort_stable}
use kanban_store.Log.Ladder.{Rung, get_priority_ladder}
use kanban_store.SpendCeilings.Defaults.{
  NoteboardItem, float, priority_of_noteboard_item, rung_for, default_on, lower_of, lowest_from,
  lowest_default_spend_ceiling_for_priority, spend_ceiling_of_noteboard_item, replaced_ceiling,
  spend_ceiling_for_priority_change,
}
use kanban_store.SpendCeilings.HandSet.{MayReplace, spend_ceiling_for_priority_change-MayReplace}

abbrev rung : String → ℤ → String → Rung
rung board_id v amount = record {
  board_id = board_id;
  priority_value = v;
  label = amount;
  budget_seconds = none;
  default_auto_hold_at_usd = some amount;
}

abbrev ladders : List Rung
ladders = rung "a" (pos 1) "2" ∷ rung "a" (pos 2) "7" ∷ rung "b" (pos 2) "5" ∷ []

-- The card has the default of priority 1.
abbrev item : NoteboardItem
item = record { priority = float "1"; auto_hold_at_usd = float "2" }

abbrev int_of : String → ℤ
int_of v = pos 1

spend_ceiling_for_priority_change-MayReplace_example :
    MayReplace text_lt (λ a b. a =? b) int_of ladders ("a" ∷ "b" ∷ []) item (pos 2) "5"
unfolding find keep insert_sorted sort_stable text_lt get_priority_ladder priority_of_noteboard_item
    rung_for default_on lower_of lowest_from lowest_default_spend_ceiling_for_priority
    spend_ceiling_of_noteboard_item replaced_ceiling spend_ceiling_for_priority_change
spend_ceiling_for_priority_change-MayReplace_example =
    spend_ceiling_for_priority_change-MayReplace text_lt (λ a b. a =? b) text_lt_asym text_lt_step
      int_of ladders ("a" ∷ "b" ∷ []) item (pos 2) "5" refl
