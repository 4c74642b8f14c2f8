-- ===== src/TagRules/Stored.antt =====
-- The table of tag rules (internal/db/tag_rules.go): GetBoardTagRules and SetBoardTagRules. What
-- json.Marshal and json.Unmarshal make of a list of tags is a parameter; the boards are their ids.
use kanban_store.Prelude.{
  ℕ, suc, String, Bool, not, List, [], ◌∷◌, ◌++◌, Option, none, some, ltb, if◌then◌else◌, keep,
  find, is_some,
}
use kanban_store.Prelude.Text.{◌=?◌, contains}
use kanban_store.Prelude.Sort.{sort_stable}
use kanban_store.TagRules.Rules.{Defaults, BoardTagRule, BoardTagRuleInput}

pub record TagRuleRow : Type 0 where
  pub id : String
  pub board_id : String
  pub position : ℕ
  pub tags_json : String
  pub defaults : Defaults
  pub created_at : ℕ
  pub updated_at : ℕ

pub record TagsJson : Type 0 where
  pub marshal : List String → String
  pub unmarshal : String → Option (List String)

pub data TagRuleError : Type 0 where
  board_not_found id_taken : TagRuleError
  rule_not_on_board unreadable_tags : String → TagRuleError

pub data RulesAnswer : Type 0 where
  rules_found : List BoardTagRule → RulesAnswer
  rules_refused : TagRuleError → RulesAnswer

abbrev pub on_board : String → TagRuleRow → Bool
on_board board_id row = row.board_id =? board_id

abbrev pub row_before : TagRuleRow → TagRuleRow → Bool
row_before a b = ltb a.position b.position

unfoldable pub rule_of_row : TagRuleRow → List String → BoardTagRule
rule_of_row row tags = record {
  id = row.id;
  board_id = row.board_id;
  position = row.position;
  tags = tags;
  defaults = row.defaults;
  created_at = row.created_at;
  updated_at = row.updated_at;
}

abbrev with_rule : BoardTagRule → RulesAnswer → RulesAnswer
with_rule rule (rules_found rules) = rules_found (rule ∷ rules)
with_rule rule (rules_refused e) = rules_refused e

module _ (json : TagsJson) where
  -- The loop over the rows, up to the first one whose tags do not parse.
  unfoldable pub read_rows : List TagRuleRow → RulesAnswer
  read_rows [] = rules_found []
  read_rows (row ∷ rows) =
      let rest = read_rows rows in
      elim (json.unmarshal row.tags_json) [
        | none ↦ rules_refused (unreadable_tags row.id)
        | some tags ↦ with_rule (rule_of_row row tags) rest
      ]

  -- GetBoardTagRules
  unfoldable pub get_board_tag_rules : List String → List TagRuleRow → String → RulesAnswer
  get_board_tag_rules boards table board_id =
      if contains boards board_id
      then read_rows (sort_stable row_before (keep (on_board board_id) table))
      else rules_refused board_not_found

  -- The first id of the inputs that no rule of the board has.
  unfoldable pub unknown_id : List TagRuleRow → List BoardTagRuleInput → Option String
  unknown_id rows [] = none
  unknown_id rows (input ∷ inputs) =
      let rest = unknown_id rows inputs in
      if input.id =? ""
      then rest
      else if is_some (find (λ r. r.id =? input.id) rows)
      then rest
      else some input.id

  -- `createdAtByID[id]`; the rows are the board's before they are deleted.
  unfoldable pub created_at_of : List TagRuleRow → ℕ → String → ℕ
  created_at_of rows stamp id =
      if id =? ""
      then stamp
      else elim (find (λ r. r.id =? id) rows) [ none ↦ 0 | some row ↦ row.created_at ]

  -- The row that is inserted for an input; `new_id` mints the ids.
  unfoldable pub row_of_input :
      (ℕ → String) → List TagRuleRow → ℕ → String → ℕ → BoardTagRuleInput → TagRuleRow
  row_of_input new_id rows stamp board_id position input = record {
    id = if input.id =? "" then new_id position else input.id;
    board_id = board_id;
    position = position;
    tags_json = json.marshal input.tags;
    defaults = input.defaults;
    created_at = created_at_of rows stamp input.id;
    updated_at = stamp;
  }

  -- The loop of INSERTs; the primary key refuses an id that is taken.
  unfoldable pub insert_rows :
      (ℕ → BoardTagRuleInput → TagRuleRow)
      → ℕ
      → List BoardTagRuleInput
      → List TagRuleRow
      → Option (List TagRuleRow)
  insert_rows row_at position [] table = some table
  insert_rows row_at position (input ∷ inputs) table =
      let row = row_at position input in
      let rest = insert_rows row_at (suc position) inputs (table ++ (row ∷ [])) in
      if is_some (find (λ r. r.id =? row.id) table) then none else rest

  -- SetBoardTagRules: the table afterwards, and the answer; a refused call leaves the table as it was.
  unfoldable pub set_board_tag_rules :
      List String
      → (ℕ → String)
      → ℕ
      → String
      → List BoardTagRuleInput
      → List TagRuleRow
      → List TagRuleRow × RulesAnswer
  set_board_tag_rules boards new_id stamp board_id inputs table =
      let rows = keep (on_board board_id) table in
      let inserted =
        insert_rows (row_of_input new_id rows stamp board_id) 0 inputs
          (keep (λ r. not (on_board board_id r)) table) in
      if not (contains boards board_id)
      then (table, rules_refused board_not_found)
      else elim (unknown_id rows inputs) [
        | some id ↦ (table, rules_refused (rule_not_on_board id))
        | none ↦ elim inserted [
          | none ↦ (table, rules_refused id_taken)
          | some after ↦ (after, get_board_tag_rules boards after board_id)
        ]
      ]
