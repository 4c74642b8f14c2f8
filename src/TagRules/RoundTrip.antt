-- ===== src/TagRules/RoundTrip.antt =====
-- Setting a board's rules and reading them back.
use kanban_store.Prelude.{
  ℕ, suc, String, true, false, not, List, [], ◌∷◌, none, some, find, ◌⊎◌, subst, ◌≡◌, refl, sym,
  arith, Bool-cases, Option-cases, inl, inr, keep,
}
use kanban_store.Prelude.Text.{◌=?◌}
use kanban_store.TagRules.Rules.{BoardTagRule, BoardTagRuleInput}
use kanban_store.TagRules.Stored.{
  TagRuleRow, TagsJson, rules_found, on_board, rule_of_row, get_board_tag_rules, unknown_id,
  created_at_of, row_of_input, set_board_tag_rules,
}
use kanban_store.TagRules.Written.{rules_from, rows_written, known_ids}

module _ (new_id : ℕ → String) (old : List TagRuleRow) (stamp : ℕ) (board_id : String) where
  -- A rule with a new id that is created now, or one that the board had, with its id and its time
  abbrev pub IsNewOrKept : ℕ → BoardTagRuleInput → BoardTagRule → Type 0
  IsNewOrKept position input rule =
      (((input.id =? "") ≡ true) × (rule.id ≡ new_id position) × (rule.created_at ≡ stamp))
      ⊎ (((input.id =? "") ≡ false)
          × (rule.id ≡ input.id)
          × ((row : TagRuleRow) × (find (λ r. r.id =? input.id) old ≡ some row)
              × (rule.created_at ≡ row.created_at)))

  pub record IsRuleOf (position : ℕ) (input : BoardTagRuleInput) (rule : BoardTagRule)
      : Type 0 where
    pub board : rule.board_id ≡ board_id
    pub place : rule.position ≡ position
    pub tags : rule.tags ≡ input.tags
    pub defaults : rule.defaults ≡ input.defaults
    pub updated : rule.updated_at ≡ stamp
    pub origin : IsNewOrKept position input rule

  -- The rules are those of the inputs, in their order, at the positions from `position` on.
  abbrev pub AreRulesOf : ℕ → List BoardTagRuleInput → List BoardTagRule → Type 0
  AreRulesOf position [] [] = Unit
  AreRulesOf position [] (rule ∷ rules) = ⊥
  AreRulesOf position (input ∷ inputs) [] = ⊥
  AreRulesOf position (input ∷ inputs) (rule ∷ rules) =
      IsRuleOf position input rule × AreRulesOf (suc position) inputs rules

  module _ (json : TagsJson) where
    known_origin :
        (position : ℕ) (input : BoardTagRuleInput) (inputs : List BoardTagRuleInput)
        → unknown_id json old (input ∷ inputs) ≡ none
        → IsNewOrKept position input
            (rule_of_row (row_of_input json new_id old stamp board_id position input) input.tags)
    unfolding unknown_id row_of_input created_at_of rule_of_row
    known_origin position input inputs h = elim (Bool-cases (input.id =? "")) [
      | inl e ↦ rw e (inl (refl, refl, refl))
      | inr e ↦ elim (Option-cases (find (λ r. r.id =? input.id) old)) [
        | inl absent ↦ absurd (ground arith)
        | inr (row, there) ↦ rw (e, there) (inr (refl, refl, (row, refl, refl)))
      ]
    ]

    rest_known :
        (input : BoardTagRuleInput) (inputs : List BoardTagRuleInput)
        → unknown_id json old (input ∷ inputs) ≡ none
        → unknown_id json old inputs ≡ none
    unfolding unknown_id
    rest_known input inputs h = ground arith

    rules_from-AreRulesOf :
        (inputs : List BoardTagRuleInput) (position : ℕ)
        → unknown_id json old inputs ≡ none
        → AreRulesOf position inputs
            (rules_from (row_of_input json new_id old stamp board_id) position inputs)
    unfolding row_of_input rule_of_row
    rules_from-AreRulesOf [] position h = tt
    rules_from-AreRulesOf (input ∷ inputs) position h = (
      record {
        board = refl;
        place = refl;
        tags = refl;
        defaults = refl;
        updated = refl;
        origin = known_origin position input inputs h;
      },
      rules_from-AreRulesOf inputs (suc position) (rest_known input inputs h),
    )

-- Setting a board's rules, where the call answers with rules: they are the inputs in their order, from
-- position 0 on, with the tags and the defaults of the inputs; each has the id of its input and the time
-- of creation of the board's rule of that id, or, where the input has no id, the next new id and the
-- time of the call. Reading the board's rules gives them again, and the rules of every other board are
-- as they were. The encoding of tags has to read back.
pub set_board_tag_rules-get_board_tag_rules :
    (json : TagsJson) (boards : List String) (new_id : ℕ → String) (stamp : ℕ) (board_id : String)
    (inputs : List BoardTagRuleInput) (table after : List TagRuleRow) (rules : List BoardTagRule)
    → ((tags : List String) → json.unmarshal (json.marshal tags) ≡ some tags)
    → set_board_tag_rules json boards new_id stamp board_id inputs table
      ≡ (after, rules_found rules)
    → AreRulesOf new_id (keep (on_board board_id) table) stamp board_id 0 inputs rules
      × (get_board_tag_rules json boards after board_id ≡ rules_found rules)
      × (keep (λ r. not (on_board board_id r)) after ≡ keep (λ r. not (on_board board_id r)) table)
set_board_tag_rules-get_board_tag_rules json boards new_id stamp board_id inputs table after rules
      reads h =
    let (same, read, others) =
      rows_written json boards new_id stamp board_id inputs table after rules reads h in
    let known = known_ids json boards new_id stamp board_id inputs table after rules h in
    let old = keep (on_board board_id) table in
    (
      subst (AreRulesOf new_id old stamp board_id 0 inputs) (sym same)
          (rules_from-AreRulesOf new_id old stamp board_id json inputs 0 known),
      read,
      others,
    )
