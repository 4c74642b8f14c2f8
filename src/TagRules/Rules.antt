-- ===== src/TagRules/Rules.antt =====
-- Tag rules, their validation and the defaults that a card gets from them
-- (internal/model/tag_rules.go). A `map[string]bool` of a card's tags is the list of them.
use kanban_store.Prelude.{
  ℕ, suc, String, Bool, true, false, ◌&&◌, ◌||◌, not, List, [], ◌∷◌, Option, none, some, ltb,
  if◌then◌else◌, map,
}
use kanban_store.Prelude.Lists.{keep}
use kanban_store.Prelude.Sort.{sort_stable}
use kanban_store.Prelude.Text.{◌=?◌, ◌<>◌, contains, text_lt, trim_space}

pub data DefaultField : Type 0 where
  default_principal_id default_agent_id default_instance_id default_bundle_id : DefaultField

abbrev pub default_fields : List DefaultField
default_fields =
    default_principal_id ∷ default_agent_id ∷ default_instance_id ∷ default_bundle_id ∷ []

-- The four defaults that a board, a rule and a rule's input all carry; "" is unset.
pub record Defaults : Type 0 where
  pub principal_id : String
  pub agent_id : String
  pub instance_id : String
  pub bundle_id : String

-- defaultValueOf, and DefaultValue of a board, a rule and an input
unfoldable pub default_value : Defaults → DefaultField → String
default_value d default_principal_id = d.principal_id
default_value d default_agent_id = d.agent_id
default_value d default_instance_id = d.instance_id
default_value d default_bundle_id = d.bundle_id

pub record BoardTagRule : Type 0 where
  pub id : String
  pub board_id : String
  pub position : ℕ
  pub tags : List String
  pub defaults : Defaults
  pub created_at : ℕ
  pub updated_at : ℕ

pub record BoardTagRuleInput : Type 0 where
  pub id : String
  pub tags : List String
  pub defaults : Defaults

-- MatchesTags
unfoldable pub carries_all : List String → List String → Bool
carries_all card_tags [] = true
carries_all card_tags (tag ∷ tags) =
    if not (contains card_tags tag) then false else carries_all card_tags tags

unfoldable pub matches_tags : List String → BoardTagRule → Bool
unfolding carries_all
matches_tags card_tags rule = carries_all card_tags rule.tags

pub data RuleError : Type 0 where
  rules_required : RuleError
  no_tags empty_or_untrimmed_tag repeated_tag same_tag_set untrimmed_default sets_no_default
        repeated_id :
      ℕ → RuleError

-- The loop over one rule's tags, with those seen before.
unfoldable pub check_tags : ℕ → List String → List String → Option RuleError
check_tags index seen [] = none
check_tags index seen (tag ∷ tags) =
    if tag =? "" || not (tag =? trim_space tag)
    then some (empty_or_untrimmed_tag index)
    else if contains seen tag
    then some (repeated_tag index)
    else check_tags index (tag ∷ seen) tags

-- The loop over the four defaults, with `setsAny`.
unfoldable pub check_defaults : ℕ → Defaults → Bool → List DefaultField → Option RuleError
check_defaults index d sets_any [] = if sets_any then none else some (sets_no_default index)
check_defaults index d sets_any (field ∷ fields) =
    if not (default_value d field =? "")
      && not (default_value d field =? trim_space (default_value d field))
    then some (untrimmed_default index)
    else check_defaults index d (not (default_value d field =? "") || sets_any) fields

pub join : String → List String → String
join sep [] = ""
join sep (x ∷ []) = x
join sep (x ∷ y ∷ rest) = x <> (sep <> join sep (y ∷ rest))

-- tagSetKey
unfoldable pub tag_set_key : List String → String
unfolding join
tag_set_key tags = join "\0" (sort_stable text_lt tags)

unfoldable pub check_rule : ℕ → List String → List String → BoardTagRuleInput → Option RuleError
check_rule index seen_ids seen_tag_sets rule = elim rule.tags [
  | [] ↦ some (no_tags index)
  | tag ∷ tags ↦ elim (check_tags index [] (tag ∷ tags)) [
    | some e ↦ some e
    | none ↦
        if contains seen_tag_sets (tag_set_key (tag ∷ tags))
        then some (same_tag_set index)
        else elim (check_defaults index rule.defaults false default_fields) [
          | some e ↦ some e
          | none ↦
              if not (rule.id =? "") && contains seen_ids rule.id
              then some (repeated_id index)
              else none
        ]
  ]
]

unfoldable pub check_rules :
    ℕ → List String → List String → List BoardTagRuleInput → Option RuleError
check_rules index seen_ids seen_tag_sets [] = none
check_rules index seen_ids seen_tag_sets (rule ∷ rules) =
    let rest =
      check_rules (suc index) (if rule.id =? "" then seen_ids else rule.id ∷ seen_ids)
        (tag_set_key rule.tags ∷ seen_tag_sets) rules in
    elim (check_rule index seen_ids seen_tag_sets rule) [ some e ↦ some e | none ↦ rest ]

-- Validate of SetBoardTagRulesRequest; `none` is a missing list.
unfoldable pub validate_rules : Option (List BoardTagRuleInput) → Option RuleError
validate_rules none = some rules_required
validate_rules (some rules) = check_rules 0 [] [] rules

pub data DefaultSource : Type 0 where
  from_board : DefaultSource
  from_tag_rule : BoardTagRule → DefaultSource

pub record EffectiveDefault : Type 0 where
  pub value : String
  pub source : DefaultSource

pub record Board : Type 0 where
  pub id : String
  pub defaults : Defaults

-- The loop over the matched rules, up to its `break`.
unfoldable pub first_setting : List BoardTagRule → DefaultField → Option EffectiveDefault
first_setting [] field = none
first_setting (rule ∷ rules) field =
    if not (default_value rule.defaults field =? "")
    then some (record { value = default_value rule.defaults field; source = from_tag_rule rule })
    else first_setting rules field

abbrev pub by_position : BoardTagRule → BoardTagRule → Bool
by_position a b = ltb a.position b.position

unfoldable pub matched_rules : List BoardTagRule → List String → List BoardTagRule
matched_rules rules card_tags = keep (matches_tags card_tags) (sort_stable by_position rules)

-- ResolveEffectiveDefaults: `Defaults[field]`, and the ids of the rules that matched.
unfoldable pub effective_default :
    Board → List BoardTagRule → List String → DefaultField → Option EffectiveDefault
effective_default board rules card_tags field =
    elim (first_setting (matched_rules rules card_tags) field) [
      | some chosen ↦ some chosen
      | none ↦
          if default_value board.defaults field =? ""
          then none
          else some (record { value = default_value board.defaults field; source = from_board })
    ]

unfoldable pub matched_rule_ids : List BoardTagRule → List String → List String
unfolding matched_rules
matched_rule_ids rules card_tags = map (λ r. r.id) (matched_rules rules card_tags)
