-- ===== src/TagRules/Examples.antt =====
-- Concrete boards and rules for the theorems on tag rules.
use kanban_store.Prelude.{ℕ, String, true, List, [], ◌∷◌, ◌≡◌, refl, All, SomeOf}
use kanban_store.Prelude.Text.{contains, trim_space, text_lt}
use kanban_store.Prelude.Sort.{sort_stable, insert_sorted}
use kanban_store.Prelude.Lists.{keep}
use kanban_store.TagRules.Rules.{
  default_agent_id, Defaults, default_value, BoardTagRule, BoardTagRuleInput, matches_tags,
  carries_all, Board, effective_default, first_setting, matched_rules, validate_rules, check_rules,
  check_rule, check_tags, check_defaults, tag_set_key,
}
use Prim.Native.Char.{Char, code}
use kanban_store.Prelude.{◌==◌, if◌then◌else◌, not, find, Option, none, some}
use native.Mathlib.Omega.{arith}
use kanban_store.TagRules.Stored.{
  TagRuleRow, TagsJson, rules_found, on_board, rule_of_row, read_rows, get_board_tag_rules,
  unknown_id, created_at_of, row_of_input, insert_rows, set_board_tag_rules,
}
use kanban_store.TagRules.RoundTrip.{AreRulesOf, set_board_tag_rules-get_board_tag_rules}
use kanban_store.TagRules.Precedence.{sets, IsFirst, effective_default-from_tag_rule}
use kanban_store.TagRules.Validity.{
  IsSound, HaveDifferentTags, HaveDistinctIds, validate_rules-IsSound,
}

abbrev agent_only : String → Defaults
agent_only agent = record { principal_id = ""; agent_id = agent; instance_id = ""; bundle_id = "" }

abbrev rule_of : String → ℕ → List String → String → BoardTagRule
rule_of id position tags agent = record {
  id = id;
  board_id = "b1";
  position = position;
  tags = tags;
  defaults = agent_only agent;
  created_at = 0;
  updated_at = 0;
}

abbrev two_rules : List BoardTagRule
two_rules = rule_of "r2" 1 ("bug" ∷ []) "fixer" ∷ rule_of "r1" 0 ("ui" ∷ "bug" ∷ []) "painter" ∷ []

abbrev board : Board
board = record {
  id = "b1";
  defaults = record { principal_id = "ann"; agent_id = ""; instance_id = ""; bundle_id = "" };
}

abbrev tags_bug_ui : List String
tags_bug_ui = "bug" ∷ "ui" ∷ []

effective_default-from_tag_rule_example :
    SomeOf (λ x. x ≡ rule_of "r1" 0 ("ui" ∷ "bug" ∷ []) "painter") two_rules
    × (matches_tags tags_bug_ui (rule_of "r1" 0 ("ui" ∷ "bug" ∷ []) "painter") ≡ true)
    × (sets default_agent_id (rule_of "r1" 0 ("ui" ∷ "bug" ∷ []) "painter") ≡ true)
    × ("painter" ≡ default_value (agent_only "painter") default_agent_id)
    × IsFirst tags_bug_ui default_agent_id (rule_of "r1" 0 ("ui" ∷ "bug" ∷ []) "painter") two_rules
unfolding effective_default first_setting matched_rules sort_stable insert_sorted keep matches_tags
    carries_all contains default_value
effective_default-from_tag_rule_example =
    effective_default-from_tag_rule board two_rules tags_bug_ui default_agent_id
      (rule_of "r1" 0 ("ui" ∷ "bug" ∷ []) "painter") "painter" refl

abbrev two_inputs : List BoardTagRuleInput
two_inputs =
    record { id = "r1"; tags = "bug" ∷ "ui" ∷ []; defaults = agent_only "painter" }
    ∷ record { id = ""; tags = "bug" ∷ []; defaults = agent_only "fixer" }
    ∷ []

validate_rules-IsSound_example :
    All IsSound two_inputs × HaveDifferentTags two_inputs × HaveDistinctIds two_inputs
unfolding validate_rules check_rules check_rule check_tags check_defaults contains default_value
    sort_stable insert_sorted tag_set_key trim_space text_lt
validate_rules-IsSound_example = validate_rules-IsSound two_inputs refl

-- An encoding of tags that reads back: a 1 before each character of a tag, and a 0 after each tag.
encode_tag : String → String → String
encode_tag String.[] rest = String.◌∷◌ "0" rest
encode_tag (String.◌∷◌ c tag) rest = String.◌∷◌ "1" (String.◌∷◌ c (encode_tag tag rest))

encode : List String → String
encode [] = ""
encode (tag ∷ tags) = encode_tag tag (encode tags)

abbrev push_empty : Option (List String) → Option (List String)
push_empty none = none
push_empty (some tags) = some ("" ∷ tags)

abbrev push_char : Char → Option (List String) → Option (List String)
push_char c none = none
push_char c (some []) = none
push_char c (some (tag ∷ tags)) = some (String.◌∷◌ c tag ∷ tags)

decode : String → Option (List String)
decode String.[] = some []
decode (String.◌∷◌ d String.[]) = if code d == b'0' then some ("" ∷ []) else none
decode (String.◌∷◌ d (String.◌∷◌ c s)) =
    let after = decode (String.◌∷◌ c s) in
    let later = decode s in if code d == b'0' then push_empty after else push_char c later

decode-encode_tag :
    (tag rest : String) (tags : List String)
    → decode rest ≡ some tags
    → decode (encode_tag tag rest) ≡ some (tag ∷ tags)
unfolding decode encode_tag
decode-encode_tag String.[] String.[] tags h = ground arith
decode-encode_tag String.[] (String.◌∷◌ c rest) tags h = ground arith
decode-encode_tag (String.◌∷◌ c tag) rest tags h = rw (decode-encode_tag tag rest tags h) refl

decode-encode : (tags : List String) → decode (encode tags) ≡ some tags
unfolding decode encode
decode-encode [] = refl
decode-encode (tag ∷ tags) = decode-encode_tag tag (encode tags) tags (decode-encode tags)

abbrev json : TagsJson
json = record { marshal = encode; unmarshal = decode }

abbrev minted : ℕ → String
minted n = "new"

abbrev no_rows : List TagRuleRow
no_rows = []

abbrev one_input : List BoardTagRuleInput
one_input = record { id = ""; tags = "bug" ∷ []; defaults = agent_only "fixer" } ∷ []

abbrev one_rule : BoardTagRule
one_rule = record {
  id = "new";
  board_id = "b1";
  position = 0;
  tags = "bug" ∷ [];
  defaults = agent_only "fixer";
  created_at = 5;
  updated_at = 5;
}

abbrev one_row : TagRuleRow
one_row = record {
  id = "new";
  board_id = "b1";
  position = 0;
  tags_json = encode ("bug" ∷ []);
  defaults = agent_only "fixer";
  created_at = 5;
  updated_at = 5;
}

set_board_tag_rules-get_board_tag_rules_example :
    AreRulesOf minted (keep (on_board "b1") no_rows) 5 "b1" 0 one_input (one_rule ∷ [])
    × (get_board_tag_rules json ("b1" ∷ []) (one_row ∷ []) "b1" ≡ rules_found (one_rule ∷ []))
    × (keep (λ r. not (on_board "b1" r)) (one_row ∷ []) ≡ keep (λ r. not (on_board "b1" r)) no_rows)
unfolding set_board_tag_rules insert_rows unknown_id row_of_input created_at_of get_board_tag_rules
    read_rows rule_of_row contains keep find sort_stable insert_sorted encode encode_tag decode
set_board_tag_rules-get_board_tag_rules_example =
    set_board_tag_rules-get_board_tag_rules json ("b1" ∷ []) minted 5 "b1" one_input no_rows
      (one_row ∷ []) (one_rule ∷ []) decode-encode refl
