-- ===== src/Classification/Policies.antt =====
-- SetBoardClassificationPolicy (internal/db/classification.go).
use kanban_store.Prelude.{
  ℕ, suc, Bool, false, [], ◌∷◌, ◌++◌, Option, none, some, ◌==◌, if◌then◌else◌,
}
use kanban_store.Prelude.Text.{◌=?◌}
use kanban_store.Classification.Records.{Records, Taxonomy, AxisPolicies, Revision, PolicyContent}
use kanban_store.Classification.Work.{
  invalid, conflict, Settings, not_found, refuse, Outcome, stopped, wrote, Messages,
  write_immediately,
}
use kanban_store.Classification.Revisions.{current_taxonomy_revision, current_policy, number}
use kanban_store.Classification.Taxonomies.{
  TaxonomyCall, board_organization, board_classification, or_stop, moved,
}

unfoldable pub settings_now : TaxonomyCall → Records → Outcome Settings
settings_now c r =
    or_stop r not_found (board_classification r c.board_id) (λ settings. wrote r settings)

unfoldable pub insert_policy_revision : TaxonomyCall → ℕ → AxisPolicies → ℕ → Records → Records
insert_policy_revision c revision policies taxonomy_revision r = record r {
  policies =
      r.policies
      ++ (record {
        board_id = c.board_id;
        revision = revision;
        content = record { axis_policies = policies; taxonomy_revision = taxonomy_revision };
        created_at = c.now;
        created_by = c.principal_id;
      }
          ∷ []);
}

abbrev pub same_policies : Messages → AxisPolicies → Option (Revision PolicyContent) → Bool
same_policies msg policies none = false
same_policies msg policies (some p) =
    msg.policies_json p.content.axis_policies =? msg.policies_json policies

unfoldable pub store_policy :
    TaxonomyCall → Option (Revision PolicyContent) → ℕ → AxisPolicies → Records → Outcome Settings
store_policy c current taxonomy_revision policies r =
    if same_policies c.msg policies current
    then settings_now c r
    else settings_now c
        (insert_policy_revision c (suc (number current)) policies taxonomy_revision r)

unfoldable pub given_policy :
    TaxonomyCall
    → Option (Revision PolicyContent)
    → ℕ
    → Taxonomy
    → Option AxisPolicies
    → Records
    → Outcome Settings
given_policy c current taxonomy_revision t none r = stopped r (refuse invalid "policy_invalid")
given_policy c current taxonomy_revision t (some policies) r =
    if c.msg.validate_axis_policies policies t
    then store_policy c current taxonomy_revision policies r
    else stopped r (refuse invalid "policy_invalid")

unfoldable pub change_policy :
    TaxonomyCall
    → Option (Revision PolicyContent)
    → Option AxisPolicies
    → Records
    → Outcome Settings
change_policy c current policies r =
    let taxonomy = current_taxonomy_revision r.taxonomies c.board_id in
    or_stop r (refuse conflict "board_has_no_taxonomy") taxonomy.content.taxonomy
      (λ t. given_policy c current taxonomy.revision t policies r)

unfoldable pub policy_work : TaxonomyCall → ℕ → Option AxisPolicies → Records → Outcome Settings
policy_work c expected policies r = or_stop r not_found (board_organization r c.board_id) (λ _.
    let current = current_policy r.policies c.board_id in
    if expected == number current
    then change_policy c current policies r
    else stopped r (moved "policy_revision_moved" (board_classification r c.board_id)))

-- SetBoardClassificationPolicy
unfoldable pub set_board_classification_policy :
    TaxonomyCall → ℕ → Option AxisPolicies → Records → Outcome Settings
set_board_classification_policy c expected policies r =
    write_immediately r (policy_work c expected policies r)
