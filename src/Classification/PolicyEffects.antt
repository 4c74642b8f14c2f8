-- ===== src/Classification/PolicyEffects.antt =====
-- What SetBoardClassificationPolicy leaves behind (internal/db/classification.go).
use kanban_store.Prelude.{ℕ, suc, Option, none, some, ◌==◌, ◌≡◌, arith}
use kanban_store.Classification.Records.{Records, Taxonomy, AxisPolicies}
use kanban_store.Classification.Work.{Settings}
use kanban_store.Classification.Revisions.{current_taxonomy_revision, current_policy, number}
use kanban_store.Classification.Taxonomies.{TaxonomyCall, board_classification, board_organization}
use kanban_store.Classification.Policies.{
  settings_now, insert_policy_revision, store_policy, given_policy, change_policy, policy_work,
  set_board_classification_policy, same_policies,
}
use kanban_store.Classification.Outcomes.{
  OnWrite, OnWrite-write_immediately, OnWrite-if, OnWrite-or_stop, OnWrite-imp,
}

-- The records are kept, or a revision of the policy is added.
pub data PolicyEffect (c : TaxonomyCall) (r : Records) : Records → Type 0 where
  kept : PolicyEffect c r r
  added :
      (policies : AxisPolicies) (taxonomy_revision : ℕ)
      → PolicyEffect c r (
          insert_policy_revision c
            (suc (number (current_policy r.policies c.board_id)))
            policies
            taxonomy_revision
            r)

-- And the revision that was expected is the current one.
abbrev pub PolicyWritten : TaxonomyCall → ℕ → Records → Records → Settings → Type 0
PolicyWritten c expected r r' x =
    PolicyEffect c r r' × (expected ≡ number (current_policy r.policies c.board_id))

module _ (c : TaxonomyCall) (r : Records) where
  abbrev Effect : Records → Settings → Type 0
  Effect r' x = PolicyEffect c r r'

  settings-Effect : (r' : Records) → PolicyEffect c r r' → OnWrite Effect (settings_now c r')
  unfolding settings_now
  settings-Effect r' h =
      OnWrite-or_stop Effect r' _ (board_classification r' c.board_id) _ (λ s e. h)

  store-Effect :
      (n : ℕ) (policies : AxisPolicies)
      → OnWrite Effect (store_policy c (current_policy r.policies c.board_id) n policies r)
  unfolding store_policy
  store-Effect n policies =
      OnWrite-if Effect (same_policies c.msg policies (current_policy r.policies c.board_id)) _ _
        (λ e. settings-Effect r kept) (λ e. settings-Effect _ (added policies n))

  given-Effect :
      (n : ℕ) (t : Taxonomy) (policies : Option AxisPolicies)
      → OnWrite Effect (given_policy c (current_policy r.policies c.board_id) n t policies r)
  unfolding given_policy
  given-Effect n t none = tt
  given-Effect n t (some policies) =
      OnWrite-if Effect (c.msg.validate_axis_policies policies t) _ _ (λ e. store-Effect n policies)
        (λ e. tt)

  change-Effect :
      (policies : Option AxisPolicies)
      → OnWrite Effect (change_policy c (current_policy r.policies c.board_id) policies r)
  unfolding change_policy
  change-Effect policies =
      OnWrite-or_stop Effect r _
        (current_taxonomy_revision r.taxonomies c.board_id).content.taxonomy _
        (λ t e. given-Effect _ t policies)

  pub policy-Effect :
      (expected : ℕ) (policies : Option AxisPolicies)
      → OnWrite (PolicyWritten c expected r) (set_board_classification_policy c expected policies r)
  unfolding set_board_classification_policy policy_work
  policy-Effect expected policies = OnWrite-write_immediately _ r _ (
      OnWrite-or_stop _ r _ (board_organization r c.board_id) _ (λ o e.
        OnWrite-if _ (expected == number (current_policy r.policies c.board_id)) _ _
          (λ same. OnWrite-imp Effect _ _ (change-Effect policies) (λ r' x h. (h, ground arith)))
          (λ e. tt)))
