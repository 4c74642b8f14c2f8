-- ===== src/Classification/Calls.antt =====
-- The writes of board classification in the order in which they are served (internal/db/classification.go).
use kanban_store.Prelude.{ℕ, String, List, [], ◌∷◌, Option}
use kanban_store.Classification.Records.{Records, Taxonomy, AxisPolicies}
use kanban_store.Classification.Work.{records_of}
use kanban_store.Classification.Taxonomies.{TaxonomyCall, set_board_taxonomy}
use kanban_store.Classification.Policies.{set_board_classification_policy}
use kanban_store.Classification.Decisions.{
  PublishCall, publish_classification_decision, remove_sources_of_card,
}
use kanban_store.Classification.Labels.{ReviewCall, review_classification_decision}

pub data Call : Type 0 where
  sets_taxonomy : TaxonomyCall → ℕ → Option Taxonomy → Call
  sets_policy : TaxonomyCall → ℕ → Option AxisPolicies → Call
  publishes : PublishCall → Call
  reviews : ReviewCall → Call
  removes_sources : ℕ → String → Call

-- The records that a call leaves, whatever it answers
unfoldable pub serve : Call → Records → Records
serve (sets_taxonomy c n t) r = records_of (set_board_taxonomy c n t r)
serve (sets_policy c n policies) r = records_of (set_board_classification_policy c n policies r)
serve (publishes c) r = records_of (publish_classification_decision c r)
serve (reviews c) r = records_of (review_classification_decision c r)
serve (removes_sources now card_id) r = remove_sources_of_card now card_id r

unfoldable pub serve_all : List Call → Records → Records
serve_all [] r = r
serve_all (c ∷ calls) r = serve_all calls (serve c r)
