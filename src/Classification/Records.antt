-- ===== src/Classification/Records.antt =====
-- The rows of board classification (internal/db/classification.go, internal/model/classification.go). The
-- types of llm-bridge's `msg` package have here the fields that the code reads, and one text for the
-- rest. A value that a column keeps as JSON is the value itself. Revisions are counted without the end
-- of `int64`, and a negative one, which is no row's, does not occur.
use kanban_store.Prelude.{ℕ, String, Bool, List, Option}

-- msg.ClassificationTaxonomy, its axes and their values
pub record TaxonomyValue : Type 0 where
  pub id : String
  pub archived : Bool
  pub content : String

pub record TaxonomyAxis : Type 0 where
  pub id : String
  pub required : Bool
  pub archived : Bool
  pub values : List TaxonomyValue
  pub content : String

pub record Taxonomy : Type 0 where
  pub axes : List TaxonomyAxis
  pub content : String

-- msg.ClassificationAxisPolicy
pub record AxisPolicy : Type 0 where
  pub mode : String
  pub content : String

-- A map from axis ids
abbrev pub AxisPolicies : Type 0
AxisPolicies = List (String × AxisPolicy)

abbrev pub Selections : Type 0
Selections = List (String × List String)

-- msg.BoardClassificationDecisionPublication: the source text, and all else
pub record Evidence : Type 0 where
  pub board_id : String
  pub card_id : String
  pub operation_id : String
  pub checkpoint_id : String
  pub attempt_number : ℕ
  pub initiating_principal_id : String
  pub source_revision : String
  pub source_digest : String
  pub taxonomy_revision : ℕ
  pub taxonomy_digest : String
  pub policy_revision : ℕ
  pub prompt_revision : String
  pub model : String
  pub origin : String
  pub selections : Selections
  pub rationale : String
  pub confidence : Option String
  pub needs_review : Bool
  pub review_reasons : List String
  pub completed_at : ℕ

pub record Publication : Type 0 where
  pub evidence : Evidence
  pub source : String

-- A row of classification_identifiers
pub record Identifier : Type 0 where
  pub sequence : ℕ
  pub id : String
  pub kind : String
  pub board_id : String
  pub axis_id : String
  pub created_at : ℕ

-- A row of classification_taxonomy_revisions or of classification_policy_revisions
pub record Revision (A : Type 0) : Type 0 where
  pub board_id : String
  pub revision : ℕ
  pub content : A
  pub created_at : ℕ
  pub created_by : String

pub record TaxonomyContent : Type 0 where
  pub taxonomy : Option Taxonomy
  pub semantic_digest : String

pub record PolicyContent : Type 0 where
  pub axis_policies : AxisPolicies
  pub taxonomy_revision : ℕ

-- A row of classification_decisions; the source is none once it was removed.
pub record Decision : Type 0 where
  pub id : String
  pub sequence : ℕ
  pub organization_id : String
  pub publication_key : String
  pub publication_digest : String
  pub evidence : Evidence
  pub source_snapshot : Option String
  pub source_removed_at : Option ℕ
  pub published_at : ℕ

-- ClassificationReviewRequest
pub record ReviewRequest : Type 0 where
  pub idempotency_key : String
  pub action : String
  pub axis_ids : List String
  pub corrections : Selections
  pub explanation : String
  pub expected_labels_revision : ℕ
  pub supersedes_review_ids : List String

-- A row of classification_reviews
pub record Review : Type 0 where
  pub id : String
  pub decision_id : String
  pub board_id : String
  pub card_id : String
  pub reviewer_principal_id : String
  pub request : ReviewRequest
  pub request_digest : String
  pub resulting_labels_revision : ℕ
  pub taxonomy_revision : ℕ
  pub policy_revision : ℕ
  pub created_at : ℕ

-- A row of classification_labels
pub record Label : Type 0 where
  pub board_id : String
  pub card_id : String
  pub axis_id : String
  pub value_ids : List String
  pub origin_decision_id : String
  pub origin_review_id : String
  pub updated_at : ℕ

-- A row of classification_label_revisions
pub record LabelRevision : Type 0 where
  pub board_id : String
  pub card_id : String
  pub revision : ℕ
  pub updated_at : ℕ

-- The columns of `boards` and of `placements` that are read
pub record BoardOrganization : Type 0 where
  pub id : String
  pub organization_id : String

pub record Placed : Type 0 where
  pub board_id : String
  pub card_id : String

pub record Records : Type 0 where
  pub boards : List BoardOrganization
  pub placements : List Placed
  pub last_identifier : ℕ
  pub identifiers : List Identifier
  pub taxonomies : List (Revision TaxonomyContent)
  pub policies : List (Revision PolicyContent)
  pub decisions : List Decision
  pub reviews : List Review
  pub labels : List Label
  pub label_revisions : List LabelRevision
