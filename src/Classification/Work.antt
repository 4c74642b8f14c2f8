-- ===== src/Classification/Work.antt =====
-- A transaction of the store and how a classification write is refused (internal/db/classification.go,
-- ClassificationRefusal and writeImmediately), and what the code takes from llm-bridge's `msg` package.
use kanban_store.Prelude.{ℕ, String, Bool, List, Option}
use kanban_store.Classification.Records.{
  Records, Taxonomy, TaxonomyAxis, AxisPolicies, PolicyContent, Publication, Decision, Review,
  Label, Revision, TaxonomyContent, ReviewRequest,
}

pub data RefusalKind : Type 0 where
  invalid stale conflict missing : RefusalKind

-- msg.BoardClassification, as the store fills it
pub record Settings : Type 0 where
  pub board_id : String
  pub organization_id : String
  pub taxonomy : Revision TaxonomyContent
  pub policy : Option (Revision PolicyContent)

pub record CardLabels : Type 0 where
  pub revision : ℕ
  pub labels : List Label

-- `Current any`
pub data Current : Type 0 where
  nothing : Current
  current_settings : Settings → Current
  current_decision : Decision → Current
  current_review : Review → Current
  current_labels : CardLabels → Current

pub record Refusal : Type 0 where
  pub kind : RefusalKind
  pub code : String
  pub current : Current

-- ErrNotFound, a refusal, or another error
pub data WriteError : Type 0 where
  not_found failed : WriteError
  refused : Refusal → WriteError

abbrev pub refuse : RefusalKind → String → WriteError
refuse kind code = refused (record { kind = kind; code = code; current = Current.nothing })

-- What a call answers, with the records as it has written them, up to the error if there is one.
pub data Outcome (A : Type 0) : Type 0 where
  stopped : Records → WriteError → Outcome A
  wrote : Records → A → Outcome A

abbrev pub records_of : {A : Type 0} → Outcome A → Records
records_of (stopped r e) = r
records_of (wrote r a) = r

-- writeImmediately: the transaction is committed, or rolled back at an error.
unfoldable pub write_immediately : {A : Type 0} → Records → Outcome A → Outcome A
write_immediately before (stopped r e) = stopped before e
write_immediately before (wrote r a) = wrote r a

-- What `msg` and the encoders answer; a text is none where they report an error.
pub record Messages : Type 0 where
  pub validate : Taxonomy → Bool
  pub validate_stable_identity : Taxonomy → Bool
  pub validate_axis_policies : AxisPolicies → Taxonomy → Bool
  pub validate_publication : Publication → Taxonomy → Bool
  pub validate_axis_selection : TaxonomyAxis → List String → Bool
  pub semantic_digest : Taxonomy → Option String
  pub publication_key : Publication → Option String
  pub publication_digest : Publication → String
  pub request_digest : ReviewRequest → String
  pub taxonomy_json : Taxonomy → String
  pub policies_json : AxisPolicies → String
  pub axis_by_id : Taxonomy → String → Option TaxonomyAxis
  pub mode_off : String
  pub mode_assisted : String
  pub mode_of : Option (Revision PolicyContent) → String → String
