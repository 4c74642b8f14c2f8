-- ===== src/Classification.antt =====
-- Board classification: internal/db/classification.go, internal/model/classification.go and
-- internal/api/board_classification.go.
pub mod Records
pub mod Work
pub mod Revisions
pub mod Identifiers
pub mod Taxonomies
pub mod Policies
pub mod Decisions
pub mod Reviews
pub mod Labels
pub mod Outcomes
pub mod TaxonomyEffects
pub mod PolicyEffects
pub mod Counted
pub mod Register
pub mod Publications
pub mod Calls
pub mod Issued
pub mod Sound
pub mod Admission
pub mod Keeps
pub mod Served
pub mod Answers
pub mod ReviewedAxes
pub mod ReviewLaws
pub mod LabelRevisions
mod Examples
