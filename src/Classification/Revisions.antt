-- ===== src/Classification/Revisions.antt =====
-- A table of revisions: the newest of a board, and one by its number (internal/db/classification.go,
-- currentTaxonomyRevision, taxonomyRevisionNumbered, currentPolicy and policyRevisionNumbered).
use kanban_store.Prelude.{
  ℕ, String, Bool, ◌&&◌, List, [], ◌∷◌, Option, none, some, ltb, ◌==◌, if◌then◌else◌, keep, find,
}
use kanban_store.Prelude.Text.{◌=?◌}
use kanban_store.Classification.Records.{Revision, TaxonomyContent, PolicyContent}

module _ {A : Type 0} where
  abbrev pub later : Revision A → Option (Revision A) → Option (Revision A)
  later r none = some r
  later r (some s) = if ltb r.revision s.revision then some s else some r

  -- `ORDER BY revision DESC LIMIT 1`
  unfoldable pub newest : List (Revision A) → Option (Revision A)
  newest [] = none
  newest (r ∷ rows) = later r (newest rows)

  abbrev pub of_board : String → Revision A → Bool
  of_board board_id r = r.board_id =? board_id

  -- `WHERE board_id = ? ORDER BY revision DESC LIMIT 1`
  unfoldable pub current : List (Revision A) → String → Option (Revision A)
  current rows board_id = newest (keep (of_board board_id) rows)

  -- `WHERE board_id = ? AND revision = ?`
  unfoldable pub numbered : List (Revision A) → String → ℕ → Option (Revision A)
  numbered rows board_id n = find (λ r. r.board_id =? board_id && r.revision == n) rows

  -- 0 for a board that has none
  abbrev pub number : Option (Revision A) → ℕ
  number none = 0
  number (some r) = r.revision

-- A zero record where there is no revision
abbrev pub or_zero : String → Option (Revision TaxonomyContent) → Revision TaxonomyContent
or_zero board_id (some r) = r
or_zero board_id none = record {
  board_id = board_id;
  revision = 0;
  content = record { taxonomy = none; semantic_digest = "" };
  created_at = 0;
  created_by = "";
}

unfoldable pub current_taxonomy_revision :
    List (Revision TaxonomyContent) → String → Revision TaxonomyContent
current_taxonomy_revision rows board_id = or_zero board_id (current rows board_id)

unfoldable pub taxonomy_revision_numbered :
    List (Revision TaxonomyContent) → String → ℕ → Revision TaxonomyContent
taxonomy_revision_numbered rows board_id n = or_zero board_id (numbered rows board_id n)

unfoldable pub current_policy :
    List (Revision PolicyContent) → String → Option (Revision PolicyContent)
current_policy rows board_id = current rows board_id

unfoldable pub policy_revision_numbered :
    List (Revision PolicyContent) → String → ℕ → Option (Revision PolicyContent)
policy_revision_numbered rows board_id n = numbered rows board_id n
