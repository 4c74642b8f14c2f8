-- ===== src/Classification/Admission.antt =====
-- What a publication that nothing refuses names (internal/db/classification.go, PublishClassificationDecision).
use kanban_store.Prelude.{
  String, true, false, Option, none, some, ◌≡◌, refl, inl, inr, arith, Bool-cases, Option-cases,
}
use kanban_store.Prelude.Text.{◌=?◌}
use kanban_store.Classification.Records.{
  Records, Revision, TaxonomyContent, PolicyContent, Taxonomy,
}
use kanban_store.Classification.Revisions.{
  numbered, taxonomy_revision_numbered, policy_revision_numbered, or_zero,
}
use kanban_store.Classification.Decisions.{
  PublishCall, refuse_publication, taxonomy_refusal, policy_refusal, is_placed, any_axis_off,
}
use kanban_store.Classification.Sound.{IsSupported}

-- The card is on the board, the board has an organization and the revisions are there, with the
-- digest that is named; the answer fits the taxonomy and is on no axis that is off.
pub record IsAdmissible (c : PublishCall) (organization_id : String) (r : Records) : Type 0 where
  pub organization : (organization_id =? "") ≡ false
  pub placed : is_placed r c.publication.evidence.board_id c.publication.evidence.card_id ≡ true
  pub support : IsSupported r.taxonomies r.policies c.publication.evidence
  pub valid :
      (t : Taxonomy) × (support.0.0.content.taxonomy ≡ some t)
      × (c.msg.validate_publication c.publication t ≡ true)
  pub axes : any_axis_off c.msg support.1.0 c.publication.evidence.selections ≡ false

has_policy :
    (c : PublishCall) (t : Taxonomy) (o : Option (Revision PolicyContent))
    → policy_refusal c t o ≡ none
    → (p : Revision PolicyContent) × (o ≡ some p)
      × (c.msg.validate_publication c.publication t ≡ true)
      × (any_axis_off c.msg p c.publication.evidence.selections ≡ false)
unfolding policy_refusal
has_policy c t none h = absurd (ground arith)
has_policy c t (some p) h = (p, refl, ground arith, ground arith)

has_taxonomy :
    (c : PublishCall) (r : Records) (board_id : String) (o : Option (Revision TaxonomyContent))
    → taxonomy_refusal c r
        (or_zero board_id o).content.semantic_digest
        (or_zero board_id o).content.taxonomy
      ≡ none
    → (x : Revision TaxonomyContent) × (t : Taxonomy) × (o ≡ some x)
      × (x.content.taxonomy ≡ some t)
      × ((x.content.semantic_digest =? c.publication.evidence.taxonomy_digest) ≡ true)
      × (policy_refusal c t (
            policy_revision_numbered r.policies c.publication.evidence.board_id
              c.publication.evidence.policy_revision)
          ≡ none)
unfolding taxonomy_refusal
has_taxonomy c r board_id none h = absurd (ground arith)
has_taxonomy c r board_id (some x) h = elim (Option-cases x.content.taxonomy) [
  | inl e ↦ absurd (ground arith)
  | inr (t, e) ↦
      elim (Bool-cases (x.content.semantic_digest =? c.publication.evidence.taxonomy_digest)) [
        | inl same ↦ (x, t, refl, e, same, ground arith)
        | inr other ↦ absurd (ground arith)
      ]
]

taxonomy_refusal-none :
    (c : PublishCall) (organization_id : String) (r : Records)
    → refuse_publication c organization_id r ≡ none
    → ((organization_id =? "") ≡ false)
      × (is_placed r c.publication.evidence.board_id c.publication.evidence.card_id ≡ true)
      × (taxonomy_refusal c r
            (taxonomy_revision_numbered r.taxonomies c.publication.evidence.board_id
              c.publication.evidence.taxonomy_revision).content.semantic_digest
            (taxonomy_revision_numbered r.taxonomies c.publication.evidence.board_id
              c.publication.evidence.taxonomy_revision).content.taxonomy
          ≡ none)
unfolding refuse_publication
taxonomy_refusal-none c organization_id r h = (ground arith, ground arith, ground arith)

pub admissible :
    (c : PublishCall) (organization_id : String) (r : Records)
    → refuse_publication c organization_id r ≡ none
    → IsAdmissible c organization_id r
unfolding taxonomy_revision_numbered policy_revision_numbered
admissible c organization_id r h =
    let (org, placed, more) = taxonomy_refusal-none c organization_id r h in
    let (x, t, there, has, digest, rest) =
      has_taxonomy c r c.publication.evidence.board_id
        (numbered r.taxonomies c.publication.evidence.board_id
          c.publication.evidence.taxonomy_revision)
        more in
    let (p, found, valid, axes) = has_policy c t _ rest in
    record {
      organization = org;
      placed = placed;
      support = ((x, there, digest), (p, found));
      valid = (t, has, valid);
      axes = axes;
    }
