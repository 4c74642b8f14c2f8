-- ===== src/Classification/Sound.antt =====
-- What the records of board classification have to keep to (internal/db/classification.go).
use kanban_store.Prelude.{
  ℕ, ◌<◌, String, Bool, true, ◌&&◌, List, [], ◌∷◌, ◌++◌, some, find-append, update_where, ◌≡◌,
  arith, Bool-cases, inl, inr, All, IsUnique,
}
use kanban_store.Prelude.Text.{◌=?◌}
use kanban_store.Classification.Records.{
  Records, Revision, TaxonomyContent, PolicyContent, Decision, Evidence, Review, Label,
  LabelRevision,
}
use kanban_store.Classification.Revisions.{numbered}
use kanban_store.Classification.Decisions.{last_sequence}
use kanban_store.Classification.Counted.{IsCounted}
use kanban_store.Classification.Issued.{IsRegistered}

-- Each decision has a later sequence than the one before.
abbrev pub Ascends : ℕ → List Decision → Type 0
Ascends n [] = Unit
Ascends n (d ∷ rows) = (n < d.sequence) × Ascends d.sequence rows

abbrev pub same_key : Decision → Decision → Bool
same_key d e = d.publication_key =? e.publication_key

abbrev pub same_decision : Decision → Decision → Bool
same_decision d e = d.id =? e.id

-- The revisions that a decision names exist, and the taxonomy has the digest that it names.
abbrev pub IsSupported :
    List (Revision TaxonomyContent) → List (Revision PolicyContent) → Evidence → Type 0
IsSupported taxonomies policies e =
    ((t : Revision TaxonomyContent) × (numbered taxonomies e.board_id e.taxonomy_revision ≡ some t)
      × ((t.content.semantic_digest =? e.taxonomy_digest) ≡ true))
    × ((p : Revision PolicyContent) × (numbered policies e.board_id e.policy_revision ≡ some p))

-- The unique key of a review
abbrev pub same_request : Review → Review → Bool
same_request v w =
    v.board_id =? w.board_id
    && v.reviewer_principal_id =? w.reviewer_principal_id
    && v.request.idempotency_key =? w.request.idempotency_key

abbrev pub same_label : Label → Label → Bool
same_label l m = (l.board_id =? m.board_id && l.card_id =? m.card_id) && l.axis_id =? m.axis_id

abbrev pub same_card : LabelRevision → LabelRevision → Bool
same_card v w = v.board_id =? w.board_id && v.card_id =? w.card_id

pub record IsSound (r : Records) : Type 0 where
  pub identifiers : IsRegistered r.last_identifier r.identifiers
  pub taxonomies : IsCounted r.taxonomies
  pub policies : IsCounted r.policies
  pub decision_order : Ascends 0 r.decisions
  pub decision_ids : IsUnique same_decision r.decisions
  pub decision_keys : IsUnique same_key r.decisions
  pub decision_support : All (λ d. IsSupported r.taxonomies r.policies d.evidence) r.decisions
  pub review_keys : IsUnique same_request r.reviews
  pub label_keys : IsUnique same_label r.labels
  pub label_revision_keys : IsUnique same_card r.label_revisions

pub numbered-append :
    {A : Type 0} (rows : List (Revision A)) (r x : Revision A) (board_id : String) (n : ℕ)
    → numbered rows board_id n ≡ some x
    → numbered (rows ++ (r ∷ [])) board_id n ≡ some x
unfolding numbered
numbered-append rows r x board_id n h = find-append _ rows (r ∷ []) x h

pub IsSupported-taxonomy :
    (rows : List (Revision TaxonomyContent)) (policies : List (Revision PolicyContent))
    (r : Revision TaxonomyContent) (e : Evidence)
    → IsSupported rows policies e
    → IsSupported (rows ++ (r ∷ [])) policies e
IsSupported-taxonomy rows policies r e ((t, there, digest), p) =
    ((t, numbered-append rows r t e.board_id e.taxonomy_revision there, digest), p)

pub IsSupported-policy :
    (rows : List (Revision TaxonomyContent)) (policies : List (Revision PolicyContent))
    (r : Revision PolicyContent) (e : Evidence)
    → IsSupported rows policies e
    → IsSupported rows (policies ++ (r ∷ [])) e
IsSupported-policy rows policies r e (t, (p, there)) =
    (t, (p, numbered-append policies r p e.board_id e.policy_revision there))

pub Ascends-append :
    (n : ℕ) (rows : List Decision) (d : Decision)
    → n < d.sequence
    → last_sequence rows < d.sequence
    → Ascends n rows
    → Ascends n (rows ++ (d ∷ []))
unfolding last_sequence
Ascends-append n [] d first last h = (first, tt)
Ascends-append n (e ∷ rows) d first last h =
    (h.0, Ascends-append e.sequence rows d (ground arith) (ground arith) h.1)

pub Ascends-update_where :
    (p : Decision → Bool) (f : Decision → Decision) (n : ℕ) (rows : List Decision)
    → ((d : Decision) → (f d).sequence ≡ d.sequence)
    → Ascends n rows
    → Ascends n (update_where p f rows)
unfolding update_where
Ascends-update_where p f n [] keeps h = tt
Ascends-update_where p f n (d ∷ rows) keeps h = elim (Bool-cases (p d)) [
  | inl e ↦ rw (e, keeps d) (h.0, Ascends-update_where p f d.sequence rows keeps h.1)
  | inr e ↦ rw e (h.0, Ascends-update_where p f d.sequence rows keeps h.1)
]
