-- ===== src/Classification/LabelRevisions.antt =====
-- How a card's labels revision moves (internal/db/classification.go, ReviewClassificationDecision).
use kanban_store.Prelude.{
  ℕ, suc, String, Bool, true, false, List, [], ◌∷◌, ◌++◌, none, some, is_some, ◌≡◌, refl, ap, ◌∙◌,
  subst, inl, inr, arith, Bool-cases, Option-cases, find, find-append_none, update_where,
}
use kanban_store.Prelude.Text.{text_eq_refl}
use kanban_store.Classification.Records.{Records, Review, LabelRevision, Selections}
use kanban_store.Classification.Work.{wrote}
use kanban_store.Classification.Reviews.{
  revision_of, revision_of_card, labels_revision, card_labels,
}
use kanban_store.Classification.Labels.{
  upsert, set_labels_revision, write_labels, with_review, ReviewCall, Reviewed, has_key,
  review_classification_decision, resulting_revision, new_review,
}
use kanban_store.Classification.Decisions.{DecisionRead, read_decision}
use kanban_store.Classification.Outcomes.{OnWrite-wrote}
use kanban_store.Classification.Publications.{
  ReviewEffect, known_review, recorded, made_review, review-Effect,
}

module _ (v : Review) where
  updated-revision :
      (rows : List LabelRevision)
      → is_some (find (revision_of_card v.board_id v.card_id) rows) ≡ true
      → revision_of (
          find (revision_of_card v.board_id v.card_id) (
            update_where
              (revision_of_card v.board_id v.card_id)
              (λ l. record l { revision = v.resulting_labels_revision; updated_at = v.created_at })
              rows))
        ≡ v.resulting_labels_revision
  unfolding find update_where
  updated-revision [] h = absurd (ground arith)
  updated-revision (l ∷ rows) h = elim (Bool-cases (revision_of_card v.board_id v.card_id l)) [
    | inl e ↦ rw (e, e) refl
    | inr e ↦ rw (e, e) (updated-revision rows (ground arith))
  ]

  set-revision :
      (rows : List LabelRevision)
      → revision_of (find (revision_of_card v.board_id v.card_id) (set_labels_revision v rows))
        ≡ v.resulting_labels_revision
  unfolding set_labels_revision upsert find
  set-revision rows = elim (Option-cases (find (revision_of_card v.board_id v.card_id) rows)) [
    | inl e ↦
        rw
          (
            e,
            find-append_none (revision_of_card v.board_id v.card_id) rows _ e,
            text_eq_refl v.board_id,
            text_eq_refl v.card_id,
          )
          refl
    | inr (l, e) ↦ rw e (updated-revision rows (rw e refl))
  ]

-- The review of the call's key, that was not there, is there, and says that it results in `m`.
abbrev pub IsRecorded : ReviewCall → ℕ → Records → Records → Type 0
IsRecorded c m r r' =
    (find (has_key c) r.reviews ≡ none)
    × ((v : Review) × (find (has_key c) r'.reviews ≡ some v) × (v.resulting_labels_revision ≡ m))

-- The review was there and the records are kept; or it is recorded now, the card's labels were at the
-- revision that the request expects, and either no label changes and they still are, or they are at
-- the next one. The Boolean is whether the review is new.
pub data RevisionMoved (c : ReviewCall) (r r' : Records) (card_id : String) : Bool → Type 0 where
  unmoved :
      is_some (find (has_key c) r.reviews) ≡ true → r' ≡ r → RevisionMoved c r r' card_id false
  at_same :
      IsRecorded c c.request.expected_labels_revision r r'
      → labels_revision r c.board_id card_id ≡ c.request.expected_labels_revision
      → r'.labels ≡ r.labels
      → labels_revision r' c.board_id card_id ≡ c.request.expected_labels_revision
      → RevisionMoved c r r' card_id true
  at_next :
      IsRecorded c (suc c.request.expected_labels_revision) r r'
      → labels_revision r c.board_id card_id ≡ c.request.expected_labels_revision
      → labels_revision r' c.board_id card_id ≡ suc c.request.expected_labels_revision
      → RevisionMoved c r r' card_id true

made_review-found :
    (c : ReviewCall) (r : Records) (d : DecisionRead) (new : Selections)
    → find (has_key c) r.reviews ≡ none
    → find (has_key c) (r.reviews ++ (made_review c r d new ∷ [])) ≡ some (made_review c r d new)
unfolding find new_review
made_review-found c r d new free =
    find-append_none (has_key c) r.reviews _ free
    ∙ rw
        (
          text_eq_refl c.board_id,
          text_eq_refl c.reviewer_principal_id,
          text_eq_refl c.request.idempotency_key,
        )
        refl

recorded-RevisionMoved :
    (c : ReviewCall) (r : Records) (d : DecisionRead) (new : Selections)
    → find (has_key c) r.reviews ≡ none
    → (card_labels r c.board_id d.decision.evidence.card_id).revision
      ≡ c.request.expected_labels_revision
    → RevisionMoved c r
        (write_labels (made_review c r d new) new (with_review (made_review c r d new) r))
        d.decision.evidence.card_id
        true
unfolding write_labels card_labels labels_revision new_review resulting_revision
recorded-RevisionMoved c r d [] free expected =
    let v = made_review c r d [] in
    at_same (free, (v, made_review-found c r d [] free, expected)) expected refl expected
recorded-RevisionMoved c r d (one ∷ new) free expected =
    let v = made_review c r d (one ∷ new) in
    at_next (free, (v, made_review-found c r d (one ∷ new) free, ap suc expected)) expected
      (set-revision v r.label_revisions ∙ ap suc expected)

effect-RevisionMoved :
    (c : ReviewCall) (r r' : Records) (created : Bool) (d : DecisionRead)
    → read_decision r c.board_id c.decision_id false ≡ some d
    → ReviewEffect c r r' created
    → RevisionMoved c r r' d.decision.evidence.card_id created
effect-RevisionMoved c r r' created d read (known_review known) = unmoved known refl
effect-RevisionMoved c r r' created d read
      (recorded d' t new free read' has fits expected named no_id) =
    let same : d'.decision.evidence.card_id ≡ d.decision.evidence.card_id = ground arith in
    subst
      (λ card_id.
        RevisionMoved c r
          (write_labels (made_review c r d' new) new (with_review (made_review c r d' new) r))
          card_id true)
      same (recorded-RevisionMoved c r d' new free expected)

-- A review that is answered: if the answer says that it is not new, a review of its key was there and
-- all the records are as they were. If the answer says that it is new, there was none and there is one;
-- the card's labels were at the revision that the request expects; and they are still, with every label
-- as it was, or they are at the next one, which is then what the recorded review says.
pub review_classification_decision-RevisionMoved :
    (c : ReviewCall) (r r' : Records) (x : Reviewed) (d : DecisionRead)
    → read_decision r c.board_id c.decision_id false ≡ some d
    → review_classification_decision c r ≡ wrote r' x
    → RevisionMoved c r r' d.decision.evidence.card_id x.created
review_classification_decision-RevisionMoved c r r' x d read h =
    effect-RevisionMoved c r r' x.created d read
      (OnWrite-wrote (λ r' x. ReviewEffect c r r' x.created) _ r' x (review-Effect c r) h)
