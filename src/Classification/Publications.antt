-- ===== src/Classification/Publications.antt =====
-- What PublishClassificationDecision and ReviewClassificationDecision leave behind
-- (internal/db/classification.go).
use kanban_store.Prelude.{
  is_some-false, String, Bool, true, false, ◌&&◌, Option, none, some, ◌==◌, is_some, find, ◌≡◌,
  refl, arith,
}
use kanban_store.Prelude.Text.{◌=?◌}
use kanban_store.Classification.Records.{Records, Decision, Review, Selections, Taxonomy}
use kanban_store.Classification.Work.{WriteError, CardLabels}
use kanban_store.Classification.Revisions.{current_taxonomy_revision, current_policy}
use kanban_store.Classification.Taxonomies.{board_organization}
use kanban_store.Classification.Decisions.{
  PublishCall, Published, reply_published, published_before, new_decision, with_decision,
  insert_decision, refuse_publication, unless_refused, publish_new, publish_by_key, publish_work,
  publish_classification_decision, read_decision, DecisionRead,
}
use kanban_store.Classification.Reviews.{
  ReviewedValues, unfit, values, reviewed_values, card_labels,
}
use kanban_store.Classification.Labels.{
  ReviewCall, Reviewed, insert_review, with_review, write_labels, new_review, unless_unfit,
  record_review, review_decision, reviewed_before, review_by_key, review_work,
  review_classification_decision, has_key, check_supersedes,
}
use kanban_store.Classification.Outcomes.{
  OnWrite, OnWrite-write_immediately, OnWrite-if, OnWrite-or_stop,
}

-- The decision is there already, or it is new and nothing refuses it.
pub data PublishEffect (c : PublishCall) (r : Records) : Records → Type 0 where
  repeated : PublishEffect c r r
  published :
      (organization_id key : String)
      → board_organization r c.publication.evidence.board_id ≡ some organization_id
      → c.msg.publication_key c.publication ≡ some key
      → find (λ d. d.publication_key =? key) r.decisions ≡ none
      → refuse_publication c organization_id r ≡ none
      → find (λ d. d.id =? c.new_id) r.decisions ≡ none
      → PublishEffect c r (with_decision (new_decision c organization_id key r) r)

module _ (c : PublishCall) (r : Records) where
  abbrev Effect : Records → Published → Type 0
  Effect r' x = PublishEffect c r r'

  reply-Effect :
      (r' : Records) (board_id id : String) (created : Bool)
      → PublishEffect c r r'
      → OnWrite Effect (reply_published r' board_id id created)
  unfolding reply_published
  reply-Effect r' board_id id created h =
      OnWrite-or_stop Effect r' _ (read_decision r' board_id id false) _ (λ d e. h)

  before-Effect : (d : Decision) → OnWrite Effect (published_before c d r)
  unfolding published_before
  before-Effect d =
      OnWrite-if Effect (d.publication_digest =? c.msg.publication_digest c.publication) _ _
        (λ e. reply-Effect r _ _ false repeated) (λ e. tt)

  module _ (organization_id key : String)
      (there : board_organization r c.publication.evidence.board_id ≡ some organization_id)
      (keyed : c.msg.publication_key c.publication ≡ some key) where
    unless-Effect :
        (e : Option WriteError)
        → find (λ d. d.publication_key =? key) r.decisions ≡ none
        → refuse_publication c organization_id r ≡ e
        → OnWrite Effect (unless_refused c organization_id key r e)
    unfolding insert_decision new_decision
    unless-Effect (some e) free h = tt
    unless-Effect none free h =
        OnWrite-if Effect (is_some (find (λ e. e.id =? c.new_id) r.decisions)) _ _ (λ e. tt)
          (λ e.
            reply-Effect _ _ _ true
              (published organization_id key there keyed free h (is_some-false _ e)))

    by_key-Effect :
        (o : Option Decision)
        → find (λ d. d.publication_key =? key) r.decisions ≡ o
        → OnWrite Effect (publish_by_key c organization_id key r o)
    unfolding publish_by_key publish_new
    by_key-Effect none h = unless-Effect (refuse_publication c organization_id r) h refl
    by_key-Effect (some d) h = before-Effect d

  pub publish-Effect : OnWrite Effect (publish_classification_decision c r)
  unfolding publish_classification_decision publish_work
  publish-Effect = OnWrite-write_immediately _ r _ (
      OnWrite-or_stop _ r _ (board_organization r c.publication.evidence.board_id) _
        (λ organization_id there.
          OnWrite-or_stop _ r _ (c.msg.publication_key c.publication) _ (λ key keyed.
            by_key-Effect organization_id key there keyed
              (find (λ d. d.publication_key =? key) r.decisions) refl)))

-- The review that a call makes of what it read
abbrev pub made_review : ReviewCall → Records → DecisionRead → Selections → Review
made_review c r d new =
    let card_id = d.decision.evidence.card_id in
    new_review c card_id new (card_labels r c.board_id card_id) r

-- The review is there already, or it is created, nothing refuses it, and the labels are what it expects.
pub data ReviewEffect (c : ReviewCall) (r : Records) : Records → Bool → Type 0 where
  known_review : is_some (find (has_key c) r.reviews) ≡ true → ReviewEffect c r r false
  recorded :
      (d : DecisionRead) (t : Taxonomy) (new : Selections)
      → find (has_key c) r.reviews ≡ none
      → read_decision r c.board_id c.decision_id false ≡ some d
      → (current_taxonomy_revision r.taxonomies c.board_id).content.taxonomy ≡ some t
      → reviewed_values c.msg c.request d.decision.evidence.selections t
          (current_policy r.policies c.board_id)
        ≡ values new
      → (card_labels r c.board_id d.decision.evidence.card_id).revision
        ≡ c.request.expected_labels_revision
      → check_supersedes c.request.supersedes_review_ids
          (card_labels r c.board_id d.decision.evidence.card_id)
          new
        ≡ none
      → find (λ u. u.id =? c.new_id) r.reviews ≡ none
      → ReviewEffect c r
          (write_labels (made_review c r d new) new (with_review (made_review c r d new) r))
          true

module _ (c : ReviewCall) (r : Records) where
  abbrev ReviewedEffect : Records → Reviewed → Type 0
  ReviewedEffect r' x = ReviewEffect c r r' x.created

  module _ (d : DecisionRead) (t : Taxonomy) (free : find (has_key c) r.reviews ≡ none)
      (read : read_decision r c.board_id c.decision_id false ≡ some d)
      (has : (current_taxonomy_revision r.taxonomies c.board_id).content.taxonomy ≡ some t) where
    abbrev seen : CardLabels
    seen = card_labels r c.board_id d.decision.evidence.card_id

    supersedes-Effect :
        (new : Selections) (e : Option WriteError)
        → reviewed_values c.msg c.request d.decision.evidence.selections t
            (current_policy r.policies c.board_id)
          ≡ values new
        → seen.revision ≡ c.request.expected_labels_revision
        → check_supersedes c.request.supersedes_review_ids seen new ≡ e
        → OnWrite ReviewedEffect (unless_unfit c d.decision.evidence.card_id new seen r e)
    unfolding insert_review new_review
    supersedes-Effect new (some e) fits expected h = tt
    supersedes-Effect new none fits expected h =
        OnWrite-if ReviewedEffect (is_some (find (λ u. u.id =? c.new_id) r.reviews)) _ _ (λ e. tt)
          (λ e. recorded d t new free read has fits expected h (is_some-false _ e))

    values-Effect :
        (v : ReviewedValues)
        → reviewed_values c.msg c.request d.decision.evidence.selections t
            (current_policy r.policies c.board_id)
          ≡ v
        → OnWrite ReviewedEffect (record_review c d.decision.evidence.card_id r v)
    unfolding record_review
    values-Effect (unfit e) h = tt
    values-Effect (values new) h =
        OnWrite-if ReviewedEffect (seen.revision == c.request.expected_labels_revision) _ _
          (λ e. supersedes-Effect new _ h (ground arith) refl) (λ e. tt)

  key-Effect :
      (o : Option Review)
      → find (has_key c) r.reviews ≡ o
      → OnWrite ReviewedEffect (review_by_key c r o)
  unfolding review_by_key reviewed_before review_decision
  key-Effect (some v) h =
      OnWrite-if ReviewedEffect
        (v.request_digest =? c.msg.request_digest c.request && v.decision_id =? c.decision_id) _ _
        (λ e. known_review (rw h refl)) (λ e. tt)
  key-Effect none h =
      OnWrite-or_stop ReviewedEffect r _ (read_decision r c.board_id c.decision_id false) _
        (λ d read.
          OnWrite-or_stop ReviewedEffect r _ _ _ (λ t has. values-Effect d t h read has _ refl))

  pub review-Effect : OnWrite ReviewedEffect (review_classification_decision c r)
  unfolding review_classification_decision review_work
  review-Effect = OnWrite-write_immediately _ r _ (key-Effect (find (has_key c) r.reviews) refl)
