-- ===== src/Classification/Labels.antt =====
-- How a review is recorded: checkSupersedes and ReviewClassificationDecision (internal/db/classification.go).
use kanban_store.Prelude.{
  ℕ, suc, String, Bool, true, false, ◌&&◌, not, List, [], ◌∷◌, ◌++◌, Option, none, some, ◌==◌,
  if◌then◌else◌, keep, find, is_some, update_where, map,
}
use kanban_store.Prelude.Text.{◌=?◌, contains}
use kanban_store.Classification.Records.{
  Records, Selections, Review, ReviewRequest, Label, LabelRevision,
}
use kanban_store.Classification.Work.{
  invalid, conflict, missing, current_review, current_labels, WriteError, failed, refused, refuse,
  Outcome, stopped, wrote, Messages, CardLabels, write_immediately,
}
use kanban_store.Classification.Revisions.{current_taxonomy_revision, current_policy, number}
use kanban_store.Classification.Taxonomies.{or_stop}
use kanban_store.Classification.Decisions.{read_decision, DecisionRead}
use kanban_store.Classification.Reviews.{
  lookup, of_card, revision_of_card, card_labels, ReviewedValues, unfit, values, reviewed_values,
}

-- The reviews behind the labels that the new values replace
abbrev pub is_replaced : Selections → Label → Bool
is_replaced new l = is_some (lookup new l.axis_id) && not (l.origin_review_id =? "")

unfoldable pub replaced_reviews : Selections → List Label → List String
replaced_reviews new labels = map (λ l. l.origin_review_id) (keep (is_replaced new) labels)

-- Every text of the second list is in the first.
unfoldable pub includes : List String → List String → Bool
includes texts [] = true
includes texts (x ∷ xs) = contains texts x && includes texts xs

unfoldable pub check_supersedes : List String → CardLabels → Selections → Option WriteError
check_supersedes named labels new =
    let replaced = replaced_reviews new labels.labels in
    if includes replaced named
    then (if includes named replaced
        then none
        else some (
            refused (record {
              kind = conflict;
              code = "supersedes_required";
              current = current_labels labels;
            })))
    else some (refuse invalid "review_invalid")

pub record Reviewed : Type 0 where
  pub review : Review
  pub labels : CardLabels
  pub created : Bool

-- The arguments of a review
pub record ReviewCall : Type 0 where
  pub msg : Messages
  pub now : ℕ
  pub new_id : String
  pub board_id : String
  pub decision_id : String
  pub reviewer_principal_id : String
  pub request : ReviewRequest

-- A row of the key is changed, or the row is added where there is none.
unfoldable pub upsert : {A : Type 0} → (A → Bool) → (A → A) → A → List A → List A
upsert key change row rows =
    if is_some (find key rows) then update_where key change rows else rows ++ (row ∷ [])

unfoldable pub set_label : Review → String → List String → List Label → List Label
set_label v axis_id ids rows =
    upsert (λ l. of_card v.board_id v.card_id l && l.axis_id =? axis_id)
      (λ l. record l {
        value_ids = ids;
        origin_decision_id = v.decision_id;
        origin_review_id = v.id;
        updated_at = v.created_at;
      })
      (record {
        board_id = v.board_id;
        card_id = v.card_id;
        axis_id = axis_id;
        value_ids = ids;
        origin_decision_id = v.decision_id;
        origin_review_id = v.id;
        updated_at = v.created_at;
      })
      rows

unfoldable pub set_labels : Review → Selections → List Label → List Label
set_labels v [] rows = rows
set_labels v ((axis_id, ids) ∷ new) rows = set_labels v new (set_label v axis_id ids rows)

unfoldable pub set_labels_revision : Review → List LabelRevision → List LabelRevision
set_labels_revision v rows =
    upsert (revision_of_card v.board_id v.card_id)
      (λ l. record l { revision = v.resulting_labels_revision; updated_at = v.created_at })
      (record {
        board_id = v.board_id;
        card_id = v.card_id;
        revision = v.resulting_labels_revision;
        updated_at = v.created_at;
      })
      rows

unfoldable pub write_labels : Review → Selections → Records → Records
write_labels v [] r = r
write_labels v (one ∷ new) r = record r {
  labels = set_labels v (one ∷ new) r.labels;
  label_revisions = set_labels_revision v r.label_revisions;
}

abbrev pub with_review : Review → Records → Records
with_review v r = record r { reviews = r.reviews ++ (v ∷ []) }

-- The insertion fails on an id that is taken.
unfoldable pub insert_review : Review → Selections → Records → Outcome Reviewed
insert_review v new r =
    let after = write_labels v new (with_review v r) in
    if is_some (find (λ u. u.id =? v.id) r.reviews)
    then stopped r failed
    else wrote after
        (record { review = v; labels = card_labels after v.board_id v.card_id; created = true })

unfoldable pub resulting_revision : Selections → ℕ → ℕ
resulting_revision [] n = n
resulting_revision (one ∷ new) n = suc n

unfoldable pub new_review : ReviewCall → String → Selections → CardLabels → Records → Review
new_review c card_id new labels r = record {
  id = c.new_id;
  decision_id = c.decision_id;
  board_id = c.board_id;
  card_id = card_id;
  reviewer_principal_id = c.reviewer_principal_id;
  request = c.request;
  request_digest = c.msg.request_digest c.request;
  resulting_labels_revision = resulting_revision new labels.revision;
  taxonomy_revision = (current_taxonomy_revision r.taxonomies c.board_id).revision;
  policy_revision = number (current_policy r.policies c.board_id);
  created_at = c.now;
}

abbrev pub unless_unfit :
    ReviewCall → String → Selections → CardLabels → Records → Option WriteError → Outcome Reviewed
unless_unfit c card_id new labels r (some e) = stopped r e
unless_unfit c card_id new labels r none = insert_review (new_review c card_id new labels r) new r

unfoldable pub record_review : ReviewCall → String → Records → ReviewedValues → Outcome Reviewed
record_review c card_id r (unfit e) = stopped r e
record_review c card_id r (values new) =
    let labels = card_labels r c.board_id card_id in
    if labels.revision == c.request.expected_labels_revision
    then unless_unfit c card_id new labels r
        (check_supersedes c.request.supersedes_review_ids labels new)
    else stopped r (
        refused (record {
          kind = conflict;
          code = "labels_revision_moved";
          current = current_labels labels;
        }))

unfoldable pub review_decision : ReviewCall → Records → DecisionRead → Outcome Reviewed
review_decision c r d =
    or_stop r (refuse conflict "board_has_no_taxonomy")
      (current_taxonomy_revision r.taxonomies c.board_id).content.taxonomy
      (λ t. record_review c d.decision.evidence.card_id r (
        reviewed_values c.msg c.request d.decision.evidence.selections t
          (current_policy r.policies c.board_id)))

unfoldable pub reviewed_before : ReviewCall → Review → Records → Outcome Reviewed
reviewed_before c v r =
    if v.request_digest =? c.msg.request_digest c.request && v.decision_id =? c.decision_id
    then wrote r
        (record { review = v; labels = card_labels r c.board_id v.card_id; created = false })
    else stopped r (
        refused
          (record { kind = conflict; code = "idempotency_key_reused"; current = current_review v }))

unfoldable pub review_by_key : ReviewCall → Records → Option Review → Outcome Reviewed
review_by_key c r (some v) = reviewed_before c v r
review_by_key c r none =
    or_stop r (refuse missing "decision_not_found") (read_decision r c.board_id c.decision_id false)
      (review_decision c r)

-- The unique key of a review
abbrev pub has_key : ReviewCall → Review → Bool
has_key c v =
    v.board_id =? c.board_id
    && v.reviewer_principal_id =? c.reviewer_principal_id
    && v.request.idempotency_key =? c.request.idempotency_key

unfoldable pub review_work : ReviewCall → Records → Outcome Reviewed
review_work c r = review_by_key c r (find (has_key c) r.reviews)

-- ReviewClassificationDecision
unfoldable pub review_classification_decision : ReviewCall → Records → Outcome Reviewed
review_classification_decision c r = write_immediately r (review_work c r)
