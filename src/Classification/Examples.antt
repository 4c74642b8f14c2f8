-- ===== src/Classification/Examples.antt =====
-- Board classification at concrete inputs (internal/db/classification.go).
use kanban_store.Prelude.{
  ℕ, String, true, false, inl, List, [], ◌∷◌, Option, none, some, ◌≡◌, refl, find, keep,
}
use kanban_store.Prelude.Text.{◌=?◌, contains, trim_space}
use kanban_store.Prelude.Sort.{sort_stable}
use kanban_store.Classification.Records.{
  Records, Taxonomy, TaxonomyAxis, TaxonomyValue, Publication, Revision, TaxonomyContent,
  PolicyContent, Decision,
}
use kanban_store.Classification.Work.{Messages, wrote, write_immediately}
use kanban_store.Classification.Revisions.{
  newest, current, numbered, current_taxonomy_revision, taxonomy_revision_numbered, current_policy,
  policy_revision_numbered,
}
use kanban_store.Classification.Identifiers.{
  identifier_text, mint_identifier, mint_value, mint_values, mint_axis_id, mint_axes, known,
  check_value, check_values, check_axes, entry_ids, sent_ids, all_sent, some_empty,
  check_taxonomy_identifiers,
}
use kanban_store.Classification.Taxonomies.{
  TaxonomyCall, board_organization, board_classification, taxonomy_update_result, retired_entries,
  has_common, count_labels_on_retired_entries, digest_of, insert_taxonomy_revision, store_taxonomy,
  hold_taxonomy, mint_taxonomy, replace_taxonomy, change_taxonomy, taxonomy_work,
  set_board_taxonomy,
}
use kanban_store.Classification.Policies.{
  settings_now, insert_policy_revision, store_policy, given_policy, change_policy, policy_work,
  set_board_classification_policy,
}
use kanban_store.Classification.Decisions.{
  PublishCall, DecisionRead, scan_decision, read_decision, reply_published, last_sequence,
  new_decision, insert_decision, any_axis_off, policy_refusal, taxonomy_refusal, is_placed,
  refuse_publication, publish_new, publish_by_key, publish_work, publish_classification_decision,
}
use kanban_store.Classification.Reviews.{
  action_of, lookup, labels_revision, card_labels, axis_selection, action_values, assisted_axis,
  axis_values, all_axis_values, corrections_fit, reviewed_values_of, reviewed_values,
}
use kanban_store.Classification.Labels.{
  replaced_reviews, includes, check_supersedes, ReviewCall, upsert, set_label, set_labels,
  set_labels_revision, write_labels, insert_review, resulting_revision, new_review, record_review,
  review_decision, review_by_key, review_work, review_classification_decision,
}
use kanban_store.Classification.Calls.{Call, sets_taxonomy, sets_policy, reviews, serve, serve_all}
use kanban_store.Classification.Sound.{IsSound}
use kanban_store.Classification.Served.{HasRevision, serve_all-IsSound, serve_all-numbered}
use kanban_store.Classification.Register.{
  BoardWrite, set_board_taxonomy-BoardWrite, set_board_classification_policy-BoardWrite,
}
use kanban_store.Classification.ReviewLaws.{
  LabelKept, label_of, review_classification_decision-LabelKept,
}
use kanban_store.Classification.LabelRevisions.{
  RevisionMoved, review_classification_decision-RevisionMoved,
}
use kanban_store.Classification.Answers.{publish_classification_decision-again}

find_axis : String → List TaxonomyAxis → Option TaxonomyAxis
unfolding find
find_axis id axes = find (λ a. a.id =? id) axes

abbrev simple : Messages
simple = record {
  validate = λ t. true;
  validate_stable_identity = λ t. true;
  validate_axis_policies = λ p t. true;
  validate_publication = λ p t. true;
  validate_axis_selection = λ a ids. true;
  semantic_digest = λ t. some t.content;
  publication_key = λ p. some p.evidence.card_id;
  publication_digest = λ p. p.source;
  request_digest = λ q. q.explanation;
  taxonomy_json = λ t. t.content;
  policies_json = λ p. "";
  axis_by_id = λ t id. find_axis id t.axes;
  mode_off = "off";
  mode_assisted = "assisted";
  mode_of = λ p id. "assisted";
}

abbrev by_ann : TaxonomyCall
by_ann = record { msg = simple; now = 5; principal_id = "ann"; board_id = "b" }

abbrev urgent : TaxonomyValue
urgent = record { id = ""; archived = false; content = "urgent" }

abbrev topic : TaxonomyAxis
topic = record {
  id = "";
  required = false;
  archived = false;
  values = urgent ∷ [];
  content = "topic";
}

abbrev topics : Taxonomy
topics = record { axes = topic ∷ []; content = "v1" }

abbrev no_records : Records
no_records = record {
  boards = record { id = "b"; organization_id = "o" } ∷ [];
  placements = record { board_id = "b"; card_id = "k" } ∷ [];
  last_identifier = 0;
  identifiers = [];
  taxonomies = [];
  policies = [];
  decisions = [];
  reviews = [];
  labels = [];
  label_revisions = [];
}

no_records-IsSound : IsSound no_records
unfolding keep
no_records-IsSound = record {
  identifiers = record { issued = tt; once = tt };
  taxonomies = λ board_id. tt;
  policies = λ board_id. tt;
  decision_order = tt;
  decision_ids = tt;
  decision_keys = tt;
  decision_support = tt;
  review_keys = tt;
  label_keys = tt;
  label_revision_keys = tt;
}

abbrev first_calls : List Call
first_calls = sets_taxonomy by_ann 0 (some topics) ∷ sets_policy by_ann 0 (some []) ∷ []

serve_all-IsSound_example : IsSound (serve_all first_calls no_records)
serve_all-IsSound_example = serve_all-IsSound first_calls no_records no_records-IsSound

set_board_taxonomy-BoardWrite_example :
    BoardWrite "b" 0 no_records.taxonomies
      (serve (sets_taxonomy by_ann 0 (some topics)) no_records).taxonomies
unfolding serve set_board_taxonomy write_immediately taxonomy_work board_organization find
    change_taxonomy replace_taxonomy check_taxonomy_identifiers current_taxonomy_revision current
    newest keep current_policy check_axes check_values check_value known some_empty entry_ids
    sent_ids all_sent mint_taxonomy mint_axes mint_axis_id mint_values mint_value mint_identifier
    identifier_text hold_taxonomy store_taxonomy insert_taxonomy_revision digest_of
    taxonomy_update_result board_classification count_labels_on_retired_entries retired_entries
    has_common
set_board_taxonomy-BoardWrite_example =
    set_board_taxonomy-BoardWrite by_ann 0 (some topics) no_records _ _
      no_records-IsSound.taxonomies refl

abbrev stored_topic : TaxonomyAxis
stored_topic = record {
  id = "a1";
  required = false;
  archived = false;
  values = record { id = "v1"; archived = false; content = "urgent" } ∷ [];
  content = "topic";
}

abbrev stored_topics : Revision TaxonomyContent
stored_topics = record {
  board_id = "b";
  revision = 1;
  content = record {
    taxonomy = some (record { axes = stored_topic ∷ []; content = "t1" });
    semantic_digest = "t1";
  };
  created_at = 5;
  created_by = "ann";
}

abbrev stored_policy : Revision PolicyContent
stored_policy = record {
  board_id = "b";
  revision = 1;
  content = record { axis_policies = []; taxonomy_revision = 1 };
  created_at = 6;
  created_by = "ann";
}

abbrev without_policy : Records
without_policy = record {
  boards = record { id = "b"; organization_id = "o" } ∷ [];
  placements = record { board_id = "b"; card_id = "k" } ∷ [];
  last_identifier = 2;
  identifiers = [];
  taxonomies = stored_topics ∷ [];
  policies = [];
  decisions = [];
  reviews = [];
  labels = [];
  label_revisions = [];
}

set_board_classification_policy-BoardWrite_example :
    BoardWrite "b" 0 without_policy.policies
      (serve (sets_policy by_ann 0 (some [])) without_policy).policies
unfolding serve set_board_classification_policy write_immediately policy_work board_organization
    find change_policy given_policy store_policy current_taxonomy_revision current newest keep
    current_policy insert_policy_revision settings_now board_classification
set_board_classification_policy-BoardWrite_example =
    set_board_classification_policy-BoardWrite by_ann 0 (some []) without_policy _ _
      no_records-IsSound.policies refl

abbrev classified : Records
classified = record {
  boards = record { id = "b"; organization_id = "o" } ∷ [];
  placements = record { board_id = "b"; card_id = "k" } ∷ [];
  last_identifier = 2;
  identifiers = [];
  taxonomies = stored_topics ∷ [];
  policies = stored_policy ∷ [];
  decisions = [];
  reviews = [];
  labels = [];
  label_revisions = [];
}

serve_all-numbered_example :
    HasRevision "b" 1 (inl stored_topics) (serve_all first_calls classified)
unfolding numbered find
serve_all-numbered_example =
    serve_all-numbered "b" 1 (inl stored_topics) first_calls classified refl

abbrev answer : Publication
answer = record {
  evidence = record {
    board_id = "b";
    card_id = "k";
    operation_id = "op";
    checkpoint_id = "cp";
    attempt_number = 1;
    initiating_principal_id = "ann";
    source_revision = "";
    source_digest = "s";
    taxonomy_revision = 1;
    taxonomy_digest = "t1";
    policy_revision = 1;
    prompt_revision = "p";
    model = "m";
    origin = "model";
    selections = ("a1", "v1" ∷ []) ∷ [];
    rationale = "";
    confidence = none;
    needs_review = true;
    review_reasons = [];
    completed_at = 8;
  };
  source = "text";
}

abbrev publishing : String → ℕ → PublishCall
publishing id now = record { msg = simple; now = now; new_id = id; publication = answer }

abbrev decided : Decision
decided = record {
  id = "d1";
  sequence = 1;
  organization_id = "o";
  publication_key = "k";
  publication_digest = "text";
  evidence = answer.evidence;
  source_snapshot = some "text";
  source_removed_at = none;
  published_at = 9;
}

abbrev with_answer : Records
with_answer = record {
  boards = record { id = "b"; organization_id = "o" } ∷ [];
  placements = record { board_id = "b"; card_id = "k" } ∷ [];
  last_identifier = 2;
  identifiers = [];
  taxonomies = stored_topics ∷ [];
  policies = stored_policy ∷ [];
  decisions = decided ∷ [];
  reviews = [];
  labels = [];
  label_revisions = [];
}

abbrev answered : DecisionRead
answered = record {
  decision = record {
    id = "d1";
    sequence = 1;
    organization_id = "o";
    publication_key = "k";
    publication_digest = "text";
    evidence = answer.evidence;
    source_snapshot = none;
    source_removed_at = none;
    published_at = 9;
  };
  review_count = 0;
}

publish_classification_decision-again_example :
    publish_classification_decision (publishing "d2" 10) with_answer
    ≡ wrote with_answer (record { read = answered; created = false })
unfolding publish_classification_decision write_immediately publish_work board_organization find
    publish_by_key publish_new refuse_publication is_placed taxonomy_refusal
    taxonomy_revision_numbered numbered policy_refusal policy_revision_numbered any_axis_off
    insert_decision new_decision last_sequence reply_published read_decision scan_decision keep
publish_classification_decision-again_example =
    publish_classification_decision-again (publishing "d1" 9) (publishing "d2" 10) classified
      with_answer (record { read = answered; created = true }) refl refl refl

abbrev accepting : ReviewCall
accepting = record {
  msg = simple;
  now = 11;
  new_id = "r1";
  board_id = "b";
  decision_id = "d1";
  reviewer_principal_id = "ann";
  request = record {
    idempotency_key = "key";
    action = "accept";
    axis_ids = "a1" ∷ [];
    corrections = [];
    explanation = "";
    expected_labels_revision = 0;
    supersedes_review_ids = [];
  };
}

review_classification_decision-LabelKept_example :
    LabelKept accepting "k" "b" "k" "a1" none
      (find (label_of "b" "k" "a1") (serve (reviews accepting) with_answer).labels)
unfolding serve review_classification_decision write_immediately review_work review_by_key
    review_decision record_review reviewed_values trim_space action_of reviewed_values_of
    corrections_fit all_axis_values axis_values lookup find_axis find assisted_axis action_values
    axis_selection check_supersedes replaced_reviews includes keep sort_stable insert_review
    write_labels set_labels set_label upsert set_labels_revision new_review resulting_revision
    read_decision scan_decision current_taxonomy_revision current newest current_policy card_labels
    labels_revision contains
review_classification_decision-LabelKept_example =
    review_classification_decision-LabelKept accepting with_answer _ _ answered "b" "k" "a1" refl
      refl

review_classification_decision-RevisionMoved_example :
    RevisionMoved accepting with_answer (serve (reviews accepting) with_answer) "k" true
unfolding serve review_classification_decision write_immediately review_work review_by_key
    review_decision record_review reviewed_values trim_space action_of reviewed_values_of
    corrections_fit all_axis_values axis_values lookup find_axis find assisted_axis action_values
    axis_selection check_supersedes replaced_reviews includes keep sort_stable insert_review
    write_labels set_labels set_label upsert set_labels_revision new_review resulting_revision
    read_decision scan_decision current_taxonomy_revision current newest current_policy card_labels
    labels_revision contains
review_classification_decision-RevisionMoved_example =
    review_classification_decision-RevisionMoved accepting with_answer _ _ answered refl refl
