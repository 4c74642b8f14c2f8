-- ===== src/Classification/Reviews.antt =====
-- People's reviews and the labels they set: ReviewClassificationDecision, reviewedValues, checkSupersedes
-- and cardLabels (internal/db/classification.go). The id that `uuid` makes is an argument.
use kanban_store.Prelude.{
  ℕ, String, Bool, ◌&&◌, List, [], ◌∷◌, ◌++◌, Option, none, some, ◌==◌, if◌then◌else◌, keep, find,
  length, is_some,
}
use kanban_store.Prelude.Text.{◌=?◌, text_lt, trim_space}
use kanban_store.Prelude.Sort.{sort_stable}
use kanban_store.Classification.Records.{
  Records, Taxonomy, TaxonomyAxis, Selections, ReviewRequest, Label, LabelRevision, Revision,
  PolicyContent,
}
use kanban_store.Classification.Work.{invalid, conflict, WriteError, refuse, Messages, CardLabels}

pub data Action : Type 0 where
  accept correct reject : Action

unfoldable pub action_of : String → Option Action
action_of text =
    if text =? "accept"
    then some accept
    else if text =? "correct"
    then some correct
    else if text =? "reject"
    then some reject
    else none

-- A map by axis id
unfoldable pub lookup : Selections → String → Option (List String)
lookup [] axis_id = none
lookup ((a, ids) ∷ rest) axis_id =
    let found = lookup rest axis_id in if a =? axis_id then some ids else found

abbrev pub of_card : String → String → Label → Bool
of_card board_id card_id l = l.board_id =? board_id && l.card_id =? card_id

abbrev pub revision_of : Option LabelRevision → ℕ
revision_of none = 0
revision_of (some v) = v.revision

abbrev pub revision_of_card : String → String → LabelRevision → Bool
revision_of_card board_id card_id v = v.board_id =? board_id && v.card_id =? card_id

unfoldable pub labels_revision : Records → String → String → ℕ
labels_revision r board_id card_id =
    revision_of (find (revision_of_card board_id card_id) r.label_revisions)

unfoldable pub card_labels : Records → String → String → CardLabels
card_labels r board_id card_id = record {
  revision = labels_revision r board_id card_id;
  labels =
      sort_stable (λ a b. text_lt a.axis_id b.axis_id) (keep (of_card board_id card_id) r.labels);
}

-- The labels that a review sets, by axis, or why it is refused
pub data ReviewedValues : Type 0 where
  unfit : WriteError → ReviewedValues
  values : Selections → ReviewedValues

-- What the loop over the axes reads
pub record AxisCheck : Type 0 where
  pub msg : Messages
  pub action : Action
  pub request : ReviewRequest
  pub selections : Selections
  pub taxonomy : Taxonomy
  pub policy : Option (Revision PolicyContent)

unfoldable pub axis_selection : AxisCheck → TaxonomyAxis → String → List String → ReviewedValues
axis_selection c axis axis_id ids =
    if c.msg.validate_axis_selection axis ids
    then (if axis.required && length ids == 0
        then unfit (refuse invalid "review_invalid")
        else values ((axis_id, ids) ∷ []))
    else unfit (refuse conflict "taxonomy_incompatible")

abbrev pub given_values : AxisCheck → TaxonomyAxis → String → Option (List String) → ReviewedValues
given_values c axis axis_id none = unfit (refuse invalid "review_invalid")
given_values c axis axis_id (some ids) = axis_selection c axis axis_id ids

unfoldable pub action_values : AxisCheck → Action → TaxonomyAxis → String → ReviewedValues
action_values c accept axis axis_id = given_values c axis axis_id (lookup c.selections axis_id)
action_values c correct axis axis_id =
    given_values c axis axis_id (lookup c.request.corrections axis_id)
action_values c reject axis axis_id = values ((axis_id, []) ∷ [])

unfoldable pub assisted_axis : AxisCheck → String → Option TaxonomyAxis → ReviewedValues
assisted_axis c axis_id none = unfit (refuse conflict "taxonomy_incompatible")
assisted_axis c axis_id (some axis) =
    if axis.archived
    then unfit (refuse conflict "taxonomy_incompatible")
    else if c.msg.mode_of c.policy axis_id =? c.msg.mode_assisted
    then action_values c c.action axis axis_id
    else unfit (refuse conflict "axis_not_assisted")

unfoldable pub axis_values : AxisCheck → Selections → String → ReviewedValues
axis_values c out axis_id =
    if is_some (lookup out axis_id)
    then unfit (refuse invalid "review_invalid")
    else assisted_axis c axis_id (c.msg.axis_by_id c.taxonomy axis_id)

abbrev pub and_values : ReviewedValues → (Selections → ReviewedValues) → ReviewedValues
and_values (unfit e) f = unfit e
and_values (values out) f = f out

unfoldable pub all_axis_values : AxisCheck → List String → Selections → ReviewedValues
all_axis_values c [] out = values out
all_axis_values c (axis_id ∷ axis_ids) out =
    and_values (axis_values c out axis_id) (λ one. all_axis_values c axis_ids (out ++ one))

abbrev pub unless_rejected : Action → ReviewedValues → ReviewedValues
unless_rejected reject (values out) = values []
unless_rejected reject (unfit e) = unfit e
unless_rejected accept v = v
unless_rejected correct v = v

-- How many corrections go with an action
unfoldable pub corrections_fit : Action → ReviewRequest → Bool
corrections_fit correct q = length q.corrections == length q.axis_ids
corrections_fit accept q = length q.corrections == 0
corrections_fit reject q = length q.corrections == 0

unfoldable pub reviewed_values_of : AxisCheck → ReviewedValues
reviewed_values_of c =
    if length c.request.axis_ids == 0
    then unfit (refuse invalid "review_invalid")
    else if corrections_fit c.action c.request
    then unless_rejected c.action (all_axis_values c c.request.axis_ids [])
    else unfit (refuse invalid "review_invalid")

abbrev pub with_action :
    Messages
    → ReviewRequest
    → Selections
    → Taxonomy
    → Option (Revision PolicyContent)
    → Option Action
    → ReviewedValues
with_action msg q selections t policy none = unfit (refuse invalid "review_invalid")
with_action msg q selections t policy (some action) = reviewed_values_of (record {
  msg = msg;
  action = action;
  request = q;
  selections = selections;
  taxonomy = t;
  policy = policy;
})

unfoldable pub reviewed_values :
    Messages
    → ReviewRequest
    → Selections
    → Taxonomy
    → Option (Revision PolicyContent)
    → ReviewedValues
reviewed_values msg q selections t policy =
    if trim_space q.idempotency_key =? ""
    then unfit (refuse invalid "review_invalid")
    else with_action msg q selections t policy (action_of q.action)
