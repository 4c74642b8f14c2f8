-- ===== src/Classification/Decisions.antt =====
-- A classifier's answers: PublishClassificationDecision, readDecision and
-- RemoveClassificationSourcesOfCard (internal/db/classification.go). The id that `uuid` makes is an argument.
use kanban_store.Prelude.{
  ℕ, suc, String, Bool, true, false, ◌&&◌, ◌||◌, List, [], ◌∷◌, ◌++◌, Option, none, some, ltb,
  if◌then◌else◌, keep, find, length, is_some, update_where,
}
use kanban_store.Prelude.Text.{◌=?◌}
use kanban_store.Classification.Records.{
  Records, Taxonomy, Publication, Selections, Decision, Revision, PolicyContent,
}
use kanban_store.Classification.Work.{
  invalid, conflict, current_decision, WriteError, not_found, failed, refused, refuse, Outcome,
  stopped, wrote, Messages, write_immediately,
}
use kanban_store.Classification.Revisions.{taxonomy_revision_numbered, policy_revision_numbered}
use kanban_store.Classification.Taxonomies.{board_organization, or_stop}

-- A decision's row and the number of its reviews
pub record DecisionRead : Type 0 where
  pub decision : Decision
  pub review_count : ℕ

-- Without the source text where it is not asked for
unfoldable pub scan_decision : Records → Bool → Decision → DecisionRead
scan_decision r with_source d = record {
  decision = if with_source then d else record d { source_snapshot = none };
  review_count = length (keep (λ v. v.decision_id =? d.id) r.reviews);
}

abbrev pub scanned : Records → Bool → Option Decision → Option DecisionRead
scanned r with_source none = none
scanned r with_source (some d) = some (scan_decision r with_source d)

unfoldable pub read_decision : Records → String → String → Bool → Option DecisionRead
read_decision r board_id decision_id with_source =
    scanned r with_source
      (find (λ d. d.evidence.board_id =? board_id && d.id =? decision_id) r.decisions)

pub record Published : Type 0 where
  pub read : DecisionRead
  pub created : Bool

-- The arguments of a publication, and its key, digest and organization once they are known
pub record PublishCall : Type 0 where
  pub msg : Messages
  pub now : ℕ
  pub new_id : String
  pub publication : Publication

abbrev pub key_conflict : Option DecisionRead → WriteError
key_conflict none = refuse conflict "publication_key_reused"
key_conflict (some d) = refused (record {
  kind = conflict;
  code = "publication_key_reused";
  current = current_decision d.decision;
})

unfoldable pub reply_published : Records → String → String → Bool → Outcome Published
reply_published r board_id id created =
    or_stop r not_found (read_decision r board_id id false)
      (λ d. wrote r (record { read = d; created = created }))

unfoldable pub published_before : PublishCall → Decision → Records → Outcome Published
published_before c d r =
    if d.publication_digest =? c.msg.publication_digest c.publication
    then reply_published r c.publication.evidence.board_id d.id false
    else stopped r (key_conflict (read_decision r c.publication.evidence.board_id d.id false))

-- `MAX(sequence)`, 0 where there is no row
unfoldable pub last_sequence : List Decision → ℕ
last_sequence [] = 0
last_sequence (d ∷ rows) =
    let rest = last_sequence rows in if ltb rest d.sequence then d.sequence else rest

unfoldable pub new_decision : PublishCall → String → String → Records → Decision
new_decision c organization_id key r = record {
  id = c.new_id;
  sequence = suc (last_sequence r.decisions);
  organization_id = organization_id;
  publication_key = key;
  publication_digest = c.msg.publication_digest c.publication;
  evidence = c.publication.evidence;
  source_snapshot = some c.publication.source;
  source_removed_at = none;
  published_at = c.now;
}

abbrev pub with_decision : Decision → Records → Records
with_decision d r = record r { decisions = r.decisions ++ (d ∷ []) }

-- The insertion fails on an id that is taken.
unfoldable pub insert_decision : Decision → Records → Outcome Published
insert_decision d r =
    if is_some (find (λ e. e.id =? d.id) r.decisions)
    then stopped r failed
    else reply_published (with_decision d r) d.evidence.board_id d.id true

unfoldable pub any_axis_off : Messages → Revision PolicyContent → Selections → Bool
any_axis_off msg policy [] = false
any_axis_off msg policy ((axis_id, ids) ∷ selections) =
    msg.mode_of (some policy) axis_id =? msg.mode_off || any_axis_off msg policy selections

unfoldable pub policy_refusal :
    PublishCall → Taxonomy → Option (Revision PolicyContent) → Option WriteError
policy_refusal c t none = some (refuse conflict "policy_revision_unknown")
policy_refusal c t (some policy) =
    if c.msg.validate_publication c.publication t
    then (if any_axis_off c.msg policy c.publication.evidence.selections
        then some (refuse invalid "axis_off")
        else none)
    else some (refuse invalid "publication_invalid")

unfoldable pub taxonomy_refusal :
    PublishCall → Records → String → Option Taxonomy → Option WriteError
taxonomy_refusal c r digest none = some (refuse conflict "taxonomy_revision_unknown")
taxonomy_refusal c r digest (some t) =
    if digest =? c.publication.evidence.taxonomy_digest
    then policy_refusal c t (
        policy_revision_numbered r.policies c.publication.evidence.board_id
          c.publication.evidence.policy_revision)
    else some (refuse conflict "taxonomy_digest_mismatch")

unfoldable pub is_placed : Records → String → String → Bool
is_placed r board_id card_id =
    is_some (find (λ p. p.board_id =? board_id && p.card_id =? card_id) r.placements)

-- Why a publication is refused by the board's records, or nothing
unfoldable pub refuse_publication : PublishCall → String → Records → Option WriteError
refuse_publication c organization_id r =
    let evidence = c.publication.evidence in
    let named =
      (taxonomy_revision_numbered r.taxonomies evidence.board_id
        evidence.taxonomy_revision).content in
    if organization_id =? ""
    then some (refuse conflict "board_has_no_organization")
    else if is_placed r evidence.board_id evidence.card_id
    then taxonomy_refusal c r named.semantic_digest named.taxonomy
    else some (refuse conflict "card_not_on_board")

abbrev pub unless_refused :
    PublishCall → String → String → Records → Option WriteError → Outcome Published
unless_refused c organization_id key r (some e) = stopped r e
unless_refused c organization_id key r none =
    insert_decision (new_decision c organization_id key r) r

unfoldable pub publish_new : PublishCall → String → String → Records → Outcome Published
publish_new c organization_id key r =
    unless_refused c organization_id key r (refuse_publication c organization_id r)

unfoldable pub publish_by_key :
    PublishCall → String → String → Records → Option Decision → Outcome Published
publish_by_key c organization_id key r (some d) = published_before c d r
publish_by_key c organization_id key r none = publish_new c organization_id key r

unfoldable pub publish_work : PublishCall → Records → Outcome Published
publish_work c r =
    or_stop r not_found (board_organization r c.publication.evidence.board_id) (λ organization_id.
      or_stop r failed (c.msg.publication_key c.publication) (λ key.
        publish_by_key c organization_id key r (find (λ d. d.publication_key =? key) r.decisions)))

-- PublishClassificationDecision
unfoldable pub publish_classification_decision : PublishCall → Records → Outcome Published
publish_classification_decision c r = write_immediately r (publish_work c r)

-- RemoveClassificationSourcesOfCard
unfoldable pub remove_sources_of_card : ℕ → String → Records → Records
remove_sources_of_card now card_id r = record r {
  decisions =
      update_where (λ d. d.evidence.card_id =? card_id && is_some d.source_snapshot)
        (λ d. record d { source_snapshot = none; source_removed_at = some now }) r.decisions;
}
