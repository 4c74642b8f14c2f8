-- ===== src/Classification/Answers.antt =====
-- What the calls of board classification answer (internal/db/classification.go).
use kanban_store.Prelude.{String, Bool, true, false, Option, none, some, is_some, ◌≡◌, refl, ◌∙◌}
use kanban_store.Prelude.{find, find-append_none}
use kanban_store.Prelude.Text.{◌=?◌, text_eq_refl}
use kanban_store.Classification.Records.{Records, Decision}
use kanban_store.Classification.Work.{wrote, WriteError, write_immediately}
use kanban_store.Classification.Taxonomies.{board_organization}
use kanban_store.Classification.Decisions.{
  PublishCall, Published, reply_published, published_before, new_decision, with_decision,
  insert_decision, unless_refused, publish_new, publish_by_key, publish_work,
  publish_classification_decision, read_decision,
}
use kanban_store.Classification.Outcomes.{
  OnWrite, OnWrite-wrote, OnWrite-write_immediately, OnWrite-if, OnWrite-or_stop,
}

-- The decision that answers the publication is there by its key, with its digest, and is what was read.
abbrev IsAnswered : PublishCall → Records → Published → Type 0
IsAnswered c r x =
    (organization_id : String) × (key : String) × (d : Decision) × (board_organization r
        c.publication.evidence.board_id
      ≡ some organization_id)
    × (c.msg.publication_key c.publication ≡ some key)
    × (find (λ d. d.publication_key =? key) r.decisions ≡ some d)
    × ((d.publication_digest =? c.msg.publication_digest c.publication) ≡ true)
    × (read_decision r c.publication.evidence.board_id d.id false ≡ some x.read)

module _ (c : PublishCall) (organization_id key : String)
    (keyed : c.msg.publication_key c.publication ≡ some key) where
  reply-IsAnswered :
      (r : Records) (d : Decision) (created : Bool)
      → board_organization r c.publication.evidence.board_id ≡ some organization_id
      → find (λ d. d.publication_key =? key) r.decisions ≡ some d
      → (d.publication_digest =? c.msg.publication_digest c.publication) ≡ true
      → OnWrite (IsAnswered c) (reply_published r c.publication.evidence.board_id d.id created)
  unfolding reply_published
  reply-IsAnswered r d created there found digest =
      OnWrite-or_stop (IsAnswered c) r _
        (read_decision r c.publication.evidence.board_id d.id false) _
        (λ x read. (organization_id, key, d, there, keyed, found, digest, read))

  before-IsAnswered :
      (r : Records) (d : Decision)
      → board_organization r c.publication.evidence.board_id ≡ some organization_id
      → find (λ d. d.publication_key =? key) r.decisions ≡ some d
      → OnWrite (IsAnswered c) (published_before c d r)
  unfolding published_before
  before-IsAnswered r d there found =
      OnWrite-if (IsAnswered c) (d.publication_digest =? c.msg.publication_digest c.publication) _ _
        (λ e. reply-IsAnswered r d false there found e) (λ e. tt)

  new-found :
      (r : Records)
      → find (λ d. d.publication_key =? key) r.decisions ≡ none
      → find
          (λ d. d.publication_key =? key)
          (with_decision (new_decision c organization_id key r) r).decisions
        ≡ some (new_decision c organization_id key r)
  unfolding find new_decision
  new-found r free =
      find-append_none (λ d. d.publication_key =? key) r.decisions _ free
      ∙ rw (text_eq_refl key) refl

  unless-IsAnswered :
      (r : Records) (e : Option WriteError)
      → board_organization r c.publication.evidence.board_id ≡ some organization_id
      → find (λ d. d.publication_key =? key) r.decisions ≡ none
      → OnWrite (IsAnswered c) (unless_refused c organization_id key r e)
  unfolding insert_decision new_decision board_organization
  unless-IsAnswered r (some e) there free = tt
  unless-IsAnswered r none there free =
      OnWrite-if (IsAnswered c) (is_some (find (λ e. e.id =? c.new_id) r.decisions)) _ _ (λ e. tt)
        (λ e.
          reply-IsAnswered _ (new_decision c organization_id key r) true there (new-found r free)
            (text_eq_refl _))

  key-IsAnswered :
      (r : Records) (o : Option Decision)
      → board_organization r c.publication.evidence.board_id ≡ some organization_id
      → find (λ d. d.publication_key =? key) r.decisions ≡ o
      → OnWrite (IsAnswered c) (publish_by_key c organization_id key r o)
  unfolding publish_by_key publish_new
  key-IsAnswered r none there free = unless-IsAnswered r _ there free
  key-IsAnswered r (some d) there found = before-IsAnswered r d there found

publish-IsAnswered :
    (c : PublishCall) (r : Records) → OnWrite (IsAnswered c) (publish_classification_decision c r)
unfolding publish_classification_decision publish_work
publish-IsAnswered c r = OnWrite-write_immediately _ r _ (
    OnWrite-or_stop _ r _ (board_organization r c.publication.evidence.board_id) _
      (λ organization_id there.
        OnWrite-or_stop _ r _ (c.msg.publication_key c.publication) _
          (λ key keyed. key-IsAnswered c organization_id key keyed r _ there refl)))

-- A publication that was answered, at any time and with any id at hand for a new decision, is
-- answered again by the decision that it was answered by, which is then not new, and nothing is written.
pub publish_classification_decision-again :
    (c c' : PublishCall) (r r' : Records) (x : Published)
    → c'.msg ≡ c.msg
    → c'.publication ≡ c.publication
    → publish_classification_decision c r ≡ wrote r' x
    → publish_classification_decision c' r' ≡ wrote r' (record { read = x.read; created = false })
unfolding publish_classification_decision write_immediately publish_work publish_by_key
    published_before reply_published
publish_classification_decision-again c c' r r' x msg same h =
    let (organization_id, key, d, there, keyed, found, digest, read) =
      OnWrite-wrote (IsAnswered c) (publish_classification_decision c r) r' x
        (publish-IsAnswered c r) h in
    rw (msg, same, there, keyed, found, digest, read) refl
