-- ===== src/Log/Successors.antt =====
-- The log is only appended to, and an event has at most one successor (internal/db/activity.go,
-- RecordCardEvent).
use kanban_store.Prelude.{
  String, Bool, true, false, ◌&&◌, not, List, [], ◌∷◌, ◌++◌, none, find, ◌≡◌, refl, sym, ap, ◌∙◌,
  arith, Bool-cases, inl, inr, All, IsUnique, IsUnique-new, is_some-false, All-append, append_nil,
  append_assoc,
}
use kanban_store.Prelude.Text.{◌=?◌}
use kanban_store.Timeline.Events.{Time, CardEvent, valid_clock_state}
use kanban_store.Log.Events.{
  LogReply, refused, done, succeeds, violates_unique, insert_event, stored_event, record_card_event,
}

-- Two rows with the same id, and two that replace the same event
abbrev pub same_event : CardEvent → CardEvent → Bool
same_event e f = e.id =? f.id

abbrev pub same_predecessor : CardEvent → CardEvent → Bool
same_predecessor e f =
    not (f.supersedes_event_id =? "") && e.supersedes_event_id =? f.supersedes_event_id

abbrev pub IsValid : CardEvent → Type 0
IsValid e = (not (e.card_id =? "") && not (e.kind =? "") && valid_clock_state e.clock_state) ≡ true

-- Every event has an id of its own, a card, a kind and a state of the clock, and no event has two
-- successors.
pub record IsLine (log : List CardEvent) : Type 0 where
  pub ids : IsUnique same_event log
  pub successors : IsUnique same_predecessor log
  pub valid : All IsValid log

-- The rows that a new row must not meet
no_clash :
    (e : CardEvent) (log : List CardEvent)
    → violates_unique e log ≡ false
    → (find (λ f. f.id =? e.id) log ≡ none) × (find (succeeds e.supersedes_event_id) log ≡ none)
unfolding violates_unique
no_clash e log h = (
  is_some-false (find (λ f. f.id =? e.id) log) (ground arith),
  is_some-false (find (succeeds e.supersedes_event_id) log) (ground arith),
)

appended-IsLine :
    (e : CardEvent) (log : List CardEvent)
    → IsValid e
    → IsLine log
    → violates_unique e log ≡ false
    → IsLine (log ++ (e ∷ []))
appended-IsLine e log fits ok free =
    let (no_id, no_successor) = no_clash e log free in
    record {
      ids = IsUnique-new same_event (λ f. f.id =? e.id) log e (λ f. refl) no_id ok.ids;
      successors =
          IsUnique-new same_predecessor (succeeds e.supersedes_event_id) log e (λ f. refl)
            no_successor ok.successors;
      valid = All-append IsValid log (e ∷ []) ok.valid (fits, tt);
    }

-- The log that a call leaves
unfoldable pub log_after : List CardEvent → LogReply (List CardEvent) CardEvent → List CardEvent
log_after log (refused e) = log
log_after log (done after e) = after

-- The calls of RecordCardEvent, each with its time and its id
unfoldable pub record_all : List (Time × String × CardEvent) → List CardEvent → List CardEvent
record_all [] log = log
record_all ((now, id, e) ∷ calls) log =
    record_all calls (log_after log (record_card_event now id e log))

-- Either nothing changes, or one row is added at the end and the log is still a line.
Grows : List CardEvent → List CardEvent → Type 0
Grows log after = (added : List CardEvent) × (after ≡ log ++ added) × (IsLine log → IsLine after)

kept : (log : List CardEvent) → Grows log log
unfolding Grows
kept log = ([], sym (append_nil log), λ ok. ok)

insert_event-Grows :
    (e : CardEvent) (log : List CardEvent)
    → IsValid e
    → Grows log (log_after log (insert_event e log))
unfolding Grows insert_event log_after
insert_event-Grows e log fits = elim (Bool-cases (violates_unique e log)) [
  | inl clash ↦ rw clash (kept log)
  | inr free ↦ rw free (e ∷ [], refl, λ ok. appended-IsLine e log fits ok free)
]

stored-IsValid :
    (now : Time) (id : String) (e : CardEvent)
    → (e.card_id =? "") ≡ false
    → (e.kind =? "") ≡ false
    → valid_clock_state e.clock_state ≡ true
    → IsValid (stored_event now id e)
unfolding stored_event
stored-IsValid now id e a b c = rw (a, b, c) refl

record_card_event-Grows :
    (now : Time) (id : String) (e : CardEvent) (log : List CardEvent)
    → Grows log (log_after log (record_card_event now id e log))
unfolding record_card_event log_after
record_card_event-Grows now id e log = elim (Bool-cases (e.card_id =? "")) [
  | inl a ↦ rw a (kept log)
  | inr a ↦ elim (Bool-cases (e.kind =? "")) [
    | inl b ↦ rw (a, b) (kept log)
    | inr b ↦ elim (Bool-cases (valid_clock_state e.clock_state)) [
      | inl c ↦
          rw (a, b, c)
            (insert_event-Grows (stored_event now id e) log (stored-IsValid now id e a b c))
      | inr c ↦ rw (a, b, c) (kept log)
    ]
  ]
]

record_all-Grows :
    (calls : List (Time × String × CardEvent)) (log : List CardEvent)
    → Grows log (record_all calls log)
unfolding Grows record_all
record_all-Grows [] log = kept log
record_all-Grows ((now, id, e) ∷ calls) log =
    let (one, first, keeps) = record_card_event-Grows now id e log in
    let (more, rest, keeps') =
      record_all-Grows calls (log_after log (record_card_event now id e log)) in
    (
      one ++ more,
      rest ∙ ap (λ xs. xs ++ more) first ∙ append_assoc log one more,
      λ ok. keeps' (keeps ok),
    )

-- In any sequence of calls of RecordCardEvent, refused ones included, the log is only added to at its
-- end; and a log whose events have ids of their own, a card, a kind and a valid state of the
-- clock, and of which no event has two successors, stays one.
pub record_all-IsLine :
    (calls : List (Time × String × CardEvent)) (log : List CardEvent)
    → IsLine log
    → IsLine (record_all calls log)
      × ((added : List CardEvent) × (record_all calls log ≡ log ++ added))
unfolding Grows
record_all-IsLine calls log ok =
    let (added, grown, keeps) = record_all-Grows calls log in (keeps ok, (added, grown))
