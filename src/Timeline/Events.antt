-- ===== src/Timeline/Events.antt =====
-- Card events, their clock states and the priority ladder (internal/model/activity.go), and which
-- event replaced which (internal/model/time_entry.go). A time is the number of nanoseconds since
-- Go's zero time, so 0 is the zero time; `EventKind` and `ClockState` are texts, as in the source.
use kanban_store.Prelude.{
  ℕ, String, Bool, ◌&&◌, not, List, [], ◌∷◌, Option, none, some, ltb, ◌==◌, if◌then◌else◌,
}
use kanban_store.Prelude.Int.{ℤ, pos, eq_ℤ}
use kanban_store.Prelude.Text.{◌=?◌, contains, text_lt}

abbrev pub Time : Type 0
Time = ℕ

abbrev pub ClockState : Type 0
ClockState = String

abbrev pub clock_running : ClockState
clock_running = "running"

abbrev pub clock_paused : ClockState
clock_paused = "paused"

abbrev pub clock_stopped : ClockState
clock_stopped = "stopped"

unfoldable pub valid_clock_state : ClockState → Bool
unfolding contains
valid_clock_state = contains (clock_running ∷ clock_paused ∷ clock_stopped ∷ [])

abbrev pub EventKind : Type 0
EventKind = String

abbrev pub event_time_logged : EventKind
event_time_logged = "time_logged"

abbrev default_running : List EventKind
default_running =
    "card_created" ∷ "card_attached" ∷ "card_unheld" ∷ "email_received" ∷ "agent_dispatched"
    ∷ "agent_finished" ∷ "note_added" ∷ "waiting_ended" ∷ []

abbrev default_paused : List EventKind
default_paused = "card_held" ∷ "waiting_started" ∷ []

abbrev default_stopped : List EventKind
default_stopped = "card_detached" ∷ "card_completed" ∷ []

-- defaultClockStateByEventKind
unfoldable pub default_clock_state_for_event_kind : EventKind → Option ClockState
unfolding contains
default_clock_state_for_event_kind kind =
    if contains default_running kind
    then some clock_running
    else if contains default_paused kind
    then some clock_paused
    else if contains default_stopped kind
    then some clock_stopped
    else none

pub record CardEvent : Type 0 where
  pub id : String
  pub card_id : String
  pub board_id : String
  pub kind : EventKind
  pub clock_state : ClockState
  pub actor : String
  pub summary : String
  pub from_column_id : String
  pub to_column_id : String
  pub note_id : String
  pub supersedes_event_id : String
  -- the bytes of the JSON value, empty for none
  pub detail : String
  pub occurred_at : Time
  pub recorded_at : Time

pub record CreateCardEventRequest : Type 0 where
  pub kind : EventKind
  pub clock_state : ClockState
  pub detail : Option String

-- `none` is the refusal: neither the caller nor the kind says what the clock does.
unfoldable pub resolve_clock_state : CreateCardEventRequest → Option ClockState
resolve_clock_state r =
    if r.clock_state =? ""
    then default_clock_state_for_event_kind r.kind
    else if valid_clock_state r.clock_state
    then some r.clock_state
    else none

pub data EventRefusal : Type 0 where
  kind_required clock_state_required detail_not_json : EventRefusal

-- Validate; whether a text is JSON is asked of `json_valid`.
unfoldable pub validate_event : (String → Bool) → CreateCardEventRequest → Option EventRefusal
validate_event json_valid r =
    let resolved = resolve_clock_state r in
    if r.kind =? "" then some kind_required else elim resolved [
      | none ↦ some clock_state_required
      | some state ↦ elim r.detail [
        | none ↦ none
        | some detail ↦ if json_valid detail then none else some detail_not_json
      ]
    ]

pub record CardNote : Type 0 where
  pub id : String
  pub body : String

pub record BoardPriorityLevel : Type 0 where
  pub priority_value : ℤ
  pub label : String
  pub budget_seconds : Option ℕ

find_level : List BoardPriorityLevel → ℤ → Option BoardPriorityLevel
find_level [] value = none
find_level (level ∷ levels) value =
    if eq_ℤ level.priority_value value then some level else find_level levels value

-- LevelFor; 0 is the value of an unranked card.
unfoldable pub level_for : List BoardPriorityLevel → ℤ → Option BoardPriorityLevel
unfolding find_level
level_for levels value = if eq_ℤ value (pos 0) then none else find_level levels value

-- The order of Compute's sort: when it happened, when it was heard of, then the id.
unfoldable pub event_less : CardEvent → CardEvent → Bool
event_less e f =
    if not (e.occurred_at == f.occurred_at)
    then ltb e.occurred_at f.occurred_at
    else if not (e.recorded_at == f.recorded_at)
    then ltb e.recorded_at f.recorded_at
    else text_lt e.id f.id

-- `supersededBy[id]` of SupersededByEventID: a later event's entry overwrites an earlier one's.
unfoldable pub superseded_by_event_id : List CardEvent → String → Option String
superseded_by_event_id [] id = none
superseded_by_event_id (e ∷ events) id = elim (superseded_by_event_id events id) [
  | some later ↦ some later
  | none ↦
      if not (e.supersedes_event_id =? "") && e.supersedes_event_id =? id then some e.id else none
]
