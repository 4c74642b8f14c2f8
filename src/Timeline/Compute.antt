-- ===== src/Timeline/Compute.antt =====
-- The time figures of a card (internal/timeaccounting/timeaccounting.go, Compute; the shapes are
-- those of internal/model/timesummary.go). Durations are exact numbers of nanoseconds, up to the
-- longest time.Duration, where the source divides by 10^9 into a float64; logged seconds are an
-- int64, held as its 64-bit pattern.
use kanban_store.Prelude.{
  ℕ, ◌+◌, ◌-◌, ◌*◌, ◌%◌, ◌^◌, String, Bool, true, false, ◌&&◌, ◌||◌, not, List, [], ◌∷◌, ◌++◌,
  Option, none, some, ltb, ◌==◌, if◌then◌else◌, length,
}
use kanban_store.Prelude.Int.{ℤ, sub_ℕ}
use kanban_store.Prelude.Sort.{sort_stable}
use kanban_store.Prelude.Text.{◌=?◌}
use kanban_store.Timeline.Events.{
  Time, ClockState, clock_running, clock_paused, clock_stopped, CardEvent, CardNote,
  BoardPriorityLevel, event_less, event_time_logged, superseded_by_event_id,
}
use kanban_store.Timeline.Business.{Zone, BusinessHours, business_between}

pub record Input : Type 0 where
  pub events : List CardEvent
  -- the notes by id; `none` is a nil map
  pub notes : Option (String → Option CardNote)
  pub level : Option BoardPriorityLevel
  pub hours : Option BusinessHours
  pub now : Time

pub record TimeSegment : Type 0 where
  pub event_id : String
  pub clock_state : ClockState
  pub from : Time
  pub to : Time
  pub seconds : ℕ
  pub is_open : Bool

pub record TimelineEntry : Type 0 where
  pub event : CardEvent
  pub note : Option CardNote
  pub seconds_since_previous_event : ℕ
  pub segment_seconds : ℕ
  pub segment_open : Bool
  pub counts_against_budget : Bool
  pub clock_state : ClockState
  pub superseded_by_event_id : String

-- The variables of the loop over the events.
pub record Totals : Type 0 where
  pub elapsed : ℕ
  pub budget_clock : ℕ
  pub waiting : ℕ
  pub business_elapsed : ℕ
  pub business_budget : ℕ
  pub segments : List TimeSegment
  pub entries : List TimelineEntry

pub record CardTimeSummary : Type 0 where
  pub as_of : Time
  pub clock_state : ClockState
  pub first_event_at : Option Time
  pub last_event_at : Option Time
  pub event_count : ℕ
  pub elapsed_seconds : ℕ
  pub budget_clock_seconds : ℕ
  pub waiting_seconds : ℕ
  pub logged_seconds : ℕ
  pub business_hours_elapsed_seconds : Option ℕ
  pub business_hours_budget_clock_seconds : Option ℕ
  pub priority_value : Option ℤ
  pub priority_label : String
  pub budget_seconds : Option ℕ
  pub budget_remaining_seconds : Option ℤ
  pub over_budget : Option Bool
  pub segments : List TimeSegment

abbrev pub add_int64 : ℕ → ℕ → ℕ
add_int64 a b = (a + b) % 2 ^ 64

-- Where the time after an event ends, and whether that moment is `now`; not before the event.
unfoldable pub segment_end : Time → CardEvent → List CardEvent → Time × Bool
segment_end now e (f ∷ rest) =
    (if ltb f.occurred_at e.occurred_at then e.occurred_at else f.occurred_at, false)
segment_end now e [] =
    if e.clock_state =? clock_stopped
    then (e.occurred_at, false)
    else (if ltb now e.occurred_at then e.occurred_at else now, true)

-- The longest time.Duration, about 292 years
abbrev pub max_duration : ℕ
max_duration = 9223372036854775807

-- `to.Sub(from)`, for a moment `to` that is not before `from`
unfoldable pub duration : Time → Time → ℕ
duration from to = if ltb max_duration (to - from) then max_duration else to - from

-- The segment after an event, up to the next one.
unfoldable pub segment_of : Time → CardEvent → List CardEvent → TimeSegment
segment_of now e rest =
    let (end_at, reaches_now) = segment_end now e rest in
    let seconds = duration e.occurred_at end_at in
    record {
      event_id = e.id;
      clock_state = e.clock_state;
      from = e.occurred_at;
      to = end_at;
      seconds = seconds;
      is_open = reaches_now && ltb 0 seconds;
    }

-- `e.OccurredAt.Sub(previous)`, not below 0; 0 for the first event.
unfoldable pub since_previous : Option Time → CardEvent → ℕ
since_previous none e = 0
since_previous (some previous) e =
    if ltb e.occurred_at previous then 0 else duration previous e.occurred_at

abbrev text_or_empty : Option String → String
text_or_empty none = ""
text_or_empty (some s) = s

unfoldable pub note_of : Option (String → Option CardNote) → CardEvent → Option CardNote
note_of none e = none
note_of (some notes) e = if e.note_id =? "" then none else notes e.note_id

-- The business part of a segment that has a length.
unfoldable pub business_part : (String → Option Zone) → Option BusinessHours → Time → Time → ℕ
business_part locations none from to = 0
business_part locations (some hours) from to =
    if ltb 0 (to - from) then business_between locations from to hours else 0

module _ (locations : String → Option Zone) (input : Input) (now : Time)
    (sorted : List CardEvent) where
  -- One round of the loop.
  unfoldable pub account : Option Time → CardEvent → List CardEvent → Totals → Totals
  account previous e rest t =
      let segment = segment_of now e rest in
      let seconds = segment.seconds in
      let running = e.clock_state =? clock_running in
      let business = business_part locations input.hours e.occurred_at segment.to in
      record {
        elapsed = t.elapsed + seconds;
        budget_clock = if running then t.budget_clock + seconds else t.budget_clock;
        waiting =
            if running
            then t.waiting
            else if e.clock_state =? clock_paused
            then t.waiting + seconds
            else t.waiting;
        business_elapsed = t.business_elapsed + business;
        business_budget = if running then t.business_budget + business else t.business_budget;
        segments = t.segments ++ segment ∷ [];
        entries =
            t.entries
            ++ record {
              event = e;
              note = note_of input.notes e;
              seconds_since_previous_event = since_previous previous e;
              segment_seconds = seconds;
              segment_open = segment.is_open;
              counts_against_budget = running;
              clock_state = e.clock_state;
              superseded_by_event_id = text_or_empty (superseded_by_event_id sorted e.id);
            }
              ∷ [];
      }

  unfoldable pub account_all : Option Time → List CardEvent → Totals → Totals
  account_all previous [] t = t
  account_all previous (e ∷ rest) t =
      account_all (some e.occurred_at) rest (account previous e rest t)

abbrev pub no_time : Totals
no_time = record {
  elapsed = 0;
  budget_clock = 0;
  waiting = 0;
  business_elapsed = 0;
  business_budget = 0;
  segments = [];
  entries = [];
}

-- `supersededBy[e.ID] != ""`
unfoldable pub superseded : List CardEvent → CardEvent → Bool
superseded events e = not (text_or_empty (superseded_by_event_id events e.id) =? "")

-- The loop that adds up the active time entries; `seconds_of` unmarshals an event's detail.
unfoldable pub logged_loop : (String → Option ℕ) → List CardEvent → List CardEvent → ℕ → ℕ
unfolding superseded
logged_loop seconds_of events [] logged = logged
logged_loop seconds_of events (e ∷ rest) logged = logged_loop seconds_of events rest (
    if not (e.kind =? event_time_logged) || superseded events e
    then logged
    else elim (seconds_of e.detail) [ none ↦ logged | some seconds ↦ add_int64 logged seconds ])

unfoldable pub last_event : CardEvent → List CardEvent → CardEvent
last_event e [] = e
last_event e (f ∷ rest) = last_event f rest

abbrev when_set {ℓ} : {A B : Type ℓ} → Option A → B → Option B
when_set none b = none
when_set (some a) b = some b

abbrev nanoseconds : ℕ → ℕ
nanoseconds seconds = seconds * 1000000000

-- The summary before the loop: what does not depend on the events' times.
unfoldable pub summary_start : (String → Option ℕ) → Input → Time → List CardEvent → CardTimeSummary
summary_start seconds_of input now events = record {
  as_of = now;
  clock_state = "";
  first_event_at = none;
  last_event_at = none;
  event_count = length events;
  elapsed_seconds = 0;
  budget_clock_seconds = 0;
  waiting_seconds = 0;
  logged_seconds = logged_loop seconds_of events events 0;
  business_hours_elapsed_seconds = when_set input.hours 0;
  business_hours_budget_clock_seconds = when_set input.hours 0;
  priority_value = elim input.level [ none ↦ none | some level ↦ some level.priority_value ];
  priority_label = elim input.level [ none ↦ "" | some level ↦ level.label ];
  budget_seconds = elim input.level [ none ↦ none | some level ↦ level.budget_seconds ];
  budget_remaining_seconds = none;
  over_budget = none;
  segments = [];
}

-- The summary after the loop, with what the loop added up
unfoldable pub summary_of :
    Input
    → CardTimeSummary
    → CardEvent
    → List CardEvent
    → Totals
    → CardTimeSummary × List TimelineEntry
unfolding last_event
summary_of input s e rest t = (
  record s {
    clock_state = (last_event e rest).clock_state;
    first_event_at = some e.occurred_at;
    last_event_at = some (last_event e rest).occurred_at;
    elapsed_seconds = t.elapsed;
    budget_clock_seconds = t.budget_clock;
    waiting_seconds = t.waiting;
    business_hours_elapsed_seconds = when_set input.hours t.business_elapsed;
    business_hours_budget_clock_seconds = when_set input.hours t.business_budget;
    budget_remaining_seconds = elim s.budget_seconds [
      | none ↦ none
      | some budget ↦ some (sub_ℕ (nanoseconds budget) t.budget_clock)
    ];
    over_budget = elim s.budget_seconds [
      | none ↦ none
      | some budget ↦ some (ltb (nanoseconds budget) t.budget_clock)
    ];
    segments = t.segments;
  },
  t.entries,
)

-- Compute on the sorted events.
unfoldable pub summarize :
    (String → Option Zone)
    → (String → Option ℕ)
    → Input
    → Time
    → List CardEvent
    → CardTimeSummary × List TimelineEntry
unfolding summary_start
summarize locations seconds_of input now [] = (summary_start seconds_of input now [], [])
summarize locations seconds_of input now (e ∷ rest) =
    summary_of input (summary_start seconds_of input now (e ∷ rest)) e rest
      (account_all locations input now (e ∷ rest) none (e ∷ rest) no_time)

-- Compute. `clock` is what time.Now answers, read when the input gives no time.
unfoldable pub compute :
    (String → Option Zone)
    → (String → Option ℕ)
    → Time
    → Input
    → CardTimeSummary × List TimelineEntry
unfolding summarize
compute locations seconds_of clock input =
    summarize locations seconds_of input (if input.now == 0 then clock else input.now)
      (sort_stable event_less input.events)
