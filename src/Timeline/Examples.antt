-- ===== src/Timeline/Examples.antt =====
-- Concrete events and hours for the theorems on time.
use kanban_store.Prelude.{
  ℕ, ◌+◌, ◌-◌, ◌*◌, ◌/◌, ◌%◌, ◌≤◌, String, [], ◌∷◌, none, some, if◌then◌else◌, ◌==◌, ◌≡◌, refl,
  arith,
}
use kanban_store.Prelude.Sort.{sort_stable, insert_sorted}
use kanban_store.Timeline.Events.{
  Time, CardEvent, event_less, clock_stopped, clock_running, clock_paused,
}
use kanban_store.Timeline.Business.{
  Zone, BusinessHours, minute, business_between, parse_clock_time, digits_value, unsigned_value,
  atoi, up_to, minutes_of_parts,
}
use kanban_store.Prelude.Text.{split_on}
use kanban_store.Timeline.BusinessBounds.{IsCalendar, business_between-le}
use kanban_store.Timeline.Compute.{last_event, summary_of, Input, compute, summarize}
use kanban_store.Timeline.Elapsed.{compute-stopped}

abbrev day : ℕ
day = 24 * 60 * minute

-- A zone whose days are all 24 hours.
abbrev utc : Zone
utc = record {
  midnight = λ t. t - t % day;
  next_day = λ t. t + day;
  weekday = λ t. (t / day) % 7;
  date = λ t. "";
}

utc-IsCalendar : IsCalendar utc
utc-IsCalendar = record { midnight_before = λ t. omega arith; next_after = λ t. omega arith }

abbrev office : BusinessHours
office = record {
  tzid = "UTC";
  days = "MO" ∷ "TU" ∷ [];
  start = "09:00";
  stop = "17:00";
  holidays = [];
}

stop_parsed : (e : ℕ) → parse_clock_time "17:00" ≡ some e → e ≡ 1020
unfolding parse_clock_time split_on digits_value unsigned_value atoi up_to minutes_of_parts
stop_parsed e h = ground arith

business_between-le_example : business_between (λ tzid. some utc) 0 (2 * day) office ≤ 2 * day - 0
business_between-le_example =
    business_between-le (λ tzid. some utc) 0 (2 * day) office utc refl utc-IsCalendar
      (λ e h t. omega (arith, stop_parsed e h))

abbrev event_at : String → Time → String → CardEvent
event_at id at state = record {
  id = id;
  card_id = "c1";
  board_id = "b1";
  kind = "note_added";
  clock_state = state;
  actor = "";
  summary = "";
  from_column_id = "";
  to_column_id = "";
  note_id = "";
  supersedes_event_id = "";
  detail = "";
  occurred_at = at;
  recorded_at = at;
}

abbrev two_events : Input
two_events = record {
  events = event_at "e2" 30 clock_paused ∷ event_at "e1" 10 clock_running ∷ [];
  notes = none;
  level = none;
  hours = none;
  now = 100;
}

-- The card of the two events, stopped after them
abbrev stopped_card : Input
stopped_card = record two_events {
  events =
      event_at "e3" 40 clock_stopped
      ∷ event_at "e2" 30 clock_paused
      ∷ event_at "e1" 10 clock_running
      ∷ [];
}

compute-stopped_example :
    compute (λ tzid. none) (λ detail. none) 5 (record stopped_card { now = 0 }) ≡ (
      record (compute (λ tzid. none) (λ detail. none) 7 (record stopped_card { now = 100 })).0 {
        as_of = if 0 == 0 then 5 else 0;
      },
      (compute (λ tzid. none) (λ detail. none) 7 (record stopped_card { now = 100 })).1,
    )
unfolding compute summarize sort_stable insert_sorted event_less last_event summary_of
compute-stopped_example =
    compute-stopped (λ tzid. none) (λ detail. none) stopped_card 100 0 7 5 refl
