-- ===== src/Timeline/BusinessBounds.antt =====
-- Bounds of the walk over the days.
use kanban_store.Prelude.{
  ℕ, zero, suc, ◌+◌, ◌-◌, ◌*◌, ◌≤◌, ◌<◌, String, Option, some, if◌then◌else◌, ◌≡◌, arith,
  Option-cases, inl, inr,
}
use Prim.Native.Nat.{max, min}
use kanban_store.Timeline.Events.{Time}
use kanban_store.Timeline.Business.{
  Zone, BusinessHours, working_day, day_walk, window_part, minute, business_between,
  parse_clock_time,
}

-- What the calendar of a zone gives: the day of an instant starts no later than it, and each day
-- ends after it starts.
pub record IsCalendar (zone : Zone) : Type 0 where
  pub midnight_before : (t : Time) → zone.midnight t ≤ t
  pub next_after : (t : Time) → t < zone.next_day t

module _ (zone : Zone) (calendar : IsCalendar zone) (hours : BusinessHours)
    (start_minutes end_minutes : ℕ) where
  day_total-le :
      (from to cursor : Time) (total : ℕ)
      → cursor + end_minutes * minute ≤ zone.next_day cursor
      → (if working_day zone hours start_minutes end_minutes cursor
          then total + window_part start_minutes end_minutes from to cursor
          else total)
        ≤ total + (min to (zone.next_day cursor) - max from cursor)
  unfolding window_part
  day_total-le from to cursor total fits = ground arith

  -- No day counts for more than its part of the range, if every day is as long as the window's end.
  pub day_walk-le :
      ((t : Time) → t + end_minutes * minute ≤ zone.next_day t)
      → (fuel : ℕ) (from to cursor : Time) (total : ℕ)
      → day_walk zone hours start_minutes end_minutes fuel from to cursor total
        ≤ total + (to - max from cursor)
  unfolding day_walk
  day_walk-le fits zero from to cursor total = omega arith
  day_walk-le fits (suc fuel) from to cursor total = ground (
    arith,
    calendar.next_after cursor,
    day_total-le from to cursor total (fits cursor),
    day_walk-le fits fuel from to (zone.next_day cursor) (
        if working_day zone hours start_minutes end_minutes cursor
        then total + window_part start_minutes end_minutes from to cursor
        else total),
  )

-- The business time of a range is never more than the range, on a calendar whose days are all at
-- least as long as the working window's end is past midnight.
pub business_between-le :
    (locations : String → Option Zone) (from to : Time) (hours : BusinessHours) (zone : Zone)
    → locations hours.tzid ≡ some zone
    → IsCalendar zone
    → ((end_minutes : ℕ)
        → parse_clock_time hours.stop ≡ some end_minutes
        → (t : Time) → t + end_minutes * minute ≤ zone.next_day t)
    → business_between locations from to hours ≤ to - from
unfolding business_between
business_between-le locations from to hours zone located calendar fits =
    elim (Option-cases (parse_clock_time hours.start)) [
      | inl s ↦ ground arith
      | inr (start_minutes, s) ↦ elim (Option-cases (parse_clock_time hours.stop)) [
        | inl e ↦ ground arith
        | inr (end_minutes, e) ↦ ground (
          arith,
          calendar.midnight_before from,
          day_walk-le zone calendar hours start_minutes end_minutes (fits end_minutes e)
              (to - zone.midnight from) from to (zone.midnight from) 0,
        )
      ]
    ]
