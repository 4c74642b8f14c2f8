-- ===== src/Timeline/Elapsed.antt =====
-- The time figures against the events and the segments.
use kanban_store.Prelude.{
  ℕ, ◌+◌, String, Bool, true, false, List, [], ◌∷◌, ◌++◌, Option, none, some, ◌==◌, if◌then◌else◌,
  ◌≡◌, refl, sym, ap, arith,
}
use kanban_store.Prelude.Text.{◌=?◌, text_eq_iff}
use kanban_store.Prelude.Sort.{sort_stable}
use kanban_store.Timeline.Events.{
  Time, ClockState, clock_running, clock_paused, clock_stopped, CardEvent, event_less,
}
use kanban_store.Timeline.Business.{Zone}
use kanban_store.Timeline.Compute.{
  summary_start, summary_of, Input, TimeSegment, Totals, segment_end, segment_of, account,
  account_all, no_time, last_event, summarize, compute,
}

abbrev pub total_seconds : (ClockState → Bool) → List TimeSegment → ℕ
total_seconds counts [] = 0
total_seconds counts (g ∷ rest) =
    let others = total_seconds counts rest in
    if counts g.clock_state then g.seconds + others else others

total_seconds-append :
    (counts : ClockState → Bool) (gs : List TimeSegment) (g : TimeSegment)
    → total_seconds counts (gs ++ g ∷ [])
      ≡ total_seconds counts gs + (if counts g.clock_state then g.seconds else 0)
total_seconds-append counts [] g = ground arith
total_seconds-append counts (h ∷ gs) g = ground (arith, total_seconds-append counts gs g)

abbrev pub any_state : ClockState → Bool
any_state state = true

abbrev pub is_running : ClockState → Bool
is_running state = state =? clock_running

abbrev pub is_paused : ClockState → Bool
is_paused state = state =? clock_paused

running_not_paused : (s : ClockState) → is_running s ≡ true → is_paused s ≡ false
running_not_paused s h = rw ((text_eq_iff s clock_running).0 h)

-- Each figure is the time of the segments that count for it.
abbrev FiguresOf : Totals → Type 0
FiguresOf t =
    (t.elapsed ≡ total_seconds any_state t.segments)
    × (t.budget_clock ≡ total_seconds is_running t.segments)
    × (t.waiting ≡ total_seconds is_paused t.segments)

module _ (locations : String → Option Zone) (input : Input) (now : Time)
    (sorted : List CardEvent) where
  -- What one round adds to a figure is the segment that it appends.
  figures_by_segments :
      (previous : Option Time) (events : List CardEvent) (t : Totals)
      → FiguresOf t
      → FiguresOf (account_all locations input now sorted previous events t)
  unfolding account_all account segment_of
  figures_by_segments previous [] t h = h
  figures_by_segments previous (e ∷ rest) t h =
      let g = segment_of now e rest in
      figures_by_segments (some e.occurred_at) rest
        (account locations input now sorted previous e rest t)
        (
          ground (arith, total_seconds-append any_state t.segments g),
          ground (arith, total_seconds-append is_running t.segments g),
          ground (
            arith,
            total_seconds-append is_paused t.segments g,
            running_not_paused e.clock_state,
          ),
        )

module _ (locations : String → Option Zone) (seconds_of : String → Option ℕ) where
  summarize-figures :
      (input : Input) (now : Time) (events : List CardEvent)
      → let s = (summarize locations seconds_of input now events).0 in
        (s.elapsed_seconds ≡ total_seconds any_state s.segments)
        × (s.budget_clock_seconds ≡ total_seconds is_running s.segments)
        × (s.waiting_seconds ≡ total_seconds is_paused s.segments)
  unfolding summarize summary_of
  summarize-figures input now [] = (refl, refl, refl)
  summarize-figures input now (e ∷ rest) =
      figures_by_segments locations input now (e ∷ rest) none (e ∷ rest) no_time (refl, refl, refl)

  -- The elapsed time is the time of all segments of the summary, the budget clock that of the
  -- running ones, and the waiting time that of the paused ones.
  pub compute-figures :
      (clock : Time) (input : Input)
      → let s = (compute locations seconds_of clock input).0 in
        (s.elapsed_seconds ≡ total_seconds any_state s.segments)
        × (s.budget_clock_seconds ≡ total_seconds is_running s.segments)
        × (s.waiting_seconds ≡ total_seconds is_paused s.segments)
  unfolding compute
  compute-figures clock input =
      summarize-figures input (if input.now == 0 then clock else input.now)
        (sort_stable event_less input.events)

-- The loop over events of which the last one stopped the card is the same at any two times.
account_all-stopped :
    (locations : String → Option Zone) (input : Input) (n m now now' : Time)
    (sorted : List CardEvent) (previous : Option Time) (e : CardEvent) (rest : List CardEvent)
    (t : Totals)
    → ((last_event e rest).clock_state =? clock_stopped) ≡ true
    → account_all locations (record input { now = n }) now sorted previous (e ∷ rest) t
      ≡ account_all locations (record input { now = m }) now' sorted previous (e ∷ rest) t
unfolding account_all account segment_of segment_end last_event
account_all-stopped locations input n m now now' sorted previous e [] t stopped = rw stopped refl
account_all-stopped locations input n m now now' sorted previous e (f ∷ rest) t stopped =
    account_all-stopped locations input n m now now' sorted (some e.occurred_at) f rest _ stopped

module _ (locations : String → Option Zone) (seconds_of : String → Option ℕ) (input : Input)
    (n m : Time) where
  summarize-stopped :
      (now now' : Time) (events : List CardEvent)
      → ((summarize locations seconds_of (record input { now = n }) now events).0.clock_state
          =? clock_stopped)
        ≡ true
      → summarize locations seconds_of (record input { now = m }) now' events ≡ (
        record (summarize locations seconds_of (record input { now = n }) now events).0 {
          as_of = now';
        },
        (summarize locations seconds_of (record input { now = n }) now events).1,
      )
  unfolding summarize summary_start summary_of
  summarize-stopped now now' [] stopped = refl
  summarize-stopped now now' (e ∷ rest) stopped =
      ap
        (λ t.
          summary_of (record input { now = m })
            (summary_start seconds_of (record input { now = m }) now' (e ∷ rest)) e rest t)
        (sym
          (account_all-stopped locations input n m now now' (e ∷ rest) none e rest no_time stopped))

  -- The card whose last event stopped it has the same summary and the same timeline at any two times,
  -- whatever the events and in whatever order they come: only the time that the summary tells is another.
  pub compute-stopped :
      (clock clock' : Time)
      → ((compute locations seconds_of clock (record input { now = n })).0.clock_state
          =? clock_stopped)
        ≡ true
      → compute locations seconds_of clock' (record input { now = m }) ≡ (
        record (compute locations seconds_of clock (record input { now = n })).0 {
          as_of = if m == 0 then clock' else m;
        },
        (compute locations seconds_of clock (record input { now = n })).1,
      )
  unfolding compute
  compute-stopped clock clock' stopped =
      summarize-stopped (if n == 0 then clock else n) (if m == 0 then clock' else m)
        (sort_stable event_less input.events) stopped
