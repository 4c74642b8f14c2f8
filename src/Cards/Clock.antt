-- ===== src/Cards/Clock.antt =====
-- What an action on a card says of its clock (internal/api/activity.go).
use kanban_store.Prelude.{String, List, [], ◌∷◌, Option, none, some, if◌then◌else◌, keep}
use kanban_store.Prelude.Text.{◌=?◌}
use kanban_store.Timeline.Events.{Time, CardEvent, ClockState, clock_running}
use kanban_store.Boards.Tables.{Column, Placement, Tables, get_column}
use kanban_store.Log.Events.{list_card_events}
use kanban_store.Cards.World.{World, record_event_and_fire_message_triggers}

unfoldable pub last_state : List CardEvent → Option ClockState
last_state [] = none
last_state (e ∷ events) =
    let rest = last_state events in
    elim rest [ none ↦ some e.clock_state | some state ↦ some state ]

-- lastRecordedClockState
unfoldable pub last_recorded_clock_state : List CardEvent → String → String → Option ClockState
last_recorded_clock_state log card_id board_id = last_state (list_card_events log card_id board_id)

abbrev pub state_or : Option ClockState → ClockState → ClockState
state_or none other = other
state_or (some state) other = state

abbrev pub known : Option String → Option String
known none = none
known (some state) = if state =? "" then none else some state

abbrev pub carried : Option ClockState → Option ClockState → Option ClockState
carried none other = other
carried (some state) other = some state

module _ {F : Type 0} where
  abbrev pub classified : Option (Column F) → Option ClockState
  classified none = none
  classified (some col) = known col.budget_clock_state

  -- clockStateForColumn
  unfoldable pub clock_state_for_column : World F → String → String → String → ClockState
  clock_state_for_column w card_id board_id column_id =
      state_or (classified (get_column w.tables column_id))
        (state_or (last_recorded_clock_state w.log card_id board_id) clock_running)

  abbrev pub state_of_column : Option (Column F) → Option ClockState
  state_of_column none = none
  state_of_column (some col) = some (state_or (known col.budget_clock_state) clock_running)

  -- The classification of the one column that the card is in
  unfoldable pub state_of_only_column : Tables F → List (Placement F) → Option ClockState
  state_of_only_column t [] = some clock_running
  state_of_only_column t (p ∷ []) = state_of_column (get_column t p.column_id)
  state_of_only_column t (p ∷ q ∷ placements) = some clock_running

  -- clockStateCarriedForward; `none` is the error of GetColumn.
  unfoldable pub clock_state_carried_forward : World F → String → Option ClockState
  clock_state_carried_forward w card_id =
      carried (last_recorded_clock_state w.log card_id "")
        (state_of_only_column w.tables (keep (λ p. p.card_id =? card_id) w.tables.placements))

  -- An event that carries the card's clock state on, if that can be read
  unfoldable pub record_carried :
      Time
      → String
      → (ClockState → CardEvent)
      → Option ClockState
      → World F
      → World F × Option CardEvent
  record_carried now new_id event none w = (w, none)
  record_carried now new_id event (some state) w =
      record_event_and_fire_message_triggers now new_id (event state) w
