-- ===== src/Log/Events.antt =====
-- The log of card events (internal/db/activity.go). The id that `uuid` makes and the time are arguments.
use kanban_store.Prelude.{
  String, Bool, ◌&&◌, ◌||◌, not, List, [], ◌∷◌, ◌++◌, Option, ltb, ◌==◌, if◌then◌else◌, is_some,
  find, keep, map,
}
use kanban_store.Prelude.Text.{◌=?◌, contains, text_lt}
use kanban_store.Prelude.Sort.{sort_stable}
use kanban_store.Boards.Tables.{Placement}
use kanban_store.Timeline.Events.{Time, CardEvent, valid_clock_state}

pub data LogError : Type 0 where
  card_id_required kind_required invalid_clock_state already_superseded not_found failed : LogError

pub data LogReply (T A : Type 0) : Type 0 where
  refused : LogError → LogReply T A
  done : T → A → LogReply T A

-- The row that is stored
unfoldable pub stored_event : Time → String → CardEvent → CardEvent
stored_event now new_id e = record e {
  id = new_id;
  recorded_at = now;
  occurred_at = if e.occurred_at == 0 then now else e.occurred_at;
}

-- The unique index on the events that are replaced, for a row that replaces one
abbrev pub succeeds : String → CardEvent → Bool
succeeds id e = not (id =? "") && e.supersedes_event_id =? id

-- The insertion fails on an id that is taken, or on an event that has a successor.
unfoldable pub violates_unique : CardEvent → List CardEvent → Bool
violates_unique e log =
    is_some (find (λ f. f.id =? e.id) log) || is_some (find (succeeds e.supersedes_event_id) log)

unfoldable pub insert_event : CardEvent → List CardEvent → LogReply (List CardEvent) CardEvent
insert_event e log =
    if violates_unique e log
    then refused (if not (e.supersedes_event_id =? "") then already_superseded else failed)
    else done (log ++ (e ∷ [])) e

-- RecordCardEvent
unfoldable pub record_card_event :
    Time → String → CardEvent → List CardEvent → LogReply (List CardEvent) CardEvent
record_card_event now new_id e log =
    if e.card_id =? ""
    then refused card_id_required
    else if e.kind =? ""
    then refused kind_required
    else if valid_clock_state e.clock_state
    then insert_event (stored_event now new_id e) log
    else refused invalid_clock_state

-- GetCardEvent
unfoldable pub get_card_event : List CardEvent → String → Option CardEvent
get_card_event log event_id = find (λ e. e.id =? event_id) log

-- SupersederOfCardEvent
unfoldable pub superseder_of_card_event : List CardEvent → String → Option CardEvent
superseder_of_card_event log event_id = find (λ e. e.supersedes_event_id =? event_id) log

-- `ORDER BY occurred_at ASC, recorded_at ASC, id ASC`
unfoldable pub logged_before : CardEvent → CardEvent → Bool
logged_before a b =
    ltb a.occurred_at b.occurred_at
    || (a.occurred_at == b.occurred_at
        && (ltb a.recorded_at b.recorded_at
            || (a.recorded_at == b.recorded_at && text_lt a.id b.id)))

-- An event of the board or of the card as a whole
abbrev pub concerns_board : String → CardEvent → Bool
concerns_board board_id e = e.board_id =? board_id || e.board_id =? ""

abbrev pub of_card : String → CardEvent → Bool
of_card card_id e = e.card_id =? card_id

abbrev pub on_timeline : String → CardEvent → Bool
on_timeline board_id e = board_id =? "" || concerns_board board_id e

-- ListCardEvents
unfoldable pub list_card_events : List CardEvent → String → String → List CardEvent
list_card_events log card_id board_id =
    sort_stable logged_before (keep (λ e. of_card card_id e && on_timeline board_id e) log)

-- `out[e.CardID] = append(out[e.CardID], e)`
abbrev pub add_event : (String → List CardEvent) → CardEvent → String → List CardEvent
add_event out e card_id = if of_card card_id e then out card_id ++ (e ∷ []) else out card_id

unfoldable pub group_events : List CardEvent → (String → List CardEvent) → String → List CardEvent
group_events [] out = out
group_events (e ∷ rows) out = group_events rows (add_event out e)

-- `SELECT card_id FROM placements WHERE board_id`
abbrev pub cards_on : {F : Type 0} → List (Placement F) → String → List String
cards_on placements board_id = map (λ p. p.card_id) (keep (λ p. p.board_id =? board_id) placements)

-- ListCardEventsForBoard
unfoldable pub list_card_events_for_board :
    {F : Type 0} → List CardEvent → List (Placement F) → String → String → List CardEvent
list_card_events_for_board log placements board_id =
    group_events
      (sort_stable logged_before (
        keep (λ e. concerns_board board_id e && contains (cards_on placements board_id) e.card_id)
          log))
      (λ card_id. [])

-- ListCardEventsForCards
unfoldable pub list_card_events_for_cards :
    List CardEvent → List String → String → String → List CardEvent
list_card_events_for_cards log [] board_id = λ card_id. []
list_card_events_for_cards log (first ∷ card_ids) board_id =
    group_events
      (sort_stable logged_before
        (keep (λ e. contains (first ∷ card_ids) e.card_id && on_timeline board_id e) log))
      (λ card_id. [])
