-- ===== src/Log/Examples.antt =====
-- The log, the ladder and the pages at concrete inputs (internal/db/activity.go).
use kanban_store.Prelude.{
  ℕ, String, true, false, ◌⊎◌, find, List, [], ◌∷◌, ◌++◌, none, some, ltb, length, keep, map, ◌≡◌,
  refl, arith,
}
use kanban_store.Prelude.Int.{pos}
use kanban_store.Prelude.Text.{◌=?◌, contains, trim_space}
use kanban_store.Prelude.Sort.{sort_stable}
use kanban_store.Timeline.Events.{Time, CardEvent}
use kanban_store.Boards.Tables.{Floats, Placement}
use kanban_store.Log.Events.{done, list_card_events, list_card_events_for_board}
use kanban_store.Log.Timelines.{list_card_events_for_board-list_card_events}
use kanban_store.Log.Ladder.{
  Rung, has_seen, check_rung, check_rungs, validate_ladder, higher, get_priority_ladder, placed_on,
  set_priority_ladder,
}
use kanban_store.Log.LadderRoundTrip.{set_priority_ladder-get}
use kanban_store.Log.Successors.{IsLine, record_all, record_all-IsLine}
use kanban_store.Log.Pages.{
  CardFilter, FilterTables, passes_filter, count_column_cards_matching,
  list_placements_by_column_matching,
}
use kanban_store.Log.AllPages.{read_pages, read_pages-whole}

abbrev event_of : String → String → Time → String → CardEvent
event_of id card_id at replaced = record {
  id = id;
  card_id = card_id;
  board_id = "b";
  kind = "note_added";
  clock_state = "running";
  actor = "ann";
  summary = "";
  from_column_id = "";
  to_column_id = "";
  note_id = "";
  supersedes_event_id = replaced;
  detail = "";
  occurred_at = at;
  recorded_at = at;
}

abbrev two_cards : List CardEvent
two_cards = event_of "e2" "k" 20 "" ∷ event_of "e3" "m" 15 "" ∷ event_of "e1" "k" 10 "" ∷ []

abbrev placed_on_b : String → Placement ℕ
placed_on_b card = record {
  card_id = card;
  board_id = "b";
  column_id = "todo";
  position = 0;
  created_at = 1;
  updated_at = 1;
}

list_card_events_for_board-list_card_events_example :
    list_card_events_for_board two_cards (placed_on_b "k" ∷ placed_on_b "m" ∷ []) "b" "k"
    ≡ list_card_events two_cards "k" "b"
unfolding contains keep
list_card_events_for_board-list_card_events_example =
    list_card_events_for_board-list_card_events two_cards (placed_on_b "k" ∷ placed_on_b "m" ∷ [])
      "b" "k" refl

-- Two corrections of the event e1
abbrev corrections : List (Time × String × CardEvent)
corrections =
    (1, "e1", event_of "" "k" 1 "")
    ∷ (2, "e2", event_of "" "k" 1 "e1")
    ∷ (3, "e3", event_of "" "k" 1 "e1")
    ∷ []

record_all-IsLine_example :
    IsLine (record_all corrections [])
    × ((added : List CardEvent) × (record_all corrections [] ≡ [] ++ added))
record_all-IsLine_example =
    record_all-IsLine corrections [] (record { ids = tt; successors = tt; valid = tt })

abbrev rung : ℕ → String → Rung
rung n label = record {
  board_id = "";
  priority_value = pos n;
  label = label;
  budget_seconds = some (pos 60);
  default_auto_hold_at_usd = none;
}

abbrev low_and_high : List Rung
low_and_high = rung 1 "low" ∷ rung 9 "high" ∷ []

set_priority_ladder-get_example :
    (after : List Rung) × (set_priority_ladder ("b" ∷ []) "b" low_and_high []
      ≡ done after (sort_stable higher (map (placed_on "b") low_and_high)))
    × (get_priority_ladder after "b" ≡ sort_stable higher (map (placed_on "b") low_and_high))
    × ((other : String)
        → (("b" =? other) ≡ true)
          ⊎ (get_priority_ladder after other ≡ get_priority_ladder [] other))
unfolding validate_ladder check_rungs check_rung has_seen contains trim_space
set_priority_ladder-get_example =
    set_priority_ladder-get (λ amount. true) ("b" ∷ []) "b" low_and_high [] refl refl

abbrev whole_numbers : Floats ℕ
whole_numbers = record { zero = 0; next = λ n. n; above = λ a b. ltb b a }

abbrev place : String → ℕ → Placement ℕ
place card_id position = record {
  card_id = card_id;
  board_id = "b";
  column_id = "c";
  position = position;
  created_at = 1;
  updated_at = 1;
}

abbrev three_places : List (Placement ℕ)
three_places = place "k" 3 ∷ place "m" 1 ∷ place "n" 2 ∷ []

abbrev nothing_asked : CardFilter
nothing_asked = record {
  card_id = "";
  assignee_principal_id = "";
  unassigned = true;
  tickets_only = false;
  requester_principal_id = "";
  channel = "";
}

abbrev nobody : FilterTables
nobody = record { assignments = []; tickets = [] }

read_pages-whole_example :
    (read_pages whole_numbers nobody nothing_asked "c" three_places 2 2 0
      ≡ list_placements_by_column_matching whole_numbers nobody nothing_asked "c" 0 0 three_places)
    × (count_column_cards_matching whole_numbers nobody nothing_asked "c" three_places
        ≡ length (
            list_placements_by_column_matching whole_numbers nobody nothing_asked "c" 0 0
              three_places))
unfolding count_column_cards_matching keep passes_filter find
read_pages-whole_example =
    read_pages-whole whole_numbers nobody nothing_asked "c" three_places 1 2 (omega arith)
