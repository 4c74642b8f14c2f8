-- ===== src/Cards/Examples.antt =====
-- Two boards and requests on a card of theirs (internal/api). Whole numbers stand in for positions, and
-- texts are not encoded.
use kanban_store.Prelude.{
  ℕ, suc, String, true, false, List, [], ◌∷◌, none, some, ltb, find, keep, ◌≡◌, refl,
}
use kanban_store.Prelude.Int.{pos}
use kanban_store.Prelude.Text.{contains, text_lt}
use kanban_store.Timeline.Events.{CardEvent, valid_clock_state}
use kanban_store.Boards.Tables.{Column, Placement, Tables, get_column}
use kanban_store.Boards.Placing.{MoveCardRequest, count_column_cards}
use kanban_store.Boards.Consistency.{IsConsistent}
use kanban_store.Prelude.Sort.{sort_stable, insert_sorted}
use kanban_store.Log.Events.{
  list_card_events, logged_before, record_card_event, insert_event, stored_event, violates_unique,
}
use kanban_store.Boards.SharedAssignments.{
  assign_principal_to_card_if_version, list_card_assignments, assigned_before,
}
use kanban_store.Boards.Assignments.{assign_principal_to_card, get_card_assignment}
use kanban_store.Log.Successors.{IsLine}
use kanban_store.Arrivals.Pool.{MembersAnswer, by_board_default}
use kanban_store.SpendCeilings.Defaults.{missing}
use kanban_store.Cards.World.{
  CreateCardRequest, World, Outside, Call, found, listed, or_500,
  record_event_and_fire_message_triggers, logged,
}
use kanban_store.Cards.Clock.{
  last_state, record_carried, state_of_only_column, last_recorded_clock_state,
  clock_state_carried_forward,
}
use kanban_store.Cards.Placements.{move_card_request}
use kanban_store.Cards.Actions.{principal, assign_principal, unassign_principal}
use kanban_store.Cards.Arriving.{apply_assignee_on_arrival}
use kanban_store.Cards.Limits.{IsWithinWip}
use kanban_store.Cards.Carried.{SameClock, left_by}
use kanban_store.Cards.Requests.{
  Request, moves, attaches, detaches, creates_card, holds_card, assigns, unassigns, serve_requests,
}
use kanban_store.Cards.Served.{IsServed, serve_requests-IsServed}
use kanban_store.Cards.SteadyClocks.{assigning-same_clocks}
use kanban_store.Cards.Moved.{MoveOutcome, move_card_request-MoveOutcome}

abbrev column_with : String → String → String → Column ℕ
column_with id board state = record {
  id = id;
  board_id = board;
  name = id;
  position = 0;
  color = "";
  wip_limit = some (pos 2);
  auto_status = some "active";
  budget_clock_state = some state;
  lifecycle_state = none;
  work_state = none;
  created_at = 1;
  updated_at = 1;
}

abbrev placed_in : String → String → Placement ℕ
placed_in board column = record {
  card_id = "k";
  board_id = board;
  column_id = column;
  position = 0;
  created_at = 2;
  updated_at = 2;
}

-- The card is done on the board a and worked on on the board b.
abbrev two_boards : Tables ℕ
two_boards = record {
  boards = "a" ∷ "b" ∷ [];
  columns =
      column_with "a_todo" "a" "running"
      ∷ column_with "a_done" "a" "stopped"
      ∷ column_with "b_todo" "b" "running"
      ∷ [];
  placements = placed_in "a" "a_done" ∷ placed_in "b" "b_todo" ∷ [];
}

abbrev event_on : String → String → String → ℕ → CardEvent
event_on id board state at = record {
  id = id;
  card_id = "k";
  board_id = board;
  kind = "card_attached";
  clock_state = state;
  actor = "ann";
  summary = "";
  from_column_id = "";
  to_column_id = "";
  note_id = "";
  supersedes_event_id = "";
  detail = "";
  occurred_at = at;
  recorded_at = at;
}

abbrev world : World ℕ
world = record {
  tables = two_boards;
  board_rows = [];
  rule_rows = [];
  rungs = [];
  assignments = [];
  log = event_on "e1" "a" "stopped" 1 ∷ event_on "e2" "b" "running" 2 ∷ [];
  fired = [];
  noteboard = [];
}

abbrev answering : Outside ℕ
answering = record {
  floats = record { zero = 0; next = λ n. suc n; above = λ a b. ltb b a };
  get_item = λ card. found (record {
    tags = listed [];
    money = record { priority = missing; auto_hold_at_usd = missing };
  });
  create_item = λ req. some req.title;
  patch_item = λ n. true;
  principals = record {
    available_members = λ pool. MembersAnswer.members [];
    refusal_of = λ p. none;
  };
  json = record { marshal = λ tags. ""; unmarshal = λ text. some [] };
  below = λ a b. false;
  int_of = λ text. pos 0;
  arrival_detail = λ a. "";
  principal_detail = λ p. p;
}

abbrev at_time : ℕ → String → String → Call
at_time now first second = record { now = now; actor = "ann"; first_id = first; second_id = second }

abbrev back_to_todo : MoveCardRequest ℕ
back_to_todo = record { board_id = "a"; column_id = "a_todo"; position = 4 }

abbrev new_card : CreateCardRequest ℕ
new_card = record {
  title = "m";
  body = none;
  tags = [];
  priority = none;
  list_id = none;
  due_at = none;
  column_id = "b_todo";
  position = none;
  parent_id = none;
  hold = false;
  hold_reason = "";
  auto_hold_at_usd = none;
}

abbrev version_of_none : {A : Type 0} → A → String
version_of_none rows = ""

abbrev requests : List (Request ℕ)
requests =
    moves answering (at_time 3 "e3" "") "k" back_to_todo
    ∷ attaches answering (at_time 4 "e4" "e5") "a" "m"
        (record { column_id = "a_done"; position = none })
    ∷ creates_card answering (at_time 5 "e6" "e7") "b" new_card
    ∷ assigns answering version_of_none (λ id. true) (at_time 6 "e8" "") "k" "bob" ""
        (principal false)
    ∷ holds_card answering (at_time 7 "e9" "") "k" (some "later") (answering.get_item "k")
    ∷ unassigns answering (at_time 8 "e10" "") "k" "bob"
    ∷ detaches answering (at_time 9 "e11" "") "a" "k"
    ∷ []

two_boards-IsConsistent : IsConsistent two_boards
unfolding find contains
two_boards-IsConsistent = record {
  board_ids = ((refl, tt), (tt, tt));
  column_ids = ((refl, (refl, tt)), ((refl, tt), (tt, tt)));
  placement_keys = ((refl, tt), (tt, tt));
  column_boards = (refl, (refl, (refl, tt)));
  placement_columns = (
    (column_with "a_done" "a" "stopped", refl, refl),
    ((column_with "b_todo" "b" "running", refl, refl), tt),
  );
}

two_boards-IsWithinWip : IsWithinWip two_boards
unfolding count_column_cards keep
two_boards-IsWithinWip = (refl, (refl, (refl, tt)))

world-IsLine : IsLine world.log
unfolding valid_clock_state
world-IsLine = record {
  ids = ((refl, tt), (tt, tt));
  successors = ((refl, tt), (tt, tt));
  valid = (refl, (refl, tt));
}

serve_requests-IsServed_example : IsServed world (serve_requests requests world)
serve_requests-IsServed_example =
    serve_requests-IsServed requests world two_boards-IsConsistent two_boards-IsWithinWip
      world-IsLine

move_card_request-MoveOutcome_example :
    MoveOutcome answering
      (at_time 3 "e3" "")
      "k"
      back_to_todo
      world
      (move_card_request answering (at_time 3 "e3" "") "k" back_to_todo world)
move_card_request-MoveOutcome_example =
    move_card_request-MoveOutcome answering (at_time 3 "e3" "") "k" back_to_todo world

assigning-same_clocks_example :
    SameClock world
      (left_by (
        assign_principal answering version_of_none
          (λ id. true)
          (at_time 6 "e8" "e9")
          "k"
          "bob"
          ""
          (principal false)
          world))
      "k"
      "a"
    × SameClock world
        (left_by (unassign_principal answering (at_time 6 "e8" "e9") "k" "bob" world))
        "k"
        "a"
    × SameClock world
        (left_by (
          apply_assignee_on_arrival answering
            (at_time 6 "e8" "e9")
            "k"
            "a"
            (some (by_board_default "bob"))
            world))
        "k"
        "a"
assigning-same_clocks_example =
    assigning-same_clocks answering (at_time 6 "e8" "e9") "k" "bob" world version_of_none
      (λ id. true) "" (principal false) "a" (some (by_board_default "bob")) "k" "a"

-- On the board a, where the card is done, the assignment starts the clock.
assigned_when_done :
    (last_recorded_clock_state world.log "k" "a" ≡ some "stopped")
    × (last_recorded_clock_state
          (left_by (
            assign_principal answering version_of_none
              (λ id. true)
              (at_time 6 "e8" "e9")
              "k"
              "bob"
              ""
              (principal false)
              world)).log
          "k"
          "a"
        ≡ some "running")
unfolding find keep contains sort_stable insert_sorted text_lt valid_clock_state
    last_recorded_clock_state last_state list_card_events logged_before assign_principal
    assign_principal_to_card_if_version list_card_assignments assigned_before
    assign_principal_to_card get_card_assignment or_500 record_carried clock_state_carried_forward
    record_event_and_fire_message_triggers logged record_card_event insert_event stored_event
    violates_unique get_column state_of_only_column
assigned_when_done = (refl, refl)
