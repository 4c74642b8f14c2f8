-- ===== src/Cards/Arriving.antt =====
-- Who is put on a card that arrives on a board (internal/api/board_settings.go): assigneeOnArrival on
-- the tables of boards, tag rules and assignments, and applyAssigneeOnArrival, which writes it.
use kanban_store.Prelude.{
  ℕ, String, Bool, true, false, List, [], ◌∷◌, Option, none, some, if◌then◌else◌, find, map,
}
use kanban_store.Prelude.Text.{◌=?◌, ◌<>◌}
use kanban_store.Timeline.Events.{CardEvent}
use kanban_store.TagRules.Rules.{Board, default_principal_id, effective_default}
use kanban_store.TagRules.Stored.{RulesAnswer, rules_found, rules_refused, get_board_tag_rules}
use kanban_store.Boards.Settings.{BoardRow, PoolSetting}
use kanban_store.Boards.Assignments.{CardAssignment, assign_principal_to_card}
use kanban_store.Boards.SharedAssignments
use kanban_store.Boards.SharedAssignments.{list_card_assignments, list_assignments_on_board}
use kanban_store.Arrivals.Pool.{
  AssignmentStrategy, least_open_cards, round_robin, other_strategy, AssignmentOnBoard,
  AssignmentPool, ArrivalAssignment, by_tag_rule, by_board_default, by_pool, skipped,
  not_assignable, pool_not_found, pool_unreachable, unknown_strategy, Arrival, arrives,
  refused_arrival, crashed, assignee_on_arrival,
}
use kanban_store.Cards.World.{World, Outside, Call, plain_event}
use kanban_store.Cards.Clock.{clock_state_carried_forward, record_carried}

-- The defaults of a board's row
abbrev pub board_defaults : BoardRow → Board
board_defaults b = record {
  id = b.id;
  defaults = record {
    principal_id = b.default_principal_id;
    agent_id = b.default_agent_id;
    instance_id = b.default_instance_id;
    bundle_id = b.default_bundle_id;
  };
}

unfoldable pub strategy_of : String → AssignmentStrategy
strategy_of text =
    if text =? "least_open_cards"
    then least_open_cards
    else if text =? "round_robin"
    then round_robin
    else other_strategy text

abbrev pool_of_setting : Option PoolSetting → Option AssignmentPool
pool_of_setting none = none
pool_of_setting (some pool) =
    some (record { principal_id = pool.principal_id; strategy = strategy_of pool.strategy })

abbrev weighed : SharedAssignments.AssignmentOnBoard → AssignmentOnBoard
weighed a = record {
  principal_id = a.assignment.principal_id;
  created_at = a.assignment.created_at;
  column_stops_the_clock = a.column_stops_the_clock;
}

-- What is done about the card's assignee, or the status that refuses the request
pub data Arranged : Type 0 where
  refused_with : ℕ → Arranged
  arranged : Option ArrivalAssignment → Arranged

-- writeSettingsCheckFailure, of what assigneeOnArrival answers; a crash of the handler is a 500 too.
abbrev pub arranged_of : Arrival → Arranged
arranged_of (arrives a) = arranged a
arranged_of (refused_arrival (not_assignable status)) = refused_with status
arranged_of (refused_arrival pool_not_found) = refused_with 400
arranged_of (refused_arrival pool_unreachable) = refused_with 502
arranged_of (refused_arrival unknown_strategy) = refused_with 500
arranged_of crashed = refused_with 500

module _ {F : Type 0} (o : Outside F) where
  abbrev arrival_by : World F → BoardRow → List String → RulesAnswer → Arranged
  arrival_by w b card_tags (rules_refused e) = refused_with 500
  arrival_by w b card_tags (rules_found rules) = arranged_of (
      assignee_on_arrival o.principals
        (map weighed
          (list_assignments_on_board w.tables.columns w.tables.placements b.id w.assignments))
        (effective_default (board_defaults b) rules card_tags default_principal_id)
        (pool_of_setting b.assignment_pool))

  abbrev arrival_on : World F → List String → Option BoardRow → Arranged
  arrival_on w card_tags none = refused_with 500
  arrival_on w card_tags (some b) =
      arrival_by w b card_tags
        (get_board_tag_rules o.json (map (λ r. r.id) w.board_rows) w.rule_rows b.id)

  -- assigneeOnArrival, with effectiveDefaultsFor
  unfoldable pub arrange_assignee : World F → String → List String → Arranged
  arrange_assignee w board_id card_tags =
      arrival_on w card_tags (find (λ b. b.id =? board_id) w.board_rows)

  -- The principal that an arrival puts on the card
  abbrev pub principal_of : ArrivalAssignment → String
  principal_of (by_tag_rule p) = p
  principal_of (by_board_default p) = p
  principal_of (by_pool p pool) = p
  principal_of (skipped pool) = ""

  -- The log's part in an arrival that puts a principal on the card
  abbrev pub assigned_event :
      ArrivalAssignment → String → CardAssignment → String → String → CardEvent
  assigned_event arrival card_id a actor state =
      record (plain_event card_id "" "assigned" state actor) {
        summary = principal_of arrival;
        detail = o.arrival_detail arrival;
        occurred_at = a.created_at;
      }

  abbrev pub skipped_event :
      ArrivalAssignment → String → String → String → String → String → CardEvent
  skipped_event arrival pool card_id board_id actor state =
      record (plain_event card_id board_id "assignment_skipped" state actor) {
        summary = "nobody in assignment pool " <> (pool <> " is available");
        detail = o.arrival_detail arrival;
      }

  abbrev pub answer_with :
      List CardAssignment → World F × Option CardEvent → World F × Option (List CardAssignment)
  answer_with rows (w, none) = (w, none)
  answer_with rows (w, some e) = (w, some rows)

  abbrev pub assigned_on_arrival :
      Call
      → String
      → ArrivalAssignment
      → World F
      → List CardAssignment × CardAssignment × Bool
      → World F × Option (List CardAssignment)
  assigned_on_arrival call card_id arrival w (table, a, false) =
      (record w { assignments = table }, some [])
  assigned_on_arrival call card_id arrival w (table, a, true) =
      let after : World F = record w { assignments = table } in
      answer_with (a ∷ []) (
        record_carried call.now call.second_id (assigned_event arrival card_id a call.actor)
          (clock_state_carried_forward after card_id) after)

  abbrev pub apply_arrival :
      Call
      → String
      → String
      → Option ArrivalAssignment
      → List CardAssignment
      → World F
      → World F × Option (List CardAssignment)
  apply_arrival call card_id board_id none existing w = (w, some existing)
  apply_arrival call card_id board_id (some arrival) (a ∷ existing) w = (w, some (a ∷ existing))
  apply_arrival call card_id board_id (some (skipped pool)) [] w = answer_with [] (
      record_carried call.now call.second_id
        (skipped_event (skipped pool) pool card_id board_id call.actor)
        (clock_state_carried_forward w card_id) w)
  apply_arrival call card_id board_id (some arrival) [] w =
      assigned_on_arrival call card_id arrival w
        (assign_principal_to_card call.now card_id (principal_of arrival) call.actor w.assignments)

  -- applyAssigneeOnArrival; `none` is an error.
  unfoldable pub apply_assignee_on_arrival :
      Call
      → String
      → String
      → Option ArrivalAssignment
      → World F
      → World F × Option (List CardAssignment)
  apply_assignee_on_arrival call card_id board_id arrival w =
      apply_arrival call card_id board_id arrival (list_card_assignments card_id w.assignments) w
