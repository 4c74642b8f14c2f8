-- ===== src/Cards/Actions.antt =====
-- The actions on a card that place it nowhere: holdCard (internal/api/api.go), and assignPrincipal and
-- unassignPrincipal (internal/api/assignments.go).
use kanban_store.Prelude.{String, Bool, true, false, List, Option, none, some, if◌then◌else◌}
use kanban_store.Timeline.Events.{Time, CardEvent, clock_running, clock_paused}
use kanban_store.Boards.Assignments.{CardAssignment, unassign_principal_from_card}
use kanban_store.Boards.SharedAssignments.{assign_principal_to_card_if_version}
use kanban_store.Cards.World.{
  World, Outside, Call, Answer, fails, answers, holds, unholds, NoteboardWrite, ItemAnswer,
  no_such_item, unreachable, found, plain_event, with_noteboard,
  record_event_and_fire_message_triggers, or_500,
}
use kanban_store.Cards.Clock.{clock_state_carried_forward, record_carried}

-- What principal-store says of a principal
pub data PrincipalAnswer : Type 0 where
  no_principal principal_store_failed : PrincipalAnswer
  principal : (disabled : Bool) → PrincipalAnswer

module _ {F : Type 0} (o : Outside F) where
  abbrev held_event : Call → String → Option String → CardEvent
  held_event call card_id none = plain_event card_id "" "card_unheld" clock_running call.actor
  held_event call card_id (some reason) =
      record (plain_event card_id "" "card_held" clock_paused call.actor) { summary = reason }

  abbrev hold_write : String → Option String → NoteboardWrite F
  hold_write card_id none = unholds card_id
  hold_write card_id (some reason) = holds card_id reason

  abbrev pub after_hold :
      Call → String → Option String → World F → ItemAnswer → World F × Answer Unit
  after_hold call card_id reason w no_such_item = (w, fails 404)
  after_hold call card_id reason w unreachable = (w, fails 502)
  after_hold call card_id reason w (found item) =
      or_500
        (record_event_and_fire_message_triggers call.now call.first_id
          (held_event call card_id reason) w)
        (λ v e. (v, answers 200 tt))

  -- holdCard, which holds for a reason or, without one, lets go; the last argument before the records
  -- is what noteboard answers.
  unfoldable pub hold_card :
      Call → String → Option String → ItemAnswer → World F → World F × Answer Unit
  hold_card call card_id reason answer w =
      after_hold call card_id reason (with_noteboard w (hold_write card_id reason)) answer

  abbrev pub assignment_event : Call → String → String → String → Time → String → CardEvent
  assignment_event call card_id principal_id kind at state =
      record (plain_event card_id "" kind state call.actor) {
        summary = principal_id;
        detail = o.principal_detail principal_id;
        occurred_at = at;
      }

  abbrev pub after_assign :
      Call
      → String
      → String
      → World F
      → Option (List CardAssignment × CardAssignment × Bool)
      → World F × Answer CardAssignment
  after_assign call card_id principal_id w none = (w, fails 412)
  after_assign call card_id principal_id w (some (table, a, false)) =
      (record w { assignments = table }, answers 200 a)
  after_assign call card_id principal_id w (some (table, a, true)) =
      let after : World F = record w { assignments = table } in
      or_500
        (record_carried call.now call.first_id
          (assignment_event call card_id principal_id "assigned" a.created_at)
          (clock_state_carried_forward after card_id) after)
        (λ v e. (v, answers 201 a))

  abbrev pub assign_known :
      (List CardAssignment → String)
      → Call
      → String
      → String
      → String
      → World F
      → PrincipalAnswer
      → World F × Answer CardAssignment
  assign_known version_of call card_id principal_id version w no_principal = (w, fails 400)
  assign_known version_of call card_id principal_id version w principal_store_failed =
      (w, fails 502)
  assign_known version_of call card_id principal_id version w (principal disabled) =
      if disabled
      then (w, fails 400)
      else after_assign call card_id principal_id w (
          assign_principal_to_card_if_version version_of call.now card_id principal_id call.actor
            version w.assignments)

  -- assignPrincipal; the arguments are AssignmentVersion, the test of an id's shape, the call, the card,
  -- the principal, the If-Match header and what principal-store answers.
  unfoldable pub assign_principal :
      (List CardAssignment → String)
      → (String → Bool)
      → Call
      → String
      → String
      → String
      → PrincipalAnswer
      → World F
      → World F × Answer CardAssignment
  assign_principal version_of id_shape call card_id principal_id version answer w =
      if id_shape principal_id
      then assign_known version_of call card_id principal_id version w answer
      else (w, fails 400)

  abbrev pub after_unassign :
      Call → String → String → World F → Option (List CardAssignment) → World F × Answer Unit
  after_unassign call card_id principal_id w none = (w, fails 404)
  after_unassign call card_id principal_id w (some table) =
      let after : World F = record w { assignments = table } in
      or_500
        (record_carried call.now call.first_id
          (assignment_event call card_id principal_id "unassigned" 0)
          (clock_state_carried_forward after card_id) after)
        (λ v e. (v, answers 204 tt))

  -- unassignPrincipal
  unfoldable pub unassign_principal : Call → String → String → World F → World F × Answer Unit
  unassign_principal call card_id principal_id w =
      after_unassign call card_id principal_id w
        (unassign_principal_from_card card_id principal_id w.assignments)
