-- ===== src/Cards/SteadyClocks.antt =====
-- What putting principals on a card and taking them off does to its clock (internal/api/assignments.go,
-- internal/api/board_settings.go): the log's last state on a board may become the one that the card has
-- across all boards.
use kanban_store.Prelude.{
  String, Bool, true, false, List, [], ◌∷◌, Option, none, some, ◌≡◌, refl, Bool-cases, inl, inr,
}
use kanban_store.Timeline.Events.{Time, CardEvent}
use kanban_store.Boards.Assignments.{CardAssignment, unassign_principal_from_card}
use kanban_store.Boards.SharedAssignments.{
  list_card_assignments, assign_principal_to_card_if_version,
}
use kanban_store.Arrivals.Pool.{ArrivalAssignment, by_tag_rule, by_board_default, by_pool, skipped}
use kanban_store.Cards.World.{World, Outside, Call, Answer, or_500}
use kanban_store.Cards.Clock.{clock_state_carried_forward, record_carried}
use kanban_store.Cards.Arriving.{
  answer_with, assigned_event, skipped_event, assigned_on_arrival, apply_arrival,
  apply_assignee_on_arrival,
}
use kanban_store.Cards.Actions.{
  PrincipalAnswer, no_principal, principal_store_failed, principal, assignment_event, after_assign,
  assign_known, after_unassign, assign_principal, unassign_principal,
}
use kanban_store.Cards.Carried.{SameClock, SameClocks, left_by, record_event-SameClocks}

module _ {F : Type 0} where
  or_500-SameClocks :
      {A B : Type 0} (w : World F) (r : World F × Option A) (b : Answer B)
      → SameClocks w (left_by r)
      → SameClocks w (left_by (or_500 r (λ v a. (v, b))))
  unfolding or_500
  or_500-SameClocks w (v, none) b h = h
  or_500-SameClocks w (v, some a) b h = h

  module _ (now : Time) (new_id : String) (w : World F) (card : String) (event : String → CardEvent)
      (own : (state : String) → (event state).card_id ≡ card)
      (says : (state : String) → (event state).clock_state ≡ state) where
    at_state :
        (state : String)
        → clock_state_carried_forward w card ≡ some state
        → clock_state_carried_forward w (event state).card_id ≡ some (event state).clock_state
    at_state state e = rw (own state, says state) e

    pub record_carried-SameClocks :
        (found : Option String)
        → clock_state_carried_forward w card ≡ found
        → SameClocks w (left_by (record_carried now new_id event found w))
    unfolding record_carried
    record_carried-SameClocks none e = λ card_id board_id. (refl, inl refl)
    record_carried-SameClocks (some state) e =
        record_event-SameClocks now new_id (event state) w (at_state state e)

  module _ (o : Outside F) (call : Call) (card principal_id : String) (w : World F) where
    after_assign-SameClocks :
        (result : Option (List CardAssignment × CardAssignment × Bool))
        → SameClocks w (left_by (after_assign o call card principal_id w result))
    unfolding clock_state_carried_forward
    after_assign-SameClocks none = λ card_id board_id. (refl, inl refl)
    after_assign-SameClocks (some (table, a, false)) = λ card_id board_id. (refl, inl refl)
    after_assign-SameClocks (some (table, a, true)) =
        let after : World F = record w { assignments = table } in
        or_500-SameClocks w _ _ (
          record_carried-SameClocks call.now call.first_id after card
            (assignment_event o call card principal_id "assigned" a.created_at) (λ state. refl)
            (λ state. refl) _ refl)

    assign_known-SameClocks :
        (version_of : List CardAssignment → String) (version : String) (answer : PrincipalAnswer)
        → SameClocks w (left_by (assign_known o version_of call card principal_id version w answer))
    assign_known-SameClocks version_of version no_principal = λ card_id board_id. (refl, inl refl)
    assign_known-SameClocks version_of version principal_store_failed =
        λ card_id board_id. (refl, inl refl)
    assign_known-SameClocks version_of version (principal true) =
        λ card_id board_id. (refl, inl refl)
    assign_known-SameClocks version_of version (principal false) = after_assign-SameClocks (
        assign_principal_to_card_if_version version_of call.now card principal_id call.actor version
          w.assignments)

    assign_principal-SameClocks :
        (version_of : List CardAssignment → String) (id_shape : String → Bool) (version : String)
        (answer : PrincipalAnswer)
        → SameClocks w (
            left_by
              (assign_principal o version_of id_shape call card principal_id version answer w))
    unfolding assign_principal
    assign_principal-SameClocks version_of id_shape version answer =
        elim (Bool-cases (id_shape principal_id)) [
          | inl shaped ↦ rw shaped (assign_known-SameClocks version_of version answer)
          | inr other ↦ rw other (λ card_id board_id. (refl, inl refl))
        ]

    after_unassign-SameClocks :
        (result : Option (List CardAssignment))
        → SameClocks w (left_by (after_unassign o call card principal_id w result))
    unfolding clock_state_carried_forward
    after_unassign-SameClocks none = λ card_id board_id. (refl, inl refl)
    after_unassign-SameClocks (some table) =
        let after : World F = record w { assignments = table } in
        or_500-SameClocks w _ _ (
          record_carried-SameClocks call.now call.first_id after card
            (assignment_event o call card principal_id "unassigned" 0) (λ state. refl)
            (λ state. refl) _ refl)

    unassign_principal-SameClocks :
        SameClocks w (left_by (unassign_principal o call card principal_id w))
    unfolding unassign_principal
    unassign_principal-SameClocks =
        after_unassign-SameClocks (unassign_principal_from_card card principal_id w.assignments)

    answer_with-SameClocks :
        (rows : List CardAssignment) (r : World F × Option CardEvent)
        → SameClocks w (left_by r)
        → SameClocks w (left_by (answer_with o rows r))
    answer_with-SameClocks rows (v, none) h = h
    answer_with-SameClocks rows (v, some e) h = h

    assigned_on_arrival-SameClocks :
        (arrival : ArrivalAssignment) (result : List CardAssignment × CardAssignment × Bool)
        → SameClocks w (left_by (assigned_on_arrival o call card arrival w result))
    unfolding clock_state_carried_forward
    assigned_on_arrival-SameClocks arrival (table, a, false) = λ card_id board_id. (refl, inl refl)
    assigned_on_arrival-SameClocks arrival (table, a, true) =
        let after : World F = record w { assignments = table } in
        answer_with-SameClocks (a ∷ []) _ (
          record_carried-SameClocks call.now call.second_id after card
            (assigned_event o arrival card a call.actor) (λ state. refl) (λ state. refl) _ refl)

    apply_arrival-SameClocks :
        (board_id : String) (arrival : Option ArrivalAssignment) (existing : List CardAssignment)
        → SameClocks w (left_by (apply_arrival o call card board_id arrival existing w))
    apply_arrival-SameClocks board_id none existing = λ card_id board_id. (refl, inl refl)
    apply_arrival-SameClocks board_id (some (skipped pool)) (a ∷ existing) =
        λ card_id board_id. (refl, inl refl)
    apply_arrival-SameClocks board_id (some (by_tag_rule p)) (a ∷ existing) =
        λ card_id board_id. (refl, inl refl)
    apply_arrival-SameClocks board_id (some (by_board_default p)) (a ∷ existing) =
        λ card_id board_id. (refl, inl refl)
    apply_arrival-SameClocks board_id (some (by_pool p pool)) (a ∷ existing) =
        λ card_id board_id. (refl, inl refl)
    apply_arrival-SameClocks board_id (some (skipped pool)) [] = answer_with-SameClocks [] _ (
        record_carried-SameClocks call.now call.second_id w card
          (skipped_event o (skipped pool) pool card board_id call.actor) (λ state. refl)
          (λ state. refl) _ refl)
    apply_arrival-SameClocks board_id (some (by_tag_rule p)) [] =
        assigned_on_arrival-SameClocks (by_tag_rule p) _
    apply_arrival-SameClocks board_id (some (by_board_default p)) [] =
        assigned_on_arrival-SameClocks (by_board_default p) _
    apply_arrival-SameClocks board_id (some (by_pool p pool)) [] =
        assigned_on_arrival-SameClocks (by_pool p pool) _

    apply_assignee_on_arrival-SameClocks :
        (board_id : String) (arrival : Option ArrivalAssignment)
        → SameClocks w (left_by (apply_assignee_on_arrival o call card board_id arrival w))
    unfolding apply_assignee_on_arrival
    apply_assignee_on_arrival-SameClocks board_id arrival =
        apply_arrival-SameClocks board_id arrival (list_card_assignments card w.assignments)

    -- Whether a principal is assigned to a card, taken off it, or put on it as it arrives, and whatever
    -- the request answers and whenever it comes: the clock state that the next assignment or removal on
    -- any card would carry forward is afterwards what it was before, and the state in which a board's
    -- timeline of the card ends is what it was before or that one.
    pub assigning-same_clocks :
        (version_of : List CardAssignment → String) (id_shape : String → Bool) (version : String)
        (answer : PrincipalAnswer) (board_id : String) (arrival : Option ArrivalAssignment)
        (other board : String)
        → SameClock w
            (left_by
              (assign_principal o version_of id_shape call card principal_id version answer w))
            other
            board
          × SameClock w (left_by (unassign_principal o call card principal_id w)) other board
          × SameClock w
              (left_by (apply_assignee_on_arrival o call card board_id arrival w))
              other
              board
    assigning-same_clocks version_of id_shape version answer board_id arrival other board = (
      assign_principal-SameClocks version_of id_shape version answer other board,
      unassign_principal-SameClocks other board,
      apply_assignee_on_arrival-SameClocks board_id arrival other board,
    )
