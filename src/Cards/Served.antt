-- ===== src/Cards/Served.antt =====
-- Every request on cards, and any sequence of them (internal/api).
use kanban_store.Prelude.{
  String, Bool, true, false, ◌||◌, List, [], ◌∷◌, ◌++◌, Option, none, some, ◌≡◌, Bool-cases, inl,
  inr,
}
use kanban_store.Prelude.Text.{◌=?◌}
use kanban_store.Timeline.Events.{CardEvent}
use kanban_store.Boards.Tables.{Column, Placement, Reply, refused, done, tables_after, get_column}
use kanban_store.Boards.Assignments.{CardAssignment}
use kanban_store.Boards.Consistency.{IsConsistent}
use kanban_store.Log.Successors.{IsLine}
use kanban_store.Arrivals.Pool.{ArrivalAssignment}
use kanban_store.Cards.World.{
  CreateCardRequest, creates, World, Outside, Call, ItemAnswer, no_such_item, unreachable, found,
  with_tables, with_noteboard,
}
use kanban_store.Cards.Arriving.{Arranged, refused_with, arranged}
use kanban_store.Cards.Placements.{AutoStatus, check_wip}
use kanban_store.Cards.Creating.{
  with_ceiling, answer_created, after_creation, with_item, create_arranged, create_in,
  create_card_on_board,
}
use kanban_store.Cards.Actions.{
  PrincipalAnswer, no_principal, principal_store_failed, principal, after_hold, hold_card,
  after_assign, assign_known, assign_principal, after_unassign, unassign_principal,
}
use kanban_store.Cards.Carried.{left_by}
use kanban_store.Cards.Limits.{IsWithinWip}
use kanban_store.Cards.Kept.{
  StaySafe, Kept, Kept-same, Kept-aside, Kept-with_tables, Kept-then, record_event-Kept,
  record_carried-Kept, or_500-Kept, apply_assignee_on_arrival-Kept,
}
use kanban_store.Cards.Placed.{
  apply_auto_status-Kept, move_card_request-Kept, attach_safe, attach_card_request-Kept,
  detach_card_request-Kept,
}
use kanban_store.Cards.Requests.{
  Request, moves, attaches, detaches, creates_card, holds_card, assigns, unassigns, serve_request,
  serve_requests,
}

module _ {F : Type 0} (o : Outside F) (call : Call) (card : String) where
  answer_created-Kept :
      (board : String) (req : CreateCardRequest F) (arrival : Option ArrivalAssignment)
      (p : Placement F) (w : World F) (r : World F × AutoStatus)
      → Kept w (left_by r)
      → Kept w (left_by (answer_created o call board card req arrival p r))
  answer_created-Kept board req arrival p w (v, status) h = Kept-then h (
      or_500-Kept _ _ _ (record_event-Kept call.now call.first_id _ _) (λ u e.
        or_500-Kept u _ _ (apply_assignee_on_arrival-Kept o call card u board arrival)
          (λ x rows. Kept-same x)))

  after_creation-Kept :
      (board : String) (req : CreateCardRequest F) (status : Option String)
      (arrival : Option ArrivalAssignment) (w : World F) (r : Reply F (Placement F))
      → StaySafe w.tables (tables_after w.tables r)
      → Kept w (left_by (after_creation o call board card req status arrival w r))
  unfolding after_creation
  after_creation-Kept board req status arrival w (refused e) safe =
      apply_auto_status-Kept o call card status w
  after_creation-Kept board req status arrival w (done t p) safe =
      answer_created-Kept board req arrival p w _ (
        Kept-then (Kept-with_tables w t safe)
          (apply_auto_status-Kept o call card status (with_tables w t)))

module _ {F : Type 0} (o : Outside F) (call : Call) where
  with_item-Kept :
      (board : String) (req : CreateCardRequest F) (status : Option String)
      (arrival : Option ArrivalAssignment) (w : World F) (id : Option String)
      → check_wip w.tables req.column_id ≡ true
      → Kept w (left_by (with_item o call board req status arrival w id))
  with_item-Kept board req status arrival w none room = Kept-same w
  with_item-Kept board req status arrival w (some id) room = elim (Bool-cases (id =? "")) [
    | inl empty ↦ rw empty (Kept-same w)
    | inr named ↦ rw named (
        after_creation-Kept o call id board req status arrival w _ (
          attach_safe o call id board id
            (record { column_id = req.column_id; position = req.position }) w.tables room))
  ]

  create_arranged-Kept :
      (board : String) (req : CreateCardRequest F) (status : Option String) (w : World F)
      (a : Arranged)
      → check_wip w.tables req.column_id ≡ true
      → Kept w (left_by (create_arranged o call board req status w a))
  create_arranged-Kept board req status w (refused_with code) room = Kept-same w
  create_arranged-Kept board req status w (arranged arrival) room =
      let sent = with_ceiling o w.rungs board req in
      let after = with_noteboard w (creates sent) in
      Kept-then (Kept-aside w w.assignments after.noteboard)
        (with_item-Kept board req status arrival after (o.create_item sent) room)

  create_in-Kept :
      (board : String) (req : CreateCardRequest F) (w : World F) (col : Option (Column F))
      → Kept w (left_by (create_in o call board req w col))
  create_in-Kept board req w none = Kept-same w
  create_in-Kept board req w (some col) = elim (Bool-cases (col.board_id =? board)) [
    | inr other ↦ rw other (Kept-same w)
    | inl own ↦ elim (Bool-cases (check_wip w.tables req.column_id)) [
      | inl room ↦ rw (own, room) (create_arranged-Kept board req col.auto_status w _ room)
      | inr full ↦ rw (own, full) (Kept-same w)
    ]
  ]

  create_card_on_board-Kept :
      (board : String) (req : CreateCardRequest F) (w : World F)
      → Kept w (left_by (create_card_on_board o call board req w))
  unfolding create_card_on_board
  create_card_on_board-Kept board req w =
      elim (Bool-cases (req.title =? "" || req.column_id =? "")) [
        | inl empty ↦ rw empty (Kept-same w)
        | inr named ↦ rw named (create_in-Kept board req w (get_column w.tables req.column_id))
      ]

  after_hold-Kept :
      (card : String) (reason : Option String) (w : World F) (answer : ItemAnswer)
      → Kept w (left_by (after_hold o call card reason w answer))
  after_hold-Kept card reason w no_such_item = Kept-same w
  after_hold-Kept card reason w unreachable = Kept-same w
  after_hold-Kept card reason w (found item) =
      or_500-Kept w _ _ (record_event-Kept call.now call.first_id _ w) (λ v e. Kept-same v)

  hold_card-Kept :
      (card : String) (reason : Option String) (answer : ItemAnswer) (w : World F)
      → Kept w (left_by (hold_card o call card reason answer w))
  unfolding hold_card
  hold_card-Kept card reason answer w =
      Kept-then (Kept-aside w w.assignments _) (after_hold-Kept card reason _ answer)

  after_assign-Kept :
      (card principal_id : String) (w : World F)
      (result : Option (List CardAssignment × CardAssignment × Bool))
      → Kept w (left_by (after_assign o call card principal_id w result))
  after_assign-Kept card principal_id w none = Kept-same w
  after_assign-Kept card principal_id w (some (table, a, false)) = Kept-aside w table w.noteboard
  after_assign-Kept card principal_id w (some (table, a, true)) =
      Kept-then (Kept-aside w table w.noteboard)
        (or_500-Kept _ _ _ (record_carried-Kept call.now call.first_id _ _ _) (λ v e. Kept-same v))

  assign_known-Kept :
      (version_of : List CardAssignment → String) (card principal_id version : String) (w : World F)
      (answer : PrincipalAnswer)
      → Kept w (left_by (assign_known o version_of call card principal_id version w answer))
  assign_known-Kept version_of card principal_id version w no_principal = Kept-same w
  assign_known-Kept version_of card principal_id version w principal_store_failed = Kept-same w
  assign_known-Kept version_of card principal_id version w (principal true) = Kept-same w
  assign_known-Kept version_of card principal_id version w (principal false) =
      after_assign-Kept card principal_id w _

  assign_principal-Kept :
      (version_of : List CardAssignment → String) (id_shape : String → Bool)
      (card principal_id version : String) (answer : PrincipalAnswer) (w : World F)
      → Kept w
          (left_by (assign_principal o version_of id_shape call card principal_id version answer w))
  unfolding assign_principal
  assign_principal-Kept version_of id_shape card principal_id version answer w =
      elim (Bool-cases (id_shape principal_id)) [
        | inl shaped ↦ rw shaped (assign_known-Kept version_of card principal_id version w answer)
        | inr other ↦ rw other (Kept-same w)
      ]

  after_unassign-Kept :
      (card principal_id : String) (w : World F) (result : Option (List CardAssignment))
      → Kept w (left_by (after_unassign o call card principal_id w result))
  after_unassign-Kept card principal_id w none = Kept-same w
  after_unassign-Kept card principal_id w (some table) =
      Kept-then (Kept-aside w table w.noteboard)
        (or_500-Kept _ _ _ (record_carried-Kept call.now call.first_id _ _ _) (λ v e. Kept-same v))

module _ {F : Type 0} where
  serve_request-Kept : (r : Request F) (w : World F) → Kept w (serve_request r w)
  unfolding serve_request unassign_principal
  serve_request-Kept (moves o call card req) w = move_card_request-Kept o call card req w
  serve_request-Kept (attaches o call board card req) w =
      attach_card_request-Kept o call card board req w
  serve_request-Kept (detaches o call board card) w = detach_card_request-Kept o call card board w
  serve_request-Kept (creates_card o call board req) w =
      create_card_on_board-Kept o call board req w
  serve_request-Kept (holds_card o call card reason answer) w =
      hold_card-Kept o call card reason answer w
  serve_request-Kept (assigns o version_of id_shape call card principal_id version answer) w =
      assign_principal-Kept o call version_of id_shape card principal_id version answer w
  serve_request-Kept (unassigns o call card principal_id) w =
      after_unassign-Kept o call card principal_id w _

  serve_requests-Kept :
      (requests : List (Request F)) (w : World F) → Kept w (serve_requests requests w)
  unfolding serve_requests
  serve_requests-Kept [] w = Kept-same w
  serve_requests-Kept (r ∷ requests) w =
      Kept-then (serve_request-Kept r w) (serve_requests-Kept requests (serve_request r w))

  -- The tables are consistent and within the limits, and the log is a line that was added to by the
  -- events that the message triggers were handed.
  pub record IsServed (w v : World F) : Type 0 where
    pub consistent : IsConsistent v.tables
    pub within : IsWithinWip v.tables
    pub line : IsLine v.log
    pub added : List CardEvent
    pub log : v.log ≡ w.log ++ added
    pub fired : v.fired ≡ w.fired ++ added

  -- Any requests that move, attach, detach, create, hold or let go cards and put principals on them or
  -- take them off, in any order and whatever they answer and find outside: where the keys and the
  -- references of the tables are sound and no column has more cards than its limit, this stays so; the
  -- log of events stays one whose events are valid, have unique ids and of which none has two
  -- successors; and the message triggers are handed exactly the events that the log has got, in the
  -- same order.
  pub serve_requests-IsServed :
      (requests : List (Request F)) (w : World F)
      → IsConsistent w.tables
      → IsWithinWip w.tables
      → IsLine w.log
      → IsServed w (serve_requests requests w)
  serve_requests-IsServed requests w ok within line =
      let kept = serve_requests-Kept requests w in
      let (fine, under) = kept.tables ok within in
      record {
        consistent = fine;
        within = under;
        line = kept.line line;
        added = kept.added;
        log = kept.log;
        fired = kept.fired;
      }
