-- ===== src/Cards/Placements.antt =====
-- The handlers that place a card (internal/api/api.go): checkWIP, moveCard and boardCardByID. The method
-- and the decoding of the body are the caller's.
use kanban_store.Prelude.{
  ℕ, String, Bool, true, false, ◌&&◌, ◌||◌, not, List, [], ◌∷◌, Option, none, some, if◌then◌else◌,
}
use kanban_store.Prelude.Int.{ℤ, pos, lt_ℤ}
use kanban_store.Prelude.Text.{◌=?◌}
use kanban_store.Timeline.Events.{CardEvent, clock_stopped}
use kanban_store.Boards.Tables.{
  Column, Placement, Tables, StoreError, not_found, column_not_on_board, constraint_failed, Reply,
  refused, done, get_column, get_placement,
}
use kanban_store.Boards.Placing.{
  AttachCardRequest, MoveCardRequest, attach_card, move_card, detach_card, count_column_cards,
}
use kanban_store.Arrivals.Pool.{ArrivalAssignment}
use kanban_store.SpendCeilings.Defaults.{
  NoteboardItem, board_ids_of_card, default_spend_ceiling_on_attach,
}
use kanban_store.Cards.World.{
  World, Outside, Call, Answer, fails, answers, ItemAnswer, no_such_item, unreachable, found,
  TagsValue, missing, null, not_a_list, listed, sets_status, sets_ceiling, plain_event, with_tables,
  with_noteboard, record_event_and_fire_message_triggers, or_500,
}
use kanban_store.Cards.Clock.{clock_state_for_column}
use kanban_store.Cards.Arriving.{
  Arranged, refused_with, arranged, arrange_assignee, apply_assignee_on_arrival,
}

-- mapDBErr
abbrev pub status_of : StoreError → ℕ
status_of not_found = 404
status_of column_not_on_board = 500
status_of constraint_failed = 500

abbrev texts_of : List (Option String) → Option (List String)
texts_of [] = some []
texts_of (none ∷ values) = none
texts_of (some tag ∷ values) = elim (texts_of values) [
  | none ↦ none
  | some tags ↦ some (tag ∷ tags)
]

-- tagsOfNoteboardItem; `none` is the error.
unfoldable pub tags_of_noteboard_item : TagsValue → Option (List String)
tags_of_noteboard_item missing = some []
tags_of_noteboard_item null = some []
tags_of_noteboard_item not_a_list = none
tags_of_noteboard_item (listed values) = texts_of values

-- What a move answers: the placement, and what became of the column's status
pub data AutoStatus : Type 0 where
  no_auto_status : AutoStatus
  auto_status_applied auto_status_failed : String → AutoStatus

abbrev pub under_limit : ℕ → Option ℤ → Bool
under_limit n none = true
under_limit n (some limit) = lt_ℤ (pos n) limit

module _ {F : Type 0} where
  abbrev pub column_admits : Tables F → Option (Column F) → Bool
  column_admits t none = false
  column_admits t (some col) = under_limit (count_column_cards col.id t) col.wip_limit

  -- checkWIP: `false` is an error, a column that is not there included.
  unfoldable pub check_wip : Tables F → String → Bool
  check_wip t column_id = column_admits t (get_column t column_id)

  abbrev pub column_of : Option (Placement F) → String
  column_of none = ""
  column_of (some p) = p.column_id

  -- `current == nil || current.ColumnID != req.ColumnID`
  abbrev pub crosses : String → Option (Placement F) → Bool
  crosses column_id none = true
  crosses column_id (some current) = not (current.column_id =? column_id)

module _ {F : Type 0} (o : Outside F) where
  -- The PATCH of the item's status, where the column has one
  abbrev pub apply_auto_status : String → Option String → World F → World F × AutoStatus
  apply_auto_status card_id none w = (w, no_auto_status)
  apply_auto_status card_id (some status) w = if status =? "" then (w, no_auto_status) else (
    with_noteboard w (sets_status card_id status),
    if o.patch_item (sets_status card_id status)
        then auto_status_applied status
        else auto_status_failed status,
  )

  abbrev pub auto_status_of : Option (Column F) → Option String
  auto_status_of none = none
  auto_status_of (some col) = col.auto_status

  abbrev pub with_status :
      ℕ → Placement F → World F × AutoStatus → World F × Answer (Placement F × AutoStatus)
  with_status status p (w, s) = (w, answers status (p, s))

  unfoldable pub moved_event :
      Call → String → MoveCardRequest F → Option (Placement F) → World F → CardEvent
  moved_event call card_id req current w =
      record (plain_event card_id req.board_id "card_moved"
        (clock_state_for_column w card_id req.board_id req.column_id) call.actor) {
          from_column_id = column_of current;
          to_column_id = req.column_id;
        }

  unfoldable pub after_move :
      Call
      → String
      → MoveCardRequest F
      → Option (Placement F)
      → World F
      → Reply F (Placement F)
      → World F × Answer (Placement F × AutoStatus)
  after_move call card_id req current w (refused e) = (w, fails (status_of e))
  after_move call card_id req current w (done t p) =
      let moved = with_tables w t in
      or_500
        (record_event_and_fire_message_triggers call.now call.first_id
          (moved_event call card_id req current moved) moved)
        (λ v e.
          with_status 200 p
            (apply_auto_status card_id (auto_status_of (get_column t req.column_id)) v))

  -- moveCard
  unfoldable pub move_card_request :
      Call → String → MoveCardRequest F → World F → World F × Answer (Placement F × AutoStatus)
  move_card_request call card_id req w =
      let current = get_placement w.tables card_id req.board_id in
      if req.board_id =? "" || req.column_id =? ""
      then (w, fails 400)
      else if crosses req.column_id current && not (check_wip w.tables req.column_id)
      then (w, fails 409)
      else after_move call card_id req current w (move_card call.now card_id req w.tables)

  -- applyDefaultSpendCeilingOnAttach, given what it decides
  abbrev pub write_ceiling :
      String → Placement F → Option (Option String) → World F → World F × Answer (Placement F)
  write_ceiling card_id p none w = (w, fails 502)
  write_ceiling card_id p (some none) w = (w, answers 201 p)
  write_ceiling card_id p (some (some amount)) w = (
    with_noteboard w (sets_ceiling card_id amount),
    if o.patch_item (sets_ceiling card_id amount) then answers 201 p else fails 502,
  )

  unfoldable pub attached_event : Call → String → String → String → World F → CardEvent
  attached_event call card_id board_id column_id w =
      record (plain_event card_id board_id "card_attached"
        (clock_state_for_column w card_id board_id column_id) call.actor) {
          to_column_id = column_id;
        }

  -- What follows once the card is attached
  unfoldable pub after_attach :
      Call
      → String
      → String
      → String
      → NoteboardItem
      → Option ArrivalAssignment
      → World F
      → Reply F (Placement F)
      → World F × Answer (Placement F)
  after_attach call board_id card_id column_id item arrival w (refused e) = (w, fails (status_of e))
  after_attach call board_id card_id column_id item arrival w (done t p) =
      let placed = with_tables w t in
      or_500
        (record_event_and_fire_message_triggers call.now call.first_id
          (attached_event call card_id board_id column_id placed) placed)
        (λ v e. or_500 (apply_assignee_on_arrival o call card_id board_id arrival v) (λ u rows.
          write_ceiling card_id p
            (default_spend_ceiling_on_attach o.below o.int_of u.rungs
              (board_ids_of_card u.tables.placements card_id) item)
            u))

  abbrev pub attach_arranged :
      Call
      → String
      → String
      → AttachCardRequest F
      → NoteboardItem
      → World F
      → Arranged
      → World F × Answer (Placement F)
  attach_arranged call board_id card_id req item w (refused_with status) = (w, fails status)
  attach_arranged call board_id card_id req item w (arranged arrival) =
      after_attach call board_id card_id req.column_id item arrival w
        (attach_card o.floats call.now board_id card_id req w.tables)

  abbrev pub attach_tagged :
      Call
      → String
      → String
      → AttachCardRequest F
      → NoteboardItem
      → World F
      → Option (List String)
      → World F × Answer (Placement F)
  attach_tagged call board_id card_id req item w none = (w, fails 502)
  attach_tagged call board_id card_id req item w (some tags) =
      if check_wip w.tables req.column_id
      then attach_arranged call board_id card_id req item w (arrange_assignee o w board_id tags)
      else (w, fails 409)

  abbrev pub attach_item :
      Call
      → String
      → String
      → AttachCardRequest F
      → World F
      → ItemAnswer
      → World F × Answer (Placement F)
  attach_item call board_id card_id req w no_such_item = (w, fails 404)
  attach_item call board_id card_id req w unreachable = (w, fails 502)
  attach_item call board_id card_id req w (found item) =
      attach_tagged call board_id card_id req item.money w (tags_of_noteboard_item item.tags)

  -- PUT of boardCardByID
  unfoldable pub attach_card_request :
      Call → String → String → AttachCardRequest F → World F → World F × Answer (Placement F)
  attach_card_request call board_id card_id req w =
      if req.column_id =? ""
      then (w, fails 400)
      else attach_item call board_id card_id req w (o.get_item card_id)

  unfoldable pub after_detach :
      Call → String → String → World F → Reply F Unit → World F × Answer Unit
  after_detach call board_id card_id w (refused e) = (w, fails (status_of e))
  after_detach call board_id card_id w (done t u) =
      or_500
        (record_event_and_fire_message_triggers call.now call.first_id
          (plain_event card_id board_id "card_detached" clock_stopped call.actor) (with_tables w t))
        (λ v e. (v, answers 200 tt))

  -- DELETE of boardCardByID
  unfoldable pub detach_card_request : Call → String → String → World F → World F × Answer Unit
  detach_card_request call board_id card_id w =
      after_detach call board_id card_id w (detach_card board_id card_id w.tables)
