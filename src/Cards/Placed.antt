-- ===== src/Cards/Placed.antt =====
-- What the requests that place a card keep (internal/api/api.go).
use kanban_store.Prelude.{
  String, true, ◌&&◌, ◌||◌, not, List, Option, none, some, ◌≡◌, Bool-cases, inl, inr,
}
use kanban_store.Prelude.Text.{◌=?◌}
use kanban_store.Boards.Tables.{
  Placement, Tables, Reply, refused, done, tables_after, get_column, get_placement,
}
use kanban_store.Boards.Placing.{
  AttachCardRequest, MoveCardRequest, attach_card, move_card, detach_card,
}
use kanban_store.Boards.Keeps.{
  attach_card-IsConsistent, move_card-IsConsistent, detach_card-IsConsistent,
}
use kanban_store.Arrivals.Pool.{ArrivalAssignment}
use kanban_store.SpendCeilings.Defaults.{NoteboardItem}
use kanban_store.Cards.World.{World, Outside, Call, ItemAnswer, no_such_item, unreachable, found}
use kanban_store.Cards.Arriving.{Arranged, refused_with, arranged}
use kanban_store.Cards.Placements.{
  check_wip, crosses, apply_auto_status, auto_status_of, after_move, move_card_request,
  write_ceiling, after_attach, attach_arranged, attach_tagged, attach_item, attach_card_request,
  after_detach, detach_card_request, tags_of_noteboard_item,
}
use kanban_store.Cards.Carried.{left_by}
use kanban_store.Cards.Wip.{attach_card-IsWithinWip, move_card-IsWithinWip, detach_card-IsWithinWip}
use kanban_store.Cards.Kept.{
  StaySafe, Kept, Kept-same, Kept-aside, Kept-with_tables, Kept-then, record_event-Kept,
  or_500-Kept, apply_assignee_on_arrival-Kept,
}

module _ {F : Type 0} (o : Outside F) (call : Call) (card : String) where
  pub apply_auto_status-Kept :
      (status : Option String) (w : World F) → Kept w (left_by (apply_auto_status o card status w))
  apply_auto_status-Kept none w = Kept-same w
  apply_auto_status-Kept (some status) w = elim (Bool-cases (status =? "")) [
    | inl no_status ↦ rw no_status (Kept-same w)
    | inr known ↦ rw known (Kept-aside w w.assignments _)
  ]

  after_move-Kept :
      (req : MoveCardRequest F) (current : Option (Placement F)) (w : World F)
      (r : Reply F (Placement F))
      → StaySafe w.tables (tables_after w.tables r)
      → Kept w (left_by (after_move o call card req current w r))
  unfolding after_move
  after_move-Kept req current w (refused e) safe = Kept-same w
  after_move-Kept req current w (done t p) safe = Kept-then (Kept-with_tables w t safe) (
      or_500-Kept _ _ _ (record_event-Kept call.now call.first_id _ _)
        (λ v e. apply_auto_status-Kept (auto_status_of o (get_column t req.column_id)) v))

  pub move_card_request-Kept :
      (req : MoveCardRequest F) (w : World F)
      → Kept w (left_by (move_card_request o call card req w))
  unfolding move_card_request
  move_card_request-Kept req w =
      let current = get_placement w.tables card req.board_id in
      elim (Bool-cases (req.board_id =? "" || req.column_id =? "")) [
        | inl empty ↦ rw empty (Kept-same w)
        | inr named ↦
            elim (Bool-cases
              (crosses req.column_id current && not (check_wip w.tables req.column_id))) [
                | inl full ↦ rw (named, full) (Kept-same w)
                | inr room ↦
                    rw (named, room)
                      (after_move-Kept req current w (move_card call.now card req w.tables)
                        (λ ok within. (
                          move_card-IsConsistent call.now card req w.tables ok,
                          move_card-IsWithinWip call.now card req w.tables ok room within,
                        )))
              ]
      ]

  write_ceiling-Kept :
      (p : Placement F) (amount : Option (Option String)) (w : World F)
      → Kept w (left_by (write_ceiling o card p amount w))
  write_ceiling-Kept p none w = Kept-same w
  write_ceiling-Kept p (some none) w = Kept-same w
  write_ceiling-Kept p (some (some amount)) w = Kept-aside w w.assignments _

  after_attach-Kept :
      (board column_id : String) (item : NoteboardItem) (arrival : Option ArrivalAssignment)
      (w : World F) (r : Reply F (Placement F))
      → StaySafe w.tables (tables_after w.tables r)
      → Kept w (left_by (after_attach o call board card column_id item arrival w r))
  unfolding after_attach
  after_attach-Kept board column_id item arrival w (refused e) safe = Kept-same w
  after_attach-Kept board column_id item arrival w (done t p) safe =
      Kept-then (Kept-with_tables w t safe) (
        or_500-Kept _ _ _ (record_event-Kept call.now call.first_id _ _) (λ v e.
          or_500-Kept v _ _ (apply_assignee_on_arrival-Kept o call card v board arrival)
            (λ u rows. write_ceiling-Kept p _ u)))

  pub attach_safe :
      (board id : String) (req : AttachCardRequest F) (t : Tables F)
      → check_wip t req.column_id ≡ true
      → StaySafe t (tables_after t (attach_card o.floats call.now board id req t))
  attach_safe board id req t room ok within = (
    attach_card-IsConsistent o.floats call.now board id req t ok,
    attach_card-IsWithinWip o.floats call.now board id req t ok room within,
  )

  attach_arranged-Kept :
      (board : String) (req : AttachCardRequest F) (item : NoteboardItem) (w : World F)
      (a : Arranged)
      → check_wip w.tables req.column_id ≡ true
      → Kept w (left_by (attach_arranged o call board card req item w a))
  attach_arranged-Kept board req item w (refused_with status) room = Kept-same w
  attach_arranged-Kept board req item w (arranged arrival) room =
      after_attach-Kept board req.column_id item arrival w _
        (attach_safe board card req w.tables room)

  attach_tagged-Kept :
      (board : String) (req : AttachCardRequest F) (item : NoteboardItem) (w : World F)
      (tags : Option (List String))
      → Kept w (left_by (attach_tagged o call board card req item w tags))
  attach_tagged-Kept board req item w none = Kept-same w
  attach_tagged-Kept board req item w (some tags) =
      elim (Bool-cases (check_wip w.tables req.column_id)) [
        | inl room ↦ rw room (attach_arranged-Kept board req item w _ room)
        | inr full ↦ rw full (Kept-same w)
      ]

  attach_item-Kept :
      (board : String) (req : AttachCardRequest F) (w : World F) (answer : ItemAnswer)
      → Kept w (left_by (attach_item o call board card req w answer))
  attach_item-Kept board req w no_such_item = Kept-same w
  attach_item-Kept board req w unreachable = Kept-same w
  attach_item-Kept board req w (found item) =
      attach_tagged-Kept board req item.money w (tags_of_noteboard_item item.tags)

  pub attach_card_request-Kept :
      (board : String) (req : AttachCardRequest F) (w : World F)
      → Kept w (left_by (attach_card_request o call board card req w))
  unfolding attach_card_request
  attach_card_request-Kept board req w = elim (Bool-cases (req.column_id =? "")) [
    | inl empty ↦ rw empty (Kept-same w)
    | inr named ↦ rw named (attach_item-Kept board req w (o.get_item card))
  ]

  after_detach-Kept :
      (board : String) (w : World F) (r : Reply F Unit)
      → StaySafe w.tables (tables_after w.tables r)
      → Kept w (left_by (after_detach o call board card w r))
  unfolding after_detach
  after_detach-Kept board w (refused e) safe = Kept-same w
  after_detach-Kept board w (done t u) safe =
      Kept-then (Kept-with_tables w t safe)
        (or_500-Kept _ _ _ (record_event-Kept call.now call.first_id _ _) (λ v e. Kept-same v))

  pub detach_card_request-Kept :
      (board : String) (w : World F) → Kept w (left_by (detach_card_request o call board card w))
  unfolding detach_card_request
  detach_card_request-Kept board w =
      after_detach-Kept board w (detach_card board card w.tables) (λ ok within. (
        detach_card-IsConsistent board card w.tables ok,
        detach_card-IsWithinWip board card w.tables within,
      ))
