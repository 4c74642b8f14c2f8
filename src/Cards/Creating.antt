-- ===== src/Cards/Creating.antt =====
-- The creation of a card on a board (internal/api/api.go, createCardOnBoard).
use kanban_store.Prelude.{String, ◌||◌, not, List, [], ◌∷◌, Option, none, some, if◌then◌else◌}
use kanban_store.Prelude.Int.{ℤ}
use kanban_store.Prelude.Text.{◌=?◌}
use kanban_store.Timeline.Events.{CardEvent}
use kanban_store.Boards.Tables.{Column, Placement, Reply, refused, done, get_column}
use kanban_store.Boards.Placing.{attach_card}
use kanban_store.Boards.Assignments.{CardAssignment}
use kanban_store.Arrivals.Pool.{ArrivalAssignment}
use kanban_store.Log.Ladder.{Rung}
use kanban_store.SpendCeilings.Defaults.{lowest_default_spend_ceiling_for_priority}
use kanban_store.Cards.World.{
  CreateCardRequest, World, Outside, Call, Answer, fails, answers, creates, plain_event,
  with_tables, with_noteboard, record_event_and_fire_message_triggers, or_500,
}
use kanban_store.Cards.Clock.{clock_state_for_column}
use kanban_store.Cards.Arriving.{
  Arranged, refused_with, arranged, arrange_assignee, apply_assignee_on_arrival,
}
use kanban_store.Cards.Placements.{AutoStatus, check_wip, apply_auto_status}

-- What a created card is answered with, beside its item and its work state
pub record CreatedCard (F : Type 0) : Type 0 where
  pub card_id : String
  pub placement : Placement F
  pub assignments : List CardAssignment
  pub auto_status : AutoStatus

module _ {F : Type 0} (o : Outside F) where
  abbrev ceiling_for : List Rung → String → Option ℤ → Option String → Option String
  ceiling_for rungs board_id none ceiling = ceiling
  ceiling_for rungs board_id (some v) (some ceiling) = some ceiling
  ceiling_for rungs board_id (some v) none =
      lowest_default_spend_ceiling_for_priority o.below rungs (board_id ∷ []) v

  -- The request with its rung's default ceiling
  abbrev pub with_ceiling : List Rung → String → CreateCardRequest F → CreateCardRequest F
  with_ceiling rungs board_id req = record req {
    auto_hold_at_usd = ceiling_for rungs board_id req.priority req.auto_hold_at_usd;
  }

  unfoldable pub created_event : Call → String → String → CreateCardRequest F → World F → CardEvent
  created_event call board_id card_id req w =
      record (plain_event card_id board_id "card_created"
        (clock_state_for_column w card_id board_id req.column_id) call.actor) {
          summary = req.title;
          to_column_id = req.column_id;
        }

  abbrev pub answer_created :
      Call
      → String
      → String
      → CreateCardRequest F
      → Option ArrivalAssignment
      → Placement F
      → World F × AutoStatus
      → World F × Answer (CreatedCard F)
  answer_created call board_id card_id req arrival p (w, status) =
      or_500
        (record_event_and_fire_message_triggers call.now call.first_id
          (created_event call board_id card_id req w) w)
        (λ v e. or_500 (apply_assignee_on_arrival o call card_id board_id arrival v) (λ u rows. (
          u,
          answers 201 (record {
            card_id = card_id;
            placement = p;
            assignments = rows;
            auto_status = status;
          }),
        )))

  abbrev only_world : World F × AutoStatus → World F
  only_world (w, status) = w

  -- What follows the attachment, which the status of the column is written after even if it failed
  unfoldable pub after_creation :
      Call
      → String
      → String
      → CreateCardRequest F
      → Option String
      → Option ArrivalAssignment
      → World F
      → Reply F (Placement F)
      → World F × Answer (CreatedCard F)
  after_creation call board_id card_id req status arrival w (refused e) =
      (only_world (apply_auto_status o card_id status w), fails 500)
  after_creation call board_id card_id req status arrival w (done t p) =
      answer_created call board_id card_id req arrival p
        (apply_auto_status o card_id status (with_tables w t))

  abbrev pub with_item :
      Call
      → String
      → CreateCardRequest F
      → Option String
      → Option ArrivalAssignment
      → World F
      → Option String
      → World F × Answer (CreatedCard F)
  with_item call board_id req status arrival w none = (w, fails 502)
  with_item call board_id req status arrival w (some card_id) =
      if card_id =? ""
      then (w, fails 502)
      else after_creation call board_id card_id req status arrival w (
          attach_card o.floats call.now board_id card_id
            (record { column_id = req.column_id; position = req.position }) w.tables)

  abbrev pub create_arranged :
      Call
      → String
      → CreateCardRequest F
      → Option String
      → World F
      → Arranged
      → World F × Answer (CreatedCard F)
  create_arranged call board_id req status w (refused_with code) = (w, fails code)
  create_arranged call board_id req status w (arranged arrival) =
      with_item call board_id req status arrival
        (with_noteboard w (creates (with_ceiling w.rungs board_id req)))
        (o.create_item (with_ceiling w.rungs board_id req))

  abbrev pub create_in :
      Call
      → String
      → CreateCardRequest F
      → World F
      → Option (Column F)
      → World F × Answer (CreatedCard F)
  create_in call board_id req w none = (w, fails 404)
  create_in call board_id req w (some col) =
      if not (col.board_id =? board_id)
      then (w, fails 400)
      else if check_wip w.tables req.column_id
      then create_arranged call board_id req col.auto_status w
          (arrange_assignee o w board_id req.tags)
      else (w, fails 409)

  -- createCardOnBoard
  unfoldable pub create_card_on_board :
      Call → String → CreateCardRequest F → World F → World F × Answer (CreatedCard F)
  create_card_on_board call board_id req w =
      if req.title =? "" || req.column_id =? ""
      then (w, fails 400)
      else create_in call board_id req w (get_column w.tables req.column_id)
