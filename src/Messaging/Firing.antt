-- ===== src/Messaging/Firing.antt =====
-- Sending a claimed delivery, and firing the triggers that an event matches
-- (internal/messaging/dispatcher.go, deliver and FireTriggersFor).
use kanban_store.Prelude.{
  String, Bool, true, false, ◌&&◌, ◌||◌, List, [], ◌∷◌, Option, none, some, if◌then◌else◌, keep,
}
use kanban_store.Prelude.Int.{ℤ, eq_ℤ}
use kanban_store.Prelude.Text.{◌=?◌, trim_space}
use kanban_store.Timeline.Events.{CardEvent, BoardPriorityLevel, level_for}
use kanban_store.Messaging.Dispatcher.{
  is_message_trigger_event_kind, MessageTrigger, MessageDelivery, pending, sent, failed,
  not_configured, no_problem, context_not_loaded, not_rendered, empty_message, no_sender,
  send_failed, CardFacts, BoardFacts, MessageTemplateFields, Outbox, SendResult, Surroundings,
  claim, finish_message_delivery, delivery_of, record_unsent,
}

unfoldable pub add_send : MessageDelivery → Outbox → Outbox
add_send d box = record {
  deliveries = box.deliveries;
  sends =
      (record {
        trigger_id = d.trigger_id;
        event_id = d.event_id;
        recipient_user_id = d.recipient_user_id;
        message = d.rendered_message;
      })
      ∷ box.sends;
}

-- The call of SendDirectMessage and what is recorded of its answer.
unfoldable pub send_claimed :
    MessageDelivery → (String → String → Option SendResult) → Outbox → Outbox
send_claimed d send box = elim (send d.recipient_user_id d.rendered_message) [
  | none ↦ finish_message_delivery d.id failed send_failed "" "" (add_send d box)
  | some result ↦
      finish_message_delivery d.id sent no_problem result.room_id result.matrix_event_id
        (add_send d box)
]

-- From the claim on: nothing is sent without the row.
unfoldable pub send_if_claimed :
    MessageDelivery → (String → String → Option SendResult) → Option Outbox → Outbox → Outbox
send_if_claimed d send none box = box
send_if_claimed d send (some claimed) box = send_claimed d send claimed

module _ (around : Surroundings) (event : CardEvent) (board_id : String)
    (trigger : MessageTrigger) where
  unfoldable pub deliver_message :
      String → Option (String → String → Option SendResult) → Outbox → Outbox
  deliver_message message none box =
      record_unsent around trigger event board_id message not_configured no_sender box
  deliver_message message (some send) box =
      let d = delivery_of around trigger event board_id message pending no_problem in
      send_if_claimed d send (claim d box) box

  unfoldable pub deliver_rendered : Option String → Outbox → Outbox
  deliver_rendered none box = record_unsent around trigger event board_id "" failed not_rendered box
  deliver_rendered (some message) box =
      if trim_space message =? ""
      then record_unsent around trigger event board_id message failed empty_message box
      else deliver_message message around.sender box

  -- deliver
  unfoldable pub deliver : MessageTemplateFields → Outbox → Outbox
  deliver fields box = deliver_rendered (around.render trigger.message_template fields) box

-- The filter on the rung of the board's ladder.
unfoldable pub passes_priority : Option ℤ → Option BoardPriorityLevel → Bool
passes_priority none level = true
passes_priority (some wanted) none = false
passes_priority (some wanted) (some level) = eq_ℤ level.priority_value wanted

-- The two tests that make a trigger a candidate.
unfoldable pub is_candidate : CardEvent → MessageTrigger → Bool
is_candidate event trigger =
    trigger.event_kind =? event.kind
    && (trigger.to_column_id =? "" || trigger.to_column_id =? event.to_column_id)

abbrev label_of : Option BoardPriorityLevel → String
label_of none = ""
label_of (some level) = level.label

module _ (around : Surroundings) (event : CardEvent) (board_id : String) where
  unfoldable pub fields_of : CardFacts → BoardFacts → MessageTemplateFields
  fields_of card board = record {
    card_id = event.card_id;
    title = card.title;
    board_name = board.name;
    column_name = board.column_name;
    from_column_name = board.from_column_name;
    priority_label = label_of (level_for board.ladder card.priority_value);
    event_kind = event.kind;
    actor = event.actor;
    summary = event.summary;
    assignee_ids = card.assignee_ids;
    occurred_at = event.occurred_at;
  }

  -- One candidate, with the card and the board, of which either may not have loaded.
  unfoldable pub fire_candidate :
      Option CardFacts → Option BoardFacts → MessageTrigger → Outbox → Outbox
  fire_candidate (some card) (some board) trigger box =
      if passes_priority trigger.priority_value (level_for board.ladder card.priority_value)
      then deliver around event board_id trigger (fields_of card board) box
      else box
  fire_candidate (some card) none trigger box =
      record_unsent around trigger event board_id "" failed context_not_loaded box
  fire_candidate none board trigger box =
      record_unsent around trigger event board_id "" failed context_not_loaded box

  unfoldable pub fire_candidates :
      Option CardFacts → Option BoardFacts → List MessageTrigger → Outbox → Outbox
  fire_candidates card board [] box = box
  fire_candidates card board (trigger ∷ triggers) box =
      fire_candidates card board triggers (fire_candidate card board trigger box)

  -- One board: an error on its triggers passes over it.
  unfoldable pub fire_board : Option (List MessageTrigger) → Outbox → Outbox
  fire_board none box = box
  fire_board (some triggers) box =
      fire_candidates (around.load_card event.card_id) (around.load_board board_id event)
        (keep (is_candidate event) triggers) box

module _ (around : Surroundings) (event : CardEvent) where
  unfoldable pub fire_boards : List String → Outbox → Outbox
  fire_boards [] box = box
  fire_boards (b ∷ boards) box =
      fire_boards boards (fire_board around event b (around.triggers_of b) box)

  -- boardsOf
  unfoldable pub boards_of : Option (List String)
  boards_of =
      if event.board_id =? ""
      then around.boards_of_card event.card_id
      else some (event.board_id ∷ [])

  unfoldable pub fire_found : Option (List String) → Outbox → Outbox
  fire_found none box = box
  fire_found (some boards) box = fire_boards boards box

  -- FireTriggersFor
  unfoldable pub fire_triggers_for : Outbox → Outbox
  fire_triggers_for box =
      if is_message_trigger_event_kind event.kind then fire_found boards_of box else box

-- Events one after the other, each with what it finds.
unfoldable pub fire_all : List (Surroundings × CardEvent) → Outbox → Outbox
fire_all [] box = box
fire_all ((around, event) ∷ rest) box = fire_all rest (fire_triggers_for around event box)
