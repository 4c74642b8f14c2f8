-- ===== src/Messaging/Examples.antt =====
-- A trigger and an event that is fired twice, for the theorems on messages.
use kanban_store.Prelude.{[], ◌∷◌, none, some}
use kanban_store.Prelude.Int.{pos}
use kanban_store.Timeline.Events.{CardEvent}
use kanban_store.Messaging.Dispatcher.{
  MessageTrigger, CardFacts, BoardFacts, SendResult, Surroundings,
}
use kanban_store.Messaging.Firing.{fire_all}
use kanban_store.Prelude.{inl, refl}
use kanban_store.Prelude.Text.{contains}
use kanban_store.Messaging.Dispatcher.{is_message_trigger_event_kind}
use kanban_store.Messaging.Firing.{boards_of, fire_triggers_for}
use kanban_store.Messaging.Recorded.{AreRecorded, fire_triggers_for-AreRecorded}
use kanban_store.Messaging.Claims.{IsAccounted}
use kanban_store.Messaging.AtMostOnce.{fire_all-IsAccounted}

abbrev moved : CardEvent
moved = record {
  id = "e1";
  card_id = "c1";
  board_id = "b1";
  kind = "card_moved";
  clock_state = "running";
  actor = "ann";
  summary = "";
  from_column_id = "todo";
  to_column_id = "done";
  note_id = "";
  supersedes_event_id = "";
  detail = "";
  occurred_at = 10;
  recorded_at = 10;
}

abbrev on_move : MessageTrigger
on_move = record {
  id = "t1";
  board_id = "b1";
  event_kind = "card_moved";
  to_column_id = "done";
  priority_value = none;
  recipient_user_id = "@bob:chat";
  message_template = "moved";
}

abbrev answer : SendResult
answer = record { room_id = "room"; matrix_event_id = "m1" }

abbrev card : CardFacts
card = record { title = "A card"; priority_value = pos 0; assignee_ids = [] }

abbrev board : BoardFacts
board = record { name = "A board"; ladder = []; column_name = "done"; from_column_name = "todo" }

abbrev around : Surroundings
around = record {
  new_id = λ trigger. trigger;
  boards_of_card = λ card. some ("b1" ∷ []);
  triggers_of = λ board. some (on_move ∷ []);
  load_card = λ id. some card;
  load_board = λ id event. some board;
  render = λ template fields. some template;
  sender = some (λ recipient message. some answer);
}

fire_all-IsAccounted_example :
    IsAccounted
      (fire_all ((around, moved) ∷ (around, moved) ∷ []) (record { deliveries = []; sends = [] }))
fire_all-IsAccounted_example = fire_all-IsAccounted ((around, moved) ∷ (around, moved) ∷ [])

fire_triggers_for-AreRecorded_example :
    AreRecorded around moved "b1"
      (on_move ∷ [])
      (fire_triggers_for around moved (record { deliveries = []; sends = [] }))
unfolding is_message_trigger_event_kind boards_of contains
fire_triggers_for-AreRecorded_example =
    fire_triggers_for-AreRecorded around moved ("b1" ∷ []) "b1" (on_move ∷ [])
      (record { deliveries = []; sends = [] }) refl refl (inl refl) refl
