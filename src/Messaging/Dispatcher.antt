-- ===== src/Messaging/Dispatcher.antt =====
-- The dispatcher of message triggers (internal/messaging/dispatcher.go), with the claim of a delivery
-- (ClaimMessageDelivery and FinishMessageDelivery of internal/db/messaging.go). What the store and the
-- noteboard answer, how a template renders, and what multichat answers are parameters. The only way in
-- which a write of a delivery fails here is the unique index on trigger and event.
use kanban_store.Prelude.{
  String, Bool, ◌&&◌, List, [], ◌∷◌, ◌++◌, Option, none, some, if◌then◌else◌, find, update_where,
  is_some,
}
use kanban_store.Prelude.Int.{ℤ}
use kanban_store.Prelude.Text.{◌=?◌, contains}
use kanban_store.Timeline.Events.{Time, EventKind, CardEvent, BoardPriorityLevel}

abbrev pub message_trigger_event_kinds : List EventKind
message_trigger_event_kinds =
    "card_created" ∷ "card_moved" ∷ "card_completed" ∷ "assigned" ∷ "card_held" ∷ []

unfoldable pub is_message_trigger_event_kind : EventKind → Bool
is_message_trigger_event_kind kind = contains message_trigger_event_kinds kind

pub record MessageTrigger : Type 0 where
  pub id : String
  pub board_id : String
  pub event_kind : EventKind
  pub to_column_id : String
  pub priority_value : Option ℤ
  pub recipient_user_id : String
  pub message_template : String

pub data MessageDeliveryStatus : Type 0 where
  pending sent failed not_configured : MessageDeliveryStatus

pub data DeliveryProblem : Type 0 where
  no_problem context_not_loaded not_rendered empty_message no_sender send_failed : DeliveryProblem

pub record MessageDelivery : Type 0 where
  pub id : String
  pub trigger_id : String
  pub board_id : String
  pub event_id : String
  pub card_id : String
  pub recipient_user_id : String
  pub rendered_message : String
  pub status : MessageDeliveryStatus
  pub problem : DeliveryProblem
  pub room_id : String
  pub matrix_event_id : String

pub record CardFacts : Type 0 where
  pub title : String
  pub priority_value : ℤ
  pub assignee_ids : List String

pub record BoardFacts : Type 0 where
  pub name : String
  pub ladder : List BoardPriorityLevel
  pub column_name : String
  pub from_column_name : String

pub record MessageTemplateFields : Type 0 where
  pub card_id : String
  pub title : String
  pub board_name : String
  pub column_name : String
  pub from_column_name : String
  pub priority_label : String
  pub event_kind : String
  pub actor : String
  pub summary : String
  pub assignee_ids : List String
  pub occurred_at : Time

-- A message that SendDirectMessage was called with, for a trigger and an event.
pub record Send : Type 0 where
  pub trigger_id : String
  pub event_id : String
  pub recipient_user_id : String
  pub message : String

-- The table of deliveries, and every call of SendDirectMessage made so far.
pub record Outbox : Type 0 where
  pub deliveries : List MessageDelivery
  pub sends : List Send

-- The room and the event that multichat answers a message with.
pub record SendResult : Type 0 where
  pub room_id : String
  pub matrix_event_id : String

-- What an event finds: `none` is an error.
pub record Surroundings : Type 0 where
  -- uuid.NewString(), for the delivery of a trigger
  pub new_id : String → String
  -- ListPlacementsByCard
  pub boards_of_card : String → Option (List String)
  -- ListMessageTriggers, the enabled ones
  pub triggers_of : String → Option (List MessageTrigger)
  pub load_card : String → Option CardFacts
  pub load_board : String → CardEvent → Option BoardFacts
  -- ParseMessageTemplate and Execute
  pub render : String → MessageTemplateFields → Option String
  -- currentSender, and what it answers to a recipient and a message
  pub sender : Option (String → String → Option SendResult)

abbrev pub claims_key : String → String → MessageDelivery → Bool
claims_key trigger_id event_id d = d.trigger_id =? trigger_id && d.event_id =? event_id

-- claim: the row, unless the trigger has one for the event.
unfoldable pub claim : MessageDelivery → Outbox → Option Outbox
claim d box =
    if is_some (find (claims_key d.trigger_id d.event_id) box.deliveries)
    then none
    else some (record { deliveries = box.deliveries ++ (d ∷ []); sends = box.sends })

abbrev claimed_or : Option Outbox → Outbox → Outbox
claimed_or none box = box
claimed_or (some after) box = after

-- FinishMessageDelivery
unfoldable pub finish_row :
    MessageDeliveryStatus → DeliveryProblem → String → String → MessageDelivery → MessageDelivery
finish_row status problem room_id matrix_event_id d = record {
  id = d.id;
  trigger_id = d.trigger_id;
  board_id = d.board_id;
  event_id = d.event_id;
  card_id = d.card_id;
  recipient_user_id = d.recipient_user_id;
  rendered_message = d.rendered_message;
  status = status;
  problem = problem;
  room_id = room_id;
  matrix_event_id = matrix_event_id;
}

unfoldable pub finish_message_delivery :
    String → MessageDeliveryStatus → DeliveryProblem → String → String → Outbox → Outbox
finish_message_delivery id status problem room_id matrix_event_id box = record {
  deliveries =
      update_where (λ d. d.id =? id) (finish_row status problem room_id matrix_event_id)
        box.deliveries;
  sends = box.sends;
}

unfoldable pub delivery_of :
    Surroundings
    → MessageTrigger
    → CardEvent
    → String
    → String
    → MessageDeliveryStatus
    → DeliveryProblem
    → MessageDelivery
delivery_of around trigger event board_id message status problem = record {
  id = around.new_id trigger.id;
  trigger_id = trigger.id;
  board_id = board_id;
  event_id = event.id;
  card_id = event.card_id;
  recipient_user_id = trigger.recipient_user_id;
  rendered_message = message;
  status = status;
  problem = problem;
  room_id = "";
  matrix_event_id = "";
}

-- recordUnsent
unfoldable pub record_unsent :
    Surroundings
    → MessageTrigger
    → CardEvent
    → String
    → String
    → MessageDeliveryStatus
    → DeliveryProblem
    → Outbox
    → Outbox
record_unsent around trigger event board_id message status problem box =
    claimed_or (claim (delivery_of around trigger event board_id message status problem) box) box
