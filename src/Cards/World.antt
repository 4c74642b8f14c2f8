-- ===== src/Cards/World.antt =====
-- What the handlers of cards read and write: the tables of the store, the log of events, what was handed
-- to the message triggers, and what was written to noteboard. What noteboard, principal-store and
-- encoding/json answer is in `Outside`, and the time, the actor and the fresh ids in `Call`.
use kanban_store.Prelude.{ℕ, String, Bool, List, [], ◌∷◌, ◌++◌, Option, none, some}
use kanban_store.Prelude.Int.{ℤ}
use kanban_store.Timeline.Events.{Time, CardEvent, ClockState, EventKind}
use kanban_store.TagRules.Stored.{TagRuleRow, TagsJson}
use kanban_store.Boards.Tables.{Floats, Tables}
use kanban_store.Boards.Settings.{BoardRow}
use kanban_store.Boards.Assignments.{CardAssignment}
use kanban_store.Log.Events.{LogReply, refused, done, record_card_event}
use kanban_store.Log.Ladder.{Rung}
use kanban_store.Arrivals.Pool.{PrincipalStore, ArrivalAssignment}
use kanban_store.SpendCeilings.Defaults.{NoteboardItem}

-- CreateCardRequest
pub record CreateCardRequest (F : Type 0) : Type 0 where
  pub title : String
  pub body : Option String
  pub tags : List String
  pub priority : Option ℤ
  pub list_id : Option String
  pub due_at : Option String
  pub column_id : String
  pub position : Option F
  pub parent_id : Option String
  pub hold : Bool
  pub hold_reason : String
  pub auto_hold_at_usd : Option String

-- A write that was sent to noteboard
pub data NoteboardWrite (F : Type 0) : Type 0 where
  creates : CreateCardRequest F → NoteboardWrite F
  sets_status sets_ceiling : String → String → NoteboardWrite F
  holds : String → String → NoteboardWrite F
  unholds : String → NoteboardWrite F

pub record World (F : Type 0) : Type 0 where
  pub tables : Tables F
  pub board_rows : List BoardRow
  pub rule_rows : List TagRuleRow
  pub rungs : List Rung
  pub assignments : List CardAssignment
  pub log : List CardEvent
  -- the events that fireMessageTriggers was called with
  pub fired : List CardEvent
  pub noteboard : List (NoteboardWrite F)

-- The value under "tags" of a noteboard item; `none` is a tag that is not a text.
pub data TagsValue : Type 0 where
  missing null not_a_list : TagsValue
  listed : List (Option String) → TagsValue

pub record Item : Type 0 where
  pub tags : TagsValue
  pub money : NoteboardItem

-- What noteboard answers: the item, or the status for the error.
pub data ItemAnswer : Type 0 where
  no_such_item unreachable : ItemAnswer
  found : Item → ItemAnswer

pub record Outside (F : Type 0) : Type 0 where
  pub floats : Floats F
  pub get_item : String → ItemAnswer
  -- the id of the item that is created, empty for none; `none` is an error
  pub create_item : CreateCardRequest F → Option String
  -- whether a write to an item succeeds
  pub patch_item : NoteboardWrite F → Bool
  pub principals : PrincipalStore
  pub json : TagsJson
  -- how amounts of money compare, and the whole number that one is cut to
  pub below : String → String → Bool
  pub int_of : String → ℤ
  -- encodings of events' details
  pub arrival_detail : ArrivalAssignment → String
  pub principal_detail : String → String

pub record Call : Type 0 where
  pub now : Time
  pub actor : String
  -- uuid.NewString() for the first event that is recorded, and for the second
  pub first_id : String
  pub second_id : String

-- actorFrom: the calling principal, or else the query's actor
unfoldable pub actor_from : Option String → String → String
actor_from none query = query
actor_from (some principal_id) query = principal_id

-- What a handler answers: a status, with a value where there is no error.
pub data Answer (A : Type 0) : Type 0 where
  fails : ℕ → Answer A
  answers : ℕ → A → Answer A

-- An event of a card with nothing else said
abbrev pub plain_event : String → String → EventKind → ClockState → String → CardEvent
plain_event card_id board_id kind clock_state actor = record {
  id = "";
  card_id = card_id;
  board_id = board_id;
  kind = kind;
  clock_state = clock_state;
  actor = actor;
  summary = "";
  from_column_id = "";
  to_column_id = "";
  note_id = "";
  supersedes_event_id = "";
  detail = "";
  occurred_at = 0;
  recorded_at = 0;
}

module _ {F : Type 0} where
  abbrev pub with_tables : World F → Tables F → World F
  with_tables w t = record w { tables = t }

  abbrev pub with_noteboard : World F → NoteboardWrite F → World F
  with_noteboard w n = record w { noteboard = w.noteboard ++ (n ∷ []) }

  unfoldable pub logged : World F → LogReply (List CardEvent) CardEvent → World F × Option CardEvent
  logged w (refused e) = (w, none)
  logged w (done log stored) =
      (record w { log = log; fired = w.fired ++ (stored ∷ []) }, some stored)

  -- recordEventAndFireMessageTriggers; `none` is the error.
  unfoldable pub record_event_and_fire_message_triggers :
      Time → String → CardEvent → World F → World F × Option CardEvent
  record_event_and_fire_message_triggers now new_id e w =
      logged w (record_card_event now new_id e w.log)

  -- `if err != nil { writeError(w, 500, ...); return }`
  unfoldable pub or_500 :
      {A B : Type 0} → World F × Option A → (World F → A → World F × Answer B) → World F × Answer B
  or_500 (w, none) next = (w, fails 500)
  or_500 (w, some a) next = next w a
