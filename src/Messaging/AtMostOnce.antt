-- ===== src/Messaging/AtMostOnce.antt =====
-- No trigger sends twice for one event, and nothing is sent without a row, over whole events.
use kanban_store.Prelude.{
  String, List, [], ◌∷◌, Option, none, some, Bool-cases, Option-cases, inl, inr,
}
use kanban_store.Prelude.Text.{◌=?◌, trim_space}
use kanban_store.Timeline.Events.{CardEvent, level_for}
use kanban_store.Messaging.Dispatcher.{
  MessageTrigger, CardFacts, BoardFacts, Outbox, Surroundings, is_message_trigger_event_kind,
}
use kanban_store.Messaging.Firing.{
  deliver_message, deliver_rendered, deliver, passes_priority, fire_candidate, fire_candidates,
  fire_board, fire_boards, fire_found, fire_triggers_for, fire_all,
}
use kanban_store.Messaging.Claims.{
  IsAccounted, record_unsent-IsAccounted, send_if_claimed-IsAccounted,
}

module _ (around : Surroundings) (event : CardEvent) (board : String) where
  deliver_rendered-IsAccounted :
      (trigger : MessageTrigger) (rendered : Option String) (box : Outbox)
      → IsAccounted box
      → IsAccounted (deliver_rendered around event board trigger rendered box)
  unfolding deliver_rendered deliver_message
  deliver_rendered-IsAccounted trigger none box ok =
      record_unsent-IsAccounted around trigger event board _ _ _ box ok
  deliver_rendered-IsAccounted trigger (some message) box ok =
      elim (Bool-cases (trim_space message =? "")) [
        | inl e ↦ rw e (record_unsent-IsAccounted around trigger event board _ _ _ box ok)
        | inr e ↦ rw e (elim (Option-cases around.sender) [
          | inl f ↦
              rw (f, deliver_message)
                (record_unsent-IsAccounted around trigger event board _ _ _ box ok)
          | inr (send, f) ↦ rw (f, deliver_message) (send_if_claimed-IsAccounted _ send box ok)
        ])
      ]

  fire_candidate-IsAccounted :
      (card : Option CardFacts) (facts : Option BoardFacts) (trigger : MessageTrigger)
      (box : Outbox)
      → IsAccounted box
      → IsAccounted (fire_candidate around event board card facts trigger box)
  unfolding fire_candidate deliver
  fire_candidate-IsAccounted (some card) (some facts) trigger box ok =
      elim (Bool-cases
        (passes_priority trigger.priority_value (level_for facts.ladder card.priority_value))) [
          | inl e ↦ rw e (deliver_rendered-IsAccounted trigger _ box ok)
          | inr e ↦ rw e ok
        ]
  fire_candidate-IsAccounted (some card) none trigger box ok =
      record_unsent-IsAccounted around trigger event board _ _ _ box ok
  fire_candidate-IsAccounted none facts trigger box ok =
      record_unsent-IsAccounted around trigger event board _ _ _ box ok

  fire_candidates-IsAccounted :
      (card : Option CardFacts) (facts : Option BoardFacts) (triggers : List MessageTrigger)
      (box : Outbox)
      → IsAccounted box
      → IsAccounted (fire_candidates around event board card facts triggers box)
  unfolding fire_candidates
  fire_candidates-IsAccounted card facts [] box ok = ok
  fire_candidates-IsAccounted card facts (trigger ∷ triggers) box ok =
      fire_candidates-IsAccounted card facts triggers _
        (fire_candidate-IsAccounted card facts trigger box ok)

  fire_board-IsAccounted :
      (triggers : Option (List MessageTrigger)) (box : Outbox)
      → IsAccounted box
      → IsAccounted (fire_board around event board triggers box)
  unfolding fire_board
  fire_board-IsAccounted none box ok = ok
  fire_board-IsAccounted (some triggers) box ok = fire_candidates-IsAccounted _ _ _ box ok

module _ (around : Surroundings) (event : CardEvent) where
  fire_boards-IsAccounted :
      (boards : List String) (box : Outbox)
      → IsAccounted box
      → IsAccounted (fire_boards around event boards box)
  unfolding fire_boards
  fire_boards-IsAccounted [] box ok = ok
  fire_boards-IsAccounted (b ∷ boards) box ok =
      fire_boards-IsAccounted boards _ (fire_board-IsAccounted around event b _ box ok)

  fire_found-IsAccounted :
      (found : Option (List String)) (box : Outbox)
      → IsAccounted box
      → IsAccounted (fire_found around event found box)
  unfolding fire_found
  fire_found-IsAccounted none box ok = ok
  fire_found-IsAccounted (some boards) box ok = fire_boards-IsAccounted boards box ok

  fire_triggers_for-IsAccounted :
      (box : Outbox) → IsAccounted box → IsAccounted (fire_triggers_for around event box)
  unfolding fire_triggers_for
  fire_triggers_for-IsAccounted box ok =
      elim (Bool-cases (is_message_trigger_event_kind event.kind)) [
        | inl e ↦ rw (e, fire_triggers_for) (fire_found-IsAccounted _ box ok)
        | inr e ↦ rw (e, fire_triggers_for) ok
      ]

fire_all-keeps :
    (history : List (Surroundings × CardEvent)) (box : Outbox)
    → IsAccounted box
    → IsAccounted (fire_all history box)
unfolding fire_all
fire_all-keeps [] box ok = ok
fire_all-keeps ((around, event) ∷ rest) box ok =
    fire_all-keeps rest _ (fire_triggers_for-IsAccounted around event box ok)

-- Whatever events are fired, the same one again among them, and whatever they find, each trigger
-- sends at most one message for an event and has at most one row for it, and everything that was
-- sent has its row.
pub fire_all-IsAccounted :
    (history : List (Surroundings × CardEvent))
    → IsAccounted (fire_all history (record { deliveries = []; sends = [] }))
fire_all-IsAccounted history =
    fire_all-keeps history (record { deliveries = []; sends = [] })
      (record { sends_once = tt; rows_once = tt; sends_have_rows = tt })
