-- ===== src/Messaging/Recorded.antt =====
-- Every trigger that an event matches ends with a row.
use kanban_store.Prelude.{
  String, Bool, true, false, not, List, [], ◌∷◌, Option, none, some, ◌≡◌, refl, ◌∙◌, subst, arith,
  Bool-cases, Option-cases, ◌⊎◌, inl, inr, All, All-imp, SomeOf, keep, find, find-append,
  find-append_none, is_some,
}
use kanban_store.Prelude.Text.{◌=?◌, trim_space}
use kanban_store.Timeline.Events.{CardEvent, level_for}
use kanban_store.Messaging.Dispatcher.{
  MessageTrigger, MessageDelivery, MessageDeliveryStatus, DeliveryProblem, CardFacts, BoardFacts,
  Outbox, SendResult, Surroundings, is_message_trigger_event_kind, claims_key, claim, finish_row,
  finish_message_delivery, delivery_of, record_unsent,
}
use kanban_store.Messaging.Firing.{
  add_send, send_claimed, send_if_claimed, deliver_message, deliver_rendered, deliver,
  passes_priority, is_candidate, fields_of, fire_candidate, fire_candidates, fire_board,
  fire_boards, boards_of, fire_found, fire_triggers_for,
}
use kanban_store.Messaging.Claims.{find-updated, find-own, claim-cases, with_row}

-- The trigger has a row for the event.
abbrev pub IsRecorded : String → String → Outbox → Type 0
IsRecorded trigger event box =
    (row : MessageDelivery) × (find (claims_key trigger event) box.deliveries ≡ some row)

-- Every row of the first table is a row of the second, by its key.
abbrev Grows : Outbox → Outbox → Type 0
Grows before after = (t e : String) → IsRecorded t e before → IsRecorded t e after

Grows-with_row : (d : MessageDelivery) (box : Outbox) → Grows box (with_row d box)
Grows-with_row d box t e (row, there) = (row, find-append _ box.deliveries (d ∷ []) row there)

Grows-finish :
    (id : String) (status : MessageDeliveryStatus) (problem : DeliveryProblem) (room event : String)
    (box : Outbox)
    → Grows box (finish_message_delivery id status problem room event box)
unfolding finish_message_delivery finish_row
Grows-finish id status problem room event box t e (row, there) =
    find-updated (claims_key t e) (λ d. d.id =? id) (finish_row status problem room event)
      (λ x. refl) box.deliveries row there

-- What a call leaves: every row there was, and one of the delivery's own.
abbrev Records : MessageDelivery → Outbox → Outbox → Type 0
Records d before after = Grows before after × IsRecorded d.trigger_id d.event_id after

is_some_found : {A : Type 0} (o : Option A) → is_some o ≡ true → (a : A) × (o ≡ some a)
is_some_found none h = absurd (ground arith)
is_some_found (some a) h = (a, refl)

-- A claim fails only where there is a row.
claim-none :
    (d : MessageDelivery) (box : Outbox)
    → claim d box ≡ none
    → IsRecorded d.trigger_id d.event_id box
unfolding claim
claim-none d box h =
    is_some_found (find (claims_key d.trigger_id d.event_id) box.deliveries) (ground arith)

with_row-Records :
    (d : MessageDelivery) (box : Outbox)
    → find (claims_key d.trigger_id d.event_id) box.deliveries ≡ none
    → Records d box (with_row d box)
with_row-Records d box free =
    (Grows-with_row d box, (d, find-append_none _ box.deliveries (d ∷ []) free ∙ find-own d))

record_unsent-Records :
    (around : Surroundings) (trigger : MessageTrigger) (event : CardEvent) (board message : String)
    (status : MessageDeliveryStatus) (problem : DeliveryProblem) (box : Outbox)
    → Records
        (delivery_of around trigger event board message status problem)
        box
        (record_unsent around trigger event board message status problem box)
unfolding record_unsent
record_unsent-Records around trigger event board message status problem box =
    let d = delivery_of around trigger event board message status problem in
    elim (claim-cases d box) [
      | inl e ↦ rw (e, record_unsent) ((λ t e' h. h), claim-none d box e)
      | inr (e, free) ↦ rw (e, record_unsent) (with_row-Records d box free)
    ]

finish-Records :
    (d : MessageDelivery) (status : MessageDeliveryStatus) (problem : DeliveryProblem)
    (room event : String) (box : Outbox)
    → find (claims_key d.trigger_id d.event_id) box.deliveries ≡ none
    → Records d box
        (finish_message_delivery d.id status problem room event (add_send d (with_row d box)))
unfolding add_send
finish-Records d status problem room event box free =
    let (grows, own) = with_row-Records d box free in
    let after = Grows-finish d.id status problem room event (add_send d (with_row d box)) in
    ((λ t e h. after t e (grows t e h)), after d.trigger_id d.event_id own)

send_if_claimed-Records :
    (d : MessageDelivery) (send : String → String → Option SendResult) (box : Outbox)
    → Records d box (send_if_claimed d send (claim d box) box)
unfolding send_if_claimed send_claimed
send_if_claimed-Records d send box = elim (claim-cases d box) [
  | inl e ↦ rw (e, send_if_claimed) ((λ t e' h. h), claim-none d box e)
  | inr (e, free) ↦
      rw (e, send_if_claimed)
        (elim (Option-cases (send d.recipient_user_id d.rendered_message)) [
          | inl f ↦ rw (f, send_claimed) (finish-Records d _ _ _ _ box free)
          | inr (result, f) ↦ rw (f, send_claimed) (finish-Records d _ _ _ _ box free)
        ])
]

-- Rows are kept, and the trigger has one for the event.
abbrev RecordsFor : MessageTrigger → CardEvent → Outbox → Outbox → Type 0
RecordsFor trigger event before after = Grows before after × IsRecorded trigger.id event.id after

-- The trigger is passed over for the card's rung, which is known only where the card and the board are.
abbrev pub is_filtered : Option CardFacts → Option BoardFacts → MessageTrigger → Bool
is_filtered (some card) (some board) trigger =
    not (passes_priority trigger.priority_value (level_for board.ladder card.priority_value))
is_filtered (some card) none trigger = false
is_filtered none board trigger = false

module _ (around : Surroundings) (event : CardEvent) (board : String) where
  deliver_rendered-RecordsFor :
      (trigger : MessageTrigger) (rendered : Option String) (box : Outbox)
      → RecordsFor trigger event box (deliver_rendered around event board trigger rendered box)
  unfolding deliver_rendered deliver_message delivery_of
  deliver_rendered-RecordsFor trigger none box =
      record_unsent-Records around trigger event board _ _ _ box
  deliver_rendered-RecordsFor trigger (some message) box =
      elim (Bool-cases (trim_space message =? "")) [
        | inl e ↦ rw e (record_unsent-Records around trigger event board _ _ _ box)
        | inr e ↦ rw e (elim (Option-cases around.sender) [
          | inl f ↦
              rw (f, deliver_message) (record_unsent-Records around trigger event board _ _ _ box)
          | inr (send, f) ↦ rw (f, deliver_message) (send_if_claimed-Records _ send box)
        ])
      ]

  -- One candidate: rows are kept and, unless it is passed over, it has a row.
  fire_candidate-records :
      (card : Option CardFacts) (facts : Option BoardFacts) (trigger : MessageTrigger)
      (box : Outbox)
      → Grows box (fire_candidate around event board card facts trigger box)
        × ((is_filtered card facts trigger ≡ true)
            ⊎ IsRecorded trigger.id event.id
                (fire_candidate around event board card facts trigger box))
  unfolding fire_candidate deliver delivery_of
  fire_candidate-records (some card) (some facts) trigger box =
      elim (Bool-cases
        (passes_priority trigger.priority_value (level_for facts.ladder card.priority_value))) [
          | inl e ↦
              let (grows, own) =
                deliver_rendered-RecordsFor trigger
                  (around.render trigger.message_template (fields_of around event board card facts))
                  box in
              rw e (grows, inr own)
          | inr e ↦ rw e ((λ t e' h. h), inl refl)
        ]
  fire_candidate-records (some card) none trigger box =
      let (grows, own) = record_unsent-Records around trigger event board _ _ _ box in
      (grows, inr own)
  fire_candidate-records none facts trigger box =
      let (grows, own) = record_unsent-Records around trigger event board _ _ _ box in
      (grows, inr own)

  fire_candidates-records :
      (triggers : List MessageTrigger) (card : Option CardFacts) (facts : Option BoardFacts)
      (box : Outbox)
      → Grows box (fire_candidates around event board card facts triggers box)
        × All
            (λ t.
              (is_filtered card facts t ≡ true)
              ⊎ IsRecorded t.id event.id
                  (fire_candidates around event board card facts triggers box))
            triggers
  unfolding fire_candidates
  fire_candidates-records [] card facts box = ((λ t e h. h), tt)
  fire_candidates-records (trigger ∷ triggers) card facts box =
      let (grows, own) = fire_candidate-records card facts trigger box in
      let (later, others) =
        fire_candidates-records triggers card facts
          (fire_candidate around event board card facts trigger box) in
      (
        (λ t e h. later t e (grows t e h)),
        (elim own [ inl f ↦ inl f | inr r ↦ inr (later trigger.id event.id r) ], others),
      )

  fire_board-Grows :
      (triggers : Option (List MessageTrigger)) (box : Outbox)
      → Grows box (fire_board around event board triggers box)
  unfolding fire_board
  fire_board-Grows none box = λ t e h. h
  fire_board-Grows (some triggers) box =
      (fire_candidates-records (keep (is_candidate event) triggers) _ _ box).0

module _ (around : Surroundings) (event : CardEvent) where
  -- What every candidate of a board's triggers ends with.
  abbrev pub AreRecorded : String → List MessageTrigger → Outbox → Type 0
  AreRecorded board triggers box =
      All
        (λ t.
          (is_filtered (around.load_card event.card_id) (around.load_board board event) t ≡ true)
          ⊎ IsRecorded t.id event.id box)
        (keep (is_candidate event) triggers)

  AreRecorded-Grows :
      (board : String) (triggers : List MessageTrigger) (before after : Outbox)
      → Grows before after
      → AreRecorded board triggers before
      → AreRecorded board triggers after
  AreRecorded-Grows board triggers before after grows h =
      All-imp (keep (is_candidate event) triggers)
        (λ t r. elim r [ inl f ↦ inl f | inr own ↦ inr (grows t.id event.id own) ]) h

  fire_boards-Grows :
      (boards : List String) (box : Outbox) → Grows box (fire_boards around event boards box)
  unfolding fire_boards
  fire_boards-Grows [] box = λ t e h. h
  fire_boards-Grows (b ∷ boards) box = λ t e h.
      fire_boards-Grows boards (fire_board around event b (around.triggers_of b) box) t e
        (fire_board-Grows around event b (around.triggers_of b) box t e h)

  fire_boards-AreRecorded :
      (boards : List String) (board : String) (triggers : List MessageTrigger) (box : Outbox)
      → SomeOf (λ x. x ≡ board) boards
      → around.triggers_of board ≡ some triggers
      → AreRecorded board triggers (fire_boards around event boards box)
  unfolding fire_boards fire_board
  fire_boards-AreRecorded [] board triggers box member found = absurd member
  fire_boards-AreRecorded (b ∷ boards) board triggers box (inl same) found =
      let here = fire_board around event b (around.triggers_of b) box in
      AreRecorded-Grows board triggers here (fire_boards around event boards here)
        (fire_boards-Grows boards here)
        (rw (same, found)
          (fire_candidates-records around event board (keep (is_candidate event) triggers)
            (around.load_card event.card_id) (around.load_board board event) box).1)
  fire_boards-AreRecorded (b ∷ boards) board triggers box (inr later) found =
      fire_boards-AreRecorded boards board triggers _ later found

  -- After an event of a kind that triggers read has been fired, each trigger of a board that the event
  -- is matched against, which is for its kind and its column, has a row for the event, whether it was
  -- sent, failed or found no sender, unless it is passed over for the card's rung.
  pub fire_triggers_for-AreRecorded :
      (boards : List String) (board : String) (triggers : List MessageTrigger) (box : Outbox)
      → is_message_trigger_event_kind event.kind ≡ true
      → boards_of around event ≡ some boards
      → SomeOf (λ x. x ≡ board) boards
      → around.triggers_of board ≡ some triggers
      → AreRecorded board triggers (fire_triggers_for around event box)
  unfolding fire_triggers_for fire_found
  fire_triggers_for-AreRecorded boards board triggers box kind on member found =
      subst (λ b. AreRecorded board triggers b) {x = fire_boards around event boards box}
        {y = fire_triggers_for around event box} (ground arith)
        (fire_boards-AreRecorded boards board triggers box member found)
