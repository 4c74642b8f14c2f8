-- ===== src/Messaging/Claims.antt =====
-- The rows that are claimed and what is sent for them: one row and one message for each trigger and
-- event, over a claim and what follows it (internal/messaging/dispatcher.go, claim, recordUnsent and deliver).
use kanban_store.Prelude.{
  String, Bool, false, ◌&&◌, List, [], ◌∷◌, ◌++◌, Option, none, some, ◌≡◌, refl, ◌∙◌, arith,
  Bool-cases, Option-cases, ◌⊎◌, inl, inr, All, All-imp, find, update_where, find-append,
  find-append_none, find-none, IsUnique, IsUnique-insert, IsUnique-update_where,
}
use kanban_store.Prelude.Text.{◌=?◌, text_eq_iff, text_eq_refl}
use kanban_store.Timeline.Events.{CardEvent}
use kanban_store.Messaging.Dispatcher.{
  MessageTrigger, MessageDelivery, MessageDeliveryStatus, DeliveryProblem, Send, Outbox, SendResult,
  Surroundings, claims_key, claim, finish_row, finish_message_delivery, delivery_of, record_unsent,
}
use kanban_store.Messaging.Firing.{add_send, send_claimed, send_if_claimed}

-- Of the same trigger, for the same event.
abbrev pub same_send : Send → Send → Bool
same_send a b = a.trigger_id =? b.trigger_id && a.event_id =? b.event_id

abbrev pub same_delivery : MessageDelivery → MessageDelivery → Bool
same_delivery a b = a.trigger_id =? b.trigger_id && a.event_id =? b.event_id

abbrev pub HasRow : List MessageDelivery → Send → Type 0
HasRow rows s =
    (row : MessageDelivery) × (find (claims_key s.trigger_id s.event_id) rows ≡ some row)

-- Each trigger has sent at most once for an event, and has at most one row for it; and for everything
-- that was sent there is a row.
pub record IsAccounted (box : Outbox) : Type 0 where
  pub sends_once : IsUnique same_send box.sends
  pub rows_once : IsUnique same_delivery box.deliveries
  pub sends_have_rows : All (HasRow box.deliveries) box.sends

pub find-updated :
    {A : Type 0} (q p : A → Bool) (f : A → A) (keeps : (x : A) → q (f x) ≡ q x) (xs : List A)
    (a : A)
    → find q xs ≡ some a
    → (b : A) × (find q (update_where p f xs) ≡ some b)
unfolding find update_where
find-updated q p f keeps [] a h = absurd (ground arith)
find-updated q p f keeps (x ∷ xs) a h = elim (Bool-cases (q x)) [
  | inl e ↦ elim (Bool-cases (p x)) [
    | inl c ↦ (f x, ground (arith, keeps x))
    | inr c ↦ (x, ground arith)
  ]
  | inr e ↦
      let (b, there) = find-updated q p f keeps xs a (ground arith) in (b, ground (arith, keeps x))
]

finish-IsAccounted :
    (id : String) (status : MessageDeliveryStatus) (problem : DeliveryProblem) (room event : String)
    (box : Outbox)
    → IsAccounted box
    → IsAccounted (finish_message_delivery id status problem room event box)
unfolding finish_message_delivery finish_row
finish-IsAccounted id status problem room event box ok = record {
  sends_once = ok.sends_once;
  rows_once =
      IsUnique-update_where same_delivery (λ d. d.id =? id) (finish_row status problem room event)
        box.deliveries (λ x y. refl) (λ x y. refl) ok.rows_once;
  sends_have_rows =
      All-imp box.sends
        (λ s (row, there).
          find-updated (claims_key s.trigger_id s.event_id) (λ d. d.id =? id)
            (finish_row status problem room event) (λ x. refl) box.deliveries row there)
        ok.sends_have_rows;
}

abbrev pub with_row : MessageDelivery → Outbox → Outbox
with_row d box = record { deliveries = box.deliveries ++ (d ∷ []); sends = box.sends }

pub claim-cases :
    (d : MessageDelivery) (box : Outbox)
    → (claim d box ≡ none)
      ⊎ ((claim d box ≡ some (with_row d box))
          × (find (claims_key d.trigger_id d.event_id) box.deliveries ≡ none))
unfolding claim
claim-cases d box = elim (Option-cases (find (claims_key d.trigger_id d.event_id) box.deliveries)) [
  | inr (row, e) ↦ inl (rw (e, claim) refl)
  | inl free ↦ inr (rw (free, claim) refl, free)
]

-- What has a row was not sent for a trigger and an event that have none.
unsent :
    (trigger event : String) (rows : List MessageDelivery) (s : Send)
    → find (claims_key trigger event) rows ≡ none
    → HasRow rows s
    → (trigger =? s.trigger_id && event =? s.event_id) ≡ false
unsent trigger event rows s free (row, there) =
    elim (Bool-cases (trigger =? s.trigger_id && event =? s.event_id)) [
      | inl same ↦
          let triggers = (text_eq_iff trigger s.trigger_id).0 (ground arith) in
          let events = (text_eq_iff event s.event_id).0 (ground arith) in
          let none_there = (rw (triggers, events) at free) in absurd (ground arith)
      | inr other ↦ other
    ]

with_row-IsAccounted :
    (d : MessageDelivery) (box : Outbox)
    → find (claims_key d.trigger_id d.event_id) box.deliveries ≡ none
    → IsAccounted box
    → IsAccounted (with_row d box)
with_row-IsAccounted d box free ok = record {
  sends_once = ok.sends_once;
  rows_once =
      IsUnique-insert same_delivery box.deliveries d (find-none _ box.deliveries free) ok.rows_once;
  sends_have_rows =
      All-imp box.sends (λ s (row, there). (row, find-append _ box.deliveries (d ∷ []) row there))
        ok.sends_have_rows;
}

pub find-own : (d : MessageDelivery) → find (claims_key d.trigger_id d.event_id) (d ∷ []) ≡ some d
unfolding find
find-own d = ground (arith, text_eq_refl d.trigger_id, text_eq_refl d.event_id)

add_send-IsAccounted :
    (d : MessageDelivery) (box : Outbox)
    → find (claims_key d.trigger_id d.event_id) box.deliveries ≡ none
    → IsAccounted box
    → IsAccounted (add_send d (with_row d box))
unfolding add_send
add_send-IsAccounted d box free ok =
    let row_ok = with_row-IsAccounted d box free ok in
    record {
      sends_once = (
        All-imp box.sends (λ s has. unsent d.trigger_id d.event_id box.deliveries s free has)
            ok.sends_have_rows,
        ok.sends_once,
      );
      rows_once = row_ok.rows_once;
      sends_have_rows = (
        (d, find-append_none _ box.deliveries (d ∷ []) free ∙ find-own d),
        row_ok.sends_have_rows,
      );
    }

pub send_if_claimed-IsAccounted :
    (d : MessageDelivery) (send : String → String → Option SendResult) (box : Outbox)
    → IsAccounted box
    → IsAccounted (send_if_claimed d send (claim d box) box)
unfolding send_if_claimed send_claimed
send_if_claimed-IsAccounted d send box ok = elim (claim-cases d box) [
  | inl e ↦ rw (e, send_if_claimed) ok
  | inr (e, free) ↦
      rw (e, send_if_claimed)
        (elim (Option-cases (send d.recipient_user_id d.rendered_message)) [
          | inl f ↦
              rw (f, send_claimed)
                (finish-IsAccounted _ _ _ _ _ _ (add_send-IsAccounted d box free ok))
          | inr (result, f) ↦
              rw (f, send_claimed)
                (finish-IsAccounted _ _ _ _ _ _ (add_send-IsAccounted d box free ok))
        ])
]

pub record_unsent-IsAccounted :
    (around : Surroundings) (trigger : MessageTrigger) (event : CardEvent) (board message : String)
    (status : MessageDeliveryStatus) (problem : DeliveryProblem) (box : Outbox)
    → IsAccounted box
    → IsAccounted (record_unsent around trigger event board message status problem box)
unfolding record_unsent
record_unsent-IsAccounted around trigger event board message status problem box ok =
    let d = delivery_of around trigger event board message status problem in
    elim (claim-cases d box) [
      | inl e ↦ rw (e, record_unsent) ok
      | inr (e, free) ↦ rw (e, record_unsent) (with_row-IsAccounted d box free ok)
    ]
