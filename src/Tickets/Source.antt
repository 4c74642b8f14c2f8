-- ===== src/Tickets/Source.antt =====
-- A ticket comes from one place (internal/db/ticket.go, UpsertTicket).
use kanban_store.Prelude.{
  String, Bool, true, false, ◌&&◌, not, List, [], ◌∷◌, Option, none, some, if◌then◌else◌, is_some,
  find, find-append, find-keep, find-passes, update_where, ◌≡◌, refl, sym, ap, ◌∙◌, arith,
  Bool-cases, inl, inr,
}
use kanban_store.Prelude.Text.{◌=?◌, text_eq_iff}
use kanban_store.Tickets.Rows.{
  Ticket, TicketWrite, TicketReply, refused, done, of_card, get_ticket, rewritten, source_allows,
  read_back, write_over, upsert_ticket, delete_ticket,
}

pub data TicketCall : Type 0 where
  writes : TicketWrite → TicketCall
  deletes : String → TicketCall

abbrev pub tickets_after : {A : Type 0} → List Ticket → TicketReply A → List Ticket
tickets_after before (refused e) = before
tickets_after before (done after a) = after

unfoldable pub serve_ticket : TicketCall → List Ticket → List Ticket
serve_ticket (writes w) tickets = tickets_after tickets (upsert_ticket w tickets)
serve_ticket (deletes card_id) tickets = tickets_after tickets (delete_ticket card_id tickets)

unfoldable pub serve_tickets : List TicketCall → List Ticket → List Ticket
serve_tickets [] tickets = tickets
serve_tickets (c ∷ calls) tickets = serve_tickets calls (serve_ticket c tickets)

abbrev pub spares : String → TicketCall → Bool
spares card_id (writes w) = true
spares card_id (deletes other) = not (other =? card_id)

-- None of the calls deletes the ticket of the card.
unfoldable pub keeps_ticket : String → List TicketCall → Bool
keeps_ticket card_id [] = true
keeps_ticket card_id (c ∷ calls) = spares card_id c && keeps_ticket card_id calls

-- The card is still a ticket, made at the same time from the same source.
pub record HasSource (t : Ticket) (found : Option Ticket) : Type 0 where
  pub ticket : Ticket
  pub there : found ≡ some ticket
  pub source_entity_type : ticket.source_entity_type ≡ t.source_entity_type
  pub source_entity_ref : ticket.source_entity_ref ≡ t.source_entity_ref
  pub created_at : ticket.created_at ≡ t.created_at

same_source : (t : Ticket) (found : Option Ticket) → found ≡ some t → HasSource t found
same_source t found e = record {
  ticket = t;
  there = e;
  source_entity_type = refl;
  source_entity_ref = refl;
  created_at = refl;
}

rewritten_or_same : TicketWrite → Ticket → Ticket
rewritten_or_same w t = if of_card w.card_id t then rewritten w t else t

find-rewritten :
    (w : TicketWrite) (card_id : String) (tickets : List Ticket) (t : Ticket)
    → find (of_card card_id) tickets ≡ some t
    → find (of_card card_id) (update_where (of_card w.card_id) (rewritten w) tickets)
      ≡ some (rewritten_or_same w t)
unfolding find update_where rewritten_or_same rewritten
find-rewritten w card_id [] t h = absurd (ground arith)
find-rewritten w card_id (u ∷ tickets) t h = elim (Bool-cases (of_card card_id u)) [
  | inl own ↦
      let first : u ≡ t = ground arith in
      elim (Bool-cases (of_card w.card_id u)) [
        | inl e ↦ rw (e, own) (ap some (sym (rw e refl) ∙ ap (rewritten_or_same w) first))
        | inr e ↦ rw (e, own) (ap some (sym (rw e refl) ∙ ap (rewritten_or_same w) first))
      ]
  | inr other ↦ elim (Bool-cases (of_card w.card_id u)) [
    | inl e ↦ rw (e, other) (find-rewritten w card_id tickets t (ground arith))
    | inr e ↦ rw (e, other) (find-rewritten w card_id tickets t (ground arith))
  ]
]

rewritten-HasSource :
    (w : TicketWrite) (t : Ticket) (found : Option Ticket)
    → (t.source_entity_type =? "") ≡ false
    → found ≡ some (rewritten_or_same w t)
    → HasSource t found
unfolding rewritten_or_same rewritten
rewritten-HasSource w t found has e = elim (Bool-cases (of_card w.card_id t)) [
  | inl own ↦ record {
    ticket = rewritten w t;
    there = e ∙ rw own refl;
    source_entity_type = rw has refl;
    source_entity_ref = rw has refl;
    created_at = refl;
  }
  | inr other ↦ same_source t found (e ∙ rw other refl)
]

read_back-HasSource :
    (t : Ticket) (card_id : String) (before after : List Ticket) (o : Option Ticket)
    → HasSource t (get_ticket before card_id)
    → HasSource t (get_ticket after card_id)
    → HasSource t (get_ticket (tickets_after before (read_back after o)) card_id)
read_back-HasSource t card_id before after none h k = h
read_back-HasSource t card_id before after (some u) h k = k

write-HasSource :
    (w : TicketWrite) (tickets : List Ticket) (card_id : String) (t : Ticket) (o : Option Ticket)
    → (t.source_entity_type =? "") ≡ false
    → get_ticket tickets card_id ≡ some t
    → HasSource t (get_ticket (tickets_after tickets (write_over w tickets o)) card_id)
unfolding write_over get_ticket
write-HasSource w tickets card_id t none has there =
    read_back-HasSource t card_id tickets _ _ (same_source t _ there)
      (same_source t _ (find-append (of_card card_id) tickets _ t there))
write-HasSource w tickets card_id t (some u) has there = elim (Bool-cases (source_allows w u)) [
  | inr refuses ↦ rw refuses (same_source t _ there)
  | inl allows ↦ rw allows (
      read_back-HasSource t card_id tickets _ _ (same_source t _ there)
        (rewritten-HasSource w t _ has (find-rewritten w card_id tickets t there)))
]

not_of_other :
    (other card_id : String) (tickets : List Ticket) (t : Ticket)
    → (other =? card_id) ≡ false
    → find (of_card card_id) tickets ≡ some t
    → not (of_card other t) ≡ true
not_of_other other card_id tickets t apart there = elim (Bool-cases (of_card other t)) [
  | inr e ↦ rw e refl
  | inl e ↦
      let own = find-passes (of_card card_id) tickets t there in
      let same : other ≡ card_id =
        sym ((text_eq_iff t.card_id other).0 e) ∙ (text_eq_iff t.card_id card_id).0 own in
      let equal = (text_eq_iff other card_id).1 same in absurd (ground arith)
]

delete-HasSource :
    (other card_id : String) (tickets : List Ticket) (t : Ticket)
    → (other =? card_id) ≡ false
    → get_ticket tickets card_id ≡ some t
    → HasSource t (get_ticket (tickets_after tickets (delete_ticket other tickets)) card_id)
unfolding delete_ticket get_ticket
delete-HasSource other card_id tickets t apart there =
    elim (Bool-cases (is_some (find (of_card other) tickets))) [
      | inr missing ↦ rw missing (same_source t _ there)
      | inl found ↦ rw found (
          same_source t _ (
            find-keep (of_card card_id) (λ u. not (of_card other u)) tickets t there
              (not_of_other other card_id tickets t apart there)))
    ]

serve_ticket-HasSource :
    (c : TicketCall) (tickets : List Ticket) (card_id : String) (t : Ticket)
    → get_ticket tickets card_id ≡ some t
    → (t.source_entity_type =? "") ≡ false
    → spares card_id c ≡ true
    → HasSource t (get_ticket (serve_ticket c tickets) card_id)
unfolding serve_ticket upsert_ticket
serve_ticket-HasSource (writes w) tickets card_id t there has spared =
    write-HasSource w tickets card_id t _ has there
serve_ticket-HasSource (deletes other) tickets card_id t there has spared =
    delete-HasSource other card_id tickets t (ground arith) there

then_HasSource :
    (t : Ticket) {o p : Option Ticket} (one : HasSource t o)
    → HasSource one.ticket p
    → HasSource t p
then_HasSource t one two = record {
  ticket = two.ticket;
  there = two.there;
  source_entity_type = two.source_entity_type ∙ one.source_entity_type;
  source_entity_ref = two.source_entity_ref ∙ one.source_entity_ref;
  created_at = two.created_at ∙ one.created_at;
}

-- Once the ticket of a card has a source, it keeps this source and its time of creation through any
-- writes and any deletions of other cards' tickets, whatever sources the writes name.
pub serve_tickets-HasSource :
    (calls : List TicketCall) (tickets : List Ticket) (card_id : String) (t : Ticket)
    → get_ticket tickets card_id ≡ some t
    → (t.source_entity_type =? "") ≡ false
    → keeps_ticket card_id calls ≡ true
    → HasSource t (get_ticket (serve_tickets calls tickets) card_id)
unfolding serve_tickets keeps_ticket
serve_tickets-HasSource [] tickets card_id t there has keeps = same_source t _ there
serve_tickets-HasSource (c ∷ calls) tickets card_id t there has keeps =
    let one = serve_ticket-HasSource c tickets card_id t there has (ground arith) in
    then_HasSource t one (
      serve_tickets-HasSource calls (serve_ticket c tickets) card_id one.ticket one.there
        (ap (λ x. x =? "") one.source_entity_type ∙ has) (ground arith))
