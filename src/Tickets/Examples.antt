-- ===== src/Tickets/Examples.antt =====
-- Tickets at concrete inputs (internal/db/ticket.go).
use kanban_store.Prelude.{String, List, [], ◌∷◌, find, refl}
use kanban_store.Tickets.Rows.{Ticket, TicketWrite, get_ticket}
use kanban_store.Tickets.Source.{
  TicketCall, writes, deletes, keeps_ticket, serve_tickets, HasSource, serve_tickets-HasSource,
}

abbrev by_mail : Ticket
by_mail = record {
  card_id = "k";
  requester_principal_id = "eve";
  channel = "email";
  source_entity_type = "email";
  source_entity_ref = "m1";
  created_at = 1;
  updated_at = 1;
}

abbrev from : String → String → TicketWrite
from entity_type ref = record {
  now = 5;
  card_id = "k";
  requester_principal_id = "bob";
  channel = "chat";
  source_entity_type = entity_type;
  source_entity_ref = ref;
}

abbrev calls : List TicketCall
calls = writes (from "" "") ∷ writes (from "chat" "r7") ∷ deletes "m" ∷ []

serve_tickets-HasSource_example :
    HasSource by_mail (get_ticket (serve_tickets calls (by_mail ∷ [])) "k")
unfolding get_ticket find keeps_ticket
serve_tickets-HasSource_example =
    serve_tickets-HasSource calls (by_mail ∷ []) "k" by_mail refl refl refl
