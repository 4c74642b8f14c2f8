-- ===== src/Tickets/Rows.antt =====
-- The ticket of a card and its vocabulary (internal/db/ticket.go, internal/model/ticket.go).
-- `strings.ToLower` is an argument.
use kanban_store.Prelude.{
  ℕ, zero, suc, String, Bool, true, ◌&&◌, ◌||◌, not, List, [], ◌∷◌, ◌++◌, Option, none, some, ltb,
  ◌==◌, if◌then◌else◌, is_some, find, keep, update_where,
}
use kanban_store.Prelude.Text.{◌=?◌, contains, text_lt, trim_space}
use kanban_store.Prelude.Sort.{sort_stable}
use kanban_store.Timeline.Events.{Time, CardEvent}
use kanban_store.Boards.Tables.{Column, Placement}

pub record Ticket : Type 0 where
  pub card_id : String
  pub requester_principal_id : String
  pub channel : String
  pub source_entity_type : String
  pub source_entity_ref : String
  pub created_at : Time
  pub updated_at : Time

-- TicketChannels
abbrev pub ticket_channels : List String
ticket_channels = "email" ∷ "portal" ∷ "chat" ∷ "phone" ∷ "agent" ∷ []

-- TicketLifecycleStates
abbrev pub ticket_lifecycle_states : List String
ticket_lifecycle_states = "new" ∷ "open" ∷ "waiting_on_requester" ∷ "resolved" ∷ "closed" ∷ []

unfoldable pub normalized : (String → String) → List String → String → Option String
normalized to_lower words raw =
    let key = to_lower (trim_space raw) in if contains words key then some key else none

-- NormalizeTicketChannel
unfoldable pub normalize_ticket_channel : (String → String) → String → Option String
normalize_ticket_channel to_lower raw = normalized to_lower ticket_channels raw

-- NormalizeTicketLifecycleState
unfoldable pub normalize_ticket_lifecycle_state : (String → String) → String → Option String
normalize_ticket_lifecycle_state to_lower raw = normalized to_lower ticket_lifecycle_states raw

pub data TicketError : Type 0 where
  not_found source_conflict : TicketError

pub data TicketReply (A : Type 0) : Type 0 where
  refused : TicketError → TicketReply A
  done : List Ticket → A → TicketReply A

abbrev pub of_card : String → Ticket → Bool
of_card card_id t = t.card_id =? card_id

-- GetTicket
unfoldable pub get_ticket : List Ticket → String → Option Ticket
get_ticket tickets card_id = find (of_card card_id) tickets

-- The arguments of UpsertTicket
pub record TicketWrite : Type 0 where
  pub now : Time
  pub card_id : String
  pub requester_principal_id : String
  pub channel : String
  pub source_entity_type : String
  pub source_entity_ref : String

unfoldable pub new_ticket : TicketWrite → Ticket
new_ticket w = record {
  card_id = w.card_id;
  requester_principal_id = w.requester_principal_id;
  channel = w.channel;
  source_entity_type = w.source_entity_type;
  source_entity_ref = w.source_entity_ref;
  created_at = w.now;
  updated_at = w.now;
}

-- `DO UPDATE SET`
unfoldable pub rewritten : TicketWrite → Ticket → Ticket
rewritten w t = record t {
  requester_principal_id = w.requester_principal_id;
  channel = w.channel;
  source_entity_type =
      if t.source_entity_type =? "" then w.source_entity_type else t.source_entity_type;
  source_entity_ref =
      if t.source_entity_type =? "" then w.source_entity_ref else t.source_entity_ref;
  updated_at = w.now;
}

-- `WHERE` of the update
unfoldable pub source_allows : TicketWrite → Ticket → Bool
source_allows w t =
    w.source_entity_type =? ""
    || t.source_entity_type =? ""
    || (t.source_entity_type =? w.source_entity_type && t.source_entity_ref =? w.source_entity_ref)

-- The row that is read back after the write
abbrev pub read_back : List Ticket → Option Ticket → TicketReply Ticket
read_back tickets none = refused not_found
read_back tickets (some t) = done tickets t

unfoldable pub write_over : TicketWrite → List Ticket → Option Ticket → TicketReply Ticket
write_over w tickets none =
    let after = tickets ++ (new_ticket w ∷ []) in read_back after (get_ticket after w.card_id)
write_over w tickets (some t) =
    let after = update_where (of_card w.card_id) (rewritten w) tickets in
    if source_allows w t
    then read_back after (get_ticket after w.card_id)
    else refused source_conflict

-- UpsertTicket
unfoldable pub upsert_ticket : TicketWrite → List Ticket → TicketReply Ticket
upsert_ticket w tickets = write_over w tickets (get_ticket tickets w.card_id)

-- DeleteTicket
unfoldable pub delete_ticket : String → List Ticket → TicketReply Unit
delete_ticket card_id tickets =
    if is_some (get_ticket tickets card_id)
    then done (keep (λ t. not (of_card card_id t)) tickets) tt
    else refused not_found

-- ListTicketsForCards: a map from the cards that are tickets
unfoldable pub list_tickets_for_cards : List Ticket → List String → String → Option Ticket
list_tickets_for_cards tickets card_ids card_id =
    find (of_card card_id) (keep (λ t. contains card_ids t.card_id) tickets)

pub record TicketListFilter : Type 0 where
  pub channel : String
  pub before : Option Time

abbrev pub is_before : Option Time → Time → Bool
is_before none at = true
is_before (some limit) at = ltb at limit

abbrev pub is_listed : TicketListFilter → Ticket → Bool
is_listed f t = (f.channel =? "" || t.channel =? f.channel) && is_before f.before t.created_at

-- `ORDER BY t.created_at DESC, t.card_id DESC`
unfoldable pub newer : Ticket → Ticket → Bool
newer a b =
    ltb b.created_at a.created_at || (a.created_at == b.created_at && text_lt b.card_id a.card_id)

unfoldable pub at_most : {A : Type 0} → ℕ → List A → List A
at_most zero rows = []
at_most (suc n) [] = []
at_most (suc n) (a ∷ rows) = a ∷ at_most n rows

abbrev pub earlier : Time → Option Time → Option Time
earlier at none = some at
earlier at (some other) = if ltb other at then some other else some at

-- `MIN(e.occurred_at)` of the card's card_created events
unfoldable pub card_created_at : List CardEvent → String → Option Time
card_created_at [] card_id = none
card_created_at (e ∷ log) card_id =
    let rest = card_created_at log card_id in
    if e.card_id =? card_id && e.kind =? "card_created" then earlier e.occurred_at rest else rest

pub record TicketLogEntry : Type 0 where
  pub ticket : Ticket
  pub card_created_at : Option Time

unfoldable pub log_entries : List CardEvent → List Ticket → List TicketLogEntry
log_entries log [] = []
log_entries log (t ∷ tickets) =
    record { ticket = t; card_created_at = card_created_at log t.card_id } ∷ log_entries log tickets

-- ListTickets
unfoldable pub list_tickets :
    List CardEvent → List Ticket → TicketListFilter → ℕ → List TicketLogEntry
list_tickets log tickets f limit =
    log_entries log (at_most limit (sort_stable newer (keep (is_listed f) tickets)))

pub record TicketPlacementState : Type 0 where
  pub board_id : String
  pub column_id : String
  pub column_name : String
  pub lifecycle_state : Option String

abbrev pub known_state : Option String → Option String
known_state none = none
known_state (some state) = if state =? "" then none else some state

abbrev pub with_column :
    {F : Type 0}
    → Placement F
    → Option (Column F)
    → List TicketPlacementState
    → List TicketPlacementState
with_column p none rest = rest
with_column p (some c) rest =
    record {
      board_id = p.board_id;
      column_id = p.column_id;
      column_name = c.name;
      lifecycle_state = known_state c.lifecycle_state;
    }
    ∷ rest

unfoldable pub joined_states :
    {F : Type 0} → List (Column F) → List (Placement F) → List TicketPlacementState
joined_states columns [] = []
joined_states columns (p ∷ placements) =
    with_column p (find (λ c. c.id =? p.column_id) columns) (joined_states columns placements)

-- TicketPlacementStates
unfoldable pub ticket_placement_states :
    {F : Type 0} → List (Column F) → List (Placement F) → String → List TicketPlacementState
ticket_placement_states columns placements card_id =
    sort_stable (λ a b. text_lt a.board_id b.board_id)
      (joined_states columns (keep (λ p. p.card_id =? card_id) placements))

-- lifecycleStateFromRequest, and lifecycleStateValue
unfoldable pub lifecycle_state_from_request : Option String → Option String
lifecycle_state_from_request raw = known_state raw
