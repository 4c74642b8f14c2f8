-- ===== src/Log/Pages.antt =====
-- A column's cards, filtered and paged (internal/db/activity.go, CardFilter, cardFilterConditions,
-- CountColumnCardsMatching and ListPlacementsByColumnMatching). How positions compare is an argument.
use kanban_store.Prelude.{
  ℕ, zero, suc, String, Bool, ◌&&◌, ◌||◌, not, List, [], ◌∷◌, ltb, is_some, find, keep, length,
}
use kanban_store.Prelude.Text.{◌=?◌}
use kanban_store.Prelude.Sort.{sort_stable}
use kanban_store.Boards.Tables.{Floats, Placement}
use kanban_store.Boards.Assignments.{CardAssignment}
use kanban_store.Tickets.Rows.{Ticket, at_most}

pub record CardFilter : Type 0 where
  pub card_id : String
  pub assignee_principal_id : String
  pub unassigned : Bool
  pub tickets_only : Bool
  pub requester_principal_id : String
  pub channel : String

-- The rows that the conditions look into
pub record FilterTables : Type 0 where
  pub assignments : List CardAssignment
  pub tickets : List Ticket

abbrev pub is_ticket_of : CardFilter → String → Ticket → Bool
is_ticket_of f card_id t =
    t.card_id =? card_id
    && (f.requester_principal_id =? "" || t.requester_principal_id =? f.requester_principal_id)
    && (f.channel =? "" || t.channel =? f.channel)

abbrev pub asks_for_tickets : CardFilter → Bool
asks_for_tickets f = f.tickets_only || not (f.requester_principal_id =? "") || not (f.channel =? "")

-- cardFilterConditions
unfoldable pub passes_filter : FilterTables → CardFilter → String → Bool
passes_filter tables f card_id =
    (f.card_id =? "" || card_id =? f.card_id)
    && (f.assignee_principal_id =? ""
        || is_some (
            find (λ a. a.card_id =? card_id && a.principal_id =? f.assignee_principal_id)
              tables.assignments))
    && (not f.unassigned || not (is_some (find (λ a. a.card_id =? card_id) tables.assignments)))
    && (not (asks_for_tickets f) || is_some (find (is_ticket_of f card_id) tables.tickets))

unfoldable pub skip : {A : Type 0} → ℕ → List A → List A
skip zero rows = rows
skip (suc n) [] = []
skip (suc n) (a ∷ rows) = skip n rows

-- `LIMIT ? OFFSET ?`, and no limit for 0
unfoldable pub page_of : {A : Type 0} → ℕ → ℕ → List A → List A
page_of zero offset rows = rows
page_of (suc limit) offset rows = at_most (suc limit) (skip offset rows)

module _ {F : Type 0} (floats : Floats F) where
  -- `ORDER BY p.position ASC, p.created_at ASC`
  unfoldable pub stored_before : Placement F → Placement F → Bool
  stored_before p q =
      floats.above q.position p.position
      || (not (floats.above p.position q.position) && ltb p.created_at q.created_at)

  abbrev pub in_column : FilterTables → CardFilter → String → Placement F → Bool
  in_column tables f column_id p = p.column_id =? column_id && passes_filter tables f p.card_id

  -- CountColumnCardsMatching
  unfoldable pub count_column_cards_matching :
      FilterTables → CardFilter → String → List (Placement F) → ℕ
  count_column_cards_matching tables f column_id rows =
      length (keep (in_column tables f column_id) rows)

  -- ListPlacementsByColumnMatching
  unfoldable pub list_placements_by_column_matching :
      FilterTables → CardFilter → String → ℕ → ℕ → List (Placement F) → List (Placement F)
  list_placements_by_column_matching tables f column_id limit offset rows =
      page_of limit offset (sort_stable stored_before (keep (in_column tables f column_id) rows))
