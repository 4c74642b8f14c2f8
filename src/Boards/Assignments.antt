-- ===== src/Boards/Assignments.antt =====
-- Who is assigned to a card: AssignPrincipalToCard, GetCardAssignment and UnassignPrincipalFromCard of
-- internal/db/db.go, on the table of assignments.
use kanban_store.Prelude.{
  ℕ, String, Bool, true, false, ◌&&◌, not, List, [], ◌∷◌, ◌++◌, Option, none, some, ◌≡◌, refl, sym,
  ◌∙◌, arith, if◌then◌else◌, Bool-cases, Option-cases, inl, inr, find, find-append_none, keep,
  is_some,
}
use kanban_store.Prelude.Text.{◌=?◌, text_eq_iff, text_eq_refl}
use kanban_store.Prelude.Found.{find-insert_other}
use kanban_store.Boards.Consistency.{text_eq_trans, text_eq_sym}
use kanban_store.Boards.Effects.{same_key}

pub record CardAssignment : Type 0 where
  pub card_id : String
  pub principal_id : String
  pub assigned_by : String
  pub created_at : ℕ

abbrev pub assigns : String → String → CardAssignment → Bool
assigns card_id principal_id a = a.card_id =? card_id && a.principal_id =? principal_id

-- GetCardAssignment
unfoldable pub get_card_assignment : String → String → List CardAssignment → Option CardAssignment
get_card_assignment card_id principal_id table = find (assigns card_id principal_id) table

abbrev existing_or :
    List CardAssignment
    → CardAssignment
    → Option CardAssignment
    → List CardAssignment × CardAssignment × Bool
existing_or table candidate none = (table ++ (candidate ∷ []), candidate, true)
existing_or table candidate (some existing) = (table, existing, false)

-- AssignPrincipalToCard: the table afterwards, the assignment, and whether this call wrote it
unfoldable pub assign_principal_to_card :
    ℕ → String → String → String → List CardAssignment → List CardAssignment × CardAssignment × Bool
assign_principal_to_card now card_id principal_id assigned_by table =
    existing_or table
      (record {
        card_id = card_id;
        principal_id = principal_id;
        assigned_by = assigned_by;
        created_at = now;
      })
      (get_card_assignment card_id principal_id table)

-- UnassignPrincipalFromCard; `none` is ErrNotFound.
unfoldable pub unassign_principal_from_card :
    String → String → List CardAssignment → Option (List CardAssignment)
unassign_principal_from_card card_id principal_id table =
    if is_some (get_card_assignment card_id principal_id table)
    then some (keep (λ a. not (assigns card_id principal_id a)) table)
    else none

assigns_apart :
    (card principal card' principal' : String) (a : CardAssignment)
    → same_key card principal card' principal' ≡ false
    → assigns card principal a ≡ true
    → assigns card' principal' a ≡ false
assigns_apart card principal card' principal' a other e =
    elim (Bool-cases (assigns card' principal' a)) [
      | inl e' ↦
          let cards =
            text_eq_trans card a.card_id card' (text_eq_sym a.card_id card (ground arith))
              (ground arith) in
          let principals =
            text_eq_trans principal a.principal_id principal'
              (text_eq_sym a.principal_id principal (ground arith)) (ground arith) in
          absurd (ground arith)
      | inr e' ↦ e'
    ]

find-candidate :
    (card principal : String) (a : CardAssignment)
    → (a.card_id =? card) ≡ true
    → (a.principal_id =? principal) ≡ true
    → find (assigns card principal) (a ∷ []) ≡ some a
unfolding find
find-candidate card principal a h k = ground arith

-- What is read at one key and at every other, put together.
read_assigned :
    (card principal card' principal' : String) (here : Option CardAssignment)
    (after before : List CardAssignment)
    → find (assigns card principal) after ≡ here
    → (same_key card principal card' principal' ≡ false
        → find (assigns card' principal') after ≡ find (assigns card' principal') before)
    → find (assigns card' principal') after ≡ (
        if same_key card principal card' principal'
        then here
        else find (assigns card' principal') before)
read_assigned card principal card' principal' here after before at_it elsewhere =
    elim (Bool-cases (same_key card principal card' principal')) [
      | inl e ↦
          let cards = (text_eq_iff card card').0 (ground arith) in
          let principals = (text_eq_iff principal principal').0 (ground arith) in
          rw (e, sym cards, sym principals) at_it
      | inr e ↦ rw e (elsewhere e)
    ]

-- The row that is there, or else the other one
abbrev pub existing_row : Option CardAssignment → CardAssignment → CardAssignment
existing_row none row = row
existing_row (some existing) row = existing

-- Assigning a principal to a card answers with the row that the two have, as it was, or, where they have
-- none, with a new row that names the two, who assigned and the time of the call; it reports a new row
-- exactly then. The row answered is the one that is read for the two afterwards, and every other row
-- is as it was.
pub assign_principal_to_card-get_card_assignment :
    (now : ℕ) (card_id principal_id assigned_by : String) (table : List CardAssignment)
    (card principal : String)
    → ((assign_principal_to_card now card_id principal_id assigned_by table).1
        ≡ existing_row (get_card_assignment card_id principal_id table) (record {
          card_id = card_id;
          principal_id = principal_id;
          assigned_by = assigned_by;
          created_at = now;
        }))
      × ((assign_principal_to_card now card_id principal_id assigned_by table).2
          ≡ not (is_some (get_card_assignment card_id principal_id table)))
      × (get_card_assignment card principal
            (assign_principal_to_card now card_id principal_id assigned_by table).0
          ≡ (if same_key card_id principal_id card principal
              then some (assign_principal_to_card now card_id principal_id assigned_by table).1
              else get_card_assignment card principal table))
unfolding assign_principal_to_card get_card_assignment
assign_principal_to_card-get_card_assignment now card_id principal_id assigned_by table card
      principal =
    let candidate : CardAssignment = record {
      card_id = card_id;
      principal_id = principal_id;
      assigned_by = assigned_by;
      created_at = now;
    } in
    elim (Option-cases (get_card_assignment card_id principal_id table)) [
      | inr (old, there) ↦
          rw (there, existing_or)
            (
              refl,
              refl,
              read_assigned card_id principal_id card principal (some old) table table there
                  (λ other. refl),
            )
      | inl absent ↦
          rw (absent, existing_or)
            (
              refl,
              refl,
              read_assigned card_id principal_id card principal (some candidate)
                  (table ++ (candidate ∷ [])) table
                  (find-append_none (assigns card_id principal_id) table (candidate ∷ []) absent
                    ∙ find-candidate card_id principal_id candidate (text_eq_refl card_id)
                        (text_eq_refl principal_id))
                  (λ other. find-insert_other (assigns card principal) candidate table (
                    assigns_apart card_id principal_id card principal candidate other
                      (ground (arith, text_eq_refl card_id, text_eq_refl principal_id)))),
            )
    ]
