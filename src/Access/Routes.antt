-- ===== src/Access/Routes.antt =====
-- The route table (internal/api/principal_access.go, authorizeRequest). A path is matched by its
-- parts between slashes, which is what HasPrefix and Split give for the prefixes of the table. The
-- reads of the store are arguments.
use kanban_store.Prelude.{String, ◌&&◌, ◌||◌, List, [], ◌∷◌, Option, none, some, ltb, if◌then◌else◌}
use kanban_store.Prelude.Text.{◌=?◌, contains, split_on}
use kanban_store.Access.Levels.{
  BoardAccessLevel, PrincipalBoardAccess, level_on, AccessRefusal, Reason, operator_only,
  publisher_only, no_entity_tag_rule, no_tag_listing_rule, no_rule, access_view, access_edit,
  access_administer, refuse_unseen, require_on_board, require_on_boards_of_card,
}

pub record Request : Type 0 where
  pub method : String
  pub path : String
  -- r.URL.Query().Get("board_id")
  pub board_id_query : String

-- A read of one record, with ErrNotFound and any other error.
pub data Read {ℓ} (A : Type ℓ) : Type ℓ where
  found : A → Read A
  missing failed : Read A

pub record StoreReads : Type 0 where
  -- boardIDsOfCard; `none` is a database error
  pub boards_of_card : String → Option (List String)
  -- GetColumn(id).BoardID
  pub board_of_column : String → Read String
  pub card_of_link : String → Read String
  pub card_of_note : String → Read String
  -- GetMessageTrigger(id).BoardID
  pub board_of_trigger : String → Read String

pub data Decision : Type 0 where
  allowed : Decision
  refused : AccessRefusal → Decision
  read_error : Decision

abbrev pub decision_of : Option AccessRefusal → Decision
decision_of none = allowed
decision_of (some refusal) = refused refusal

abbrev forbidden : Reason → Decision
forbidden why = refused (record { status = 403; reason = why })

-- `name` and the parts behind "/api/<name>/"; no parts for "/api/<name>" itself.
pub data Route : Type 0 where
  collection : String → Route
  member : String → List String → Route
  other_path : Route

abbrev route_of_parts : List String → Route
route_of_parts (lead ∷ api ∷ name ∷ []) =
    if lead =? "" && api =? "api" then collection name else other_path
route_of_parts (lead ∷ api ∷ name ∷ part ∷ parts) =
    if lead =? "" && api =? "api" then member name (part ∷ parts) else other_path
route_of_parts (lead ∷ api ∷ []) = other_path
route_of_parts (lead ∷ []) = other_path
route_of_parts [] = other_path

unfoldable pub route_of : String → Route
unfolding split_on
route_of path = route_of_parts (split_on b'/' path)

-- What the inner switch of "/api/boards/" decides.
pub data BoardRule : Type 0 where
  needs : BoardAccessLevel → BoardRule
  attaching : String → BoardRule
  publishing unknown_section : BoardRule

-- A POST below "classification": publishing a decision, reviewing one, or anything else.
classification_post_rule : List String → BoardRule
classification_post_rule (part ∷ []) =
    if part =? "decisions" then publishing else needs access_administer
classification_post_rule (part ∷ decision ∷ last ∷ []) =
    if part =? "decisions" && last =? "reviews" then needs access_edit else needs access_administer
classification_post_rule [] = needs access_administer
classification_post_rule (part ∷ decision ∷ []) = needs access_administer
classification_post_rule (part ∷ decision ∷ last ∷ extra ∷ rest) = needs access_administer

unfoldable pub classification_rule : String → List String → BoardRule
unfolding classification_post_rule
classification_rule method more =
    if method =? "GET"
    then needs access_view
    else if method =? "POST"
    then classification_post_rule more
    else needs access_administer

unfoldable pub cards_rule : String → List String → BoardRule
cards_rule method more =
    let plain = needs (if method =? "GET" then access_view else access_edit) in
    elim more [ [] ↦ plain | card ∷ rest ↦ if method =? "PUT" then attaching card else plain ]

abbrev read_or_administer : String → BoardRule
read_or_administer method = needs (if method =? "GET" then access_view else access_administer)

-- The parts behind the board's id.
unfoldable pub board_rule : String → List String → BoardRule
board_rule method [] = read_or_administer method
board_rule method (section ∷ more) =
    if section =? "cards"
    then cards_rule method more
    else if contains
        ("card-page" ∷ "columns" ∷ "priority-levels" ∷ "tag-rules" ∷ "effective-defaults" ∷ [])
        section
    then read_or_administer method
    else if section =? "access"
    then read_or_administer method
    else if section =? "message-triggers" || section =? "message-deliveries"
    then needs access_administer
    else if section =? "classification"
    then classification_rule method more
    else unknown_section

-- The vocabularies, "/api/boards", and the lists that their handlers filter.
abbrev pub open_collections : List String
open_collections =
    "entity-types" ∷ "message-trigger-options" ∷ "ticket-channels" ∷ "ticket-lifecycle-states"
    ∷ "note-visibilities" ∷ "assignment-strategies" ∷ "work-states" ∷ "boards" ∷ "assignments"
    ∷ "search" ∷ "tickets" ∷ "bulk-card-commands" ∷ []

module _ (reads : StoreReads) (access : PrincipalBoardAccess) where
  -- requireOnCard
  unfoldable pub require_on_card : String → BoardAccessLevel → Decision
  require_on_card card_id needed = elim (reads.boards_of_card card_id) [
    | none ↦ read_error
    | some board_ids ↦ decision_of (require_on_boards_of_card access board_ids needed)
  ]

  -- requireOnCardOf
  require_on_card_of : Read String → Decision
  require_on_card_of (found card_id) = require_on_card card_id access_edit
  require_on_card_of missing = refused refuse_unseen
  require_on_card_of failed = read_error

  require_on_board_of : Read String → BoardAccessLevel → Decision
  require_on_board_of (found board_id) needed =
      decision_of (require_on_board access board_id needed)
  require_on_board_of missing needed = refused refuse_unseen
  require_on_board_of failed needed = read_error

  after : Option AccessRefusal → Decision → Decision
  after none next = next
  after (some refusal) next = refused refusal

  unfoldable pub apply_board_rule : String → BoardRule → Decision
  unfolding after
  apply_board_rule board_id (needs level) = decision_of (require_on_board access board_id level)
  apply_board_rule board_id (attaching card) =
      after (require_on_board access board_id access_edit) (require_on_card card access_view)
  apply_board_rule board_id publishing =
      if ltb (level_on access board_id) access_view
      then refused refuse_unseen
      else forbidden publisher_only
  apply_board_rule board_id unknown_section = refused refuse_unseen

  -- "/api/cards/": the board that the query names must be visible too.
  unfoldable pub authorize_card : Request → String → Decision
  unfolding after
  authorize_card r card_id =
      after
        (if r.board_id_query =? ""
          then none
          else require_on_board access r.board_id_query access_view)
        (require_on_card card_id (if r.method =? "GET" then access_view else access_edit))

  entities_decision : String → List String → Decision
  entities_decision method (kind ∷ ref ∷ part ∷ []) =
      if part =? "cards" && method =? "GET" then allowed else forbidden no_entity_tag_rule
  entities_decision method parts = forbidden no_entity_tag_rule

  unfoldable pub authorize_member : Request → String → String → List String → Decision
  unfolding require_on_board_of require_on_card_of entities_decision
  authorize_member r name part parts =
      if name =? "boards"
      then apply_board_rule part (board_rule r.method parts)
      else if name =? "columns"
      then require_on_board_of (reads.board_of_column part)
          (if r.method =? "GET" then access_view else access_administer)
      else if name =? "cards"
      then authorize_card r part
      else if name =? "links"
      then require_on_card_of (reads.card_of_link part)
      else if name =? "notes"
      then require_on_card_of (reads.card_of_note part)
      else if name =? "message-triggers"
      then require_on_board_of (reads.board_of_trigger part) access_administer
      else if name =? "entities"
      then entities_decision r.method (part ∷ parts)
      else forbidden no_rule

  authorize_collection : String → Decision
  authorize_collection name =
      if contains open_collections name
      then allowed
      else if name =? "tags"
      then forbidden no_tag_listing_rule
      else forbidden no_rule

  unfoldable pub authorize_route : Request → Route → Decision
  unfolding authorize_collection
  authorize_route r (collection name) = authorize_collection name
  authorize_route r (member name []) = forbidden no_rule
  authorize_route r (member name (part ∷ parts)) = authorize_member r name part parts
  authorize_route r other_path = forbidden no_rule

  unfoldable pub authorize_request : Request → Decision
  authorize_request r =
      if r.path =? "/settings" then forbidden operator_only else authorize_route r (route_of r.path)
