-- ===== src/Bulk/Commands.antt =====
-- One command on many cards (internal/api/bulk_card_commands.go, internal/model/bulk.go). How one
-- request for a card is served, by authorizeRequest and the routes, is an argument, with the state it
-- changes; so are the test of a principal's id, the escaping of a path's part, the addition of an
-- index to a position and the decoding of a card that was read.
use Prim.Native.Char.{code}
use kanban_store.Prelude.{
  ℕ, String, Bool, true, false, ◌&&◌, ◌||◌, not, List, [], ◌∷◌, ◌++◌, Option, none, some, ltb, ◌==◌,
  length, if◌then◌else◌, is_some, keep,
}
use kanban_store.Prelude.Text.{◌=?◌, ◌<>◌, contains, text_lt, trim_space}
use kanban_store.Prelude.Sort.{sort_stable}
use kanban_store.Boards.Placing.{MoveCardRequest}

-- BulkCardCommands
abbrev pub bulk_card_commands : List String
bulk_card_commands =
    "move" ∷ "assign" ∷ "unassign" ∷ "hold" ∷ "unhold" ∷ "add_tags" ∷ "remove_tags" ∷ []

-- MaxBulkCardCommandCards
abbrev pub max_bulk_card_command_cards : ℕ
max_bulk_card_command_cards = 200

pub record BulkCardCommandRequest (F : Type 0) : Type 0 where
  pub card_ids : List String
  pub command : String
  pub move : Option (MoveCardRequest F)
  pub principal_id : String
  pub reason : String
  pub tags : List String

pub data BulkError : Type 0 where
  card_ids_required card_ids_too_many not_a_card_id card_id_twice command_unknown field_needed
        field_not_read move_invalid principal_id_invalid tag_invalid :
      BulkError

unfoldable pub has_slash : String → Bool
has_slash String.[] = false
has_slash (String.◌∷◌ c rest) = code c == 47 || has_slash rest

unfoldable pub check_card_ids : List String → List String → Option BulkError
check_card_ids seen [] = none
check_card_ids seen (id ∷ ids) =
    let rest = check_card_ids (id ∷ seen) ids in
    if id =? "" || has_slash id
    then some not_a_card_id
    else if contains seen id
    then some card_id_twice
    else rest

-- The map `reads`: the field a command reads, and whether it must be there
unfoldable pub field_read : String → Option (String × Bool)
field_read command =
    if command =? "move"
    then some ("move", true)
    else if command =? "assign" || command =? "unassign"
    then some ("principal_id", true)
    else if command =? "hold"
    then some ("reason", false)
    else if command =? "unhold"
    then some ("", false)
    else if command =? "add_tags" || command =? "remove_tags"
    then some ("tags", true)
    else none

-- The map `set`
unfoldable pub is_set : {F : Type 0} → BulkCardCommandRequest F → String → Bool
is_set r field =
    (field =? "move" && is_some r.move)
    || (field =? "principal_id" && not (r.principal_id =? ""))
    || (field =? "reason" && not (r.reason =? ""))
    || (field =? "tags" && ltb 0 (length r.tags))

abbrev is_surplus : {F : Type 0} → BulkCardCommandRequest F → String → String → Bool
is_surplus r read field = is_set r field && not (field =? read)

unfoldable pub check_fields :
    {F : Type 0} → BulkCardCommandRequest F → Option (String × Bool) → Option BulkError
check_fields r none = some command_unknown
check_fields r (some (read, required)) =
    if required && not (is_set r read)
    then some field_needed
    else if is_surplus r read "move"
        || is_surplus r read "principal_id"
        || is_surplus r read "reason"
        || is_surplus r read "tags"
    then some field_not_read
    else none

-- MoveCardRequest.Validate
unfoldable pub move_fails : {F : Type 0} → Option (MoveCardRequest F) → Bool
move_fails none = false
move_fails (some m) = m.board_id =? "" || m.column_id =? ""

unfoldable pub has_bad_tag : List String → Bool
has_bad_tag [] = false
has_bad_tag (tag ∷ tags) = trim_space tag =? "" || not (tag =? trim_space tag) || has_bad_tag tags

abbrev pub or_error : Option BulkError → Option BulkError → Option BulkError
or_error none next = next
or_error (some e) next = some e

abbrev check_values : {F : Type 0} → (String → Bool) → BulkCardCommandRequest F → Option BulkError
check_values id_shape r =
    if move_fails r.move
    then some move_invalid
    else if not (r.principal_id =? "") && not (id_shape r.principal_id)
    then some principal_id_invalid
    else if has_bad_tag r.tags
    then some tag_invalid
    else none

-- validateBulkCardCommandRequest
unfoldable pub validate_bulk_card_command_request :
    {F : Type 0} → (String → Bool) → BulkCardCommandRequest F → Option BulkError
validate_bulk_card_command_request id_shape r =
    if length r.card_ids == 0
    then some card_ids_required
    else if ltb max_bulk_card_command_cards (length r.card_ids)
    then some card_ids_too_many
    else or_error (check_card_ids [] r.card_ids)
        (or_error (check_fields r (field_read r.command)) (check_values id_shape r))

-- `named`, a set
unfoldable pub distinct : List String → List String
distinct [] = []
distinct (tag ∷ tags) = let rest = distinct tags in if contains tags tag then rest else tag ∷ rest

-- `kept`: the tags that changeTagsOfCard writes, from those named and those read
unfoldable pub changed_tags : Bool → List String → List String → List String
changed_tags adding named held =
    if adding
    then held ++ sort_stable text_lt (keep (λ tag. not (contains held tag)) (distinct named))
    else keep (λ tag. not (contains named tag)) held

pub data SingleBody (F : Type 0) : Type 0 where
  no_body : SingleBody F
  a_move : MoveCardRequest F → SingleBody F
  a_reason : String → SingleBody F
  the_tags : List String → SingleBody F

pub record SingleRequest (F : Type 0) : Type 0 where
  pub method : String
  pub path : String
  pub if_match : Option String
  pub body : SingleBody F

pub record Answer : Type 0 where
  pub status : ℕ
  pub body : String

pub record ItemDetail : Type 0 where
  pub tags : List String
  pub updated_at : String

-- What a body that was read decodes to
pub data Detail : Type 0 where
  undecodable no_item : Detail
  an_item : ItemDetail → Detail

pub record Outside (F S : Type 0) : Type 0 where
  pub serve : SingleRequest F → S → S × Answer
  pub escape : String → String
  pub plus_index : F → ℕ → F
  pub detail_of : String → Detail
  pub error_body : String → String

-- The header that makes a write conditional
abbrev pub if_match_of : String → Option String
if_match_of updated_at = if updated_at =? "" then none else some ("\"" <> (updated_at <> "\""))

abbrev write_tags :
    {F S : Type 0} → Outside F S → String → Bool → List String → Detail → S → S × Answer
write_tags o path adding named undecodable s =
    (s, record { status = 500; body = o.error_body "could not read the card's tags" })
write_tags o path adding named no_item s =
    (s, record { status = 404; body = o.error_body "the card's noteboard item is gone" })
write_tags o path adding named (an_item item) s =
    o.serve
      (record {
        method = "PATCH";
        path = path;
        if_match = if_match_of item.updated_at;
        body = the_tags (changed_tags adding named item.tags);
      })
      s

-- changeTagsOfCard
unfoldable pub change_tags_of_card :
    {F S : Type 0} → Outside F S → String → Bool → List String → S → S × Answer
change_tags_of_card o path adding named s =
    let (after, read) =
      o.serve (record { method = "GET"; path = path; if_match = none; body = no_body }) s in
    if read.status == 200
    then write_tags o path adding named (o.detail_of read.body) after
    else (after, read)
