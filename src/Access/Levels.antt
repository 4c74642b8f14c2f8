-- ===== src/Access/Levels.antt =====
-- Board access levels and the checks built on them (internal/api/principal_access.go,
-- BoardAccessLevel to requireOnCard). A level is the number of its constant; the `levels` map of a
-- principal is an association list, and a board that it does not name is at level 0.
use kanban_store.Prelude.{
  ℕ, String, Bool, true, false, ◌||◌, List, [], ◌∷◌, Option, none, some, ltb, leb, if◌then◌else◌,
}
use kanban_store.Prelude.Text.{◌=?◌}

abbrev pub BoardAccessLevel : Type 0
BoardAccessLevel = ℕ

abbrev pub access_none : BoardAccessLevel
access_none = 0

abbrev pub access_view : BoardAccessLevel
access_view = 1

abbrev pub access_edit : BoardAccessLevel
access_edit = 2

abbrev pub access_administer : BoardAccessLevel
access_administer = 3

-- boardAccessLevelOfRelation
unfoldable pub level_of_relation : String → Option BoardAccessLevel
level_of_relation relation =
    if relation =? "can_view"
    then some access_view
    else if relation =? "can_edit"
    then some access_edit
    else if relation =? "can_administer"
    then some access_administer
    else none

pub record PrincipalBoardAccess : Type 0 where
  pub principal_id : String
  pub levels : List (String × BoardAccessLevel)

unfoldable pub level_at : List (String × BoardAccessLevel) → String → BoardAccessLevel
level_at [] board_id = access_none
level_at ((b, level) ∷ rest) board_id = if b =? board_id then level else level_at rest board_id

-- `levels[board_id] = level`
unfoldable pub set_level :
    List (String × BoardAccessLevel) → String → BoardAccessLevel → List (String × BoardAccessLevel)
set_level [] board_id level = (board_id, level) ∷ []
set_level ((b, old) ∷ rest) board_id level =
    if b =? board_id then (b, level) ∷ rest else (b, old) ∷ set_level rest board_id level

unfoldable pub level_on : PrincipalBoardAccess → String → BoardAccessLevel
level_on access board_id = level_at access.levels board_id

-- levelOnCard: the loop over the card's boards, with its two variables.
unfoldable pub level_loop :
    PrincipalBoardAccess → Bool → BoardAccessLevel → List String → Bool × BoardAccessLevel
level_loop access seen lowest [] = (seen, lowest)
level_loop access seen lowest (b ∷ boards) =
    level_loop access (leb access_view (level_on access b) || seen)
      (if ltb (level_on access b) lowest then level_on access b else lowest) boards

unfoldable pub level_on_card : PrincipalBoardAccess → List String → BoardAccessLevel
unfolding level_loop
level_on_card access board_ids =
    let (seen, lowest) = level_loop access false access_administer board_ids in
    if seen then if ltb lowest access_view then access_view else lowest else access_none

-- Why a request is refused. The source writes these as sentences; the status is what clients read.
pub data Reason : Type 0 where
  not_found : Reason
  needs_level : BoardAccessLevel → Reason
  operator_only publisher_only no_entity_tag_rule no_tag_listing_rule no_rule : Reason
  not_a_principal_id unknown_principal principal_unreadable disabled_principal : Reason
  grants_unknown_principal grants_unreadable : Reason
  token_mismatch no_caller : Reason

pub record AccessRefusal : Type 0 where
  pub status : ℕ
  pub reason : Reason

abbrev pub refuse_unseen : AccessRefusal
refuse_unseen = record { status = 404; reason = not_found }

abbrev pub refuse_below : BoardAccessLevel → AccessRefusal
refuse_below needed = record { status = 403; reason = needs_level needed }

-- `none` lets the request go on.
unfoldable pub require_on_board :
    PrincipalBoardAccess → String → BoardAccessLevel → Option AccessRefusal
require_on_board access board_id needed =
    if ltb (level_on access board_id) access_view
    then some refuse_unseen
    else if ltb (level_on access board_id) needed
    then some (refuse_below needed)
    else none

-- requireOnCard, once the card's boards are read.
unfoldable pub require_on_boards_of_card :
    PrincipalBoardAccess → List String → BoardAccessLevel → Option AccessRefusal
require_on_boards_of_card access board_ids needed =
    if ltb (level_on_card access board_ids) access_view
    then some refuse_unseen
    else if ltb (level_on_card access board_ids) needed
    then some (refuse_below needed)
    else none

-- cardVisibleTo: `none` is a request that no rule binds.
unfoldable pub card_visible_to : Option PrincipalBoardAccess → List String → Bool
card_visible_to none board_ids = true
card_visible_to (some access) [] = false
card_visible_to (some access) (b ∷ boards) =
    leb access_view (level_on access b) || card_visible_to (some access) boards
