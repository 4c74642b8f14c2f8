-- ===== src/Access/Examples.antt =====
-- Concrete principals, boards and requests for the theorems on access.
use kanban_store.Prelude.{
  ◌≤◌, String, true, false, List, [], ◌∷◌, some, if◌then◌else◌, ◌≡◌, ◌≢◌, refl,
}
use kanban_store.Prelude.Text.{◌=?◌, split_on, strip_prefix, all_digits, text_length}
use kanban_store.Access.Levels.{
  PrincipalBoardAccess, level_at, set_level, level_of_relation, level_on, level_loop, level_on_card,
  access_view, access_edit, require_on_board, require_on_boards_of_card,
}
use kanban_store.Access.Grants.{
  BoardGrant, apply_grants, apply_grant, PrincipalAnswer, principal_found, principal_missing,
  GrantsAnswer, grants_found, matches_principal_id, disabled, board_access_of_principal,
  access_of_answer, access_of_known, access_by_grants,
}
use kanban_store.Access.Routes.{
  Request, StoreReads, missing, allowed, route_of, board_rule, cards_rule, apply_board_rule,
  require_on_card, authorize_card, authorize_member, authorize_route, authorize_request,
}
use kanban_store.Access.Gate.{GateRequest, principal_gate, gate_access}
use kanban_store.Access.CardLevel.{EveryAt}
use kanban_store.Access.GrantLevel.{highest_grant, level_on-apply_grants}
use kanban_store.Access.RouteSafety.{
  authorize_request-board_safe, authorize_request-card_write_safe,
}
use kanban_store.Access.GateSafety.{IsKnown, principal_gate-principal}

-- May edit b1 and view b2.
abbrev editor : PrincipalBoardAccess
editor = record { principal_id = "principal_000001"; levels = ("b1", 2) ∷ ("b2", 1) ∷ [] }

abbrev only_b1 : List String
only_b1 = "b1" ∷ []

abbrev two_grants : List BoardGrant
two_grants =
    record { board_id = "b1"; relation = "can_view" }
    ∷ record { board_id = "b1"; relation = "can_edit" }
    ∷ []

level_on-apply_grants_example :
    level_on (record { principal_id = "p"; levels = apply_grants [] two_grants }) "b1"
    ≡ highest_grant two_grants "b1"
level_on-apply_grants_example = level_on-apply_grants "p" two_grants "b1"

abbrev reads : StoreReads
reads = record {
  boards_of_card = λ card. some ("b1" ∷ []);
  board_of_column = λ column. missing;
  card_of_link = λ link. missing;
  card_of_note = λ note. missing;
  board_of_trigger = λ trigger. missing;
}

abbrev patch_card : Request
patch_card = record { method = "PATCH"; path = "/api/cards/c1"; board_id_query = "" }

abbrev post_board_card : Request
post_board_card = record { method = "POST"; path = "/api/boards/b1/cards"; board_id_query = "" }

abbrev get_other_board : Request
get_other_board = record { method = "GET"; path = "/api/boards/b9"; board_id_query = "" }

authorize_request-board_safe_example :
    (if post_board_card.method =? "GET" then access_view else access_edit) ≤ level_on editor "b1"
unfolding route_of split_on authorize_request authorize_route authorize_member apply_board_rule
    board_rule cards_rule require_on_board level_on level_at
authorize_request-board_safe_example =
    authorize_request-board_safe reads editor post_board_card "b1" ("cards" ∷ []) refl refl

authorize_request-card_write_safe_example : (only_b1 ≢ []) × EveryAt editor access_edit only_b1
unfolding route_of split_on authorize_request authorize_route authorize_member authorize_card
    require_on_card require_on_boards_of_card level_on_card level_loop level_on level_at
authorize_request-card_write_safe_example =
    authorize_request-card_write_safe reads editor patch_card "c1" [] ("b1" ∷ []) refl refl refl
      refl

-- principal_000001 may edit b1, and principal_000002 administers.
abbrev principals : String → PrincipalAnswer
principals id =
    if id =? "principal_000001"
    then principal_found (record { disabled_at = 0; is_administrator = false })
    else if id =? "principal_000002"
    then principal_found (record { disabled_at = 0; is_administrator = true })
    else principal_missing

abbrev grants_of : String → GrantsAnswer
grants_of id = grants_found (record { board_id = "b1"; relation = "can_edit" } ∷ [])

abbrev gate_request : String → String → GateRequest
gate_request token id = record {
  request = post_board_card;
  service_token = token;
  principal_id = id;
}

abbrev granted : PrincipalBoardAccess
granted = record { principal_id = "principal_000001"; levels = ("b1", 2) ∷ [] }

principal_gate-principal_example :
    (authorize_request reads granted post_board_card ≡ allowed)
    × IsKnown (principals "principal_000001") false
    × ((gs : List BoardGrant) × (grants_of "principal_000001" ≡ grants_found gs)
        × (granted ≡ record { principal_id = "principal_000001"; levels = apply_grants [] gs }))
unfolding principal_gate gate_access board_access_of_principal matches_principal_id strip_prefix
    all_digits text_length access_of_answer access_of_known access_by_grants disabled apply_grants
    apply_grant level_of_relation level_at set_level route_of split_on authorize_request
    authorize_route authorize_member apply_board_rule board_rule cards_rule require_on_board
    level_on
principal_gate-principal_example =
    principal_gate-principal principals grants_of reads "token" (gate_request "" "principal_000001")
      granted refl
