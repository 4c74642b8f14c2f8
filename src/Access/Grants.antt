-- ===== src/Access/Grants.antt =====
-- What a principal may do on every board (internal/api/principal_access.go,
-- boardAccessOfPrincipal). principal-store's and grant-store's answers are arguments.
use kanban_store.Prelude.{
  ℕ, String, Bool, false, ◌&&◌, List, [], ◌∷◌, none, some, ltb, leb, if◌then◌else◌, ◌==◌, not,
}
use kanban_store.Prelude.Text.{strip_prefix, all_digits, text_length}
use kanban_store.Access.Levels.{
  BoardAccessLevel, PrincipalBoardAccess, level_of_relation, level_at, set_level, AccessRefusal,
  Reason, not_a_principal_id, unknown_principal, principal_unreadable, disabled_principal,
  grants_unknown_principal, grants_unreadable,
}

-- principalIDShape, `^(?:principal_\d{6})$`
unfoldable pub matches_principal_id : String → Bool
unfolding strip_prefix all_digits text_length
matches_principal_id id = elim (strip_prefix "principal_" id) [
  | none ↦ false
  | some digits ↦ all_digits digits && leb 6 (text_length digits)
]

pub record Principal : Type 0 where
  pub disabled_at : ℕ
  pub is_administrator : Bool

-- Disabled of internal/principalstore/client.go
unfoldable pub disabled : Principal → Bool
disabled p = not (p.disabled_at == 0)

-- What principals.Get answers.
pub data PrincipalAnswer : Type 0 where
  principal_found : Principal → PrincipalAnswer
  principal_missing principal_failed : PrincipalAnswer

pub record BoardGrant : Type 0 where
  pub board_id : String
  pub relation : String

-- What Grants.EffectiveBoardGrants answers.
pub data GrantsAnswer : Type 0 where
  grants_found : List BoardGrant → GrantsAnswer
  grants_missing grants_failed : GrantsAnswer

-- One round of the loop over the grants: a relation that is not known grants nothing.
unfoldable pub apply_grant :
    List (String × BoardAccessLevel) → BoardGrant → List (String × BoardAccessLevel)
apply_grant levels grant = elim (level_of_relation grant.relation) [
  | none ↦ levels
  | some level ↦
      if ltb (level_at levels grant.board_id) level
      then set_level levels grant.board_id level
      else levels
]

unfoldable pub apply_grants :
    List (String × BoardAccessLevel) → List BoardGrant → List (String × BoardAccessLevel)
apply_grants levels [] = levels
apply_grants levels (grant ∷ grants) = apply_grants (apply_grant levels grant) grants

-- The three results of boardAccessOfPrincipal, of which one is set.
pub data PrincipalAccess : Type 0 where
  limited : PrincipalBoardAccess → PrincipalAccess
  administrator : PrincipalAccess
  access_refused : AccessRefusal → PrincipalAccess

unfoldable pub unauthorized : Reason → PrincipalAccess
unauthorized why = access_refused (record { status = 401; reason = why })

unfoldable pub access_by_grants : String → GrantsAnswer → PrincipalAccess
unfolding unauthorized
access_by_grants id (grants_found grants) =
    limited (record { principal_id = id; levels = apply_grants [] grants })
access_by_grants id grants_missing = unauthorized grants_unknown_principal
access_by_grants id grants_failed =
    access_refused (record { status = 502; reason = grants_unreadable })

unfoldable pub access_of_known : String → Principal → GrantsAnswer → PrincipalAccess
unfolding access_by_grants disabled
access_of_known id p grants =
    if disabled p
    then unauthorized disabled_principal
    else if p.is_administrator
    then administrator
    else access_by_grants id grants

unfoldable pub access_of_answer : String → PrincipalAnswer → GrantsAnswer → PrincipalAccess
unfolding access_of_known
access_of_answer id (principal_found p) grants = access_of_known id p grants
access_of_answer id principal_missing grants = unauthorized unknown_principal
access_of_answer id principal_failed grants =
    access_refused (record { status = 502; reason = principal_unreadable })

unfoldable pub board_access_of_principal :
    (String → PrincipalAnswer) → (String → GrantsAnswer) → String → PrincipalAccess
unfolding access_of_answer
board_access_of_principal principals grants id =
    if matches_principal_id id
    then access_of_answer id (principals id) (grants id)
    else unauthorized not_a_principal_id
