-- ===== src/Access/GateSafety.antt =====
-- Who the gate serves without restriction, and what it has checked of everybody else.
use kanban_store.Prelude.{String, Bool, true, false, some, List, [], ◌≡◌, refl, arith, ◌↔◌}
use kanban_store.Prelude.Text.{◌=?◌, text_eq_iff}
use kanban_store.Access.Levels.{PrincipalBoardAccess}
use kanban_store.Access.Grants.{
  Principal, PrincipalAnswer, principal_found, GrantsAnswer, grants_found, grants_missing,
  grants_failed, principal_missing, principal_failed, BoardGrant, access_of_answer, PrincipalAccess,
  access_refused, limited, administrator, disabled, matches_principal_id, apply_grants,
  board_access_of_principal,
}
use kanban_store.Access.Routes.{StoreReads, allowed, authorize_request}
use kanban_store.Access.Gate.{
  GateRequest, serve, service, admin, principal, gate_access, principal_gate,
}

-- A principal that principal-store knows, has not disabled, and answered with `is_administrator`.
abbrev pub IsKnown : PrincipalAnswer → Bool → Type 0
IsKnown answer admin? =
    (p : Principal) × (answer ≡ principal_found p)
    × (p.is_administrator ≡ admin?)
    × (disabled p ≡ false)

administrator-IsKnown :
    (id : String) (answer : PrincipalAnswer) (grants : GrantsAnswer)
    → access_of_answer id answer grants ≡ administrator
    → IsKnown answer true
unfolding access_of_answer
administrator-IsKnown id (principal_found p) (grants_found gs) h =
    (p, refl, ground arith, ground arith)
administrator-IsKnown id (principal_found p) grants_missing h =
    (p, refl, ground arith, ground arith)
administrator-IsKnown id (principal_found p) grants_failed h = (p, refl, ground arith, ground arith)
administrator-IsKnown id principal_missing grants h = cc
administrator-IsKnown id principal_failed grants h = cc

-- The access of a principal that is held to its grants.
limited-IsKnown :
    (id : String) (answer : PrincipalAnswer) (grants : GrantsAnswer) (access : PrincipalBoardAccess)
    → access_of_answer id answer grants ≡ limited access
    → IsKnown answer false
      × ((gs : List BoardGrant) × (grants ≡ grants_found gs)
          × (access ≡ record { principal_id = id; levels = apply_grants [] gs }))
unfolding access_of_answer
limited-IsKnown id (principal_found p) (grants_found gs) access h =
    ((p, refl, ground arith, ground arith), (gs, refl, ground arith))
limited-IsKnown id (principal_found p) grants_missing access h = ground arith
limited-IsKnown id (principal_found p) grants_failed access h = ground arith
limited-IsKnown id principal_missing grants access h = cc
limited-IsKnown id principal_failed grants access h = cc

module _ (principals : String → PrincipalAnswer) (grants : String → GrantsAnswer)
    (reads : StoreReads) (token : String) (r : GateRequest) where
  -- A request is served as an internal service exactly when it is neither OPTIONS nor /health and
  -- sends the configured token, which is not empty.
  pub principal_gate-service_iff :
      (token =? "") ≡ false
      → (principal_gate principals grants reads (some token) r ≡ serve service) ↔ (
          (r.method =? "OPTIONS") ≡ false
          × ((r.path =? "/health") ≡ false)
          × (r.service_token ≡ token))
  unfolding principal_gate
  principal_gate-service_iff set = (
    λ h. ground (arith, text_eq_iff r.service_token token, text_eq_iff r.service_token ""),
    λ h. ground (arith, text_eq_iff r.service_token token),
  )

  -- A request is served as an administrator only with a principal id that principal-store knows,
  -- has not disabled and marks as an administrator.
  pub principal_gate-admin :
      principal_gate principals grants reads (some token) r ≡ serve admin
      → (matches_principal_id r.principal_id ≡ true) × IsKnown (principals r.principal_id) true
  unfolding principal_gate board_access_of_principal
  principal_gate-admin h = (
    ground arith,
    administrator-IsKnown r.principal_id (principals r.principal_id) (grants r.principal_id)
        (ground arith),
  )

  access_served :
      (answer : PrincipalAccess) (access : PrincipalBoardAccess)
      → gate_access principals grants reads r answer ≡ serve (principal access)
      → (answer ≡ limited access) × (authorize_request reads access r.request ≡ allowed)
  unfolding gate_access
  access_served (limited a) access h = ground arith
  access_served administrator access h = cc
  access_served (access_refused refusal) access h = cc

  principal_served :
      (access : PrincipalBoardAccess)
      → principal_gate principals grants reads (some token) r ≡ serve (principal access)
      → gate_access principals grants reads r
          (board_access_of_principal principals grants r.principal_id)
        ≡ serve (principal access)
  unfolding principal_gate
  principal_served access h = ground arith

  -- A request that is served as a principal comes from one that principal-store knows and has not
  -- disabled, carries the levels of that principal's own grants and no others, and was allowed by
  -- the route table with them.
  pub principal_gate-principal :
      (access : PrincipalBoardAccess)
      → principal_gate principals grants reads (some token) r ≡ serve (principal access)
      → (authorize_request reads access r.request ≡ allowed)
        × IsKnown (principals r.principal_id) false
        × ((gs : List BoardGrant) × (grants r.principal_id ≡ grants_found gs)
            × (access ≡ record { principal_id = r.principal_id; levels = apply_grants [] gs }))
  unfolding board_access_of_principal
  principal_gate-principal access h =
      let served =
        access_served (board_access_of_principal principals grants r.principal_id) access
          (principal_served access h) in
      let known =
        limited-IsKnown r.principal_id (principals r.principal_id) (grants r.principal_id) access
          (ground arith) in
      (served.1, known.0, known.1)
