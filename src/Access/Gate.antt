-- ===== src/Access/Gate.antt =====
-- The gate in front of every route (internal/api/principal_access.go, principalGate). A request's
-- context afterwards is one of the callers below.
use kanban_store.Prelude.{String, ◌||◌, Option, none, some, if◌then◌else◌}
use kanban_store.Prelude.Text.{◌=?◌}
use kanban_store.Access.Levels.{
  PrincipalBoardAccess, AccessRefusal, Reason, token_mismatch, no_caller,
}
use kanban_store.Access.Grants.{
  PrincipalAnswer, GrantsAnswer, PrincipalAccess, limited, administrator, access_refused,
  board_access_of_principal,
}
use kanban_store.Access.Routes.{
  Request, StoreReads, Decision, allowed, refused, read_error, authorize_request,
}

pub record GateRequest : Type 0 where
  pub request : Request
  pub open request use *
  -- the two headers, empty when they are not sent
  pub service_token : String
  pub principal_id : String

pub data Caller : Type 0 where
  -- OPTIONS and /health, which no rule reads
  unchecked : Caller
  service : Caller
  admin : Caller
  principal : PrincipalBoardAccess → Caller

pub data GateAnswer : Type 0 where
  serve : Caller → GateAnswer
  refuse : AccessRefusal → GateAnswer
  server_error : GateAnswer

gate_unauthorized : Reason → GateAnswer
gate_unauthorized why = refuse (record { status = 401; reason = why })

module _ (principals : String → PrincipalAnswer) (grants : String → GrantsAnswer)
    (reads : StoreReads) where
  gate_decision : PrincipalBoardAccess → Decision → GateAnswer
  gate_decision access allowed = serve (principal access)
  gate_decision access (refused refusal) = refuse refusal
  gate_decision access read_error = server_error

  unfoldable pub gate_access : GateRequest → PrincipalAccess → GateAnswer
  unfolding gate_decision
  gate_access r (limited access) = gate_decision access (authorize_request reads access r.request)
  gate_access r administrator = serve admin
  gate_access r (access_refused refusal) = refuse refusal

  gate_by_token : String → GateRequest → GateAnswer
  unfolding gate_unauthorized
  gate_by_token token r =
      if r.service_token =? token then serve service else gate_unauthorized token_mismatch

  gate_by_principal : GateRequest → GateAnswer
  unfolding gate_access gate_unauthorized
  gate_by_principal r =
      if r.principal_id =? ""
      then gate_unauthorized no_caller
      else gate_access r (board_access_of_principal principals grants r.principal_id)

  -- `none` is a gate with no enforcement configured.
  unfoldable pub principal_gate : Option String → GateRequest → GateAnswer
  unfolding gate_by_token gate_by_principal
  principal_gate none r = server_error
  principal_gate (some token) r =
      if r.method =? "OPTIONS" || r.path =? "/health"
      then serve unchecked
      else if r.service_token =? ""
      then gate_by_principal r
      else gate_by_token token r
