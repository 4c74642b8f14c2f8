-- ===== src/Arrivals/Pool.antt =====
-- Who a card is assigned to when it arrives on a board (internal/api/board_settings.go), with the
-- assignments that are weighed (ListAssignmentsOnBoard of internal/db/db.go). What principal-store
-- answers is a parameter.
use kanban_store.Prelude.{
  ℕ, String, Bool, ◌&&◌, ◌||◌, not, List, [], ◌∷◌, Option, none, some, ltb, ◌==◌, if◌then◌else◌,
  keep, length,
}
use kanban_store.Prelude.Text.{◌=?◌, text_lt}
use kanban_store.Prelude.Sort.{sort_stable}
use kanban_store.TagRules.Rules.{EffectiveDefault, DefaultSource, from_board, from_tag_rule}

pub data AssignmentStrategy : Type 0 where
  least_open_cards round_robin : AssignmentStrategy
  other_strategy : String → AssignmentStrategy

-- One assignment on a card of the board; times count from Go's zero time.
pub record AssignmentOnBoard : Type 0 where
  pub principal_id : String
  pub created_at : ℕ
  pub column_stops_the_clock : Bool

-- `openCards[principal]`
unfoldable pub open_cards : List AssignmentOnBoard → String → ℕ
open_cards assignments principal =
    length (keep (λ a. not a.column_stops_the_clock && a.principal_id =? principal) assignments)

-- `newestAssignment[principal]`: 0, Go's zero time, for a principal that was never assigned
unfoldable pub newest_loop : String → ℕ → List AssignmentOnBoard → ℕ
newest_loop principal newest [] = newest
newest_loop principal newest (a ∷ rest) =
    newest_loop principal
      (if a.principal_id =? principal && ltb newest a.created_at then a.created_at else newest) rest

unfoldable pub newest_assignment : List AssignmentOnBoard → String → ℕ
unfolding newest_loop
newest_assignment assignments principal = newest_loop principal 0 assignments

-- byRoundRobin, as the test that a comparison is below 0
unfoldable pub by_round_robin : List AssignmentOnBoard → String → String → Bool
by_round_robin assignments left right =
    ltb (newest_assignment assignments left) (newest_assignment assignments right)
    || (newest_assignment assignments left == newest_assignment assignments right
        && text_lt left right)

unfoldable pub by_open_cards : List AssignmentOnBoard → String → String → Bool
by_open_cards assignments left right =
    ltb (open_cards assignments left) (open_cards assignments right)
    || (open_cards assignments left == open_cards assignments right
        && by_round_robin assignments left right)

pub data ArrivalError : Type 0 where
  unknown_strategy pool_not_found pool_unreachable : ArrivalError
  not_assignable : ℕ → ArrivalError

pub data Picked : Type 0 where
  picked : String → Picked
  nobody : Picked
  pick_failed : ArrivalError → Picked

abbrev first_of : List String → Picked
first_of [] = nobody
first_of (x ∷ _) = picked x

-- pickFromAssignmentPool; `nobody` stands for the index that is out of range when no member is given
unfoldable pub pick_from_assignment_pool :
    List AssignmentOnBoard → AssignmentStrategy → List String → Picked
pick_from_assignment_pool assignments least_open_cards members =
    first_of (sort_stable (by_open_cards assignments) members)
pick_from_assignment_pool assignments round_robin members =
    first_of (sort_stable (by_round_robin assignments) members)
pick_from_assignment_pool assignments (other_strategy s) members = pick_failed unknown_strategy

pub record AssignmentPool : Type 0 where
  pub principal_id : String
  pub strategy : AssignmentStrategy

-- What principal-store answers on a pool's available members.
pub data MembersAnswer : Type 0 where
  members : List String → MembersAnswer
  no_such_pool unreachable : MembersAnswer

pub data ArrivalAssignment : Type 0 where
  by_tag_rule by_board_default : String → ArrivalAssignment
  by_pool : String → String → ArrivalAssignment
  skipped : String → ArrivalAssignment

pub data Arrival : Type 0 where
  arrives : Option ArrivalAssignment → Arrival
  refused_arrival : ArrivalError → Arrival
  crashed : Arrival

-- Everything that principal-store answers: the available members of a pool, and the status that
-- refuses a principal as an assignee, if any.
pub record PrincipalStore : Type 0 where
  pub available_members : String → MembersAnswer
  pub refusal_of : String → Option ℕ

-- The last part of assigneeOnArrival: the board's default, or a skip.
unfoldable pub default_on_arrival :
    PrincipalStore → Option EffectiveDefault → Option AssignmentPool → Arrival
default_on_arrival store (some chosen) pool = elim (store.refusal_of chosen.value) [
  | some status ↦ refused_arrival (not_assignable status)
  | none ↦ arrives (some (by_board_default chosen.value))
]
default_on_arrival store none (some pool) = arrives (some (skipped pool.principal_id))
default_on_arrival store none none = arrives none

-- What becomes of the pick.
unfoldable pub picked_on_arrival : AssignmentPool → Picked → Arrival
picked_on_arrival pool (picked principal) = arrives (some (by_pool principal pool.principal_id))
picked_on_arrival pool nobody = crashed
picked_on_arrival pool (pick_failed e) = refused_arrival e

-- What becomes of the pool's available members.
unfoldable pub members_on_arrival :
    PrincipalStore
    → List AssignmentOnBoard
    → Option EffectiveDefault
    → AssignmentPool
    → MembersAnswer
    → Arrival
members_on_arrival store assignments named pool no_such_pool = refused_arrival pool_not_found
members_on_arrival store assignments named pool unreachable = refused_arrival pool_unreachable
members_on_arrival store assignments named pool (members []) =
    default_on_arrival store named (some pool)
members_on_arrival store assignments named pool (members (x ∷ found)) =
    picked_on_arrival pool (pick_from_assignment_pool assignments pool.strategy (x ∷ found))

-- The part on the assignment pool.
unfoldable pub pool_on_arrival :
    PrincipalStore
    → List AssignmentOnBoard
    → Option EffectiveDefault
    → Option AssignmentPool
    → Arrival
pool_on_arrival store assignments named none = default_on_arrival store named none
pool_on_arrival store assignments named (some pool) =
    members_on_arrival store assignments named pool (store.available_members pool.principal_id)

-- The first part: whether the default that is named comes from a tag rule.
unfoldable pub source_on_arrival :
    PrincipalStore
    → List AssignmentOnBoard
    → EffectiveDefault
    → DefaultSource
    → Option AssignmentPool
    → Arrival
source_on_arrival store assignments chosen from_board pool =
    pool_on_arrival store assignments (some chosen) pool
source_on_arrival store assignments chosen (from_tag_rule rule) pool =
    elim (store.refusal_of chosen.value) [
      | some status ↦ refused_arrival (not_assignable status)
      | none ↦ arrives (some (by_tag_rule chosen.value))
    ]

-- assigneeOnArrival, given the effective default for the principal
unfoldable pub assignee_on_arrival :
    PrincipalStore
    → List AssignmentOnBoard
    → Option EffectiveDefault
    → Option AssignmentPool
    → Arrival
assignee_on_arrival store assignments none pool = pool_on_arrival store assignments none pool
assignee_on_arrival store assignments (some chosen) pool =
    source_on_arrival store assignments chosen chosen.source pool
