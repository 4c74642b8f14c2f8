-- ===== src/Cards/Requests.antt =====
-- Requests on cards, served one after the other (internal/api/api.go, internal/api/assignments.go).
use kanban_store.Prelude.{String, Bool, List, [], ◌∷◌, Option}
use kanban_store.Boards.Placing.{AttachCardRequest, MoveCardRequest}
use kanban_store.Boards.Assignments.{CardAssignment}
use kanban_store.Cards.World.{CreateCardRequest, World, Outside, Call, ItemAnswer}
use kanban_store.Cards.Carried.{left_by}
use kanban_store.Cards.Placements.{move_card_request, attach_card_request, detach_card_request}
use kanban_store.Cards.Creating.{create_card_on_board}
use kanban_store.Cards.Actions.{PrincipalAnswer, hold_card, assign_principal, unassign_principal}

pub data Request (F : Type 0) : Type 0 where
  moves : Outside F → Call → String → MoveCardRequest F → Request F
  attaches : Outside F → Call → String → String → AttachCardRequest F → Request F
  detaches : Outside F → Call → String → String → Request F
  creates_card : Outside F → Call → String → CreateCardRequest F → Request F
  holds_card : Outside F → Call → String → Option String → ItemAnswer → Request F
  assigns :
      Outside F
      → (List CardAssignment → String)
      → (String → Bool)
      → Call
      → String
      → String
      → String
      → PrincipalAnswer
      → Request F
  unassigns : Outside F → Call → String → String → Request F

module _ {F : Type 0} where
  unfoldable pub serve_request : Request F → World F → World F
  serve_request (moves o call card req) w = left_by (move_card_request o call card req w)
  serve_request (attaches o call board card req) w =
      left_by (attach_card_request o call board card req w)
  serve_request (detaches o call board card) w = left_by (detach_card_request o call board card w)
  serve_request (creates_card o call board req) w =
      left_by (create_card_on_board o call board req w)
  serve_request (holds_card o call card reason answer) w =
      left_by (hold_card o call card reason answer w)
  serve_request (assigns o version_of id_shape call card principal_id version answer) w =
      left_by (assign_principal o version_of id_shape call card principal_id version answer w)
  serve_request (unassigns o call card principal_id) w =
      left_by (unassign_principal o call card principal_id w)

  unfoldable pub serve_requests : List (Request F) → World F → World F
  serve_requests [] w = w
  serve_requests (r ∷ requests) w = serve_requests requests (serve_request r w)
