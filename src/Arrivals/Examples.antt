-- ===== src/Arrivals/Examples.antt =====
-- Concrete placements, members and boards for the theorems on arrivals.
use kanban_store.Prelude.{
  ℕ, ◌<◌, String, Bool, true, false, List, [], ◌∷◌, Option, none, some, ◌≡◌, ◌⊎◌, if◌then◌else◌,
  All, SomeOf,
}
use kanban_store.Prelude.Text.{◌=?◌, text_lt}
use kanban_store.TagRules.Rules.{EffectiveDefault, from_board}
use kanban_store.Arrivals.WorkState.{
  PlacementWorkState, shared_work_state, source_of, shared_work_state-latest,
}
use kanban_store.Arrivals.Pool.{
  AssignmentOnBoard, least_open_cards, AssignmentPool, members, PrincipalStore, assignee_on_arrival,
  picked, pick_from_assignment_pool,
}
use kanban_store.Arrivals.PoolSafety.{
  HasLess, IsSafe, pick_from_assignment_pool-least_open_cards, assignee_on_arrival-IsSafe,
}

abbrev on_board : String → ℕ → PlacementWorkState
on_board board moved = record {
  board_id = board;
  column_id = "col";
  column_name = "Doing";
  work_state = some "in_progress";
  moved_at = moved;
}

shared_work_state-latest_example :
    (w : PlacementWorkState) × (shared_work_state (on_board "b2" 7 ∷ on_board "b1" 7 ∷ [])
      ≡ some (w.work_state, source_of w))
    × SomeOf (λ x. x ≡ w) (on_board "b2" 7 ∷ on_board "b1" 7 ∷ [])
    × All
        (λ x.
          (x.moved_at < w.moved_at)
          ⊎ ((x.moved_at ≡ w.moved_at) × (text_lt x.board_id w.board_id ≡ false)))
        (on_board "b2" 7 ∷ on_board "b1" 7 ∷ [])
shared_work_state-latest_example = shared_work_state-latest (on_board "b2" 7) (on_board "b1" 7 ∷ [])

abbrev assigned : String → ℕ → Bool → AssignmentOnBoard
assigned principal at stopped = record {
  principal_id = principal;
  created_at = at;
  column_stops_the_clock = stopped;
}

abbrev on_cards : List AssignmentOnBoard
on_cards = assigned "ann" 5 false ∷ assigned "bob" 6 true ∷ []

pick_from_assignment_pool-least_open_cards_example :
    (p : String) × (pick_from_assignment_pool on_cards least_open_cards ("ann" ∷ "bob" ∷ [])
      ≡ picked p)
    × SomeOf (λ x. x ≡ p) ("ann" ∷ "bob" ∷ [])
    × All (λ x. HasLess on_cards p x) ("ann" ∷ "bob" ∷ [])
pick_from_assignment_pool-least_open_cards_example =
    pick_from_assignment_pool-least_open_cards on_cards "ann" ("bob" ∷ [])

abbrev store : PrincipalStore
store = record {
  available_members = λ pool. members ("ann" ∷ "bob" ∷ []);
  refusal_of = λ id. if id =? "gone" then some 400 else none;
}

abbrev named_by_board : Option EffectiveDefault
named_by_board = some (record { value = "gone"; source = from_board })

abbrev pool : Option AssignmentPool
pool = some (record { principal_id = "team"; strategy = least_open_cards })

assignee_on_arrival-IsSafe_example :
    IsSafe store on_cards named_by_board pool
      (assignee_on_arrival store on_cards named_by_board pool)
assignee_on_arrival-IsSafe_example = assignee_on_arrival-IsSafe store on_cards named_by_board pool
