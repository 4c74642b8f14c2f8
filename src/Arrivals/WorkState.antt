-- ===== src/Arrivals/WorkState.antt =====
-- The shared work state of a card (internal/model/work_state_selection.go).
use kanban_store.Prelude.{
  ℕ, ◌<◌, ◌⊎◌, String, Bool, true, false, ◌&&◌, ◌||◌, List, [], ◌∷◌, Option, none, some, ltb, ◌==◌,
  if◌then◌else◌, ◌≡◌, refl, arith, Bool-cases, All, All-imp, SomeOf, inl, inr,
}
use kanban_store.Prelude.Text.{text_lt}
use kanban_store.Prelude.TextOrder.{text_lt_asym, text_lt_step}

pub record PlacementWorkState : Type 0 where
  pub board_id : String
  pub column_id : String
  pub column_name : String
  pub work_state : Option String
  pub moved_at : ℕ

pub record CardWorkStateSource : Type 0 where
  pub board_id : String
  pub column_id : String
  pub column_name : String
  pub moved_at : ℕ

-- The test of the loop, once there is a `latest`.
unfoldable pub supersedes : PlacementWorkState → PlacementWorkState → Bool
supersedes candidate latest =
    ltb latest.moved_at candidate.moved_at
    || (candidate.moved_at == latest.moved_at && text_lt candidate.board_id latest.board_id)

unfoldable pub latest_placement :
    Option PlacementWorkState → List PlacementWorkState → Option PlacementWorkState
latest_placement latest [] = latest
latest_placement none (p ∷ ps) = latest_placement (some p) ps
latest_placement (some latest) (p ∷ ps) =
    latest_placement (some (if supersedes p latest then p else latest)) ps

unfoldable pub source_of : PlacementWorkState → CardWorkStateSource
source_of p = record {
  board_id = p.board_id;
  column_id = p.column_id;
  column_name = p.column_name;
  moved_at = p.moved_at;
}

-- SharedWorkState: the state and where it comes from, or `none` for a card with no placements.
unfoldable pub shared_work_state :
    List PlacementWorkState → Option (Option String × CardWorkStateSource)
unfolding latest_placement
shared_work_state placements = elim (latest_placement none placements) [
  | none ↦ none
  | some latest ↦ some (latest.work_state, source_of latest)
]

supersedes_step :
    (a b c : PlacementWorkState)
    → supersedes a b ≡ false
    → supersedes b c ≡ false
    → supersedes a c ≡ false
unfolding supersedes
supersedes_step a b c h k = ground (arith, text_lt_step a.board_id b.board_id c.board_id)

supersedes_asym : (a b : PlacementWorkState) → supersedes a b ≡ true → supersedes b a ≡ false
unfolding supersedes
supersedes_asym a b h = ground (arith, text_lt_asym a.board_id b.board_id)

-- The loop ends with one of the placements, or the one it began with, that none of them supersedes.
latest_placement-found :
    (ps : List PlacementWorkState) (latest : PlacementWorkState)
    → (w : PlacementWorkState) × (latest_placement (some latest) ps ≡ some w)
      × SomeOf (λ x. x ≡ w) (latest ∷ ps)
      × All (λ x. supersedes x w ≡ false) (latest ∷ ps)
unfolding latest_placement
latest_placement-found [] latest = (
  latest,
  refl,
  inl refl,
  (
    elim (Bool-cases (supersedes latest latest)) [
      | inl e ↦ supersedes_asym latest latest e
      | inr e ↦ e
    ],
    tt,
  ),
)
latest_placement-found (p ∷ ps) latest = elim (Bool-cases (supersedes p latest)) [
  | inl e ↦
      let (w, end, member, (over, others)) = latest_placement-found ps p in
      (
        w,
        rw e end,
        inr member,
        (supersedes_step latest p w (supersedes_asym p latest e) over, (over, others)),
      )
  | inr e ↦
      let (w, end, member, (over, others)) = latest_placement-found ps latest in
      (
        w,
        rw e end,
        elim member [ inl m ↦ inl m | inr m ↦ inr (inr m) ],
        (over, (supersedes_step p latest w e over, others)),
      )
]

not_superseded :
    (x w : PlacementWorkState)
    → supersedes x w ≡ false
    → (x.moved_at < w.moved_at)
      ⊎ ((x.moved_at ≡ w.moved_at) × (text_lt x.board_id w.board_id ≡ false))
unfolding supersedes
not_superseded x w e = elim (Bool-cases (ltb x.moved_at w.moved_at)) [
  | inl l ↦ inl (ground arith)
  | inr l ↦ inr (ground arith, ground arith)
]

-- A card that is placed somewhere has the work state of the column of one of its placements: one that
-- no placement was moved after and, of those that were moved last, none is on a lower board.
pub shared_work_state-latest :
    (p : PlacementWorkState) (ps : List PlacementWorkState)
    → (w : PlacementWorkState) × (shared_work_state (p ∷ ps) ≡ some (w.work_state, source_of w))
      × SomeOf (λ x. x ≡ w) (p ∷ ps)
      × All
          (λ x.
            (x.moved_at < w.moved_at)
            ⊎ ((x.moved_at ≡ w.moved_at) × (text_lt x.board_id w.board_id ≡ false)))
          (p ∷ ps)
unfolding shared_work_state latest_placement supersedes
shared_work_state-latest p ps =
    let (w, end, member, least) = latest_placement-found ps p in
    (
      w,
      rw (end, shared_work_state) refl,
      member,
      All-imp (p ∷ ps) (λ x e. not_superseded x w e) least,
    )
