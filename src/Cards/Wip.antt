-- ===== src/Cards/Wip.antt =====
-- Placing cards under the limits of columns (internal/api/api.go, checkWIP).
use kanban_store.Prelude.{
  ℕ, String, true, false, ◌&&◌, not, some, keep, is_some, ◌≡◌, ◌⊎◌, refl, sym, subst, arith,
  Bool-cases, Option-cases, inl, inr,
}
use kanban_store.Prelude.Text.{◌=?◌}
use kanban_store.Boards.Tables.{
  Floats, Column, Placement, Tables, StoreError, not_found, column_not_on_board, refused, done,
  tables_after, get_column, get_placement, at_key,
}
use kanban_store.Boards.Placing.{
  AttachCardRequest, MoveCardRequest, new_placement, upsert_placement, attach_card, move_placement,
  move_card, detach_card, count_column_cards,
}
use kanban_store.Boards.Consistency.{IsConsistent}
use kanban_store.Cards.Placements.{check_wip, crosses}
use kanban_store.Cards.Limits.{IsWithinWip, IsWithinWip-le, IsWithinWip-placed}
use kanban_store.Cards.Counting.{
  upsert-counts, count-rewritten_one, count-rewritten_out, count-rewritten_stays, fewer,
}

module _ {F : Type 0} where
  -- Either nothing happens, or the placement that is answered is put in.
  pub attach_card-cases :
      (floats : Floats F) (now : ℕ) (board card : String) (req : AttachCardRequest F) (t : Tables F)
      → ((e : StoreError) × (attach_card floats now board card req t ≡ refused e))
        ⊎ (attach_card floats now board card req t
            ≡ done
                (upsert_placement (new_placement floats now board card req t) t)
                (new_placement floats now board card req t))
  unfolding attach_card
  attach_card-cases floats now board card req t = elim (Option-cases (get_column t req.column_id)) [
    | inl nowhere ↦ inl (not_found, rw (nowhere, attach_card) refl)
    | inr (col, found) ↦ elim (Bool-cases (col.board_id =? board)) [
      | inr other ↦ inl (column_not_on_board, rw (found, attach_card, other) refl)
      | inl own ↦ inr (rw (found, attach_card, own) refl)
    ]
  ]

  -- Either nothing happens, or the column is one of the board and the row that is there is written over.
  pub move_card-cases :
      (now : ℕ) (card : String) (req : MoveCardRequest F) (t : Tables F)
      → ((e : StoreError) × (move_card now card req t ≡ refused e))
        ⊎ ((col : Column F) × (current : Placement F) × (p : Placement F) × (get_column t
                req.column_id
              ≡ some col)
            × ((col.board_id =? req.board_id) ≡ true)
            × (get_placement t card req.board_id ≡ some current)
            × (move_card now card req t ≡ done (move_placement now card req t) p))
  unfolding move_card
  move_card-cases now card req t = elim (Option-cases (get_column t req.column_id)) [
    | inl nowhere ↦ inl (not_found, rw (nowhere, move_card) refl)
    | inr (col, found) ↦ elim (Bool-cases (col.board_id =? req.board_id)) [
      | inr other ↦ inl (column_not_on_board, rw (found, move_card, other) refl)
      | inl own ↦ elim (Option-cases (get_placement t card req.board_id)) [
        | inl absent ↦ inl (not_found, rw (found, move_card, own, absent) refl)
        | inr (current, there) ↦
            elim (Option-cases (get_placement (move_placement now card req t) card req.board_id)) [
              | inl gone ↦ inl (not_found, rw (found, move_card, own, there, gone) refl)
              | inr (p, moved) ↦ inr (
                col,
                current,
                p,
                found,
                own,
                there,
                rw (found, move_card, own, there, moved) refl,
              )
            ]
      ]
    ]
  ]

  pub attach_card-IsWithinWip :
      (floats : Floats F) (now : ℕ) (board card : String) (req : AttachCardRequest F) (t : Tables F)
      → IsConsistent t
      → check_wip t req.column_id ≡ true
      → IsWithinWip t
      → IsWithinWip (tables_after t (attach_card floats now board card req t))
  unfolding upsert_placement new_placement
  attach_card-IsWithinWip floats now board card req t ok room h =
      elim (attach_card-cases floats now board card req t) [
        | inl (e, refusal) ↦ subst (λ r. IsWithinWip (tables_after t r)) (sym refusal) h
        | inr placed ↦
            let p = new_placement floats now board card req t in
            let (one, out) = upsert-counts p t ok.placement_keys in
            subst (λ r. IsWithinWip (tables_after t r)) (sym placed)
              (IsWithinWip-placed t (upsert_placement p t) req.column_id ok refl room one out h)
      ]

  move_placement-IsWithinWip :
      (now : ℕ) (card : String) (req : MoveCardRequest F) (t : Tables F) (current : Placement F)
      → IsConsistent t
      → get_placement t card req.board_id ≡ some current
      → (not (current.column_id =? req.column_id) && not (check_wip t req.column_id)) ≡ false
      → IsWithinWip t
      → IsWithinWip (move_placement now card req t)
  unfolding move_placement get_placement count_column_cards
  move_placement-IsWithinWip now card req t current ok there room h =
      elim (Bool-cases (current.column_id =? req.column_id)) [
        | inl stays ↦
            IsWithinWip-le t (move_placement now card req t) t.columns
              (λ c.
                count-rewritten_stays card req.board_id req.column_id req.position now t.placements
                  ok.placement_keys current there stays c.id)
              h
        | inr leaves ↦
            IsWithinWip-placed t (move_placement now card req t) req.column_id ok refl
              (ground arith)
              (count-rewritten_one card req.board_id req.column_id req.position now t.placements
                ok.placement_keys)
              (count-rewritten_out card req.board_id req.column_id req.position now t.placements
                ok.placement_keys)
              h
      ]

  pub move_card-IsWithinWip :
      (now : ℕ) (card : String) (req : MoveCardRequest F) (t : Tables F)
      → IsConsistent t
      → (crosses req.column_id (get_placement t card req.board_id)
          && not (check_wip t req.column_id))
        ≡ false
      → IsWithinWip t
      → IsWithinWip (tables_after t (move_card now card req t))
  move_card-IsWithinWip now card req t ok room h = elim (move_card-cases now card req t) [
    | inl (e, refusal) ↦ subst (λ r. IsWithinWip (tables_after t r)) (sym refusal) h
    | inr (col, current, p, found, own, there, moved) ↦
        subst (λ r. IsWithinWip (tables_after t r)) (sym moved)
          (move_placement-IsWithinWip now card req t current ok there (rw there at room) h)
  ]

  pub detach_card-IsWithinWip :
      (board card : String) (t : Tables F)
      → IsWithinWip t
      → IsWithinWip (tables_after t (detach_card board card t))
  unfolding detach_card count_column_cards keep
  detach_card-IsWithinWip board card t h =
      elim (Bool-cases (is_some (get_placement t card board))) [
        | inr absent ↦ rw (absent, tables_after) h
        | inl there ↦
            let left : Tables F = record t {
              placements = keep (λ p. not (at_key card board p)) t.placements;
            } in
            rw (there, tables_after)
              (IsWithinWip-le t left t.columns (λ c. fewer c.id card board t) h)
      ]
