-- ===== src/Boards/ColumnKeeps.antt =====
-- Creating, changing and deleting columns and boards keeps the tables consistent.
use kanban_store.Prelude.{
  ℕ, String, Bool, true, not, List, [], ◌∷◌, some, ◌≡◌, refl, arith, Bool-cases, Option-cases, inl,
  inr, All-imp, find, update_where, find-append, find-passes, find-keep, find-none, All-append,
  All-keep, All-kept, All-update_where, IsUnique-keep, IsUnique-insert, IsUnique-update_where,
  is_some,
}
use kanban_store.Prelude.Text.{◌=?◌, contains, contains-append}
use kanban_store.Boards.Tables.{
  Floats, Column, Tables, tables_after, has_board, get_column, delete_board, create_board,
}
use kanban_store.Boards.Columns.{
  CreateColumnRequest, UpdateColumnRequest, new_column, stored_column, create_column, write_column,
  apply_column_request, update_column, delete_column,
}
use kanban_store.Boards.Consistency.{
  same_id, same_column, same_placement, IsConsistent, text_eq_trans, text_eq_sym, contains-keep,
  others_only,
}

not_deleted :
    (found wanted deleted : String)
    → (found =? wanted) ≡ true
    → not (wanted =? deleted) ≡ true
    → not (found =? deleted) ≡ true
not_deleted found wanted deleted h other = elim (Bool-cases (found =? deleted)) [
  | inl e ↦
      let same = text_eq_trans wanted found deleted (text_eq_sym found wanted h) e in
      absurd (ground arith)
  | inr e ↦ ground arith
]

module _ {F : Type 0} where
  pub create_column-IsConsistent :
      (floats : Floats F) (id : String) (now : ℕ) (board_id : String) (req : CreateColumnRequest F)
      (t : Tables F)
      → IsConsistent t
      → IsConsistent (tables_after t (create_column floats id now board_id req t))
  unfolding create_column get_column has_board new_column stored_column
  create_column-IsConsistent floats id now board_id req t ok =
      elim (Bool-cases (has_board t board_id)) [
        | inr e ↦ rw (e, tables_after) ok
        | inl e ↦ elim (Option-cases (get_column t id)) [
          | inr (c, taken) ↦ rw (e, taken, tables_after) ok
          | inl free ↦
              rw (e, free, tables_after)
                (record {
                  board_ids = ok.board_ids;
                  column_ids =
                      IsUnique-insert same_column t.columns
                        (stored_column (new_column floats id now board_id req t))
                        (find-none _ t.columns free) ok.column_ids;
                  placement_keys = ok.placement_keys;
                  column_boards = All-append _ t.columns _ ok.column_boards (e, tt);
                  placement_columns =
                      All-imp t.placements
                        (λ p (c, found, on). (c, find-append _ t.columns _ c found, on))
                        ok.placement_columns;
                })
        ]
      ]

  -- An update of a column's other fields leaves the columns found, on the same boards.
  find-write_column :
      (c : Column F) (p : Column F → Bool) (id : String) (columns : List (Column F)) (d : Column F)
      → find (λ c. c.id =? id) columns ≡ some d
      → (e : Column F) × (find (λ c. c.id =? id) (update_where p (write_column c) columns) ≡ some e)
        × (e.board_id ≡ d.board_id)
  unfolding find update_where write_column
  find-write_column c p id [] d h = absurd (ground arith)
  find-write_column c p id (x ∷ columns) d h = elim (Bool-cases (x.id =? id)) [
    | inl here ↦ elim (Bool-cases (p x)) [
      | inl q ↦ (write_column c x, ground arith, ground arith)
      | inr q ↦ (x, ground arith, ground arith)
    ]
    | inr e ↦
        let (y, found, same) = find-write_column c p id columns d (ground arith) in
        (y, ground arith, same)
  ]

  pub update_column-IsConsistent :
      (now : ℕ) (id : String) (req : UpdateColumnRequest F) (t : Tables F)
      → IsConsistent t
      → IsConsistent (tables_after t (update_column now id req t))
  unfolding update_column write_column
  update_column-IsConsistent now id req t ok = elim (Option-cases (get_column t id)) [
    | inl e ↦ rw (e, tables_after) ok
    | inr (c, e) ↦
        let new = apply_column_request now req c in
        rw (e, tables_after)
          (record {
            board_ids = ok.board_ids;
            column_ids =
                IsUnique-update_where same_column (λ row. row.id =? id) (write_column new) t.columns
                  (λ x y. refl) (λ x y. refl) ok.column_ids;
            placement_keys = ok.placement_keys;
            column_boards =
                All-update_where (λ row. row.id =? id) (write_column new) t.columns (λ x _ h. h)
                  (λ x _ h. h) ok.column_boards;
            placement_columns =
                All-imp t.placements
                  (λ p (d, found, on).
                    let (y, there, same) =
                      find-write_column new (λ row. row.id =? id) p.column_id t.columns d found in
                    (y, there, ground arith))
                  ok.placement_columns;
          })
  ]

  pub delete_column-IsConsistent :
      (id : String) (t : Tables F)
      → IsConsistent t
      → IsConsistent (tables_after t (delete_column id t))
  unfolding delete_column
  delete_column-IsConsistent id t ok = elim (Bool-cases (is_some (get_column t id))) [
    | inr e ↦ rw (e, tables_after) ok
    | inl e ↦
        rw (e, tables_after)
          (record {
            board_ids = ok.board_ids;
            column_ids = IsUnique-keep same_column _ t.columns ok.column_ids;
            placement_keys = IsUnique-keep same_placement _ t.placements ok.placement_keys;
            column_boards = All-keep _ _ t.columns ok.column_boards;
            placement_columns =
                All-kept (λ p. not (p.column_id =? id)) t.placements
                  (λ p other (c, found, on). (
                    c,
                    find-keep (λ c. c.id =? p.column_id) (λ c. not (c.id =? id)) t.columns c found
                        (not_deleted c.id p.column_id id (find-passes _ t.columns c found) other),
                    on,
                  ))
                  ok.placement_columns;
          })
  ]

  pub delete_board-IsConsistent :
      (id : String) (t : Tables F)
      → IsConsistent t
      → IsConsistent (tables_after t (delete_board t id))
  unfolding delete_board
  delete_board-IsConsistent id t ok = elim (Bool-cases (contains t.boards id)) [
    | inr e ↦ rw (e, tables_after) ok
    | inl e ↦
        rw (e, tables_after)
          (record {
            board_ids = IsUnique-keep same_id _ t.boards ok.board_ids;
            column_ids = IsUnique-keep same_column _ t.columns ok.column_ids;
            placement_keys = IsUnique-keep same_placement _ t.placements ok.placement_keys;
            column_boards =
                All-kept (λ c. not (c.board_id =? id)) t.columns
                  (λ c other known.
                    contains-keep t.boards (λ b. not (b =? id)) c.board_id known other)
                  ok.column_boards;
            placement_columns =
                All-kept _ t.placements
                  (λ p other (c, found, on). (
                    c,
                    find-keep (λ c. c.id =? p.column_id) (λ c. not (c.board_id =? id)) t.columns c
                        found (not_deleted c.board_id p.board_id id on (ground arith)),
                    on,
                  ))
                  ok.placement_columns;
          })
  ]

  pub create_board-IsConsistent :
      (id : String) (t : Tables F)
      → IsConsistent t
      → IsConsistent (tables_after t (create_board id t))
  unfolding create_board
  create_board-IsConsistent id t ok = elim (Bool-cases (contains t.boards id)) [
    | inl e ↦ rw (e, tables_after) ok
    | inr e ↦
        rw (e, tables_after)
          (record {
            board_ids =
                IsUnique-insert same_id t.boards id (others_only t.boards id e) ok.board_ids;
            column_ids = ok.column_ids;
            placement_keys = ok.placement_keys;
            column_boards =
                All-imp t.columns
                  (λ c known. ground (arith, contains-append t.boards (id ∷ []) c.board_id))
                  ok.column_boards;
            placement_columns = ok.placement_columns;
          })
  ]
