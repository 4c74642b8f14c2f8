-- ===== src/Boards/History.antt =====
-- Histories of the operations on boards, columns and placements, each run on the tables that the one
-- before has left.
use kanban_store.Prelude.{ℕ, String, List, [], ◌∷◌}
use kanban_store.Boards.Tables.{Floats, Tables, tables_after, create_board, delete_board}
use kanban_store.Boards.Columns.{
  CreateColumnRequest, UpdateColumnRequest, create_column, update_column, delete_column,
}
use kanban_store.Boards.Placing.{
  AttachCardRequest, MoveCardRequest, attach_card, move_card, detach_card, detach_card_everywhere,
}
use kanban_store.Boards.Consistency.{IsConsistent}
use kanban_store.Boards.Keeps.{
  attach_card-IsConsistent, move_card-IsConsistent, detach_card-IsConsistent,
  detach_card_everywhere-IsConsistent,
}
use kanban_store.Boards.ColumnKeeps.{
  create_board-IsConsistent, delete_board-IsConsistent, create_column-IsConsistent,
  update_column-IsConsistent, delete_column-IsConsistent,
}

-- The calls, with the new id and the time where the store makes one.
pub data Operation (F : Type 0) : Type 0 where
  making_board deleting_board deleting_column detaching_everywhere : String → Operation F
  making_column : String → ℕ → String → CreateColumnRequest F → Operation F
  updating_column : ℕ → String → UpdateColumnRequest F → Operation F
  attaching : ℕ → String → String → AttachCardRequest F → Operation F
  moving : ℕ → String → MoveCardRequest F → Operation F
  detaching : String → String → Operation F

module _ {F : Type 0} (floats : Floats F) where
  unfoldable pub perform : Operation F → Tables F → Tables F
  perform (making_board id) t = tables_after t (create_board id t)
  perform (deleting_board id) t = tables_after t (delete_board t id)
  perform (deleting_column id) t = tables_after t (delete_column id t)
  perform (detaching_everywhere card) t = tables_after t (detach_card_everywhere card t)
  perform (making_column id now board req) t =
      tables_after t (create_column floats id now board req t)
  perform (updating_column now id req) t = tables_after t (update_column now id req t)
  perform (attaching now board card req) t =
      tables_after t (attach_card floats now board card req t)
  perform (moving now card req) t = tables_after t (move_card now card req t)
  perform (detaching board card) t = tables_after t (detach_card board card t)

  unfoldable pub perform_all : List (Operation F) → Tables F → Tables F
  perform_all [] t = t
  perform_all (op ∷ ops) t = perform_all ops (perform op t)

  perform-IsConsistent :
      (op : Operation F) (t : Tables F) → IsConsistent t → IsConsistent (perform op t)
  unfolding perform
  perform-IsConsistent (making_board id) t ok = create_board-IsConsistent id t ok
  perform-IsConsistent (deleting_board id) t ok = delete_board-IsConsistent id t ok
  perform-IsConsistent (deleting_column id) t ok = delete_column-IsConsistent id t ok
  perform-IsConsistent (detaching_everywhere card) t ok =
      detach_card_everywhere-IsConsistent card t ok
  perform-IsConsistent (making_column id now board req) t ok =
      create_column-IsConsistent floats id now board req t ok
  perform-IsConsistent (updating_column now id req) t ok =
      update_column-IsConsistent now id req t ok
  perform-IsConsistent (attaching now board card req) t ok =
      attach_card-IsConsistent floats now board card req t ok
  perform-IsConsistent (moving now card req) t ok = move_card-IsConsistent now card req t ok
  perform-IsConsistent (detaching board card) t ok = detach_card-IsConsistent board card t ok

  perform_all-keeps :
      (ops : List (Operation F)) (t : Tables F) → IsConsistent t → IsConsistent (perform_all ops t)
  unfolding perform_all
  perform_all-keeps [] t ok = ok
  perform_all-keeps (op ∷ ops) t ok =
      perform_all-keeps ops (perform op t) (perform-IsConsistent op t ok)

-- The tables of a new database.
abbrev pub empty_tables : {F : Type 0} → Tables F
empty_tables = record { boards = []; columns = []; placements = [] }

-- Whatever boards, columns and placements are made, changed, moved and deleted in whatever order from
-- an empty database on, with calls that are refused among them, the keys stay unique, every column
-- has its board, and every card is placed in an existing column of the board it is placed on.
pub perform_all-IsConsistent :
    {F : Type 0} (floats : Floats F) (ops : List (Operation F))
    → IsConsistent (perform_all floats ops empty_tables)
perform_all-IsConsistent floats ops = perform_all-keeps floats ops empty_tables (record {
  board_ids = tt;
  column_ids = tt;
  placement_keys = tt;
  column_boards = tt;
  placement_columns = tt;
})
