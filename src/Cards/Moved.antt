-- ===== src/Cards/Moved.antt =====
-- What a request to move a card does (internal/api/api.go, moveCard).
use kanban_store.Prelude.{
  String, true, false, ◌&&◌, ◌||◌, not, List, [], ◌∷◌, ◌++◌, Option, none, some, ◌≡◌, ◌⊎◌, refl,
  if◌then◌else◌, Bool-cases, inl, inr, arith,
}
use kanban_store.Prelude.Text.{◌=?◌}
use kanban_store.Timeline.Events.{CardEvent}
use kanban_store.Boards.Tables.{Column, Placement, Tables, done, get_column, get_placement}
use kanban_store.Boards.Placing.{MoveCardRequest, write_placement}
use kanban_store.Boards.Effects.{same_key, move_card-moves}
use kanban_store.Log.Events.{stored_event}
use kanban_store.Cards.World.{World, Outside, Call, Answer, fails, answers, with_tables, or_500}
use kanban_store.Cards.Recording.{more_log, record_event-cases}
use kanban_store.Cards.Placements.{
  AutoStatus, check_wip, crosses, apply_auto_status, auto_status_of, with_status, moved_event,
  after_move, move_card_request,
}
use kanban_store.Cards.Wip.{move_card-cases}

module _ {F : Type 0} (o : Outside F) (call : Call) (card : String) (req : MoveCardRequest F)
    (w : World F) where
  -- The card's placement is the old one in the column, and every other placement is as it was.
  pub record IsMoved (t : Tables F) (p : Placement F) : Type 0 where
    pub old : Placement F
    pub was : get_placement w.tables card req.board_id ≡ some old
    pub now_at : p ≡ write_placement req.column_id req.position call.now old
    pub room : ((old.column_id =? req.column_id) ≡ true) ⊎ (check_wip w.tables req.column_id ≡ true)
    pub col : Column F
    pub column : get_column w.tables req.column_id ≡ some col
    pub on_board : (col.board_id =? req.board_id) ≡ true
    pub reads :
        (card' board : String)
        → get_placement t card' board ≡ (
            if same_key card req.board_id card' board
            then some p
            else get_placement w.tables card' board)

  -- One event is in the log, and was handed to the message triggers, that tells the move.
  pub record IsTold (log fired : List CardEvent) (from : String) : Type 0 where
    pub event : CardEvent
    pub in_log : log ≡ w.log ++ (event ∷ [])
    pub in_fired : fired ≡ w.fired ++ (event ∷ [])
    pub of_card : event.card_id ≡ card
    pub of_board : event.board_id ≡ req.board_id
    pub of_kind : event.kind ≡ "card_moved"
    pub from_column : event.from_column_id ≡ from
    pub to_column : event.to_column_id ≡ req.column_id
    pub by_actor : event.actor ≡ call.actor

  -- An error leaves everything, or is that of a log that refuses the event of a move that was written;
  -- otherwise the card has moved and the move is told.
  abbrev pub MoveOutcome : World F × Answer (Placement F × AutoStatus) → Type 0
  MoveOutcome (v, fails n) =
      (v ≡ w) ⊎ ((n ≡ 500) × (v.log ≡ w.log) × ((p : Placement F) × IsMoved v.tables p))
  MoveOutcome (v, answers n (p, s)) =
      (moved : IsMoved v.tables p) × IsTold v.log v.fired moved.old.column_id × (n ≡ 200)

  status-MoveOutcome :
      (u : World F) (p : Placement F) (status : Option String) (moved : IsMoved u.tables p)
      → IsTold u.log u.fired moved.old.column_id
      → MoveOutcome (with_status o 200 p (apply_auto_status o card status u))
  status-MoveOutcome u p none moved told = (moved, told, refl)
  status-MoveOutcome u p (some status) moved told = elim (Bool-cases (status =? "")) [
    | inl empty ↦ rw empty (moved, told, refl)
    | inr named ↦ rw named (moved, told, refl)
  ]

  recorded-MoveOutcome :
      (t : Tables F) (p : Placement F) (moved : IsMoved t p)
      → MoveOutcome (after_move o call card req (some moved.old) w (done t p))
  unfolding after_move or_500 more_log moved_event stored_event
  recorded-MoveOutcome t p moved =
      let v = with_tables w t in
      elim (record_event-cases call.now call.first_id
        (moved_event o call card req (some moved.old) v) v) [
          | inl refusal ↦ rw refusal (inr (refl, refl, (p, moved)))
          | inr more ↦ rw more (
              status-MoveOutcome _ p (auto_status_of o (get_column t req.column_id)) moved (record {
                event =
                    stored_event call.now call.first_id
                      (moved_event o call card req (some moved.old) v);
                in_log = refl;
                in_fired = refl;
                of_card = refl;
                of_board = refl;
                of_kind = refl;
                from_column = refl;
                to_column = refl;
                by_actor = refl;
              }))
        ]

  crossing :
      (old : Placement F)
      → (crosses req.column_id (some old) && not (check_wip w.tables req.column_id)) ≡ false
      → ((old.column_id =? req.column_id) ≡ true) ⊎ (check_wip w.tables req.column_id ≡ true)
  crossing old h = elim (Bool-cases (old.column_id =? req.column_id)) [
    | inl stays ↦ inl stays
    | inr leaves ↦ inr (ground arith)
  ]

  -- A request to move a card, whatever it answers. With an error nothing is changed, but for an answer of
  -- 500 after which the card may have moved with no event in the log. With 200, the card was on the
  -- board, the column is one of the board, and it is the card's column already or admits one more card
  -- under its limit; the card's placement on the board is then the old one at the column, position and
  -- time of the request, every other placement is as it was, and exactly one event has been added to the
  -- log and handed to the message triggers, which tells the card, the board, the columns it left and
  -- entered and the actor.
  pub move_card_request-MoveOutcome : MoveOutcome (move_card_request o call card req w)
  unfolding move_card_request after_move
  move_card_request-MoveOutcome = elim (Bool-cases (req.board_id =? "" || req.column_id =? "")) [
    | inl empty ↦ rw empty (inl refl)
    | inr named ↦
        elim (Bool-cases (
          crosses req.column_id (get_placement w.tables card req.board_id)
          && not (check_wip w.tables req.column_id))) [
            | inl full ↦ rw (named, full) (inl refl)
            | inr room ↦ elim (move_card-cases call.now card req w.tables) [
              | inl (e, refusal) ↦ rw (named, room, refusal) (inl refl)
              | inr (col, old, p, found, own, there, written) ↦
                  let (t, moves, reads) =
                    move_card-moves call.now card req w.tables col old found own there in
                  let moved : IsMoved t (write_placement req.column_id req.position call.now old) =
                    record {
                      old = old;
                      was = there;
                      now_at = refl;
                      room = crossing old (rw there at room);
                      col = col;
                      column = found;
                      on_board = own;
                      reads = reads;
                    } in
                  rw (named, room, there, moves) (recorded-MoveOutcome t _ moved)
            ]
          ]
  ]
