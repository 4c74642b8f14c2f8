-- ===== src/Bulk/Runs.antt =====
-- The cards of a bulk request one after the other (internal/api/bulk_card_commands.go).
use kanban_store.Prelude.{
  ℕ, suc, ◌+◌, String, Bool, ◌&&◌, List, [], ◌∷◌, ◌++◌, Option, none, some, ltb, leb, keep,
  append_nil, append_one, length, if◌then◌else◌, ◌≡◌, refl, sym, ap, ◌∙◌, arith, Bool-cases, inl,
  inr,
}
use kanban_store.Prelude.Text.{◌=?◌, ◌<>◌}
use kanban_store.Boards.Placing.{MoveCardRequest}
use kanban_store.Bulk.Commands.{
  BulkCardCommandRequest, SingleRequest, SingleBody, no_body, a_move, a_reason, Answer, Outside,
  change_tags_of_card,
}

pub record BulkCardCommandResult : Type 0 where
  pub card_id : String
  pub answer : Answer

pub record BulkCardCommandResponse : Type 0 where
  pub succeeded : ℕ
  pub failed : ℕ
  pub results : List BulkCardCommandResult

abbrev pub single : {F : Type 0} → String → String → SingleBody F → SingleRequest F
single method path body = record { method = method; path = path; if_match = none; body = body }

abbrev moved_on : {F S : Type 0} → Outside F S → ℕ → MoveCardRequest F → MoveCardRequest F
moved_on o index m = record m { position = o.plus_index m.position index }

abbrev pub is_success : Answer → Bool
is_success a = leb 200 a.status && ltb a.status 300

abbrev pub add_result : BulkCardCommandResponse → String → Answer → BulkCardCommandResponse
add_result response card_id a = record {
  succeeded = if is_success a then suc response.succeeded else response.succeeded;
  failed = if is_success a then response.failed else suc response.failed;
  results = response.results ++ (record { card_id = card_id; answer = a } ∷ []);
}

abbrev pub succeeds : BulkCardCommandResult → Bool
succeeds result = is_success result.answer

-- What a response to the results of some cards is, after an earlier one
pub record Reports (before after : BulkCardCommandResponse) (rest : List BulkCardCommandResult)
    : Type 0 where
  pub results : after.results ≡ before.results ++ rest
  pub succeeded : after.succeeded ≡ before.succeeded + length (keep succeeds rest)
  pub counted : after.succeeded + after.failed ≡ before.succeeded + before.failed + length rest

module _ {F S : Type 0} (o : Outside F S) (r : BulkCardCommandRequest F) where
  -- A request that validates has a move when its command is to move.
  abbrev run_move : ℕ → String → Option (MoveCardRequest F) → S → S × Answer
  run_move index path none s = (s, record { status = 500; body = "" })
  run_move index path (some m) s =
      o.serve (single "POST" (path <> "/move") (a_move (moved_on o index m))) s

  -- runBulkCommandOnCard
  unfoldable pub run_bulk_command_on_card : ℕ → String → S → S × Answer
  run_bulk_command_on_card index card_id s =
      let path = "/api/cards/" <> o.escape card_id in
      let assignment = path <> ("/assignments/" <> o.escape r.principal_id) in
      if r.command =? "move"
      then run_move index path r.move s
      else if r.command =? "assign"
      then o.serve (single "PUT" assignment no_body) s
      else if r.command =? "unassign"
      then o.serve (single "DELETE" assignment no_body) s
      else if r.command =? "hold"
      then o.serve (single "POST" (path <> "/hold") (a_reason r.reason)) s
      else if r.command =? "unhold"
      then o.serve (single "POST" (path <> "/unhold") no_body) s
      else change_tags_of_card o path (r.command =? "add_tags") r.tags s

  -- The loop over the cards
  unfoldable pub run_cards :
      ℕ → List String → BulkCardCommandResponse → S → S × BulkCardCommandResponse
  run_cards index [] response s = (s, response)
  run_cards index (card_id ∷ card_ids) response s =
      let (after, a) = run_bulk_command_on_card index card_id s in
      run_cards (suc index) card_ids (add_result response card_id a) after

  -- bulkCardCommands, of a request that validates
  unfoldable pub bulk_card_commands_of : S → S × BulkCardCommandResponse
  bulk_card_commands_of s =
      run_cards 0 r.card_ids (record { succeeded = 0; failed = 0; results = [] }) s

  -- An independent account: the results of the cards run one after the other
  unfoldable pub results_of : ℕ → List String → S → List BulkCardCommandResult
  results_of index [] s = []
  results_of index (card_id ∷ card_ids) s =
      let (after, a) = run_bulk_command_on_card index card_id s in
      record { card_id = card_id; answer = a } ∷ results_of (suc index) card_ids after

  run_cards-Reports :
      (index : ℕ) (ids : List String) (response : BulkCardCommandResponse) (s : S)
      → Reports response (run_cards index ids response s).1 (results_of index ids s)
  unfolding run_cards results_of keep
  run_cards-Reports index [] response s = record {
    results = sym (append_nil response.results);
    succeeded = omega arith;
    counted = omega arith;
  }
  run_cards-Reports index (id ∷ ids) response s =
      let (after, a) = run_bulk_command_on_card index id s in
      let next = add_result response id a in
      let rest = run_cards-Reports (suc index) ids next after in
      let later = rest.succeeded in
      let all = rest.counted in
      record {
        results =
            rest.results ∙ append_one response.results (record { card_id = id; answer = a }) _;
        succeeded = elim (Bool-cases (is_success a)) [
          | inl e ↦ ground arith
          | inr e ↦ ground arith
        ];
        counted = elim (Bool-cases (is_success a)) [ inl e ↦ ground arith | inr e ↦ ground arith ];
      }

  length-results_of :
      (index : ℕ) (ids : List String) (s : S) → length (results_of index ids s) ≡ length ids
  unfolding results_of
  length-results_of index [] s = refl
  length-results_of index (id ∷ ids) s = ap suc (length-results_of (suc index) ids _)

  -- A bulk request answers with what every card's own request answers when the cards are served one
  -- after the other in the order sent, each in the state that the one before left, counts as succeeded
  -- those whose status is from 200 to 299, and counts every card as succeeded or failed.
  pub bulk_card_commands_of-results_of :
      (s : S)
      → ((bulk_card_commands_of s).1.results ≡ results_of 0 r.card_ids s)
        × ((bulk_card_commands_of s).1.succeeded
            ≡ length (keep succeeds (results_of 0 r.card_ids s)))
        × ((bulk_card_commands_of s).1.succeeded + (bulk_card_commands_of s).1.failed
            ≡ length r.card_ids)
  unfolding bulk_card_commands_of
  bulk_card_commands_of-results_of s =
      let reports =
        run_cards-Reports 0 r.card_ids (record { succeeded = 0; failed = 0; results = [] }) s in
      (
        reports.results,
        omega (arith, reports.succeeded),
        omega (arith, reports.counted, length-results_of 0 r.card_ids s),
      )
