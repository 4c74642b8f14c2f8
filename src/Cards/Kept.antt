-- ===== src/Cards/Kept.antt =====
-- What every request on cards keeps: the tables' keys, references and limits, and one log that the
-- message triggers are handed as it grows (internal/api).
use kanban_store.Prelude.{
  String, Bool, true, false, List, [], ◌∷◌, ◌++◌, Option, none, some, append_nil, append_assoc, ◌≡◌,
  ◌⊎◌, refl, sym, ap, subst, ◌∙◌, inl, inr,
}
use kanban_store.Timeline.Events.{Time, CardEvent}
use kanban_store.Boards.Tables.{Tables}
use kanban_store.Boards.Assignments.{CardAssignment}
use kanban_store.Boards.SharedAssignments.{list_card_assignments}
use kanban_store.Boards.Consistency.{IsConsistent}
use kanban_store.Log.Events.{LogReply, refused, done, record_card_event}
use kanban_store.Log.Successors.{IsLine, log_after, record_all, record_all-IsLine}
use kanban_store.Arrivals.Pool.{ArrivalAssignment, by_tag_rule, by_board_default, by_pool, skipped}
use kanban_store.Cards.World.{
  World, Outside, Call, Answer, NoteboardWrite, with_tables, logged,
  record_event_and_fire_message_triggers, or_500,
}
use kanban_store.Cards.Clock.{record_carried}
use kanban_store.Cards.Arriving.{
  answer_with, assigned_event, skipped_event, assigned_on_arrival, apply_arrival,
  apply_assignee_on_arrival,
}
use kanban_store.Cards.Recording.{more_log, record_event-cases}
use kanban_store.Cards.Carried.{left_by}
use kanban_store.Cards.Limits.{IsWithinWip}

module _ {F : Type 0} where
  -- Tables that are consistent and within the limits become such tables.
  abbrev pub StaySafe : Tables F → Tables F → Type 0
  StaySafe t u = IsConsistent t → IsWithinWip t → IsConsistent u × IsWithinWip u

  pub record Kept (w v : World F) : Type 0 where
    pub tables : StaySafe w.tables v.tables
    pub added : List CardEvent
    pub log : v.log ≡ w.log ++ added
    pub fired : v.fired ≡ w.fired ++ added
    pub line : IsLine w.log → IsLine v.log

  pub Kept-with_tables :
      (w : World F) (t : Tables F) → StaySafe w.tables t → Kept w (with_tables w t)
  Kept-with_tables w t safe = record {
    tables = safe;
    added = [];
    log = sym (append_nil w.log);
    fired = sym (append_nil w.fired);
    line = λ ok. ok;
  }

  pub Kept-same : (w : World F) → Kept w w
  Kept-same w = Kept-with_tables w w.tables (λ ok within. (ok, within))

  -- Other changes than to the tables and the log
  pub Kept-aside :
      (w : World F) (assignments : List CardAssignment) (writes : List (NoteboardWrite F))
      → Kept w (record w { assignments = assignments; noteboard = writes })
  Kept-aside w assignments writes = record {
    tables = λ ok within. (ok, within);
    added = [];
    log = sym (append_nil w.log);
    fired = sym (append_nil w.fired);
    line = λ ok. ok;
  }

  pub Kept-then : {w v u : World F} → Kept w v → Kept v u → Kept w u
  Kept-then {w} a b = record {
    tables = λ ok within. let (fine, under) = a.tables ok within in b.tables fine under;
    added = a.added ++ b.added;
    log = b.log ∙ ap (λ l. l ++ b.added) a.log ∙ append_assoc w.log a.added b.added;
    fired = b.fired ∙ ap (λ l. l ++ b.added) a.fired ∙ append_assoc w.fired a.added b.added;
    line = λ ok. b.line (a.line ok);
  }

  logged-log_after :
      (w : World F) (r : LogReply (List CardEvent) CardEvent)
      → (left_by (logged w r)).log ≡ log_after w.log r
  unfolding logged log_after
  logged-log_after w (refused e) = refl
  logged-log_after w (done log stored) = refl

  recorded-IsLine :
      (now : Time) (new_id : String) (e : CardEvent) (w : World F)
      → IsLine w.log
      → IsLine (left_by (record_event_and_fire_message_triggers now new_id e w)).log
  unfolding record_event_and_fire_message_triggers record_all
  recorded-IsLine now new_id e w ok =
      subst IsLine (sym (logged-log_after w (record_card_event now new_id e w.log)))
        ((record_all-IsLine ((now, new_id, e) ∷ []) w.log ok).0)

  grown :
      (w : World F) (r : World F × Option CardEvent)
      → (left_by r ≡ w) ⊎ ((e : CardEvent) × (left_by r ≡ more_log w e))
      → (IsLine w.log → IsLine (left_by r).log)
      → Kept w (left_by r)
  unfolding more_log
  grown w r (inl same) line = subst (Kept w) (sym same) (Kept-same w)
  grown w r (inr (e, more)) line = record {
    tables = λ ok within. (
      subst (λ v. IsConsistent v.tables) (sym more) ok,
      subst (λ v. IsWithinWip v.tables) (sym more) within,
    );
    added = e ∷ [];
    log = ap (λ v. v.log) more;
    fired = ap (λ v. v.fired) more;
    line = line;
  }

  pub record_event-Kept :
      (now : Time) (new_id : String) (e : CardEvent) (w : World F)
      → Kept w (left_by (record_event_and_fire_message_triggers now new_id e w))
  record_event-Kept now new_id e w =
      grown w (record_event_and_fire_message_triggers now new_id e w)
        (elim (record_event-cases now new_id e w) [
          | inl same ↦ inl (ap left_by same)
          | inr more ↦ inr (_, ap left_by more)
        ])
        (recorded-IsLine now new_id e w)

  pub record_carried-Kept :
      (now : Time) (new_id : String) (event : String → CardEvent) (found : Option String)
      (w : World F)
      → Kept w (left_by (record_carried now new_id event found w))
  unfolding record_carried
  record_carried-Kept now new_id event none w = Kept-same w
  record_carried-Kept now new_id event (some state) w = record_event-Kept now new_id (event state) w

  pub or_500-Kept :
      {A B : Type 0} (w : World F) (r : World F × Option A)
      (next : World F → A → World F × Answer B)
      → Kept w (left_by r)
      → ((v : World F) (a : A) → Kept v (left_by (next v a)))
      → Kept w (left_by (or_500 r next))
  unfolding or_500
  or_500-Kept w (v, none) next h k = h
  or_500-Kept w (v, some a) next h k = Kept-then h (k v a)

  module _ (o : Outside F) (call : Call) (card : String) (w : World F) where
    answer_with-Kept :
        (rows : List CardAssignment) (r : World F × Option CardEvent)
        → Kept w (left_by r)
        → Kept w (left_by (answer_with o rows r))
    answer_with-Kept rows (v, none) h = h
    answer_with-Kept rows (v, some e) h = h

    assigned_on_arrival-Kept :
        (arrival : ArrivalAssignment) (result : List CardAssignment × CardAssignment × Bool)
        → Kept w (left_by (assigned_on_arrival o call card arrival w result))
    assigned_on_arrival-Kept arrival (table, a, false) = Kept-aside w table w.noteboard
    assigned_on_arrival-Kept arrival (table, a, true) = answer_with-Kept (a ∷ []) _ (
        Kept-then (Kept-aside w table w.noteboard) (
          record_carried-Kept call.now call.second_id (assigned_event o arrival card a call.actor) _
            _))

    apply_arrival-Kept :
        (board : String) (arrival : Option ArrivalAssignment) (existing : List CardAssignment)
        → Kept w (left_by (apply_arrival o call card board arrival existing w))
    apply_arrival-Kept board none existing = Kept-same w
    apply_arrival-Kept board (some (skipped pool)) (a ∷ existing) = Kept-same w
    apply_arrival-Kept board (some (by_tag_rule p)) (a ∷ existing) = Kept-same w
    apply_arrival-Kept board (some (by_board_default p)) (a ∷ existing) = Kept-same w
    apply_arrival-Kept board (some (by_pool p pool)) (a ∷ existing) = Kept-same w
    apply_arrival-Kept board (some (skipped pool)) [] = answer_with-Kept [] _ (
        record_carried-Kept call.now call.second_id
          (skipped_event o (skipped pool) pool card board call.actor) _ w)
    apply_arrival-Kept board (some (by_tag_rule p)) [] = assigned_on_arrival-Kept (by_tag_rule p) _
    apply_arrival-Kept board (some (by_board_default p)) [] =
        assigned_on_arrival-Kept (by_board_default p) _
    apply_arrival-Kept board (some (by_pool p pool)) [] =
        assigned_on_arrival-Kept (by_pool p pool) _

    pub apply_assignee_on_arrival-Kept :
        (board : String) (arrival : Option ArrivalAssignment)
        → Kept w (left_by (apply_assignee_on_arrival o call card board arrival w))
    unfolding apply_assignee_on_arrival
    apply_assignee_on_arrival-Kept board arrival =
        apply_arrival-Kept board arrival (list_card_assignments card w.assignments)
