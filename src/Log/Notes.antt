-- ===== src/Log/Notes.antt =====
-- The notes on cards (internal/db/activity.go). The id that `uuid` makes and the time are arguments.
use kanban_store.Prelude.{
  String, Bool, ◌&&◌, ◌||◌, not, List, [], ◌∷◌, ◌++◌, Option, none, some, ltb, if◌then◌else◌,
  is_some, find, keep,
}
use kanban_store.Prelude.Text.{◌=?◌}
use kanban_store.Prelude.Sort.{sort_stable}
use kanban_store.Timeline.Events.{Time}
use kanban_store.Log.Events.{LogReply, refused, done, not_found, failed}

pub record CardNote : Type 0 where
  pub id : String
  pub card_id : String
  pub board_id : String
  pub kind : String
  pub visibility : String
  pub body : String
  pub actor : String
  pub created_at : Time

pub record CreateCardNoteRequest : Type 0 where
  pub board_id : String
  pub kind : String
  pub body : String
  pub visibility : String
  pub actor : String
  pub occurred_at : Option Time

-- DefaultNoteVisibility
abbrev pub default_note_visibility : String
default_note_visibility = "internal"

abbrev or_default : String → String → String
or_default text default = if text =? "" then default else text

abbrev time_or : Option Time → Time → Time
time_or none now = now
time_or (some at) now = at

unfoldable pub new_note : Time → String → String → CreateCardNoteRequest → CardNote
new_note now new_id card_id q = record {
  id = new_id;
  card_id = card_id;
  board_id = q.board_id;
  kind = or_default q.kind "note";
  visibility = or_default q.visibility default_note_visibility;
  body = q.body;
  actor = q.actor;
  created_at = time_or q.occurred_at now;
}

-- CreateCardNote, which fails on an id that is taken
unfoldable pub create_card_note :
    Time
    → String
    → String
    → CreateCardNoteRequest
    → List CardNote
    → LogReply (List CardNote) CardNote
create_card_note now new_id card_id q notes =
    let n = new_note now new_id card_id q in
    if is_some (find (λ m. m.id =? new_id) notes)
    then refused failed
    else done (notes ++ (n ∷ [])) n

abbrev pub is_listed : String → String → String → CardNote → Bool
is_listed card_id board_id visibility n =
    n.card_id =? card_id
    && (board_id =? "" || (n.board_id =? board_id || n.board_id =? ""))
    && (visibility =? "" || n.visibility =? visibility)

-- ListCardNotes
unfoldable pub list_card_notes : List CardNote → String → String → String → List CardNote
list_card_notes notes card_id board_id visibility =
    sort_stable (λ a b. ltb a.created_at b.created_at)
      (keep (is_listed card_id board_id visibility) notes)

-- DeleteCardNote
unfoldable pub delete_card_note : String → List CardNote → LogReply (List CardNote) Unit
delete_card_note note_id notes =
    if is_some (find (λ n. n.id =? note_id) notes)
    then done (keep (λ n. not (n.id =? note_id)) notes) tt
    else refused not_found
