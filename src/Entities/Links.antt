-- ===== src/Entities/Links.antt =====
-- The links of cards (internal/db/db.go): CreateCardLink, ListCardLinks and DeleteCardLink. The id that
-- uuid.NewString gives is an argument.
use kanban_store.Prelude.{
  String, Bool, ◌&&◌, not, List, [], ◌∷◌, ◌++◌, Option, none, some, ltb, if◌then◌else◌, is_some,
  find, keep, update_where,
}
use kanban_store.Prelude.Text.{◌=?◌}
use kanban_store.Prelude.Sort.{sort_stable}
use kanban_store.Timeline.Events.{Time}

pub record CardLink : Type 0 where
  pub id : String
  pub card_id : String
  pub entity_type : String
  pub entity_ref : String
  pub label : String
  pub created_at : Time

pub record CreateCardLinkRequest : Type 0 where
  pub entity_type : String
  pub entity_ref : String
  pub label : Option String

abbrev pub label_or_empty : Option String → String
label_or_empty none = ""
label_or_empty (some label) = label

abbrev pub new_link : String → Time → String → CreateCardLinkRequest → CardLink
new_link id now card_id req = record {
  id = id;
  card_id = card_id;
  entity_type = req.entity_type;
  entity_ref = req.entity_ref;
  label = label_or_empty req.label;
  created_at = now;
}

-- UNIQUE (card_id, entity_type, entity_ref)
unfoldable pub links : String → String → String → CardLink → Bool
links card_id entity_type entity_ref l =
    l.card_id =? card_id && l.entity_type =? entity_type && l.entity_ref =? entity_ref

abbrev pub relabelled : String → CardLink → CardLink
relabelled label l = record l { label = label }

-- `ON CONFLICT ... DO UPDATE SET label`
unfoldable pub upsert_link : CardLink → List CardLink → List CardLink
upsert_link l table =
    let key = links l.card_id l.entity_type l.entity_ref in
    if is_some (find key table)
    then update_where key (relabelled l.label) table
    else table ++ (l ∷ [])

-- CreateCardLink with an id that no row has: the table afterwards, and the link it answers with
unfoldable pub create_card_link :
    String → Time → String → CreateCardLinkRequest → List CardLink → List CardLink × CardLink
create_card_link id now card_id req table =
    let l = new_link id now card_id req in (upsert_link l table, l)

-- ListCardLinks
unfoldable pub list_card_links : String → List CardLink → List CardLink
list_card_links card_id table =
    sort_stable (λ a b. ltb a.created_at b.created_at) (keep (λ l. l.card_id =? card_id) table)

-- DeleteCardLink; `none` is ErrNotFound.
unfoldable pub delete_card_link : String → List CardLink → Option (List CardLink)
delete_card_link link_id table =
    if is_some (find (λ l. l.id =? link_id) table)
    then some (keep (λ l. not (l.id =? link_id)) table)
    else none
