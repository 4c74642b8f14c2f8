-- ===== src/Entities/Tags.antt =====
-- Entity tags (internal/db/db.go): AddEntityTag, DeleteEntityTag and the three lists of tags.
use kanban_store.Prelude.{
  ℕ, suc, String, Bool, ◌&&◌, ◌||◌, not, List, [], ◌∷◌, ◌++◌, Option, none, some, if◌then◌else◌,
  is_some, find, keep,
}
use kanban_store.Prelude.Text.{◌=?◌, text_lt}
use kanban_store.Prelude.Sort.{sort_stable}
use kanban_store.Timeline.Events.{Time}

pub record EntityTag : Type 0 where
  pub entity_type : String
  pub entity_ref : String
  pub tag : String
  pub created_at : Time

pub record TagCount : Type 0 where
  pub tag : String
  pub count : ℕ

abbrev pub of_entity : String → String → EntityTag → Bool
of_entity entity_type entity_ref t = t.entity_type =? entity_type && t.entity_ref =? entity_ref

-- The primary key of entity_tags
abbrev pub is_tag : String → String → String → EntityTag → Bool
is_tag entity_type entity_ref tag t = of_entity entity_type entity_ref t && t.tag =? tag

abbrev insert_tag : EntityTag → List EntityTag → Bool → List EntityTag
insert_tag t table there = if there then table else table ++ (t ∷ [])

-- AddEntityTag: the table afterwards, and the tag it answers with
unfoldable pub add_entity_tag :
    Time → String → String → String → List EntityTag → List EntityTag × EntityTag
add_entity_tag now entity_type entity_ref tag table =
    let t : EntityTag = record {
      entity_type = entity_type;
      entity_ref = entity_ref;
      tag = tag;
      created_at = now;
    } in
    (insert_tag t table (is_some (find (is_tag entity_type entity_ref tag) table)), t)

-- DeleteEntityTag; `none` is ErrNotFound.
unfoldable pub delete_entity_tag :
    String → String → String → List EntityTag → Option (List EntityTag)
delete_entity_tag entity_type entity_ref tag table =
    if is_some (find (is_tag entity_type entity_ref tag) table)
    then some (keep (λ t. not (is_tag entity_type entity_ref tag t)) table)
    else none

-- ListEntityTags
unfoldable pub list_entity_tags : String → String → List EntityTag → List EntityTag
list_entity_tags entity_type entity_ref table =
    sort_stable (λ a b. text_lt a.tag b.tag) (keep (of_entity entity_type entity_ref) table)

abbrev pub is_found : String → String → EntityTag → Bool
is_found tag entity_type t = t.tag =? tag && (entity_type =? "" || t.entity_type =? entity_type)

-- `ORDER BY entity_type, entity_ref`
unfoldable pub entity_before : EntityTag → EntityTag → Bool
entity_before a b =
    text_lt a.entity_type b.entity_type
    || (a.entity_type =? b.entity_type && text_lt a.entity_ref b.entity_ref)

-- FindEntitiesByTag
unfoldable pub find_entities_by_tag : String → String → List EntityTag → List EntityTag
find_entities_by_tag tag entity_type table =
    sort_stable entity_before (keep (is_found tag entity_type) table)

unfoldable pub count_tag : String → List TagCount → List TagCount
count_tag tag [] = record { tag = tag; count = 1 } ∷ []
count_tag tag (c ∷ counts) =
    let rest = count_tag tag counts in
    if c.tag =? tag then record c { count = suc c.count } ∷ counts else c ∷ rest

-- `GROUP BY tag`
unfoldable pub group_tags : List EntityTag → List TagCount
group_tags [] = []
group_tags (t ∷ table) = count_tag t.tag (group_tags table)

abbrev pub tag_before : TagCount → TagCount → Bool
tag_before a b = text_lt a.tag b.tag

-- ListAllEntityTags
unfoldable pub list_all_entity_tags : List EntityTag → List TagCount
list_all_entity_tags table = sort_stable tag_before (group_tags table)
