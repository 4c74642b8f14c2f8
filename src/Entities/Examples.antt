-- ===== src/Entities/Examples.antt =====
-- Tags of entities at concrete inputs (internal/db/db.go).
use kanban_store.Prelude.{String, List, [], ◌∷◌, length, keep, ◌≡◌}
use kanban_store.Entities.Tags.{EntityTag, find_entities_by_tag, list_all_entity_tags}
use kanban_store.Entities.TagCounts.{counts, rows_of, list_all_entity_tags-find_entities_by_tag}

abbrev tagged : String → String → EntityTag
tagged entity_ref tag = record {
  entity_type = "repo";
  entity_ref = entity_ref;
  tag = tag;
  created_at = 1;
}

abbrev tags : List EntityTag
tags = tagged "b" "urgent" ∷ tagged "a" "later" ∷ tagged "a" "urgent" ∷ []

list_all_entity_tags-find_entities_by_tag_example :
    keep (counts "urgent") (list_all_entity_tags tags)
    ≡ rows_of "urgent" (length (find_entities_by_tag "urgent" "" tags))
list_all_entity_tags-find_entities_by_tag_example =
    list_all_entity_tags-find_entities_by_tag tags "urgent"
