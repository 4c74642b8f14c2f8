-- ===== src/Entities/LinkExamples.antt =====
-- Links of cards at concrete inputs (internal/db/db.go).
use kanban_store.Prelude.{List, [], ◌∷◌, some, find, if◌then◌else◌, ◌≡◌}
use kanban_store.Entities.Links.{CardLink, CreateCardLinkRequest, new_link, links, create_card_link}
use kanban_store.Entities.LinkEffects.{same_link, stored_link, create_card_link-stored_link}

abbrev linked : List CardLink
linked =
    record {
      id = "l1";
      card_id = "c1";
      entity_type = "repo";
      entity_ref = "r1";
      label = "old";
      created_at = 2;
    }
    ∷ []

abbrev relabel : CreateCardLinkRequest
relabel = record { entity_type = "repo"; entity_ref = "r1"; label = some "new" }

create_card_link-stored_link_example :
    find (links "c1" "repo" "r1") (create_card_link "l2" 9 "c1" relabel linked).0 ≡ (
      if same_link "c1" "repo" "r1" "c1" "repo" "r1"
      then some (stored_link (new_link "l2" 9 "c1" relabel) (find (links "c1" "repo" "r1") linked))
      else find (links "c1" "repo" "r1") linked)
create_card_link-stored_link_example =
    create_card_link-stored_link "l2" 9 "c1" relabel linked "c1" "repo" "r1"
