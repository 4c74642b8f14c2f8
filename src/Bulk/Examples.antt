-- ===== src/Bulk/Examples.antt =====
-- Bulk commands at concrete inputs (internal/api/bulk_card_commands.go).
use kanban_store.Prelude.{true, ◌||◌, if◌then◌else◌, [], ◌∷◌, ◌≡◌, ◌&&◌, not}
use kanban_store.Prelude.Text.{contains}
use kanban_store.Bulk.Commands.{changed_tags}
use kanban_store.Bulk.ChangedTags.{changed_tags-contains}

changed_tags-contains_example : contains (changed_tags true ("new" ∷ []) ("old" ∷ [])) "old" ≡ (
    if true
    then contains ("old" ∷ []) "old" || contains ("new" ∷ []) "old"
    else contains ("old" ∷ []) "old" && not (contains ("new" ∷ []) "old"))
changed_tags-contains_example = changed_tags-contains true ("new" ∷ []) ("old" ∷ []) "old"
