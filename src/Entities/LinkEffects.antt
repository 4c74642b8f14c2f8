-- ===== src/Entities/LinkEffects.antt =====
-- What creating and deleting links leaves in their table (internal/db/db.go).
use kanban_store.Prelude.{
  String, Bool, true, false, ◌&&◌, List, [], ◌∷◌, Option, none, some, if◌then◌else◌, is_some, find,
  find-append_none, ◌≡◌, refl, sym, ◌∙◌, arith, Bool-cases, Option-cases, inl, inr,
}
use kanban_store.Prelude.Text.{◌=?◌, text_eq_iff, text_eq_refl}
use kanban_store.Prelude.Found.{find-update_where, find-update_where_other, find-insert_other}
use kanban_store.Timeline.Events.{Time}
use kanban_store.Entities.Links.{
  CardLink, CreateCardLinkRequest, new_link, links, relabelled, upsert_link, create_card_link,
}

-- The two keys are the same.
abbrev pub same_link : String → String → String → String → String → String → Bool
same_link card entity_type ref card' entity_type' ref' =
    card =? card' && entity_type =? entity_type' && ref =? ref'

-- The link that is stored: the one already there, under the new label, or the new one.
unfoldable pub stored_link : CardLink → Option CardLink → CardLink
stored_link l none = l
stored_link l (some old) = relabelled l.label old

same_text : (a b c : String) → (a =? b) ≡ true → (a =? c) ≡ true → (b =? c) ≡ true
same_text a b c h k = (text_eq_iff b c).1 (sym ((text_eq_iff a b).0 h) ∙ (text_eq_iff a c).0 k)

links_apart :
    (card entity_type ref card' entity_type' ref' : String) (l : CardLink)
    → same_link card entity_type ref card' entity_type' ref' ≡ false
    → links card entity_type ref l ≡ true
    → links card' entity_type' ref' l ≡ false
unfolding links
links_apart card entity_type ref card' entity_type' ref' l other h = ground (
  arith,
  same_text l.card_id card card',
  same_text l.entity_type entity_type entity_type',
  same_text l.entity_ref ref ref',
)

links_self : (l : CardLink) → links l.card_id l.entity_type l.entity_ref l ≡ true
unfolding links
links_self l =
    ground (arith, text_eq_refl l.card_id, text_eq_refl l.entity_type, text_eq_refl l.entity_ref)

find-new_link : (l : CardLink) → find (links l.card_id l.entity_type l.entity_ref) (l ∷ []) ≡ some l
unfolding find
find-new_link l = rw (links_self l) refl

-- Under its own key, the table has the stored link.
find-upsert_link :
    (l : CardLink) (table : List CardLink)
    → find (links l.card_id l.entity_type l.entity_ref) (upsert_link l table)
      ≡ some (stored_link l (find (links l.card_id l.entity_type l.entity_ref) table))
unfolding upsert_link stored_link links
find-upsert_link l table =
    let key = links l.card_id l.entity_type l.entity_ref in
    elim (Option-cases (find key table)) [
      | inl absent ↦ rw absent (find-append_none key table (l ∷ []) absent ∙ find-new_link l)
      | inr (old, there) ↦
          rw there (find-update_where key (relabelled l.label) (λ x. refl) table old there)
    ]

find-upsert_link_other :
    (l : CardLink) (card entity_type ref : String) (table : List CardLink)
    → same_link l.card_id l.entity_type l.entity_ref card entity_type ref ≡ false
    → find (links card entity_type ref) (upsert_link l table)
      ≡ find (links card entity_type ref) table
unfolding upsert_link links
find-upsert_link_other l card entity_type ref table other =
    let key = links l.card_id l.entity_type l.entity_ref in
    let apart = λ (x : CardLink).
      links_apart l.card_id l.entity_type l.entity_ref card entity_type ref x other in
    elim (Bool-cases (is_some (find key table))) [
      | inl there ↦ rw there (
          find-update_where_other key (links card entity_type ref) (relabelled l.label) (λ x. refl)
            apart table)
      | inr absent ↦
          rw absent
            (find-insert_other (links card entity_type ref) l table (apart l (links_self l)))
    ]

-- Creating a link leaves under its card and entity the new link if there was none, or else the link
-- that was there, with its id and its time and under the label of the request; every other link stays.
pub create_card_link-stored_link :
    (id : String) (now : Time) (card_id : String) (req : CreateCardLinkRequest)
    (table : List CardLink) (card entity_type ref : String)
    → find (links card entity_type ref) (create_card_link id now card_id req table).0 ≡ (
        if same_link card_id req.entity_type req.entity_ref card entity_type ref
        then some
            (stored_link (new_link id now card_id req) (find (links card entity_type ref) table))
        else find (links card entity_type ref) table)
unfolding create_card_link
create_card_link-stored_link id now card_id req table card entity_type ref =
    let l = new_link id now card_id req in
    elim (Bool-cases (same_link card_id req.entity_type req.entity_ref card entity_type ref)) [
      | inl e ↦
          let cards = (text_eq_iff card_id card).0 (ground arith) in
          let types = (text_eq_iff req.entity_type entity_type).0 (ground arith) in
          let refs = (text_eq_iff req.entity_ref ref).0 (ground arith) in
          rw (e, sym cards, sym types, sym refs) (find-upsert_link l table)
      | inr e ↦ rw e (find-upsert_link_other l card entity_type ref table e)
    ]
