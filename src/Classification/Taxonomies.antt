-- ===== src/Classification/Taxonomies.antt =====
-- A board's classification settings and SetBoardTaxonomy (internal/db/classification.go).
use kanban_store.Prelude.{
  ℕ, suc, String, Bool, true, false, ◌&&◌, ◌||◌, not, List, [], ◌∷◌, ◌++◌, Option, none, some, ◌==◌,
  if◌then◌else◌, keep, find, length,
}
use kanban_store.Prelude.Text.{◌=?◌, contains}
use kanban_store.Classification.Records.{
  Records, BoardOrganization, Taxonomy, TaxonomyAxis, TaxonomyValue, AxisPolicies, Revision,
  TaxonomyContent, PolicyContent,
}
use kanban_store.Classification.Work.{
  invalid, stale, conflict, Settings, current_settings, WriteError, not_found, failed, refused,
  refuse, Outcome, stopped, wrote, Messages, write_immediately,
}
use kanban_store.Classification.Revisions.{current_taxonomy_revision, current_policy}
use kanban_store.Classification.Identifiers.{
  check_taxonomy_identifiers, IdentifierCheck, fit, unfit, mint_axes,
}

unfoldable pub board_organization : Records → String → Option String
board_organization r board_id = organization (find (λ b. b.id =? board_id) r.boards)
  where
    organization : Option BoardOrganization → Option String
    organization none = none
    organization (some b) = some b.organization_id

unfoldable pub board_classification : Records → String → Option Settings
board_classification r board_id = settings (board_organization r board_id)
  where
    settings : Option String → Option Settings
    settings none = none
    settings (some organization_id) = some (record {
      board_id = board_id;
      organization_id = organization_id;
      taxonomy = current_taxonomy_revision r.taxonomies board_id;
      policy = current_policy r.policies board_id;
    })

pub record TaxonomyUpdateResult : Type 0 where
  pub classification : Settings
  pub semantic_change : Bool
  pub decisions_under_other_taxonomies : ℕ
  pub labels_on_retired_entries : ℕ

-- What an Option holds, or the error that stops the work
abbrev pub or_stop : {A B : Type 0} → Records → WriteError → Option A → (A → Outcome B) → Outcome B
or_stop r e none f = stopped r e
or_stop r e (some a) f = f a

abbrev pub and_then : {A B : Type 0} → Outcome A → (Records → A → Outcome B) → Outcome B
and_then (stopped r e) f = stopped r e
and_then (wrote r a) f = f r a

unfoldable pub taxonomy_update_result :
    Records → String → String → String → Outcome TaxonomyUpdateResult
taxonomy_update_result r board_id previous_digest new_digest =
    or_stop r not_found (board_classification r board_id) (λ settings. wrote r (record {
      classification = settings;
      semantic_change = not (previous_digest =? new_digest);
      decisions_under_other_taxonomies = length (
          keep
            (λ d. d.evidence.board_id =? board_id && not (d.evidence.taxonomy_digest =? new_digest))
            r.decisions);
      labels_on_retired_entries = 0;
    }))

unfoldable pub retired_entries : List TaxonomyAxis → List String
retired_entries [] = []
retired_entries (a ∷ axes) =
    let rest = entry_ids_of (keep (λ v. v.archived) a.values) ++ retired_entries axes in
    if a.archived then a.id ∷ rest else rest
  where
    entry_ids_of : List TaxonomyValue → List String
    entry_ids_of [] = []
    entry_ids_of (v ∷ values) = v.id ∷ entry_ids_of values

unfoldable pub has_common : List String → List String → Bool
has_common ids [] = false
has_common ids (x ∷ xs) = contains ids x || has_common ids xs

unfoldable pub count_labels_on_retired_entries : Records → String → Taxonomy → ℕ
count_labels_on_retired_entries r board_id t =
    let retired = retired_entries t.axes in
    length (
      keep
        (λ l.
          l.board_id =? board_id && (contains retired l.axis_id || has_common retired l.value_ids))
        r.labels)

unfoldable pub digest_of : Messages → Option Taxonomy → Option String
digest_of msg none = some ""
digest_of msg (some t) = msg.semantic_digest t

unfoldable pub insert_taxonomy_revision :
    Messages → ℕ → String → String → ℕ → Option Taxonomy → Records → Outcome Unit
insert_taxonomy_revision msg now principal_id board_id revision t r =
    or_stop r failed (digest_of msg t) (λ digest.
      wrote
        (record r {
          taxonomies =
              r.taxonomies
              ++ (record {
                board_id = board_id;
                revision = revision;
                content = record { taxonomy = t; semantic_digest = digest };
                created_at = now;
                created_by = principal_id;
              }
                  ∷ []);
        })
        tt)

unfoldable pub uses_an_axis : Messages → AxisPolicies → Bool
uses_an_axis msg [] = false
uses_an_axis msg ((axis_id, p) ∷ policies) =
    not (p.mode =? msg.mode_off) || uses_an_axis msg policies

abbrev pub policy_uses : Messages → Option (Revision PolicyContent) → Bool
unfolding uses_an_axis
policy_uses msg none = false
policy_uses msg (some p) = uses_an_axis msg p.content.axis_policies

abbrev pub policy_holds : Messages → Option (Revision PolicyContent) → Taxonomy → Bool
policy_holds msg none t = true
policy_holds msg (some p) t = msg.validate_axis_policies p.content.axis_policies t

-- The arguments that stay the same through a call of SetBoardTaxonomy
pub record TaxonomyCall : Type 0 where
  pub msg : Messages
  pub now : ℕ
  pub principal_id : String
  pub board_id : String

unfoldable pub clear_taxonomy :
    TaxonomyCall
    → Revision TaxonomyContent
    → Option Taxonomy
    → Option (Revision PolicyContent)
    → Records
    → Outcome TaxonomyUpdateResult
clear_taxonomy c current none policy r =
    taxonomy_update_result r c.board_id current.content.semantic_digest ""
clear_taxonomy c current (some old) policy r =
    if policy_uses c.msg policy
    then stopped r (refuse conflict "policy_uses_taxonomy")
    else and_then
        (insert_taxonomy_revision c.msg c.now c.principal_id c.board_id (suc current.revision) none
          r)
        (λ r' _. taxonomy_update_result r' c.board_id current.content.semantic_digest "")

abbrev pub with_retired_labels :
    String → Taxonomy → Records → TaxonomyUpdateResult → Outcome TaxonomyUpdateResult
with_retired_labels board_id t r result =
    wrote r
      (record result { labels_on_retired_entries = count_labels_on_retired_entries r board_id t })

unfoldable pub store_taxonomy :
    TaxonomyCall → Revision TaxonomyContent → Taxonomy → Records → Outcome TaxonomyUpdateResult
store_taxonomy c current t r =
    and_then
      (insert_taxonomy_revision c.msg c.now c.principal_id c.board_id (suc current.revision)
        (some t) r)
      (λ r' _. or_stop r' failed (c.msg.semantic_digest t) (λ digest.
        and_then (taxonomy_update_result r' c.board_id current.content.semantic_digest digest)
          (with_retired_labels c.board_id t)))

unfoldable pub hold_taxonomy :
    TaxonomyCall
    → Revision TaxonomyContent
    → Option (Revision PolicyContent)
    → Taxonomy
    → Records
    → Outcome TaxonomyUpdateResult
hold_taxonomy c current policy t r =
    if c.msg.validate_stable_identity t
    then (if policy_holds c.msg policy t
        then store_taxonomy c current t r
        else stopped r (refuse conflict "policy_uses_taxonomy"))
    else stopped r (refuse invalid "taxonomy_invalid")

unfoldable pub mint_taxonomy :
    TaxonomyCall
    → Revision TaxonomyContent
    → Option (Revision PolicyContent)
    → Taxonomy
    → Records
    → Outcome TaxonomyUpdateResult
mint_taxonomy c current policy t r =
    let minted = mint_axes c.now c.board_id t.axes r in
    hold_taxonomy c current policy (record t { axes = minted.1 }) minted.0

abbrev pub is_stored : Messages → Taxonomy → Option Taxonomy → Bool
is_stored msg t none = false
is_stored msg t (some old) = msg.taxonomy_json t =? msg.taxonomy_json old

unfoldable pub replace_taxonomy :
    TaxonomyCall
    → Revision TaxonomyContent
    → Option (Revision PolicyContent)
    → Taxonomy
    → Records
    → IdentifierCheck
    → Outcome TaxonomyUpdateResult
replace_taxonomy c current policy t r (unfit e) = stopped r e
replace_taxonomy c current policy t r (fit needs_minting) =
    if not needs_minting && is_stored c.msg t current.content.taxonomy
    then taxonomy_update_result r c.board_id current.content.semantic_digest
        current.content.semantic_digest
    else mint_taxonomy c current policy t r

unfoldable pub change_taxonomy :
    TaxonomyCall
    → Revision TaxonomyContent
    → Option (Revision PolicyContent)
    → Option Taxonomy
    → Records
    → Outcome TaxonomyUpdateResult
change_taxonomy c current policy none r = clear_taxonomy c current current.content.taxonomy policy r
change_taxonomy c current policy (some t) r =
    if c.msg.validate t
    then replace_taxonomy c current policy t r
        (check_taxonomy_identifiers r.identifiers c.board_id t current.content.taxonomy)
    else stopped r (refuse invalid "taxonomy_invalid")

abbrev pub moved : String → Option Settings → WriteError
moved code none = refuse stale code
moved code (some settings) =
    refused (record { kind = stale; code = code; current = current_settings settings })

unfoldable pub taxonomy_work :
    TaxonomyCall → ℕ → Option Taxonomy → Records → Outcome TaxonomyUpdateResult
taxonomy_work c expected t r = or_stop r not_found (board_organization r c.board_id) (λ _.
    let current = current_taxonomy_revision r.taxonomies c.board_id in
    if expected == current.revision
    then change_taxonomy c current (current_policy r.policies c.board_id) t r
    else stopped r (moved "taxonomy_revision_moved" (board_classification r c.board_id)))

-- SetBoardTaxonomy
unfoldable pub set_board_taxonomy :
    TaxonomyCall → ℕ → Option Taxonomy → Records → Outcome TaxonomyUpdateResult
set_board_taxonomy c expected t r = write_immediately r (taxonomy_work c expected t r)
