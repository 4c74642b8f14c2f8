-- ===== src/Classification/TaxonomyEffects.antt =====
-- What SetBoardTaxonomy and SetBoardClassificationPolicy leave behind (internal/db/classification.go).
use kanban_store.Prelude.{
  ℕ, suc, String, ◌&&◌, not, List, [], ◌∷◌, ◌++◌, Option, none, some, ◌==◌, ◌≡◌, refl, arith,
  Bool-cases, inl, inr,
}
use kanban_store.Prelude.Text.{◌=?◌}
use kanban_store.Classification.Records.{
  Records, Taxonomy, TaxonomyAxis, TaxonomyValue, Revision, TaxonomyContent, PolicyContent,
}
use kanban_store.Classification.Revisions.{current_taxonomy_revision, current_policy}
use kanban_store.Classification.Identifiers.{
  mint_identifier, mint_value, mint_values, mint_axis_id, mint_axes, IdentifierCheck, fit, unfit,
  check_taxonomy_identifiers,
}
use kanban_store.Classification.Taxonomies.{
  TaxonomyCall, TaxonomyUpdateResult, taxonomy_update_result, insert_taxonomy_revision,
  clear_taxonomy, store_taxonomy, hold_taxonomy, mint_taxonomy, replace_taxonomy, change_taxonomy,
  taxonomy_work, set_board_taxonomy, digest_of, board_classification, board_organization, is_stored,
  policy_uses, policy_holds,
}
use kanban_store.Classification.Issued.{IsKind}
use kanban_store.Classification.Outcomes.{
  OnWrite, OnWrite-write_immediately, OnWrite-if, OnWrite-or_stop, OnWrite-and_then, OnWrite-imp,
}

-- Some ids were minted, and nothing else was done.
pub data Minted (r : Records) : Records → Type 0 where
  no_more : Minted r r
  one_more :
      {m : Records} (now : ℕ) (kind board_id axis_id : String)
      → IsKind kind
      → Minted r m
      → Minted r (mint_identifier now kind board_id axis_id m).0

mint_value-Minted :
    (now : ℕ) (board_id axis_id : String) (v : TaxonomyValue) (r m : Records)
    → Minted r m
    → Minted r (mint_value now board_id axis_id v m).0
unfolding mint_value
mint_value-Minted now board_id axis_id v r m h = elim (Bool-cases (v.id =? "")) [
  | inl e ↦ rw e (one_more now "value" board_id axis_id (inr refl) h)
  | inr e ↦ rw e h
]

mint_values-Minted :
    (now : ℕ) (board_id axis_id : String) (values : List TaxonomyValue) (r m : Records)
    → Minted r m
    → Minted r (mint_values now board_id axis_id values m).0
unfolding mint_values
mint_values-Minted now board_id axis_id [] r m h = h
mint_values-Minted now board_id axis_id (v ∷ values) r m h =
    mint_values-Minted now board_id axis_id values r (mint_value now board_id axis_id v m).0
      (mint_value-Minted now board_id axis_id v r m h)

mint_axis_id-Minted :
    (now : ℕ) (board_id : String) (a : TaxonomyAxis) (r m : Records)
    → Minted r m
    → Minted r (mint_axis_id now board_id a m).0
unfolding mint_axis_id
mint_axis_id-Minted now board_id a r m h = elim (Bool-cases (a.id =? "")) [
  | inl e ↦ rw e (one_more now "axis" board_id "" (inl refl) h)
  | inr e ↦ rw e h
]

mint_axes-Minted :
    (now : ℕ) (board_id : String) (axes : List TaxonomyAxis) (r m : Records)
    → Minted r m
    → Minted r (mint_axes now board_id axes m).0
unfolding mint_axes
mint_axes-Minted now board_id [] r m h = h
mint_axes-Minted now board_id (a ∷ axes) r m h =
    let (r', id) = mint_axis_id now board_id a m in
    mint_axes-Minted now board_id axes r _
      (mint_values-Minted now board_id _ a.values r _ (mint_axis_id-Minted now board_id a r m h))

-- The revision that SetBoardTaxonomy adds
abbrev pub added_taxonomy :
    TaxonomyCall → Records → Option Taxonomy → String → Revision TaxonomyContent
added_taxonomy c r t digest = record {
  board_id = c.board_id;
  revision = suc (current_taxonomy_revision r.taxonomies c.board_id).revision;
  content = record { taxonomy = t; semantic_digest = digest };
  created_at = c.now;
  created_by = c.principal_id;
}

-- The records are kept, or a revision is added after some ids were minted.
pub data TaxonomyEffect (c : TaxonomyCall) (r : Records) : Records → Type 0 where
  kept : TaxonomyEffect c r r
  added :
      (m : Records) (t : Option Taxonomy) (digest : String)
      → Minted r m
      → TaxonomyEffect c r
          (record m { taxonomies = m.taxonomies ++ (added_taxonomy c r t digest ∷ []) })

result-Effect :
    (P : Records → TaxonomyUpdateResult → Type 0) (r : Records) (board_id a b : String)
    → ((x : TaxonomyUpdateResult) → P r x)
    → OnWrite P (taxonomy_update_result r board_id a b)
unfolding taxonomy_update_result
result-Effect P r board_id a b h =
    OnWrite-or_stop P r _ (board_classification r board_id) _ (λ s e. h _)

-- And the revision that was expected is the current one.
abbrev pub TaxonomyWritten : TaxonomyCall → ℕ → Records → Records → TaxonomyUpdateResult → Type 0
TaxonomyWritten c expected r r' x =
    TaxonomyEffect c r r'
    × (expected ≡ (current_taxonomy_revision r.taxonomies c.board_id).revision)

module _ (c : TaxonomyCall) (r : Records) where
  abbrev Effect : Records → TaxonomyUpdateResult → Type 0
  Effect r' x = TaxonomyEffect c r r'

  abbrev current : Revision TaxonomyContent
  current = current_taxonomy_revision r.taxonomies c.board_id

  insert-Effect :
      (m : Records) (t : Option Taxonomy)
      → Minted r m
      → OnWrite
          (λ r' _. TaxonomyEffect c r r')
          (insert_taxonomy_revision c.msg c.now c.principal_id c.board_id
            (suc current.revision)
            t
            m)
  unfolding insert_taxonomy_revision
  insert-Effect m t h = OnWrite-or_stop _ m _ (digest_of c.msg t) _ (λ digest e. added m t digest h)

  clear-Effect :
      (old : Option Taxonomy) (policy : Option (Revision PolicyContent))
      → OnWrite Effect (clear_taxonomy c current old policy r)
  unfolding clear_taxonomy
  clear-Effect none policy = result-Effect Effect r c.board_id _ _ (λ x. kept)
  clear-Effect (some old) policy =
      OnWrite-if Effect (policy_uses c.msg policy) _ _ (λ e. tt)
        (λ e.
          OnWrite-and_then (λ r' _. TaxonomyEffect c r r') Effect _ _ (insert-Effect r none no_more)
            (λ r' _ h. result-Effect Effect r' c.board_id _ _ (λ x. h)))

  store-Effect :
      (m : Records) (t : Taxonomy) → Minted r m → OnWrite Effect (store_taxonomy c current t m)
  unfolding store_taxonomy
  store-Effect m t h =
      OnWrite-and_then (λ r' _. TaxonomyEffect c r r') Effect _ _ (insert-Effect m (some t) h)
        (λ r' _ k. OnWrite-or_stop Effect r' _ (c.msg.semantic_digest t) _ (λ digest e.
          OnWrite-and_then Effect Effect _ _ (result-Effect Effect r' c.board_id _ _ (λ x. k))
            (λ r'' x k'. k')))

  mint-Effect :
      (policy : Option (Revision PolicyContent)) (t : Taxonomy)
      → OnWrite Effect (mint_taxonomy c current policy t r)
  unfolding mint_taxonomy hold_taxonomy
  mint-Effect policy t =
      OnWrite-if Effect (c.msg.validate_stable_identity _) _ _
        (λ e.
          OnWrite-if Effect (policy_holds c.msg policy _) _ _
            (λ e'. store-Effect _ _ (mint_axes-Minted c.now c.board_id t.axes r r no_more))
            (λ e'. tt))
        (λ e. tt)

  replace-Effect :
      (policy : Option (Revision PolicyContent)) (t : Taxonomy) (check : IdentifierCheck)
      → OnWrite Effect (replace_taxonomy c current policy t r check)
  unfolding replace_taxonomy
  replace-Effect policy t (unfit e) = tt
  replace-Effect policy t (fit needs) =
      OnWrite-if Effect (not needs && is_stored c.msg t current.content.taxonomy) _ _
        (λ e. result-Effect Effect r c.board_id _ _ (λ x. kept)) (λ e. mint-Effect policy t)

  change-Effect :
      (policy : Option (Revision PolicyContent)) (t : Option Taxonomy)
      → OnWrite Effect (change_taxonomy c current policy t r)
  unfolding change_taxonomy
  change-Effect policy none = clear-Effect current.content.taxonomy policy
  change-Effect policy (some t) =
      OnWrite-if Effect (c.msg.validate t) _ _
        (λ e.
          replace-Effect policy t
            (check_taxonomy_identifiers r.identifiers c.board_id t current.content.taxonomy))
        (λ e. tt)

  pub taxonomy-Effect :
      (expected : ℕ) (t : Option Taxonomy)
      → OnWrite (TaxonomyWritten c expected r) (set_board_taxonomy c expected t r)
  unfolding set_board_taxonomy taxonomy_work
  taxonomy-Effect expected t = OnWrite-write_immediately _ r _ (
      OnWrite-or_stop _ r _ (board_organization r c.board_id) _ (λ o e.
        OnWrite-if _ (expected == current.revision) _ _
          (λ same.
            OnWrite-imp Effect _ _ (change-Effect (current_policy r.policies c.board_id) t)
              (λ r' x h. (h, ground arith)))
          (λ e. tt)))
