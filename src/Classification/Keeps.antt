-- ===== src/Classification/Keeps.antt =====
-- Every call of board classification keeps the records sound (internal/db/classification.go).
use kanban_store.Prelude.{
  IsUnique-new, ℕ, suc, String, Bool, List, [], ◌∷◌, ◌++◌, none, find, ◌≡◌, refl, sym, ap, ◌∙◌,
  arith, Option-cases, inl, inr, All-imp, All-append, All-update_where, IsUnique,
  IsUnique-update_where,
}
use kanban_store.Prelude.Text.{◌=?◌}
use kanban_store.Classification.Records.{
  Records, Revision, TaxonomyContent, Review, Label, Selections,
}
use kanban_store.Classification.Identifiers.{mint_identifier}
use kanban_store.Classification.Revisions.{current, number, current_policy}
use kanban_store.Classification.Taxonomies.{TaxonomyCall}
use kanban_store.Classification.Policies.{insert_policy_revision}
use kanban_store.Classification.Decisions.{
  PublishCall, new_decision, with_decision, refuse_publication, remove_sources_of_card,
  DecisionRead,
}
use kanban_store.Classification.Labels.{
  upsert, set_label, set_labels, set_labels_revision, write_labels, with_review, new_review,
  ReviewCall, has_key,
}
use kanban_store.Classification.TaxonomyEffects.{
  Minted, no_more, one_more, TaxonomyEffect, kept, added, added_taxonomy,
}
use kanban_store.Classification.PolicyEffects.{PolicyEffect}
use kanban_store.Classification.Publications.{
  PublishEffect, repeated, published, ReviewEffect, known_review, recorded, made_review,
}
use kanban_store.Classification.Admission.{admissible}
use kanban_store.Classification.Counted.{IsCounted-added}
use kanban_store.Classification.Register.{current-number, Minted-taxonomies}
use kanban_store.Classification.Issued.{IsRegistered-new, IsKind}
use kanban_store.Classification.Sound.{
  IsSound, IsSupported-taxonomy, IsSupported-policy, Ascends-append, Ascends-update_where, same_key,
  same_decision, same_request, same_label, same_card,
}

mint-IsSound :
    (now : ℕ) (kind board_id axis_id : String) (r : Records)
    → IsKind kind
    → IsSound r
    → IsSound (mint_identifier now kind board_id axis_id r).0
unfolding mint_identifier
mint-IsSound now kind board_id axis_id r k ok = record {
  identifiers =
      IsRegistered-new r.last_identifier r.identifiers _
        (record { kind = k; id = refl; sequence = omega arith }) refl ok.identifiers;
  taxonomies = ok.taxonomies;
  policies = ok.policies;
  decision_order = ok.decision_order;
  decision_ids = ok.decision_ids;
  decision_keys = ok.decision_keys;
  decision_support = ok.decision_support;
  review_keys = ok.review_keys;
  label_keys = ok.label_keys;
  label_revision_keys = ok.label_revision_keys;
}

pub Minted-IsSound : (r m : Records) → Minted r m → IsSound r → IsSound m
Minted-IsSound r m no_more ok = ok
Minted-IsSound r m (one_more {m = m'} now kind board_id axis_id k h) ok =
    mint-IsSound now kind board_id axis_id m' k (Minted-IsSound r m' h ok)

added-IsSound :
    (m : Records) (x : Revision TaxonomyContent)
    → x.revision ≡ suc (number (current m.taxonomies x.board_id))
    → IsSound m
    → IsSound (record m { taxonomies = m.taxonomies ++ (x ∷ []) })
added-IsSound m x e ok = record {
  identifiers = ok.identifiers;
  taxonomies = IsCounted-added m.taxonomies x e ok.taxonomies;
  policies = ok.policies;
  decision_order = ok.decision_order;
  decision_ids = ok.decision_ids;
  decision_keys = ok.decision_keys;
  decision_support =
      All-imp m.decisions (λ d s. IsSupported-taxonomy m.taxonomies m.policies x d.evidence s)
        ok.decision_support;
  review_keys = ok.review_keys;
  label_keys = ok.label_keys;
  label_revision_keys = ok.label_revision_keys;
}

pub taxonomy-IsSound :
    (c : TaxonomyCall) (r r' : Records) → TaxonomyEffect c r r' → IsSound r → IsSound r'
taxonomy-IsSound c r r' kept ok = ok
taxonomy-IsSound c r r' (added m t digest h) ok =
    added-IsSound m (added_taxonomy c r t digest)
      (ap suc (
        current-number r.taxonomies c.board_id
        ∙ ap (λ rows. number (current rows c.board_id)) (sym (Minted-taxonomies r m h))))
      (Minted-IsSound r m h ok)

pub policy-IsSound :
    (c : TaxonomyCall) (r r' : Records) → PolicyEffect c r r' → IsSound r → IsSound r'
unfolding insert_policy_revision current_policy
policy-IsSound c r r' PolicyEffect.kept ok = ok
policy-IsSound c r r' (PolicyEffect.added policies n) ok = record {
  identifiers = ok.identifiers;
  taxonomies = ok.taxonomies;
  policies = IsCounted-added r.policies _ refl ok.policies;
  decision_order = ok.decision_order;
  decision_ids = ok.decision_ids;
  decision_keys = ok.decision_keys;
  decision_support =
      All-imp r.decisions (λ d s. IsSupported-policy r.taxonomies r.policies _ d.evidence s)
        ok.decision_support;
  review_keys = ok.review_keys;
  label_keys = ok.label_keys;
  label_revision_keys = ok.label_revision_keys;
}

publish-IsSound :
    (c : PublishCall) (r : Records) (organization_id key : String)
    → find (λ d. d.publication_key =? key) r.decisions ≡ none
    → find (λ d. d.id =? c.new_id) r.decisions ≡ none
    → refuse_publication c organization_id r ≡ none
    → IsSound r
    → IsSound (with_decision (new_decision c organization_id key r) r)
unfolding new_decision
publish-IsSound c r organization_id key no_key no_id fit ok = record {
  identifiers = ok.identifiers;
  taxonomies = ok.taxonomies;
  policies = ok.policies;
  decision_order =
      Ascends-append 0 r.decisions (new_decision c organization_id key r) (omega arith)
        (omega arith) ok.decision_order;
  decision_ids = IsUnique-new same_decision _ r.decisions _ (λ d. refl) no_id ok.decision_ids;
  decision_keys = IsUnique-new same_key _ r.decisions _ (λ d. refl) no_key ok.decision_keys;
  decision_support =
      All-append _ r.decisions _ ok.decision_support
        ((admissible c organization_id r fit).support, tt);
  review_keys = ok.review_keys;
  label_keys = ok.label_keys;
  label_revision_keys = ok.label_revision_keys;
}

pub published-IsSound :
    (c : PublishCall) (r r' : Records) → PublishEffect c r r' → IsSound r → IsSound r'
published-IsSound c r r' repeated ok = ok
published-IsSound c r r' (published organization_id key there keyed no_key fit no_id) ok =
    publish-IsSound c r organization_id key no_key no_id fit ok

pub remove-IsSound :
    (now : ℕ) (card_id : String) (r : Records)
    → IsSound r
    → IsSound (remove_sources_of_card now card_id r)
unfolding remove_sources_of_card
remove-IsSound now card_id r ok = record {
  identifiers = ok.identifiers;
  taxonomies = ok.taxonomies;
  policies = ok.policies;
  decision_order = Ascends-update_where _ _ 0 r.decisions (λ d. refl) ok.decision_order;
  decision_ids =
      IsUnique-update_where same_decision _ _ r.decisions (λ d e. refl) (λ d e. refl)
        ok.decision_ids;
  decision_keys =
      IsUnique-update_where same_key _ _ r.decisions (λ d e. refl) (λ d e. refl) ok.decision_keys;
  decision_support = All-update_where _ _ r.decisions (λ d _ s. s) (λ d _ s. s) ok.decision_support;
  review_keys = ok.review_keys;
  label_keys = ok.label_keys;
  label_revision_keys = ok.label_revision_keys;
}

-- An upsert by a key that the change keeps
upsert-IsUnique :
    {A : Type 0} (same : A → A → Bool) (key : A → Bool) (change : A → A) (row : A) (rows : List A)
    → ((x y : A) → same (change x) y ≡ same x y)
    → ((x y : A) → same x (change y) ≡ same x y)
    → ((x : A) → same x row ≡ key x)
    → IsUnique same rows
    → IsUnique same (upsert key change row rows)
unfolding upsert
upsert-IsUnique same key change row rows left right e h = elim (Option-cases (find key rows)) [
  | inl free ↦ rw free (IsUnique-new same key rows row e free h)
  | inr (x, there) ↦ rw there (IsUnique-update_where same key change rows left right h)
]

set_labels-IsUnique :
    (v : Review) (new : Selections) (rows : List Label)
    → IsUnique same_label rows
    → IsUnique same_label (set_labels v new rows)
unfolding set_labels set_label
set_labels-IsUnique v [] rows h = h
set_labels-IsUnique v ((axis_id, ids) ∷ new) rows h =
    set_labels-IsUnique v new _
      (upsert-IsUnique same_label _ _ _ rows (λ l m. refl) (λ l m. refl) (λ l. refl) h)

write_labels-IsSound :
    (v : Review) (new : Selections) (r : Records) → IsSound r → IsSound (write_labels v new r)
unfolding write_labels set_labels_revision
write_labels-IsSound v [] r ok = ok
write_labels-IsSound v (one ∷ new) r ok = record {
  identifiers = ok.identifiers;
  taxonomies = ok.taxonomies;
  policies = ok.policies;
  decision_order = ok.decision_order;
  decision_ids = ok.decision_ids;
  decision_keys = ok.decision_keys;
  decision_support = ok.decision_support;
  review_keys = ok.review_keys;
  label_keys = set_labels-IsUnique v (one ∷ new) r.labels ok.label_keys;
  label_revision_keys =
      upsert-IsUnique same_card _ _ _ r.label_revisions (λ l m. refl) (λ l m. refl) (λ l. refl)
        ok.label_revision_keys;
}

with_review-IsSound :
    (c : ReviewCall) (r : Records) (d : DecisionRead) (new : Selections)
    → find (has_key c) r.reviews ≡ none
    → IsSound r
    → IsSound (with_review (made_review c r d new) r)
unfolding new_review
with_review-IsSound c r d new free ok = record {
  identifiers = ok.identifiers;
  taxonomies = ok.taxonomies;
  policies = ok.policies;
  decision_order = ok.decision_order;
  decision_ids = ok.decision_ids;
  decision_keys = ok.decision_keys;
  decision_support = ok.decision_support;
  review_keys = IsUnique-new same_request (has_key c) r.reviews _ (λ v. refl) free ok.review_keys;
  label_keys = ok.label_keys;
  label_revision_keys = ok.label_revision_keys;
}

pub reviewed-IsSound :
    (c : ReviewCall) (r r' : Records) (created : Bool)
    → ReviewEffect c r r' created
    → IsSound r
    → IsSound r'
reviewed-IsSound c r r' created (known_review known) ok = ok
reviewed-IsSound c r r' created (recorded d t new free read has fits expected named no_id) ok =
    write_labels-IsSound (made_review c r d new) new _ (with_review-IsSound c r d new free ok)
