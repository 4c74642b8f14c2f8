-- ===== src/Classification/Served.antt =====
-- Sequences of calls of board classification (internal/db/classification.go).
use kanban_store.Prelude.{ℕ, String, Bool, List, [], ◌∷◌, some, ◌≡◌, refl, ap, ◌∙◌, ◌⊎◌, inl, inr}
use kanban_store.Classification.Records.{
  Records, Revision, TaxonomyContent, PolicyContent, Review, Selections,
}
use kanban_store.Classification.Work.{Outcome, stopped, wrote, records_of, write_immediately}
use kanban_store.Classification.Revisions.{numbered}
use kanban_store.Classification.Identifiers.{mint_identifier}
use kanban_store.Classification.Taxonomies.{TaxonomyCall, set_board_taxonomy}
use kanban_store.Classification.Policies.{set_board_classification_policy, insert_policy_revision}
use kanban_store.Classification.Decisions.{
  PublishCall, publish_classification_decision, remove_sources_of_card,
}
use kanban_store.Classification.Labels.{
  ReviewCall, review_classification_decision, write_labels, with_review,
}
use kanban_store.Classification.Outcomes.{OnWrite}
use kanban_store.Classification.TaxonomyEffects.{
  TaxonomyEffect, kept, added, Minted, no_more, one_more, TaxonomyWritten, taxonomy-Effect,
}
use kanban_store.Classification.PolicyEffects.{PolicyEffect, PolicyWritten, policy-Effect}
use kanban_store.Classification.Publications.{
  PublishEffect, repeated, published, publish-Effect, ReviewEffect, known_review, recorded,
  made_review, review-Effect,
}
use kanban_store.Classification.Calls.{
  Call, sets_taxonomy, sets_policy, publishes, reviews, removes_sources, serve, serve_all,
}
use kanban_store.Classification.Sound.{IsSound, numbered-append}
use kanban_store.Classification.Keeps.{
  taxonomy-IsSound, policy-IsSound, published-IsSound, remove-IsSound, reviewed-IsSound,
}

-- Kept by whatever one of the calls leaves behind
record IsKept (P : Records → Type 0) : Type 0 where
  taxonomy : (c : TaxonomyCall) (r r' : Records) → TaxonomyEffect c r r' → P r → P r'
  policy : (c : TaxonomyCall) (r r' : Records) → PolicyEffect c r r' → P r → P r'
  publication : (c : PublishCall) (r r' : Records) → PublishEffect c r r' → P r → P r'
  review :
      (c : ReviewCall) (r r' : Records) (created : Bool) → ReviewEffect c r r' created → P r → P r'
  removal :
      (now : ℕ) (card_id : String) (r : Records) → P r → P (remove_sources_of_card now card_id r)

records_of-keeps :
    {A : Type 0} (P : Records → Type 0) (E : Records → A → Type 0) (r : Records) (o : Outcome A)
    → P r
    → OnWrite E (write_immediately r o)
    → ((r' : Records) (a : A) → E r' a → P r')
    → P (records_of (write_immediately r o))
unfolding write_immediately
records_of-keeps P E r (stopped r' e) before h k = before
records_of-keeps P E r (wrote r' a) before h k = k r' a h

module _ (P : Records → Type 0) (keeps : IsKept P) where
  serve-keeps : (c : Call) (r : Records) → P r → P (serve c r)
  unfolding serve set_board_taxonomy set_board_classification_policy publish_classification_decision
      review_classification_decision
  serve-keeps (sets_taxonomy c n t) r h =
      records_of-keeps P (TaxonomyWritten c n r) r _ h (taxonomy-Effect c r n t)
        (λ r' x e. keeps.taxonomy c r r' e.0 h)
  serve-keeps (sets_policy c n policies) r h =
      records_of-keeps P (PolicyWritten c n r) r _ h (policy-Effect c r n policies)
        (λ r' x e. keeps.policy c r r' e.0 h)
  serve-keeps (publishes c) r h =
      records_of-keeps P (λ r' x. PublishEffect c r r') r _ h (publish-Effect c r)
        (λ r' x e. keeps.publication c r r' e h)
  serve-keeps (reviews c) r h =
      records_of-keeps P (λ r' x. ReviewEffect c r r' x.created) r _ h (review-Effect c r)
        (λ r' x e. keeps.review c r r' x.created e h)
  serve-keeps (removes_sources now card_id) r h = keeps.removal now card_id r h

  serve_all-keeps : (calls : List Call) (r : Records) → P r → P (serve_all calls r)
  unfolding serve_all
  serve_all-keeps [] r h = h
  serve_all-keeps (c ∷ calls) r h = serve_all-keeps calls (serve c r) (serve-keeps c r h)

-- Any calls, in any order and whatever they answer, keep the records sound: ids are handed out once,
-- the revisions of each board are counted from 1, decisions ascend and have unique ids and keys, the
-- revisions that they name exist with the digest that they name, and reviews, labels and labels
-- revisions have unique keys.
pub serve_all-IsSound : (calls : List Call) (r : Records) → IsSound r → IsSound (serve_all calls r)
serve_all-IsSound = serve_all-keeps IsSound (record {
  taxonomy = taxonomy-IsSound;
  policy = policy-IsSound;
  publication = published-IsSound;
  review = reviewed-IsSound;
  removal = remove-IsSound;
})

-- A revision of a board's taxonomy, or one of its policy, is there by its number.
abbrev pub HasRevision :
    String → ℕ → Revision TaxonomyContent ⊎ Revision PolicyContent → Records → Type 0
HasRevision board_id n (inl t) r = numbered r.taxonomies board_id n ≡ some t
HasRevision board_id n (inr p) r = numbered r.policies board_id n ≡ some p

write_labels-keeps :
    (v : Review) (new : Selections) (r : Records)
    → ((write_labels v new r).taxonomies ≡ r.taxonomies)
      × ((write_labels v new r).policies ≡ r.policies)
unfolding write_labels
write_labels-keeps v [] r = (refl, refl)
write_labels-keeps v (one ∷ new) r = (refl, refl)

module _ (board_id : String) (n : ℕ) where
  abbrev Has : Revision TaxonomyContent ⊎ Revision PolicyContent → Records → Type 0
  Has = HasRevision board_id n

  Has-same :
      (x : Revision TaxonomyContent ⊎ Revision PolicyContent) (r r' : Records)
      → r'.taxonomies ≡ r.taxonomies
      → r'.policies ≡ r.policies
      → Has x r
      → Has x r'
  Has-same (inl t) r r' same_t same_p h = ap (λ rows. numbered rows board_id n) same_t ∙ h
  Has-same (inr p) r r' same_t same_p h = ap (λ rows. numbered rows board_id n) same_p ∙ h

  Has-Minted :
      (x : Revision TaxonomyContent ⊎ Revision PolicyContent) (r r' : Records)
      → Minted r r'
      → Has x r
      → Has x r'
  unfolding mint_identifier
  Has-Minted x r r' no_more h = h
  Has-Minted x r r' (one_more {m = r''} now kind b axis_id k minted) h =
      Has-same x r'' r' refl refl (Has-Minted x r r'' minted h)

  Has-taxonomy :
      (x : Revision TaxonomyContent ⊎ Revision PolicyContent) (c : TaxonomyCall) (r r' : Records)
      → TaxonomyEffect c r r'
      → Has x r
      → Has x r'
  Has-taxonomy x c r r' kept h = h
  Has-taxonomy (inl t) c r r' (added m o digest minted) h =
      numbered-append m.taxonomies _ t board_id n (Has-Minted (inl t) r m minted h)
  Has-taxonomy (inr p) c r r' (added m o digest minted) h = Has-Minted (inr p) r m minted h

  Has-policy :
      (x : Revision TaxonomyContent ⊎ Revision PolicyContent) (c : TaxonomyCall) (r r' : Records)
      → PolicyEffect c r r'
      → Has x r
      → Has x r'
  unfolding insert_policy_revision
  Has-policy x c r r' PolicyEffect.kept h = h
  Has-policy (inl t) c r r' (PolicyEffect.added policies k) h = h
  Has-policy (inr p) c r r' (PolicyEffect.added policies k) h =
      numbered-append r.policies _ p board_id n h

  Has-publication :
      (x : Revision TaxonomyContent ⊎ Revision PolicyContent) (c : PublishCall) (r r' : Records)
      → PublishEffect c r r'
      → Has x r
      → Has x r'
  Has-publication x c r r' repeated h = h
  Has-publication x c r r' (published organization_id key a b d e f) h = Has-same x r r' refl refl h

  Has-review :
      (x : Revision TaxonomyContent ⊎ Revision PolicyContent) (c : ReviewCall) (r r' : Records)
      (created : Bool)
      → ReviewEffect c r r' created
      → Has x r
      → Has x r'
  Has-review x c r r' created (known_review known) h = h
  Has-review x c r r' created (recorded d t new a b e f g i j) h =
      let v = made_review c r d new in
      let (same_t, same_p) = write_labels-keeps v new (with_review v r) in
      Has-same x r r' same_t same_p h

  -- What a revision of a board's taxonomy says, or a revision of its policy, once it is there, is never
  -- rewritten and never gone, whatever calls follow.
  pub serve_all-numbered :
      (x : Revision TaxonomyContent ⊎ Revision PolicyContent) (calls : List Call) (r : Records)
      → HasRevision board_id n x r
      → HasRevision board_id n x (serve_all calls r)
  unfolding remove_sources_of_card
  serve_all-numbered x = serve_all-keeps (Has x) (record {
    taxonomy = Has-taxonomy x;
    policy = Has-policy x;
    publication = Has-publication x;
    review = Has-review x;
    removal = λ now card_id r h. Has-same x r (remove_sources_of_card now card_id r) refl refl h;
  })
