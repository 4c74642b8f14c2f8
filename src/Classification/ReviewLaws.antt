-- ===== src/Classification/ReviewLaws.antt =====
-- What a review does to a card's labels (internal/db/classification.go, ReviewClassificationDecision,
-- reviewedValues and checkSupersedes).
use kanban_store.Prelude.{
  String, Bool, true, false, ◌&&◌, ◌||◌, not, List, [], ◌∷◌, ◌++◌, Option, none, some,
  if◌then◌else◌, is_some, ◌≡◌, refl, sym, ap, ◌∙◌, subst, inl, inr, arith, Bool-cases, All, keep,
  find, find-passes, update_where,
}
use kanban_store.Prelude.Text.{◌=?◌, contains, text_lt, text_eq_iff}
use kanban_store.Prelude.Sort.{All-sort_stable}
use kanban_store.Classification.Records.{Records, Review, Label, Selections, Taxonomy}
use kanban_store.Classification.Work.{wrote, CardLabels}
use kanban_store.Classification.Reviews.{lookup, of_card, card_labels, values, reviewed_values}
use kanban_store.Classification.Labels.{
  upsert, set_label, set_labels, write_labels, with_review, ReviewCall, Reviewed,
  review_classification_decision, replaced_reviews, is_replaced, includes, check_supersedes,
  new_review,
}
use kanban_store.Classification.Revisions.{current_policy}
use kanban_store.Classification.Decisions.{DecisionRead, read_decision}
use kanban_store.Classification.ReviewedAxes.{reviewed_values-axes}
use kanban_store.Classification.Outcomes.{OnWrite-wrote}
use kanban_store.Classification.Publications.{
  ReviewEffect, known_review, recorded, made_review, review-Effect,
}

-- The key of a label
abbrev pub label_of : String → String → String → Label → Bool
label_of board_id card_id axis_id l = of_card board_id card_id l && l.axis_id =? axis_id

module _ {A : Type 0} (key other : A → Bool) (change : A → A) (row : A)
    (apart : (x : A) → key x ≡ true → other x ≡ false)
    (changed : (x : A) → key x ≡ true → other (change x) ≡ false) (new : other row ≡ false) where
  updated-other : (rows : List A) → find other (update_where key change rows) ≡ find other rows
  unfolding find update_where
  updated-other [] = refl
  updated-other (x ∷ xs) = elim (Bool-cases (key x)) [
    | inl k ↦ ground (arith, updated-other xs, apart x, changed x)
    | inr k ↦ ground (arith, updated-other xs)
  ]

  added-other : (rows : List A) → find other (rows ++ (row ∷ [])) ≡ find other rows
  unfolding find
  added-other [] = rw new refl
  added-other (x ∷ xs) = ground (arith, added-other xs)

  -- An upsert leaves the rows of another key.
  upsert-other : (rows : List A) → find other (upsert key change row rows) ≡ find other rows
  unfolding upsert
  upsert-other rows = elim (Bool-cases (is_some (find key rows))) [
    | inl e ↦ rw e (updated-other rows)
    | inr e ↦ rw e (added-other rows)
  ]

-- Whether a review sets the label of a key
abbrev pub touches : Review → Selections → String → String → String → Bool
touches v new board_id card_id axis_id =
    (v.board_id =? board_id && v.card_id =? card_id) && is_some (lookup new axis_id)

keys_apart :
    (b c a b' c' a' : String) (l : Label)
    → ((b' =? b && c' =? c) && a' =? a) ≡ false
    → label_of b' c' a' l ≡ true
    → label_of b c a l ≡ false
keys_apart b c a b' c' a' l differ here = elim (Bool-cases (label_of b c a l)) [
  | inr other ↦ other
  | inl both ↦
      let bb : b' ≡ b =
        sym ((text_eq_iff l.board_id b').0 (ground arith))
        ∙ (text_eq_iff l.board_id b).0 (ground arith) in
      let cc' : c' ≡ c =
        sym ((text_eq_iff l.card_id c').0 (ground arith))
        ∙ (text_eq_iff l.card_id c).0 (ground arith) in
      let aa : a' ≡ a =
        sym ((text_eq_iff l.axis_id a').0 (ground arith))
        ∙ (text_eq_iff l.axis_id a).0 (ground arith) in
      let b_true = (text_eq_iff b' b).1 bb in
      let c_true = (text_eq_iff c' c).1 cc' in
      let a_true = (text_eq_iff a' a).1 aa in absurd (ground arith)
]

set_label-other :
    (v : Review) (axis : String) (ids : List String) (rows : List Label) (b c a : String)
    → ((v.board_id =? b && v.card_id =? c) && axis =? a) ≡ false
    → find (label_of b c a) (set_label v axis ids rows) ≡ find (label_of b c a) rows
unfolding set_label
set_label-other v axis ids rows b c a differ =
    upsert-other (label_of v.board_id v.card_id axis) (label_of b c a) _ _
      (λ l here. keys_apart b c a v.board_id v.card_id axis l differ here)
      (λ l here. keys_apart b c a v.board_id v.card_id axis l differ here) differ rows

set_labels-other :
    (v : Review) (new : Selections) (rows : List Label) (b c a : String)
    → touches v new b c a ≡ false
    → find (label_of b c a) (set_labels v new rows) ≡ find (label_of b c a) rows
unfolding set_labels lookup
set_labels-other v [] rows b c a h = refl
set_labels-other v ((axis, ids) ∷ new) rows b c a h =
    set_labels-other v new (set_label v axis ids rows) b c a (ground arith)
    ∙ set_label-other v axis ids rows b c a (ground arith)

write_labels-other :
    (v : Review) (new : Selections) (r : Records) (b c a : String)
    → touches v new b c a ≡ false
    → find (label_of b c a) (write_labels v new r).labels ≡ find (label_of b c a) r.labels
unfolding write_labels
write_labels-other v [] r b c a h = refl
write_labels-other v (one ∷ new) r b c a h = set_labels-other v (one ∷ new) r.labels b c a h

-- Of a label that a review sets: it has no review behind it, or the review is named.
abbrev IsNamed : List String → Selections → Label → Type 0
IsNamed named new l = (not (is_replaced new l) || contains named l.origin_review_id) ≡ true

includes-IsNamed :
    (named : List String) (new : Selections) (labels : List Label)
    → includes named (replaced_reviews new labels) ≡ true
    → All (IsNamed named new) labels
unfolding includes replaced_reviews keep
includes-IsNamed named new [] h = tt
includes-IsNamed named new (l ∷ labels) h = elim (Bool-cases (is_replaced new l)) [
  | inl e ↦ (ground arith, includes-IsNamed named new labels (ground arith))
  | inr e ↦ (ground arith, includes-IsNamed named new labels (ground arith))
]

check_supersedes-named :
    (named : List String) (labels : CardLabels) (new : Selections)
    → check_supersedes named labels new ≡ none
    → includes named (replaced_reviews new labels.labels) ≡ true
unfolding check_supersedes
check_supersedes-named named labels new h = ground arith

kept-cons :
    {A : Type 0} (P : A → Type 0) (p : A → Bool) (y : A) (rows : List A)
    → All P (keep p (y ∷ rows))
    → All P (keep p rows) × (p y ≡ true → P y)
unfolding keep
kept-cons P p y rows h = elim (Bool-cases (p y)) [
  | inl e ↦
      let both : All P (y ∷ keep p rows) =
        subst (λ b. All P (if b then y ∷ keep p rows else keep p rows)) e h in
      (both.1, λ _. both.0)
  | inr e ↦ (
    subst (λ b. All P (if b then y ∷ keep p rows else keep p rows)) e h,
    λ py. absurd (ground arith),
  )
]

kept-found :
    {A : Type 0} (P : A → Type 0) (p q : A → Bool) (rows : List A) (x : A)
    → All P (keep p rows)
    → find q rows ≡ some x
    → p x ≡ true
    → P x
unfolding find
kept-found P p q [] x h there px = absurd (ground arith)
kept-found P p q (y ∷ rows) x h there px =
    let (rest, first) = kept-cons P p y rows h in
    elim (Bool-cases (q y)) [
      | inl e ↦ let same : y ≡ x = ground arith in subst P same (first (ap p same ∙ px))
      | inr e ↦ kept-found P p q rows x rest (ground arith) px
    ]

abbrev pub was_named : List String → Option Label → Bool
was_named named none = true
was_named named (some l) = l.origin_review_id =? "" || contains named l.origin_review_id

-- The label of a key is kept, or it is one of the card and of an axis that the review is of, and the
-- review behind it, if there was one, is named as superseded.
pub data LabelKept (c : ReviewCall) (card_id : String) (b k a : String)
    (before after : Option Label) : Type 0 where
  left : after ≡ before → LabelKept c card_id b k a before after
  set :
      (c.board_id =? b) ≡ true
      → (card_id =? k) ≡ true
      → contains c.request.axis_ids a ≡ true
      → was_named c.request.supersedes_review_ids before ≡ true
      → LabelKept c card_id b k a before after

replaced-named :
    (named : List String) (new : Selections) (rows : List Label) (board_id card_id b k a : String)
    (o : Option Label)
    → All (IsNamed named new) (keep (of_card board_id card_id) rows)
    → find (label_of b k a) rows ≡ o
    → is_some (lookup new a) ≡ true
    → ((board_id =? b && card_id =? k) && is_some (lookup new a)) ≡ true
    → was_named named o ≡ true
replaced-named named new rows board_id card_id b k a none h found there touched = refl
replaced-named named new rows board_id card_id b k a (some l) h found there touched =
    let passes = find-passes (label_of b k a) rows l found in
    let axis : l.axis_id ≡ a = (text_eq_iff l.axis_id a).0 (ground arith) in
    let bb : l.board_id ≡ board_id =
      (text_eq_iff l.board_id b).0 (ground arith)
      ∙ sym ((text_eq_iff board_id b).0 (ground arith)) in
    let kk : l.card_id ≡ card_id =
      (text_eq_iff l.card_id k).0 (ground arith) ∙ sym ((text_eq_iff card_id k).0 (ground arith)) in
    let b_true = (text_eq_iff l.board_id board_id).1 bb in
    let k_true = (text_eq_iff l.card_id card_id).1 kk in
    let of_it : of_card board_id card_id l ≡ true = ground arith in
    let there' : is_some (lookup new l.axis_id) ≡ true =
      ap (λ x. is_some (lookup new x)) axis ∙ there in
    let it =
      kept-found (IsNamed named new) (of_card board_id card_id) (label_of b k a) rows l h found
        of_it in
    ground arith

recorded-LabelKept :
    (c : ReviewCall) (r : Records) (d : DecisionRead) (new : Selections) (t : Taxonomy)
    (b k a : String)
    → reviewed_values c.msg c.request d.decision.evidence.selections t
        (current_policy r.policies c.board_id)
      ≡ values new
    → check_supersedes c.request.supersedes_review_ids
        (card_labels r c.board_id d.decision.evidence.card_id)
        new
      ≡ none
    → LabelKept c d.decision.evidence.card_id b k a (find (label_of b k a) r.labels) (
        find
          (label_of b k a)
          (write_labels (made_review c r d new) new (with_review (made_review c r d new) r)).labels)
unfolding new_review card_labels
recorded-LabelKept c r d new t b k a fits named =
    let v = made_review c r d new in
    let named_all =
      All-sort_stable (λ l m. text_lt l.axis_id m.axis_id)
        (IsNamed c.request.supersedes_review_ids new)
        (keep (of_card c.board_id d.decision.evidence.card_id) r.labels)
        (includes-IsNamed c.request.supersedes_review_ids new _
          (check_supersedes-named c.request.supersedes_review_ids _ new named)) in
    elim (Bool-cases (touches v new b k a)) [
      | inr other ↦ left (write_labels-other v new (with_review v r) b k a other)
      | inl touched ↦
          let there : is_some (lookup new a) ≡ true = ground arith in
          set (ground arith) (ground arith)
            (reviewed_values-axes c.msg c.request _ t _ new a fits there)
            (replaced-named c.request.supersedes_review_ids new r.labels c.board_id
              d.decision.evidence.card_id b k a _ named_all refl there touched)
    ]

effect-LabelKept :
    (c : ReviewCall) (r r' : Records) (created : Bool) (d : DecisionRead) (b k a : String)
    → read_decision r c.board_id c.decision_id false ≡ some d
    → ReviewEffect c r r' created
    → LabelKept c d.decision.evidence.card_id b k a
        (find (label_of b k a) r.labels)
        (find (label_of b k a) r'.labels)
effect-LabelKept c r r' created d b k a read (known_review known) = left refl
effect-LabelKept c r r' created d b k a read
      (recorded d' t new free read' has fits expected named no_id) =
    let same : d'.decision.evidence.card_id ≡ d.decision.evidence.card_id = ground arith in
    subst
      (λ card_id. LabelKept c card_id b k a (find (label_of b k a) r.labels) (
        find (label_of b k a)
          (write_labels (made_review c r d' new) new
            (with_review (made_review c r d' new) r)).labels))
      same (recorded-LabelKept c r d' new t b k a fits named)

-- A review that is recorded, for the first time or again, changes no label but those of its decision's
-- card on the axes that it names; and where such a label had a review behind it, the request names
-- that review as superseded.
pub review_classification_decision-LabelKept :
    (c : ReviewCall) (r r' : Records) (x : Reviewed) (d : DecisionRead) (b k a : String)
    → read_decision r c.board_id c.decision_id false ≡ some d
    → review_classification_decision c r ≡ wrote r' x
    → LabelKept c d.decision.evidence.card_id b k a
        (find (label_of b k a) r.labels)
        (find (label_of b k a) r'.labels)
review_classification_decision-LabelKept c r r' x d b k a read h =
    effect-LabelKept c r r' x.created d b k a read
      (OnWrite-wrote (λ r' x. ReviewEffect c r r' x.created) _ r' x (review-Effect c r) h)
