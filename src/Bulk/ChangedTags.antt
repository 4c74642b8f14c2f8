-- ===== src/Bulk/ChangedTags.antt =====
-- Which tags a card has after a bulk change (internal/api/bulk_card_commands.go, changeTagsOfCard).
use kanban_store.Prelude.{
  String, Bool, true, false, ◌&&◌, ◌||◌, not, List, [], ◌∷◌, keep, if◌then◌else◌, ◌≡◌, refl, sym,
  ap, ◌∙◌, arith, Bool-cases, inl, inr,
}
use kanban_store.Prelude.Text.{◌=?◌, contains, contains-append, text_lt, text_eq_iff}
use kanban_store.Prelude.Sort.{insert_sorted, sort_stable}
use kanban_store.Bulk.Commands.{distinct, changed_tags}

contains-insert_sorted :
    (less : String → String → Bool) (x : String) (ys : List String) (a : String)
    → contains (insert_sorted less x ys) a ≡ (x =? a || contains ys a)
unfolding contains insert_sorted
contains-insert_sorted less x [] a = refl
contains-insert_sorted less x (y ∷ ys) a = ground (arith, contains-insert_sorted less x ys a)

contains-sort_stable :
    (less : String → String → Bool) (xs : List String) (a : String)
    → contains (sort_stable less xs) a ≡ contains xs a
unfolding contains sort_stable
contains-sort_stable less [] a = refl
contains-sort_stable less (x ∷ xs) a =
    contains-insert_sorted less x (sort_stable less xs) a
    ∙ ap (λ b. x =? a || b) (contains-sort_stable less xs a)

contains-distinct : (xs : List String) (a : String) → contains (distinct xs) a ≡ contains xs a
unfolding contains distinct
contains-distinct [] a = refl
contains-distinct (x ∷ xs) a = elim (Bool-cases (contains xs x)) [
  | inr e ↦ rw e (ap (λ b. x =? a || b) (contains-distinct xs a))
  | inl e ↦ elim (Bool-cases (x =? a)) [
    | inr other ↦ rw (e, other) (contains-distinct xs a)
    | inl own ↦
        let same = (text_eq_iff x a).0 own in
        rw (e, own) (contains-distinct xs a ∙ ap (contains xs) (sym same) ∙ e)
  ]
]

-- What passes a test on texts is kept.
contains-kept :
    (p : String → Bool) (xs : List String) (a : String)
    → contains (keep p xs) a ≡ (contains xs a && p a)
unfolding contains keep
contains-kept p [] a = refl
contains-kept p (x ∷ xs) a = elim (Bool-cases (x =? a)) [
  | inr other ↦ elim (Bool-cases (p x)) [
    | inl e ↦ rw (e, other) (contains-kept p xs a)
    | inr e ↦ rw (e, other) (contains-kept p xs a)
  ]
  | inl own ↦
      let same = ap p ((text_eq_iff x a).0 own) in
      elim (Bool-cases (p x)) [
        | inl e ↦ rw (e, own) (sym e ∙ same)
        | inr e ↦ rw (e, own) (ground (arith, contains-kept p xs a))
      ]
]

-- After tags are added to a card it has the tags that it had or that are named, and after they are
-- removed those that it had and that are not named.
pub changed_tags-contains :
    (adding : Bool) (named held : List String) (tag : String)
    → contains (changed_tags adding named held) tag ≡ (
        if adding
        then contains held tag || contains named tag
        else contains held tag && not (contains named tag))
unfolding changed_tags
changed_tags-contains true named held tag =
    contains-append held _ tag
    ∙ ap (λ b. contains held tag || b)
        (contains-sort_stable text_lt _ tag
          ∙ contains-kept (λ t. not (contains held t)) (distinct named) tag
          ∙ ap (λ b. b && not (contains held tag)) (contains-distinct named tag))
    ∙ ground arith
changed_tags-contains false named held tag = contains-kept (λ t. not (contains named t)) held tag
