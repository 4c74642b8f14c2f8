-- ===== src/TagRules/Validity.antt =====
-- What the validation of a list of rules ensures (`Validate` of internal/model/tag_rules.go).
use kanban_store.Prelude.{
  ℕ, suc, String, Bool, true, false, ◌&&◌, not, List, [], ◌∷◌, none, some, if◌then◌else◌, ap, ◌≡◌,
  ◌≢◌, ◌⊎◌, inl, inr, arith, Bool-cases, Option-cases, All, SomeOf, All-imp, List-cases,
}
use mathlib.Core.List.{Perm}
use kanban_store.Prelude.Text.{◌=?◌, contains, trim_space, text_eq_iff}
use kanban_store.Prelude.SortPerm.{sort_stable_of_perm}
use kanban_store.TagRules.Rules.{
  join, DefaultField, Defaults, default_value, default_fields, BoardTagRuleInput, check_tags,
  check_defaults, tag_set_key, check_rule, check_rules, validate_rules,
}

-- A tag that is sent as cards carry it: not empty, and without surrounding white space.
abbrev pub IsExact : String → Type 0
IsExact tag = ((tag =? "") ≡ false) × ((tag =? trim_space tag) ≡ true)

-- No two items of the list have the same key.
abbrev pub AreDistinct : {A : Type 0} → (A → String) → List A → Type 0
AreDistinct key [] = Unit
AreDistinct key (x ∷ xs) = All (λ y. (key x =? key y) ≡ false) xs × AreDistinct key xs

-- No two rules of the list have the same id, unless it is left out.
abbrev pub HaveDistinctIds : List BoardTagRuleInput → Type 0
HaveDistinctIds [] = Unit
HaveDistinctIds (x ∷ xs) =
    All (λ y. (not (x.id =? "") && x.id =? y.id) ≡ false) xs × HaveDistinctIds xs

-- The defaults of a rule that are set have no surrounding white space, and one is set.
abbrev pub AreUsable : Defaults → List DefaultField → Type 0
AreUsable d fields =
    All
      (λ f.
        ((default_value d f =? "") ≡ true)
        ⊎ ((default_value d f =? trim_space (default_value d f)) ≡ true))
      fields

abbrev pub SetsOne : Defaults → List DefaultField → Type 0
SetsOne d fields = SomeOf (λ f. (default_value d f =? "") ≡ false) fields

abbrev pub IsSound : BoardTagRuleInput → Type 0
IsSound r =
    (r.tags ≢ [])
    × All IsExact r.tags
    × AreDistinct (λ t. t) r.tags
    × AreUsable r.defaults default_fields
    × SetsOne r.defaults default_fields

check_tags-none :
    (index : ℕ) (seen tags : List String)
    → check_tags index seen tags ≡ none
    → All IsExact tags × All (λ t. contains seen t ≡ false) tags × AreDistinct (λ t. t) tags
unfolding check_tags contains
check_tags-none index seen [] h = (tt, tt, tt)
check_tags-none index seen (tag ∷ tags) h =
    let rest : check_tags index (tag ∷ seen) tags ≡ none = ground arith in
    let (exact, unseen, distinct) = check_tags-none index (tag ∷ seen) tags rest in
    (
      ((ground arith, ground arith), exact),
      (ground arith, All-imp tags (λ t e. ground (arith, e)) unseen),
      (All-imp tags (λ t e. ground (arith, e)) unseen, distinct),
    )

check_defaults-none :
    (index : ℕ) (d : Defaults) (sets_any : Bool) (fields : List DefaultField)
    → check_defaults index d sets_any fields ≡ none
    → AreUsable d fields × ((sets_any ≡ true) ⊎ SetsOne d fields)
unfolding check_defaults
check_defaults-none index d sets_any [] h = (tt, inl (ground arith))
check_defaults-none index d sets_any (f ∷ fields) h = elim (Bool-cases (default_value d f =? "")) [
  | inl e ↦
      let (usable, one) = check_defaults-none index d sets_any fields (ground arith) in
      ((inl e, usable), elim one [ inl s ↦ inl s | inr o ↦ inr (inr o) ])
  | inr e ↦
      let (usable, _) = check_defaults-none index d true fields (ground arith) in
      ((inr (ground arith), usable), inr (inl e))
]

-- What the checks of one rule ensure, given the ids and the tag sets of those before it.
check_rule-none :
    (index : ℕ) (seen_ids seen_keys : List String) (r : BoardTagRuleInput)
    → check_rule index seen_ids seen_keys r ≡ none
    → IsSound r
      × (contains seen_keys (tag_set_key r.tags) ≡ false)
      × ((r.id =? "") ≡ false → contains seen_ids r.id ≡ false)
unfolding check_rule
check_rule-none index seen_ids seen_keys r h = elim (List-cases r.tags) [
  | inl e ↦ absurd (ground arith)
  | inr (tag, tags, e) ↦
      let tags_ok : check_tags index [] r.tags ≡ none =
        elim (Option-cases (check_tags index [] r.tags)) [
          | inl ok ↦ ok
          | inr (x, bad) ↦ absurd (ground arith)
        ] in
      let defaults_ok : check_defaults index r.defaults false default_fields ≡ none =
        elim (Option-cases (check_defaults index r.defaults false default_fields)) [
          | inl ok ↦ ok
          | inr (x, bad) ↦ absurd (ground arith)
        ] in
      let (exact, _, distinct) = check_tags-none index [] r.tags tags_ok in
      let (usable, one) = check_defaults-none index r.defaults false default_fields defaults_ok in
      (
        (
          (λ e'. cc),
          exact,
          distinct,
          usable,
          elim one [ inl s ↦ absurd (ground arith) | inr o ↦ o ],
        ),
        ground arith,
        (λ i. ground arith),
      )
]

-- An id that was not seen when it came is not the id of a rule before it.
clash :
    (r x : BoardTagRuleInput) (seen : List String)
    → ((x.id =? "") ≡ false → contains (if r.id =? "" then seen else r.id ∷ seen) x.id ≡ false)
    → (not (r.id =? "") && r.id =? x.id) ≡ false
unfolding contains
clash r x seen e = elim (Bool-cases (r.id =? "")) [
  | inl i ↦ ground arith
  | inr i ↦ elim (Bool-cases (r.id =? x.id)) [
    | inl same ↦
        let ids = (text_eq_iff r.id x.id).0 same in
        let unseen = e (rw ids at i) in absurd (ground arith)
    | inr other ↦ ground arith
  ]
]

check_rules-none :
    (index : ℕ) (seen_ids seen_keys : List String) (rules : List BoardTagRuleInput)
    → check_rules index seen_ids seen_keys rules ≡ none
    → All IsSound rules
      × All (λ r. contains seen_keys (tag_set_key r.tags) ≡ false) rules
      × All (λ r. (r.id =? "") ≡ false → contains seen_ids r.id ≡ false) rules
      × AreDistinct (λ r. tag_set_key r.tags) rules
      × HaveDistinctIds rules
unfolding check_rules contains
check_rules-none index seen_ids seen_keys [] h = (tt, tt, tt, tt, tt)
check_rules-none index seen_ids seen_keys (r ∷ rules) h =
    let ids = if r.id =? "" then seen_ids else r.id ∷ seen_ids in
    let (sound, key, id) = check_rule-none index seen_ids seen_keys r (ground arith) in
    let (sounds, keys, id_list, distinct, distinct_ids) =
      check_rules-none (suc index) ids (tag_set_key r.tags ∷ seen_keys) rules (ground arith) in
    (
      (sound, sounds),
      (key, All-imp rules (λ x e. ground (arith, e)) keys),
      (id, All-imp rules (λ x e n. ground (arith, e n)) id_list),
      (All-imp rules (λ x e. ground (arith, e)) keys, distinct),
      (All-imp rules (λ x e. clash r x seen_ids e) id_list, distinct_ids),
    )

-- No two rules of the list have the same tags in some order.
abbrev pub HaveDifferentTags : List BoardTagRuleInput → Type 0
HaveDifferentTags [] = Unit
HaveDifferentTags (x ∷ xs) = All (λ y. ¬ Perm x.tags y.tags) xs × HaveDifferentTags xs

different_keys :
    (x y : BoardTagRuleInput)
    → (tag_set_key x.tags =? tag_set_key y.tags) ≡ false
    → ¬ Perm x.tags y.tags
unfolding tag_set_key
different_keys x y apart p =
    let same = ap (join "\0") (sort_stable_of_perm x.tags y.tags p) in
    let equal = (text_eq_iff _ _).1 same in absurd (ground arith)

AreDistinct-HaveDifferentTags :
    (rules : List BoardTagRuleInput)
    → AreDistinct (λ r. tag_set_key r.tags) rules
    → HaveDifferentTags rules
AreDistinct-HaveDifferentTags [] h = tt
AreDistinct-HaveDifferentTags (x ∷ xs) h =
    (All-imp xs (λ y apart. different_keys x y apart) h.0, AreDistinct-HaveDifferentTags xs h.1)

-- A list of rules passes the validation only when every rule names a tag, names its tags exactly and
-- once, sets a default and sets them exactly, when no two rules have the same tags in whatever order,
-- and when no two rules have the same id.
pub validate_rules-IsSound :
    (rules : List BoardTagRuleInput)
    → validate_rules (some rules) ≡ none
    → All IsSound rules × HaveDifferentTags rules × HaveDistinctIds rules
unfolding validate_rules
validate_rules-IsSound rules h =
    let (sound, _, _, distinct, distinct_ids) = check_rules-none 0 [] [] rules h in
    (sound, AreDistinct-HaveDifferentTags rules distinct, distinct_ids)
