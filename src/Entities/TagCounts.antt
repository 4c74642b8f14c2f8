-- ===== src/Entities/TagCounts.antt =====
-- The counts of tags and the search for a tag agree (internal/db/db.go).
use kanban_store.Prelude.{
  ℕ, zero, suc, String, Bool, false, List, [], ◌∷◌, length, keep, ◌≡◌, refl, sym, ap, ◌∙◌, arith,
  if◌then◌else◌, Bool-cases, inl, inr,
}
use kanban_store.Prelude.Text.{◌=?◌, text_eq_iff, text_eq_refl}
use kanban_store.Prelude.TextOrder.{text_lt_asym, text_lt_step}
use kanban_store.Prelude.Sort.{insert_sorted, sort_stable}
use kanban_store.Prelude.SortKeep.{keep-sort_stable}
use kanban_store.Entities.Tags.{
  EntityTag, TagCount, is_found, entity_before, find_entities_by_tag, count_tag, group_tags,
  tag_before, list_all_entity_tags,
}

abbrev pub counts : String → TagCount → Bool
counts tag c = c.tag =? tag

-- The one row of a tag that `n` entities carry
abbrev pub rows_of : String → ℕ → List TagCount
rows_of tag zero = []
rows_of tag (suc n) = record { tag = tag; count = suc n } ∷ []

one_more :
    (tag : String) (n : ℕ) (c : TagCount) (others : List TagCount)
    → c ∷ others ≡ rows_of tag n
    → record c { count = suc c.count } ∷ others ≡ rows_of tag (suc n)
one_more tag zero c others h = absurd (ground arith)
one_more tag (suc n) c others h = ground arith

count_tag-rows_of :
    (tag : String) (n : ℕ) (cs : List TagCount)
    → keep (counts tag) cs ≡ rows_of tag n
    → keep (counts tag) (count_tag tag cs) ≡ rows_of tag (suc n)
unfolding count_tag keep
count_tag-rows_of tag zero [] h = rw (text_eq_refl tag) refl
count_tag-rows_of tag (suc n) [] h = absurd (ground arith)
count_tag-rows_of tag n (c ∷ cs) h = elim (Bool-cases (c.tag =? tag)) [
  | inr other ↦ rw (other, other) (count_tag-rows_of tag n cs (ground arith))
  | inl own ↦ ground (arith, one_more tag n c (keep (counts tag) cs))
]

count_tag-keep_other :
    (tag other : String) (cs : List TagCount)
    → (other =? tag) ≡ false
    → keep (counts tag) (count_tag other cs) ≡ keep (counts tag) cs
unfolding count_tag keep
count_tag-keep_other tag other [] apart = rw apart refl
count_tag-keep_other tag other (c ∷ cs) apart = elim (Bool-cases (c.tag =? other)) [
  | inl own ↦
      let same = (text_eq_iff c.tag other).0 own in
      let elsewhere : (c.tag =? tag) ≡ false = ap (λ x. x =? tag) same ∙ apart in
      rw (own, elsewhere) refl
  | inr away ↦
      rw away
        (ap (λ xs. if c.tag =? tag then c ∷ xs else xs) (count_tag-keep_other tag other cs apart))
]

group_tags-rows_of :
    (tag : String) (table : List EntityTag)
    → keep (counts tag) (group_tags table) ≡ rows_of tag (length (keep (is_found tag "") table))
unfolding group_tags keep
group_tags-rows_of tag [] = refl
group_tags-rows_of tag (t ∷ table) = elim (Bool-cases (t.tag =? tag)) [
  | inl own ↦
      let same = (text_eq_iff t.tag tag).0 own in
      rw own (
        ap (λ x. keep (counts tag) (count_tag x (group_tags table))) same
        ∙ count_tag-rows_of tag _ (group_tags table) (group_tags-rows_of tag table))
  | inr other ↦
      rw other
        (count_tag-keep_other tag t.tag (group_tags table) other ∙ group_tags-rows_of tag table)
]

length-insert_sorted :
    {A : Type 0} (less : A → A → Bool) (x : A) (ys : List A)
    → length (insert_sorted less x ys) ≡ suc (length ys)
unfolding insert_sorted
length-insert_sorted less x [] = refl
length-insert_sorted less x (y ∷ ys) = ground (arith, length-insert_sorted less x ys)

length-sort_stable :
    {A : Type 0} (less : A → A → Bool) (xs : List A) → length (sort_stable less xs) ≡ length xs
unfolding sort_stable
length-sort_stable less [] = refl
length-sort_stable less (x ∷ xs) =
    length-insert_sorted less x (sort_stable less xs) ∙ ap suc (length-sort_stable less xs)

sort_stable-rows_of :
    (tag : String) (n : ℕ) → sort_stable tag_before (rows_of tag n) ≡ rows_of tag n
unfolding sort_stable insert_sorted
sort_stable-rows_of tag zero = refl
sort_stable-rows_of tag (suc n) = refl

-- The list of all tags has no row for a tag that no entity carries and one row for every other tag,
-- whose count is the number of entities that the search for the tag finds.
pub list_all_entity_tags-find_entities_by_tag :
    (table : List EntityTag) (tag : String)
    → keep (counts tag) (list_all_entity_tags table)
      ≡ rows_of tag (length (find_entities_by_tag tag "" table))
unfolding list_all_entity_tags find_entities_by_tag
list_all_entity_tags-find_entities_by_tag table tag =
    keep-sort_stable tag_before (λ a b. text_lt_asym a.tag b.tag)
      (λ a b c. text_lt_step a.tag b.tag c.tag) (counts tag) (group_tags table)
    ∙ ap (sort_stable tag_before) (group_tags-rows_of tag table)
    ∙ sort_stable-rows_of tag _
    ∙ ap (rows_of tag) (sym (length-sort_stable entity_before (keep (is_found tag "") table)))
