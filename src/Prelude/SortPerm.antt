-- ===== src/Prelude/SortPerm.antt =====
-- `sort.Strings` forgets the order of what it sorts.
use Prim.Native.String.{String}
use mathlib.Core.Path.{◌≡◌, refl, sym, ap, ◌∙◌}
use mathlib.Core.Bool.{true, false}
use mathlib.Core.List.{List, [], ◌∷◌, foldr, Perm}
use mathlib.Core.List
use mathlib.Core.List.Perm
use mathlib.Core.HLevel.{hedberg}
use mathlib.Core.Logic.{inl, inr}
use native.Mathlib.Omega.{arith}
use kanban_store.Prelude.Tests.{if◌then◌else◌, Bool-cases}
use kanban_store.Prelude.Text.{◌=?◌, text_eq_iff, text_lt}
use kanban_store.Prelude.TextOrder.{text_lt_asym, text_lt_step, text_lt_antisym}
use kanban_store.Prelude.Sort.{insert_sorted, sort_stable}

-- Two texts in front of a list of which neither goes behind the head
insert_sorted_two :
    (a b : String) (l : List String)
    → (if text_lt b a then b ∷ a ∷ l else a ∷ b ∷ l)
      ≡ (if text_lt a b then a ∷ b ∷ l else b ∷ a ∷ l)
insert_sorted_two a b l = elim (Bool-cases (text_lt b a)) [
  | inl below ↦ rw (below, text_lt_asym b a below) refl
  | inr other ↦ elim (Bool-cases (text_lt a b)) [
    | inl above ↦ rw (other, above) refl
    | inr apart ↦
        let same : a ≡ b = text_lt_antisym a b apart other in rw (other, apart) (rw same refl)
  ]
]

insert_sorted_below :
    (a x : String) (l : List String)
    → text_lt x a ≡ true
    → insert_sorted text_lt a (x ∷ l) ≡ x ∷ insert_sorted text_lt a l
unfolding insert_sorted
insert_sorted_below a x l h = rw h refl

insert_sorted_above :
    (a x : String) (l : List String)
    → text_lt x a ≡ false
    → insert_sorted text_lt a (x ∷ l) ≡ a ∷ x ∷ l
unfolding insert_sorted
insert_sorted_above a x l h = rw h refl

insert_sorted_pair :
    (a b : String) (l : List String)
    → insert_sorted text_lt a (b ∷ l)
      ≡ (if text_lt b a then b ∷ insert_sorted text_lt a l else a ∷ b ∷ l)
insert_sorted_pair a b l = elim (Bool-cases (text_lt b a)) [
  | inl below ↦ rw (insert_sorted_below a b l below, below) refl
  | inr other ↦ rw (insert_sorted_above a b l other, other) refl
]

insert_sorted_comm :
    (a b : String) (l : List String)
    → insert_sorted text_lt a (insert_sorted text_lt b l)
      ≡ insert_sorted text_lt b (insert_sorted text_lt a l)
insert_sorted_comm a b [] = unfold insert_sorted in insert_sorted_two a b []
insert_sorted_comm a b (x ∷ l) = elim (Bool-cases (text_lt x a)) [
  | inl xa ↦ elim (Bool-cases (text_lt x b)) [
    | inl xb ↦
        rw
          (
            insert_sorted_below b x l xb,
            insert_sorted_below a x l xa,
            insert_sorted_below a x (insert_sorted text_lt b l) xa,
            insert_sorted_below b x (insert_sorted text_lt a l) xb,
          )
          (ap (λ l. x ∷ l) (insert_sorted_comm a b l))
    | inr xb ↦
        let ba : text_lt b a ≡ true = ground (arith, text_lt_step x b a) in
        rw
          (
            insert_sorted_above b x l xb,
            insert_sorted_below a x l xa,
            insert_sorted_below a b (x ∷ l) ba,
            insert_sorted_below a x l xa,
            insert_sorted_above b x (insert_sorted text_lt a l) xb,
          )
          refl
  ]
  | inr xa ↦ elim (Bool-cases (text_lt x b)) [
    | inl xb ↦
        let ab : text_lt a b ≡ true = ground (arith, text_lt_step x a b) in
        rw
          (
            insert_sorted_below b x l xb,
            insert_sorted_above a x l xa,
            insert_sorted_above a x (insert_sorted text_lt b l) xa,
            insert_sorted_below b a (x ∷ l) ab,
            insert_sorted_below b x l xb,
          )
          refl
    | inr xb ↦
        rw
          (
            insert_sorted_above b x l xb,
            insert_sorted_above a x l xa,
            insert_sorted_pair a b (x ∷ l),
            insert_sorted_pair b a (x ∷ l),
            insert_sorted_above b x l xb,
            insert_sorted_above a x l xa,
          )
          (insert_sorted_two a b (x ∷ l))
  ]
]

String_discrete : Discrete String
String_discrete a b = elim (Bool-cases (a =? b)) [
  | inl e ↦ yes ((text_eq_iff a b).0 e)
  | inr e ↦ no (λ same. absurd (ground (arith, (text_eq_iff a b).1 same)))
]

sort_stable-foldr :
    (xs : List String) → sort_stable text_lt xs ≡ foldr (insert_sorted text_lt) [] xs
unfolding sort_stable
sort_stable-foldr [] = refl
sort_stable-foldr (x ∷ xs) = ap (insert_sorted text_lt x) (sort_stable-foldr xs)

pub sort_stable_of_perm :
    (xs ys : List String) → Perm xs ys → sort_stable text_lt xs ≡ sort_stable text_lt ys
sort_stable_of_perm xs ys p =
    sort_stable-foldr xs
    ∙ Perm.foldr-eq (List.is_set (hedberg String_discrete)) (insert_sorted text_lt)
        insert_sorted_comm p []
    ∙ sym (sort_stable-foldr ys)
