-- ===== src/Prelude/Found.antt =====
-- What is found in a table after an update, a deletion or an insertion.
use mathlib.Core.Path.{◌≡◌, refl}
use Prim.Native.Nat.{◌+◌, ◌≤◌}
use mathlib.Core.Bool.{Bool, true, false, not, ◌&&◌}
use mathlib.Core.Logic.{inl, inr}
use mathlib.Core.List.{List, [], ◌∷◌, ◌++◌}
use mathlib.Core.Option.{Option, none, some}
use native.Mathlib.Omega.{arith}
use kanban_store.Prelude.Tests.{Bool-cases}
use kanban_store.Prelude.Lists.{find, keep, update_where, length, All, All-imp, IsUnique}

module _ {A : Type 0} (p : A → Bool) (f : A → A) (keeps : (x : A) → p (f x) ≡ p x) where
  pub find-update_where :
      (xs : List A) (old : A) → find p xs ≡ some old → find p (update_where p f xs) ≡ some (f old)
  unfolding find update_where
  find-update_where [] old h = absurd (ground arith)
  find-update_where (x ∷ xs) old h = elim (Bool-cases (p x)) [
    | inl e ↦ ground (arith, keeps x)
    | inr e ↦ ground (arith, find-update_where xs old)
  ]

module _ {A : Type 0} (p q : A → Bool) (f : A → A) (keeps : (x : A) → q (f x) ≡ q x)
    (apart : (x : A) → p x ≡ true → q x ≡ false) where
  pub find-update_where_other : (xs : List A) → find q (update_where p f xs) ≡ find q xs
  unfolding find update_where
  find-update_where_other [] = refl
  find-update_where_other (x ∷ xs) = elim (Bool-cases (p x)) [
    | inl e ↦ ground (arith, keeps x, apart x e, find-update_where_other xs)
    | inr e ↦ ground (arith, find-update_where_other xs)
  ]

  pub find-delete_other : (xs : List A) → find q (keep (λ x. not (p x)) xs) ≡ find q xs
  unfolding find keep
  find-delete_other [] = refl
  find-delete_other (x ∷ xs) = elim (Bool-cases (p x)) [
    | inl e ↦ ground (arith, apart x e, find-delete_other xs)
    | inr e ↦ ground (arith, find-delete_other xs)
  ]

pub find-insert_other :
    {A : Type 0} (q : A → Bool) (a : A) (xs : List A)
    → q a ≡ false
    → find q (xs ++ (a ∷ [])) ≡ find q xs
unfolding find
find-insert_other q a [] h = ground arith
find-insert_other q a (x ∷ xs) h = ground (arith, find-insert_other q a xs h)

pub find-deleted :
    {A : Type 0} (p : A → Bool) (xs : List A) → find p (keep (λ x. not (p x)) xs) ≡ none
unfolding find keep
find-deleted p [] = refl
find-deleted p (x ∷ xs) = elim (Bool-cases (p x)) [
  | inl e ↦ ground (arith, find-deleted p xs)
  | inr e ↦ ground (arith, find-deleted p xs)
]

unfoldable pub first_of : {A : Type 0} → List A → Option A
first_of [] = none
first_of (x ∷ xs) = some x

pub find-keep_first : {A : Type 0} (p : A → Bool) (xs : List A) → find p xs ≡ first_of (keep p xs)
unfolding find keep first_of
find-keep_first p [] = refl
find-keep_first p (x ∷ xs) = elim (Bool-cases (p x)) [
  | inl e ↦ rw e refl
  | inr e ↦ rw e (find-keep_first p xs)
]

module _ {A : Type 0} where
  pub keep-nothing : (p : A → Bool) (xs : List A) → All (λ x. p x ≡ false) xs → keep p xs ≡ []
  unfolding keep
  keep-nothing p [] h = refl
  keep-nothing p (x ∷ xs) h = rw (h.0) (keep-nothing p xs h.1)

  -- A unique key has one row at most.
  pub length-keep_key :
      (same : A → A → Bool) (p : A → Bool)
      → ((x y : A) → p x ≡ true → same x y ≡ false → p y ≡ false)
      → (xs : List A) → IsUnique same xs
      → length (keep p xs) ≤ 1
  unfolding keep
  length-keep_key same p apart [] h = omega arith
  length-keep_key same p apart (x ∷ xs) h = elim (Bool-cases (p x)) [
    | inl e ↦ rw (e, keep-nothing p xs (All-imp xs (λ y k. apart x y e k) h.0)) (omega arith)
    | inr e ↦ rw e (length-keep_key same p apart xs h.1)
  ]

  pub length-keep-le : (p : A → Bool) (xs : List A) → length (keep p xs) ≤ length xs
  unfolding keep
  length-keep-le p [] = omega arith
  length-keep-le p (x ∷ xs) = ground (arith, length-keep-le p xs)

  -- How many rows pass a test after rows at a key are rewritten
  pub length-keep-update_where :
      (q p : A → Bool) (f : A → A) (xs : List A)
      → length (keep q (update_where p f xs))
        ≤ length (keep q xs) + length (keep (λ x. p x && not (q x)) xs)
  unfolding keep update_where
  length-keep-update_where q p f [] = omega arith
  length-keep-update_where q p f (x ∷ xs) = ground (arith, length-keep-update_where q p f xs)

  pub length-keep-update_out :
      (q p : A → Bool) (f : A → A)
      → ((x : A) → q (f x) ≡ false)
      → (xs : List A) → length (keep q (update_where p f xs)) ≤ length (keep q xs)
  unfolding keep update_where
  length-keep-update_out q p f out [] = omega arith
  length-keep-update_out q p f out (x ∷ xs) =
      ground (arith, out x, length-keep-update_out q p f out xs)
