-- ===== src/Prelude/SortKeep.antt =====
-- What is kept of a sorted list is the sorted list of what is kept.
use mathlib.Core.Path.{◌≡◌, refl, sym, ap, ◌∙◌}
use mathlib.Core.Bool.{Bool, true, false}
use mathlib.Core.Logic.{inl, inr}
use mathlib.Core.List.{List, [], ◌∷◌}
use kanban_store.Prelude.Tests.{if◌then◌else◌, Bool-cases}
use kanban_store.Prelude.Lists.{All, All-imp, All-keep, keep}
use kanban_store.Prelude.Sort.{insert_sorted, sort_stable}

module _ {A : Type 0} (less : A → A → Bool) (asym : (a b : A) → less a b ≡ true → less b a ≡ false)
    (step : (a b c : A) → less a b ≡ false → less b c ≡ false → less a c ≡ false) where
  -- No item is below one before it.
  abbrev pub IsSorted : List A → Type 0
  IsSorted [] = Unit
  IsSorted (x ∷ xs) = All (λ z. less z x ≡ false) xs × IsSorted xs

  All-insert_sorted :
      (P : A → Type 0) (x : A) (ys : List A) → P x → All P ys → All P (insert_sorted less x ys)
  unfolding insert_sorted
  All-insert_sorted P x [] px h = (px, tt)
  All-insert_sorted P x (y ∷ ys) px h = elim (Bool-cases (less y x)) [
    | inl e ↦ rw e (h.0, All-insert_sorted P x ys px h.1)
    | inr e ↦ rw e (px, h)
  ]

  insert_sorted-IsSorted : (x : A) (ys : List A) → IsSorted ys → IsSorted (insert_sorted less x ys)
  unfolding insert_sorted
  insert_sorted-IsSorted x [] h = (tt, tt)
  insert_sorted-IsSorted x (y ∷ ys) h = elim (Bool-cases (less y x)) [
    | inl e ↦ rw e (All-insert_sorted _ x ys (asym y x e) h.0, insert_sorted-IsSorted x ys h.1)
    | inr e ↦ rw e ((e, All-imp ys (λ z k. step z y x k e) h.0), h)
  ]

  pub sort_stable-IsSorted : (xs : List A) → IsSorted (sort_stable less xs)
  unfolding sort_stable
  sort_stable-IsSorted [] = tt
  sort_stable-IsSorted (x ∷ xs) =
      insert_sorted-IsSorted x (sort_stable less xs) (sort_stable-IsSorted xs)

  insert_least :
      (x : A) (ys : List A) → All (λ z. less z x ≡ false) ys → insert_sorted less x ys ≡ x ∷ ys
  unfolding insert_sorted
  insert_least x [] h = refl
  insert_least x (y ∷ ys) h = rw (h.0) refl

  keep-insert_dropped :
      (p : A → Bool) (x : A) (ys : List A)
      → p x ≡ false
      → keep p (insert_sorted less x ys) ≡ keep p ys
  unfolding keep insert_sorted
  keep-insert_dropped p x [] e = rw e refl
  keep-insert_dropped p x (y ∷ ys) e = elim (Bool-cases (less y x)) [
    | inl l ↦ rw l (ap (λ zs. if p y then y ∷ zs else zs) (keep-insert_dropped p x ys e))
    | inr l ↦ rw (l, e) refl
  ]

  keep-insert_kept :
      (p : A → Bool) (x : A) (ys : List A)
      → p x ≡ true
      → IsSorted ys
      → keep p (insert_sorted less x ys) ≡ insert_sorted less x (keep p ys)
  unfolding keep insert_sorted
  keep-insert_kept p x [] e h = rw e refl
  keep-insert_kept p x (y ∷ ys) e h = elim (Bool-cases (less y x)) [
    | inl l ↦ elim (Bool-cases (p y)) [
      | inl k ↦ rw (l, k, l) (ap (λ zs. y ∷ zs) (keep-insert_kept p x ys e h.1))
      | inr k ↦ rw (l, k) (keep-insert_kept p x ys e h.1)
    ]
    | inr l ↦
        let least : All (λ z. less z x ≡ false) (keep p (y ∷ ys)) =
          All-keep (λ z. less z x ≡ false) p (y ∷ ys) (l, All-imp ys (λ z k. step z y x k l) h.0) in
        rw (l, e) (sym (insert_least x (keep p (y ∷ ys)) least))
  ]

  pub keep-sort_stable :
      (p : A → Bool) (xs : List A) → keep p (sort_stable less xs) ≡ sort_stable less (keep p xs)
  unfolding sort_stable keep
  keep-sort_stable p [] = refl
  keep-sort_stable p (x ∷ xs) = elim (Bool-cases (p x)) [
    | inl e ↦ rw e (
        keep-insert_kept p x (sort_stable less xs) e (sort_stable-IsSorted xs)
        ∙ ap (insert_sorted less x) (keep-sort_stable p xs))
    | inr e ↦ rw e (keep-insert_dropped p x (sort_stable less xs) e ∙ keep-sort_stable p xs)
  ]
