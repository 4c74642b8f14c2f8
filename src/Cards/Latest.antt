-- ===== src/Cards/Latest.antt =====
-- The last item of a sorted list, and what one more item does to it.
use kanban_store.Prelude.{
  Bool, true, false, List, [], ◌∷◌, ◌++◌, Option, none, some, if◌then◌else◌, All, ◌≡◌, ◌⊎◌, refl,
  ap, ◌∙◌, arith, Bool-cases, Option-cases, inl, inr,
}
use kanban_store.Prelude.Sort.{insert_sorted, sort_stable}
use kanban_store.Prelude.SortKeep.{IsSorted, sort_stable-IsSorted}

unfoldable pub last_of : {A : Type 0} → List A → Option A
last_of [] = none
last_of (x ∷ []) = some x
last_of (x ∷ y ∷ ys) = last_of (y ∷ ys)

module _ {A : Type 0} (less : A → A → Bool) where
  -- The later one of an item and of those before it in the sort
  unfoldable pub later : A → Option A → A
  later x none = x
  later x (some m) = if less m x then x else m

  unfoldable pub greatest : List A → Option A
  greatest [] = none
  greatest (x ∷ xs) = some (later x (greatest xs))

  -- Nothing, or an item that the other is not below
  abbrev pub is_above : A → Option A → Bool
  is_above e none = true
  is_above e (some m) = if less e m then false else true

module _ {A : Type 0} (less : A → A → Bool) (asym : (a b : A) → less a b ≡ true → less b a ≡ false)
    (step : (a b c : A) → less a b ≡ false → less b c ≡ false → less a c ≡ false) where
  last_of-insert_later :
      (y x : A) (ys : List A)
      → last_of (y ∷ insert_sorted less x ys) ≡ last_of (insert_sorted less x ys)
  unfolding insert_sorted last_of
  last_of-insert_later y x [] = refl
  last_of-insert_later y x (z ∷ ys) = elim (Bool-cases (less z x)) [
    | inl e ↦ rw e refl
    | inr e ↦ rw e refl
  ]

  not_below_last :
      (y x : A) (ys : List A) (m : A)
      → All (λ z. less z y ≡ false) ys
      → less y x ≡ false
      → last_of (y ∷ ys) ≡ some m
      → less m x ≡ false
  unfolding last_of
  not_below_last y x [] m sorted h e = ground (arith)
  not_below_last y x (z ∷ []) m sorted h e = ground (arith, step z y x)
  not_below_last y x (z ∷ u ∷ ys) m sorted h e = not_below_last y x (u ∷ ys) m sorted.1 h e

  some_last : (z : A) (ys : List A) → last_of (z ∷ ys) ≡ none → ⊥
  unfolding last_of
  some_last z [] h = ground arith
  some_last z (y ∷ ys) h = some_last y ys h

  last_of-insert_sorted :
      (x : A) (ys : List A)
      → IsSorted less asym step ys
      → last_of (insert_sorted less x ys) ≡ some (later less x (last_of ys))
  unfolding insert_sorted later last_of
  last_of-insert_sorted x [] h = refl
  last_of-insert_sorted x (y ∷ []) h = ground arith
  last_of-insert_sorted x (y ∷ z ∷ ys) h = elim (Bool-cases (less y x)) [
    | inl e ↦ rw e (last_of-insert_later y x (z ∷ ys) ∙ last_of-insert_sorted x (z ∷ ys) h.1)
    | inr e ↦ elim (Option-cases (last_of (z ∷ ys))) [
      | inl nothing ↦ absurd (some_last z ys nothing)
      | inr (m, last) ↦ rw (e, last, not_below_last y x (z ∷ ys) m h.0 e last) refl
    ]
  ]

  pub last_of-sort_stable : (xs : List A) → last_of (sort_stable less xs) ≡ greatest less xs
  unfolding sort_stable greatest last_of
  last_of-sort_stable [] = refl
  last_of-sort_stable (x ∷ xs) =
      last_of-insert_sorted x (sort_stable less xs) (sort_stable-IsSorted less asym step xs)
      ∙ ap (λ o. some (later less x o)) (last_of-sort_stable xs)

  -- The new item is the greatest and above the old one, or the old one stays the greatest.
  pub greatest_of_more :
      (xs : List A) (e : A)
      → ((greatest less (xs ++ (e ∷ [])) ≡ some e) × (is_above less e (greatest less xs) ≡ true))
        ⊎ (greatest less (xs ++ (e ∷ [])) ≡ greatest less xs)
  unfolding greatest later
  greatest_of_more [] e = inl (refl, refl)
  greatest_of_more (x ∷ xs) e = elim (greatest_of_more xs e) [
    | inr same ↦ inr (ap (λ o. some (later less x o)) same)
    | inl (new, above) ↦ elim (Option-cases (greatest less xs)) [
      | inl nothing ↦ elim (Bool-cases (less e x)) [
        | inl below ↦ inr (rw (new, nothing, below) refl)
        | inr other ↦ inl (rw (new, nothing, other) (refl, refl))
      ]
      | inr (m, old) ↦
          let apart : less e m ≡ false = ground (arith, above, old) in
          elim (Bool-cases (less e x)) [
            | inl below ↦ inr (rw (new, old, below) (ground (arith, step e m x)))
            | inr other ↦ inl (rw (new, old, other) (refl, ground arith))
          ]
    ]
  ]
