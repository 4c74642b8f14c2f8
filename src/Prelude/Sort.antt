-- ===== src/Prelude/Sort.antt =====
-- `sort.SliceStable` by a Boolean `less`: a stable insertion sort.
use mathlib.Core.Path.{◌≡◌, refl, subst}
use Prim.Native.Nat.{ℕ, ◌≤◌}
use native.Mathlib.Omega.{arith}
use mathlib.Core.Bool.{Bool, true, false}
use mathlib.Core.List.{List, [], ◌∷◌, Perm}
use mathlib.Core.List.Perm
use kanban_store.Prelude.Tests.{if◌then◌else◌, Bool-cases}
use kanban_store.Prelude.Lists.{All, SomeOf, All-imp}
use mathlib.Core.Logic.{◌⊎◌, inl, inr}

module _ {ℓ} {A : Type ℓ} (less : A → A → Bool) where
  -- `x` goes in front of the first item that is not below it.
  unfoldable pub insert_sorted : A → List A → List A
  insert_sorted x [] = x ∷ []
  insert_sorted x (y ∷ ys) =
      let rest = insert_sorted x ys in if less y x then y ∷ rest else x ∷ y ∷ ys

  unfoldable pub sort_stable : List A → List A
  unfolding insert_sorted
  sort_stable [] = []
  sort_stable (x ∷ xs) = insert_sorted x (sort_stable xs)

  pub insert_sorted-perm : (x : A) (ys : List A) → Perm (insert_sorted x ys) (x ∷ ys)
  unfolding insert_sorted
  insert_sorted-perm x [] = Perm.refl (x ∷ [])
  insert_sorted-perm x (y ∷ ys) = elim (Bool-cases (less y x)) [
    | inl below ↦ rw below (Perm.trans (Perm.cons y (insert_sorted-perm x ys)) (Perm.swap x y ys))
    | inr other ↦ rw other (Perm.refl (x ∷ y ∷ ys))
  ]

  pub sort_stable-perm : (xs : List A) → Perm (sort_stable xs) xs
  unfolding sort_stable
  sort_stable-perm [] = Perm.refl []
  sort_stable-perm (x ∷ xs) =
      Perm.trans (insert_sorted-perm x (sort_stable xs)) (Perm.cons x (sort_stable-perm xs))

-- The keys of the items rise from `low` on.
abbrev pub IsAscendingFrom {ℓ} : {A : Type ℓ} → (A → ℕ) → ℕ → List A → Type 0
IsAscendingFrom key low [] = Unit
IsAscendingFrom key low (x ∷ xs) = (low ≤ key x) × IsAscendingFrom key (key x) xs

-- Sorting by a test that compares a key first leaves the keys ascending.
module _ {ℓ} {A : Type ℓ} (less : A → A → Bool) (key : A → ℕ)
    (below : (a b : A) → less a b ≡ true → key a ≤ key b)
    (above : (a b : A) → less a b ≡ false → key b ≤ key a) where
  insert_sorted-IsAscendingFrom :
      (low : ℕ) (x : A) (ys : List A)
      → low ≤ key x
      → IsAscendingFrom key low ys
      → IsAscendingFrom key low (insert_sorted less x ys)
  unfolding insert_sorted
  insert_sorted-IsAscendingFrom low x [] h asc = (h, tt)
  insert_sorted-IsAscendingFrom low x (y ∷ ys) h asc = elim (Bool-cases (less y x)) [
    | inl e ↦ rw e (asc.0, insert_sorted-IsAscendingFrom (key y) x ys (below y x e) asc.1)
    | inr e ↦ rw e (h, (above y x e, asc.1))
  ]

  pub sort_stable-IsAscendingFrom : (xs : List A) → IsAscendingFrom key 0 (sort_stable less xs)
  unfolding sort_stable
  sort_stable-IsAscendingFrom [] = tt
  sort_stable-IsAscendingFrom (x ∷ xs) =
      insert_sorted-IsAscendingFrom 0 x (sort_stable less xs) (omega arith)
        (sort_stable-IsAscendingFrom xs)

pub All-above {ℓ} :
    {A : Type ℓ} (key : A → ℕ) (low k : ℕ) (xs : List A)
    → k ≤ low
    → IsAscendingFrom key low xs
    → All (λ x. k ≤ key x) xs
All-above key low k [] h asc = tt
All-above key low k (x ∷ xs) h asc = (omega arith, All-above key (key x) k xs (omega arith) asc.1)

-- Sorting keeps the items.
module _ {ℓ} {A : Type ℓ} (less : A → A → Bool) (P : A → Type 0) where
  SomeOf-insert_sorted :
      (x : A) (ys : List A) → SomeOf P (insert_sorted less x ys) → P x ⊎ SomeOf P ys
  unfolding insert_sorted
  SomeOf-insert_sorted x [] h = h
  SomeOf-insert_sorted x (y ∷ ys) h = elim (Bool-cases (less y x)) [
    | inl e ↦ elim (rw (e, insert_sorted) at h) [
      | inl py ↦ inr (inl py)
      | inr rest ↦ elim (SomeOf-insert_sorted x ys rest) [ inl px ↦ inl px | inr r ↦ inr (inr r) ]
    ]
    | inr e ↦ rw (e, insert_sorted) at h
  ]

  pub SomeOf-sort_stable : (xs : List A) → SomeOf P (sort_stable less xs) → SomeOf P xs
  unfolding sort_stable
  SomeOf-sort_stable [] h = h
  SomeOf-sort_stable (x ∷ xs) h = elim (SomeOf-insert_sorted x (sort_stable less xs) h) [
    | inl px ↦ inl px
    | inr rest ↦ inr (SomeOf-sort_stable xs rest)
  ]

  All-insert_sorted : (x : A) (ys : List A) → All P (insert_sorted less x ys) → P x × All P ys
  unfolding insert_sorted
  All-insert_sorted x [] h = h
  All-insert_sorted x (y ∷ ys) h = elim (Bool-cases (less y x)) [
    | inl e ↦
        let (py, rest) = (rw (e, insert_sorted) at h) in
        let (px, others) = All-insert_sorted x ys rest in (px, (py, others))
    | inr e ↦ rw (e, insert_sorted) at h
  ]

  pub All-sort_stable : (xs : List A) → All P (sort_stable less xs) → All P xs
  unfolding sort_stable
  All-sort_stable [] h = h
  All-sort_stable (x ∷ xs) h =
      let (px, rest) = All-insert_sorted x (sort_stable less xs) h in (px, All-sort_stable xs rest)

pub sort_stable-≢[] {ℓ} :
    {A : Type ℓ} (less : A → A → Bool) (x : A) (xs : List A) → sort_stable less (x ∷ xs) ≡ [] → ⊥
unfolding sort_stable insert_sorted
sort_stable-≢[] less x xs h =
    elim (sort_stable less xs) as (λ ys. insert_sorted less x ys ≡ [] → ⊥) [
      | [] ↦ (λ e. ground arith)
      | y ∷ ys ↦ (λ e. ground arith)
    ]
      h

-- The first of the sorted items is one that no item is below.
module _ {A : Type 0} (less : A → A → Bool) (asym : (a b : A) → less a b ≡ true → less b a ≡ false)
    (step : (a b c : A) → less a b ≡ false → less b c ≡ false → less a c ≡ false) where
  abbrev pub IsLeast : A → List A → Type 0
  IsLeast h xs = All (λ x. less x h ≡ false) xs

  abbrev HeadIsLeast : List A → List A → Type 0
  HeadIsLeast [] xs = xs ≡ []
  HeadIsLeast (h ∷ _) xs = IsLeast h xs

  irrefl : (a : A) → less a a ≡ false
  irrefl a = elim (Bool-cases (less a a)) [ inl e ↦ asym a a e | inr e ↦ e ]

  HeadIsLeast-insert_sorted :
      (x : A) (sorted xs : List A)
      → HeadIsLeast sorted xs
      → HeadIsLeast (insert_sorted less x sorted) (x ∷ xs)
  unfolding insert_sorted
  HeadIsLeast-insert_sorted x [] xs h = rw h (irrefl x, tt)
  HeadIsLeast-insert_sorted x (y ∷ sorted) xs h = elim (Bool-cases (less y x)) [
    | inl e ↦ rw e (asym y x e, h)
    | inr e ↦ rw e (irrefl x, All-imp xs (λ z k. step z y x k e) h)
  ]

  HeadIsLeast-sort_stable : (xs : List A) → HeadIsLeast (sort_stable less xs) xs
  unfolding sort_stable
  HeadIsLeast-sort_stable [] = refl
  HeadIsLeast-sort_stable (x ∷ xs) =
      HeadIsLeast-insert_sorted x (sort_stable less xs) xs (HeadIsLeast-sort_stable xs)

  -- The first of the sorted items, when there are any.
  pub sort_stable-IsLeast :
      (xs : List A) (h : A) (rest : List A) → sort_stable less xs ≡ h ∷ rest → IsLeast h xs
  sort_stable-IsLeast xs h rest e = subst (λ ys. HeadIsLeast ys xs) e (HeadIsLeast-sort_stable xs)
