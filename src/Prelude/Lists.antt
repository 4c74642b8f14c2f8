-- ===== src/Prelude/Lists.antt =====
-- Lists measured by the native numbers, with the library's names, and predicates on their items.
use Prim.Native.Nat.{ℕ, suc, ◌+◌}
use mathlib.Core.Path.{◌≡◌, refl, ap, ◌∙◌}
use mathlib.Core.Logic.{◌⊎◌, inl, inr}
use mathlib.Core.Bool.{Bool, true, false, ◌&&◌}
use mathlib.Core.Option.{Option, none, some}
use mathlib.Core.List.{List, [], ◌∷◌, ◌++◌, map}
use native.Mathlib.Omega.{arith}
use kanban_store.Prelude.Tests.{if◌then◌else◌, Bool-cases}

module _ {ℓ} {A : Type ℓ} where
  abbrev pub length : List A → ℕ
  length [] = 0
  length (x ∷ xs) = suc (length xs)

  pub length-append : (xs ys : List A) → length (xs ++ ys) ≡ length xs + length ys
  length-append [] ys = omega arith
  length-append (x ∷ xs) ys = omega (arith, length-append xs ys)

  -- `filter` by a Boolean test.
  unfoldable pub keep : (A → Bool) → List A → List A
  keep p [] = []
  keep p (x ∷ xs) = let rest = keep p xs in if p x then x ∷ rest else rest

  pub keep-append : (p : A → Bool) (xs ys : List A) → keep p (xs ++ ys) ≡ keep p xs ++ keep p ys
  unfolding keep
  keep-append p [] ys = refl
  keep-append p (x ∷ xs) ys = ground (arith, keep-append p xs ys)

-- Every item of a list satisfies `P`; it computes to a tuple.
abbrev pub All {ℓ κ} : {A : Type ℓ} → (A → Type κ) → List A → Type κ
All P [] = Unit
All P (x ∷ xs) = P x × All P xs

pub All-imp {ℓ κ} :
    {A : Type ℓ} {P Q : A → Type κ} (xs : List A) → ((x : A) → P x → Q x) → All P xs → All Q xs
All-imp [] f h = tt
All-imp (x ∷ xs) f h = (f x h.0, All-imp xs f h.1)

-- Some item of a list satisfies `P`.
abbrev pub SomeOf {ℓ} : {A : Type ℓ} → (A → Type 0) → List A → Type 0
SomeOf P [] = ⊥
SomeOf P (x ∷ xs) = P x ⊎ SomeOf P xs

-- To split on a computed list and keep the equation.
pub List-cases {ℓ} :
    {A : Type ℓ} (xs : List A) → (xs ≡ []) ⊎ ((x : A) × (rest : List A) × (xs ≡ x ∷ rest))
List-cases [] = inl refl
List-cases (x ∷ xs) = inr (x, xs, refl)

module _ {ℓ} {A : Type ℓ} where
  -- The first item that passes the test: the row that a query by a unique key returns.
  unfoldable pub find : (A → Bool) → List A → Option A
  find p [] = none
  find p (x ∷ xs) = let rest = find p xs in if p x then some x else rest

  -- `UPDATE ... WHERE`: the items that pass the test are changed.
  unfoldable pub update_where : (A → Bool) → (A → A) → List A → List A
  update_where p f [] = []
  update_where p f (x ∷ xs) = let rest = update_where p f xs in if p x then f x ∷ rest else x ∷ rest

  pub find-append :
      (p : A → Bool) (xs ys : List A) (a : A) → find p xs ≡ some a → find p (xs ++ ys) ≡ some a
  unfolding find
  find-append p [] ys a h = absurd (ground arith)
  find-append p (x ∷ xs) ys a h = elim (Bool-cases (p x)) [
    | inl e ↦ ground arith
    | inr e ↦ rw e (find-append p xs ys a (ground arith))
  ]

  pub find-append_none :
      (p : A → Bool) (xs ys : List A) → find p xs ≡ none → find p (xs ++ ys) ≡ find p ys
  unfolding find
  find-append_none p [] ys h = refl
  find-append_none p (x ∷ xs) ys h = elim (Bool-cases (p x)) [
    | inl e ↦ absurd (ground arith)
    | inr e ↦ rw e (find-append_none p xs ys (ground arith))
  ]

  pub find-passes : (p : A → Bool) (xs : List A) (a : A) → find p xs ≡ some a → p a ≡ true
  unfolding find
  find-passes p [] a h = absurd (ground arith)
  find-passes p (x ∷ xs) a h = elim (Bool-cases (p x)) [
    | inl e ↦ ground arith
    | inr e ↦ find-passes p xs a (ground arith)
  ]

  -- The row found is still found when the rows that fail another test are deleted, if it passes.
  pub find-keep :
      (p q : A → Bool) (xs : List A) (a : A)
      → find p xs ≡ some a
      → q a ≡ true
      → find p (keep q xs) ≡ some a
  unfolding find keep
  find-keep p q [] a h k = absurd (ground arith)
  find-keep p q (x ∷ xs) a h k = elim (Bool-cases (p x)) [
    | inl e ↦ ground arith
    | inr e ↦ ground (arith, find-keep p q xs a)
  ]

  pub find-none : (p : A → Bool) (xs : List A) → find p xs ≡ none → All (λ x. p x ≡ false) xs
  unfolding find
  find-none p [] h = tt
  find-none p (x ∷ xs) h = (ground arith, find-none p xs (ground arith))

  pub none-find : (p : A → Bool) (xs : List A) → All (λ x. p x ≡ false) xs → find p xs ≡ none
  unfolding find
  none-find p [] h = refl
  none-find p (x ∷ xs) h = rw (h.0) (none-find p xs h.1)

  pub All-append {κ} : (P : A → Type κ) (xs ys : List A) → All P xs → All P ys → All P (xs ++ ys)
  All-append P [] ys h k = k
  All-append P (x ∷ xs) ys h k = (h.0, All-append P xs ys h.1 k)

  pub All-keep {κ} : (P : A → Type κ) (p : A → Bool) (xs : List A) → All P xs → All P (keep p xs)
  unfolding keep
  All-keep P p [] h = tt
  All-keep P p (x ∷ xs) h = elim (Bool-cases (p x)) [
    | inl e ↦ rw e (h.0, All-keep P p xs h.1)
    | inr e ↦ rw e (All-keep P p xs h.1)
  ]

  -- What the items that are kept have besides is that they pass the test.
  pub All-kept {κ μ} :
      {P : A → Type κ} {Q : A → Type μ} (p : A → Bool) (xs : List A)
      → ((x : A) → p x ≡ true → P x → Q x)
      → All P xs
      → All Q (keep p xs)
  unfolding keep
  All-kept p [] f h = tt
  All-kept p (x ∷ xs) f h = elim (Bool-cases (p x)) [
    | inl e ↦ rw e (f x e h.0, All-kept p xs f h.1)
    | inr e ↦ rw e (All-kept p xs f h.1)
  ]

  pub All-update_where {κ} :
      {P Q : A → Type κ} (p : A → Bool) (f : A → A) (xs : List A)
      → ((x : A) → p x ≡ true → P x → Q (f x))
      → ((x : A) → p x ≡ false → P x → Q x)
      → All P xs
      → All Q (update_where p f xs)
  unfolding update_where
  All-update_where p f [] changed same h = tt
  All-update_where p f (x ∷ xs) changed same h = elim (Bool-cases (p x)) [
    | inl e ↦ rw e (changed x e h.0, All-update_where p f xs changed same h.1)
    | inr e ↦ rw e (same x e h.0, All-update_where p f xs changed same h.1)
  ]

-- A table's unique key: no two rows are the same by it.
abbrev pub IsUnique {ℓ} : {A : Type ℓ} → (A → A → Bool) → List A → Type 0
IsUnique same [] = Unit
IsUnique same (x ∷ xs) = All (λ y. same x y ≡ false) xs × IsUnique same xs

module _ {ℓ} {A : Type ℓ} (same : A → A → Bool) where
  pub IsUnique-keep : (p : A → Bool) (xs : List A) → IsUnique same xs → IsUnique same (keep p xs)
  unfolding keep
  IsUnique-keep p [] h = tt
  IsUnique-keep p (x ∷ xs) h = elim (Bool-cases (p x)) [
    | inl e ↦ rw e (All-keep _ p xs h.0, IsUnique-keep p xs h.1)
    | inr e ↦ rw e (IsUnique-keep p xs h.1)
  ]

  pub IsUnique-insert :
      (xs : List A) (a : A)
      → All (λ x. same x a ≡ false) xs
      → IsUnique same xs
      → IsUnique same (xs ++ (a ∷ []))
  IsUnique-insert [] a k h = (tt, tt)
  IsUnique-insert (x ∷ xs) a k h =
      (All-append _ xs (a ∷ []) h.0 (k.0, tt), IsUnique-insert xs a k.1 h.1)

  All-same-update_where :
      (p : A → Bool) (f : A → A) (xs : List A) (x z : A)
      → ((y : A) → same x (f y) ≡ same x y)
      → ((y : A) → same z y ≡ same x y)
      → All (λ y. same x y ≡ false) xs
      → All (λ y. same z y ≡ false) (update_where p f xs)
  All-same-update_where p f xs x z right e h =
      All-update_where p f xs (λ y _ d. e (f y) ∙ (right y ∙ d)) (λ y _ d. e y ∙ d) h

  -- An update that keeps the key.
  pub IsUnique-update_where :
      (p : A → Bool) (f : A → A) (xs : List A)
      → ((x y : A) → same (f x) y ≡ same x y)
      → ((x y : A) → same x (f y) ≡ same x y)
      → IsUnique same xs
      → IsUnique same (update_where p f xs)
  unfolding update_where
  IsUnique-update_where p f [] left right h = tt
  IsUnique-update_where p f (x ∷ xs) left right h = elim (Bool-cases (p x)) [
    | inl e ↦ rw e (
      All-same-update_where p f xs x (f x) (right x) (left x) h.0,
      IsUnique-update_where p f xs left right h.1,
    )
    | inr e ↦ rw e (
      All-same-update_where p f xs x x (right x) (λ y. refl) h.0,
      IsUnique-update_where p f xs left right h.1,
    )
  ]

module _ {ℓ} {A : Type ℓ} {B : Type 0} (f : A → B) where
  pub length-map : (xs : List A) → length (map f xs) ≡ length xs
  length-map [] = refl
  length-map (x ∷ xs) = omega (arith, length-map xs)

  pub map-append : (xs ys : List A) → map f (xs ++ ys) ≡ map f xs ++ map f ys
  map-append [] ys = refl
  map-append (x ∷ xs) ys = ap (λ zs. f x ∷ zs) (map-append xs ys)

pub append_nil {ℓ} : {A : Type ℓ} (xs : List A) → xs ++ [] ≡ xs
append_nil [] = refl
append_nil (x ∷ xs) = ap (λ zs. x ∷ zs) (append_nil xs)

module _ {ℓ} {A : Type ℓ} where
  pub keep-keep : (p q : A → Bool) (xs : List A) → keep p (keep q xs) ≡ keep (λ x. q x && p x) xs
  unfolding keep
  keep-keep p q [] = refl
  keep-keep p q (x ∷ xs) = elim (Bool-cases (q x)) [
    | inl e ↦ rw e (ap (λ zs. if p x then x ∷ zs else zs) (keep-keep p q xs))
    | inr e ↦ rw e (keep-keep p q xs)
  ]

  pub keep-same : (p q : A → Bool) (xs : List A) → ((x : A) → p x ≡ q x) → keep p xs ≡ keep q xs
  unfolding keep
  keep-same p q [] e = refl
  keep-same p q (x ∷ xs) e = rw (e x) (ap (λ zs. if q x then x ∷ zs else zs) (keep-same p q xs e))

pub append_one {ℓ} :
    {A : Type ℓ} (xs : List A) (y : A) (ys : List A) → (xs ++ (y ∷ [])) ++ ys ≡ xs ++ (y ∷ ys)
append_one [] y ys = refl
append_one (x ∷ xs) y ys = ap (λ zs. x ∷ zs) (append_one xs y ys)

pub append_assoc {ℓ} : {A : Type ℓ} (xs ys zs : List A) → (xs ++ ys) ++ zs ≡ xs ++ (ys ++ zs)
append_assoc [] ys zs = refl
append_assoc (x ∷ xs) ys zs = ap (λ rest. x ∷ rest) (append_assoc xs ys zs)

-- A row is added where none is the same.
pub IsUnique-new :
    {A : Type 0} (same : A → A → Bool) (key : A → Bool) (rows : List A) (a : A)
    → ((x : A) → same x a ≡ key x)
    → find key rows ≡ none
    → IsUnique same rows
    → IsUnique same (rows ++ (a ∷ []))
IsUnique-new same key rows a e free h =
    IsUnique-insert same rows a (All-imp rows (λ x k. e x ∙ k) (find-none key rows free)) h
