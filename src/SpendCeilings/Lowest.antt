-- ===== src/SpendCeilings/Lowest.antt =====
-- A default spend ceiling is the lowest that a board gives (internal/api/priority_default_spend_ceiling.go).
use kanban_store.Prelude.{
  String, Bool, true, false, not, List, [], ◌∷◌, Option, none, some, ◌≡◌, ◌⊎◌, arith, refl,
  Bool-cases, inl, inr, SomeOf, All,
}
use kanban_store.Prelude.Int.{ℤ}
use kanban_store.Log.Ladder.{Rung}
use kanban_store.SpendCeilings.Defaults.{
  default_on, lower_of, lowest_from, lowest_default_spend_ceiling_for_priority,
}

-- There is no amount, or it is not below the other.
abbrev pub not_lower : (String → String → Bool) → String → Option String → Bool
not_lower below a none = true
not_lower below a (some d) = not (below d a)

module _ (below : String → String → Bool)
    (asym : (a b : String) → below a b ≡ true → below b a ≡ false)
    (step : (a b c : String) → below a b ≡ false → below b c ≡ false → below a c ≡ false) where
  lower_of-not_lower :
      (o p : Option String) (a : String)
      → not_lower below a (lower_of below o p) ≡ true
      → (not_lower below a o ≡ true) × (not_lower below a p ≡ true)
  unfolding lower_of
  lower_of-not_lower o none a h = (h, refl)
  lower_of-not_lower none (some d) a h = (refl, h)
  lower_of-not_lower (some l) (some d) a h = elim (Bool-cases (below d l)) [
    | inl e ↦ (ground (arith, asym d l, step l d a), ground arith)
    | inr e ↦ (ground arith, ground (arith, step d l a))
  ]

  lowest_from-not_lower :
      (rows : List Rung) (boards : List String) (v : ℤ) (lowest : Option String) (a : String)
      → not_lower below a (lowest_from below rows boards v lowest) ≡ true
      → (not_lower below a lowest ≡ true)
        × All (λ b. not_lower below a (default_on rows b v) ≡ true) boards
  unfolding lowest_from
  lowest_from-not_lower rows [] v lowest a h = (h, tt)
  lowest_from-not_lower rows (b ∷ boards) v lowest a h =
      let (here, rest) = lowest_from-not_lower rows boards v _ a h in
      let (before, own) = lower_of-not_lower lowest (default_on rows b v) a here in
      (before, (own, rest))

  irrefl : (a : String) → below a a ≡ false
  irrefl a = elim (Bool-cases (below a a)) [ inl e ↦ asym a a e | inr e ↦ e ]

  pub lowest_default-not_lower :
      (rows : List Rung) (boards : List String) (v : ℤ) (a : String)
      → lowest_default_spend_ceiling_for_priority below rows boards v ≡ some a
      → All (λ b. not_lower below a (default_on rows b v) ≡ true) boards
  unfolding lowest_default_spend_ceiling_for_priority
  lowest_default-not_lower rows boards v a h =
      (lowest_from-not_lower rows boards v none a (ground (arith, irrefl a))).1

lower_of-one :
    (below : String → String → Bool) (o p : Option String) (a : String)
    → lower_of below o p ≡ some a
    → (o ≡ some a) ⊎ (p ≡ some a)
unfolding lower_of
lower_of-one below o none a h = inl h
lower_of-one below none (some d) a h = inr h
lower_of-one below (some l) (some d) a h = ground arith

lowest_from-one :
    (below : String → String → Bool) (rows : List Rung) (boards : List String) (v : ℤ)
    (lowest : Option String) (a : String)
    → lowest_from below rows boards v lowest ≡ some a
    → (lowest ≡ some a) ⊎ SomeOf (λ b. default_on rows b v ≡ some a) boards
unfolding lowest_from
lowest_from-one below rows [] v lowest a h = inl h
lowest_from-one below rows (b ∷ boards) v lowest a h =
    elim (lowest_from-one below rows boards v _ a h) [
      | inr later ↦ inr (inr later)
      | inl here ↦ elim (lower_of-one below lowest (default_on rows b v) a here) [
        | inl before ↦ inl before
        | inr own ↦ inr (inl own)
      ]
    ]

pub lowest_default-one :
    (below : String → String → Bool) (rows : List Rung) (boards : List String) (v : ℤ) (a : String)
    → lowest_default_spend_ceiling_for_priority below rows boards v ≡ some a
    → SomeOf (λ b. default_on rows b v ≡ some a) boards
unfolding lowest_default_spend_ceiling_for_priority
lowest_default-one below rows boards v a h = elim (lowest_from-one below rows boards v none a h) [
  | inl e ↦ absurd (ground arith)
  | inr one ↦ one
]
