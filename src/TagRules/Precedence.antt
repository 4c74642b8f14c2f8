-- ===== src/TagRules/Precedence.antt =====
-- Which setting a card's default comes from.
use kanban_store.Prelude.{
  ℕ, ◌≤◌, String, Bool, true, false, List, [], ◌∷◌, none, some, ◌≡◌, refl, subst, arith, Bool-cases,
  Option-cases, inl, inr, not, ◌&&◌,
}
use kanban_store.Prelude.Lists.{All, SomeOf, All-imp, keep}
use kanban_store.Prelude.Sort.{
  sort_stable, IsAscendingFrom, sort_stable-IsAscendingFrom, All-above, SomeOf-sort_stable,
  All-sort_stable,
}
use kanban_store.Prelude.Text.{◌=?◌}
use kanban_store.TagRules.Rules.{
  DefaultField, default_value, BoardTagRule, matches_tags, from_board, from_tag_rule, Board,
  first_setting, by_position, matched_rules, effective_default,
}

-- The rule sets the field.
abbrev pub sets : DefaultField → BoardTagRule → Bool
sets field rule = not (default_value rule.defaults field =? "")

module _ (card_tags : List String) (field : DefaultField) where
  -- `r` comes before every rule of the list that matches the card and sets the field.
  abbrev ComesFirst : BoardTagRule → List BoardTagRule → Type 0
  ComesFirst r rules =
      All (λ x. matches_tags card_tags x ≡ true → sets field x ≡ true → r.position ≤ x.position)
        rules

  -- No rule of the list matches the card and sets the field.
  abbrev NeverSet : List BoardTagRule → Type 0
  NeverSet rules = All (λ x. matches_tags card_tags x ≡ true → sets field x ≡ false) rules

  first_none :
      (rules : List BoardTagRule)
      → first_setting (keep (matches_tags card_tags) rules) field ≡ none
      → NeverSet rules
  unfolding first_setting keep
  first_none [] h = tt
  first_none (x ∷ rules) h = elim (Bool-cases (matches_tags card_tags x)) [
    | inl m ↦ elim (Bool-cases (sets field x)) [
      | inl s ↦ absurd (ground arith)
      | inr s ↦ ((λ _. s), first_none rules (ground arith))
    ]
    | inr m ↦ ((λ m'. cc), first_none rules (ground arith))
  ]

  -- The value `v` is the one that `r` sets, and `r` is the first rule to set the field, among the
  -- rules of the list, which are all at `low` or above.
  abbrev IsChosen : ℕ → List BoardTagRule → String → BoardTagRule → Type 0
  IsChosen low rules v r =
      SomeOf (λ x. x ≡ r) rules
      × (matches_tags card_tags r ≡ true)
      × (sets field r ≡ true)
      × (v ≡ default_value r.defaults field)
      × (low ≤ r.position)
      × ComesFirst r rules

  IsChosen-head :
      (low : ℕ) (x : BoardTagRule) (rules : List BoardTagRule) (v : String)
      → IsAscendingFrom (λ x. x.position) low (x ∷ rules)
      → matches_tags card_tags x ≡ true
      → sets field x ≡ true
      → v ≡ default_value x.defaults field
      → IsChosen low (x ∷ rules) v x
  IsChosen-head low x rules v asc m s e = (
    inl refl,
    m,
    s,
    e,
    asc.0,
    (
      (λ _ _. omega arith),
      All-imp rules (λ y h _ _. h)
          (All-above (λ x. x.position) x.position x.position rules (omega arith) asc.1),
    ),
  )

  IsChosen-later :
      (low : ℕ) (x : BoardTagRule) (rules : List BoardTagRule) (v : String) (r : BoardTagRule)
      → low ≤ x.position
      → (matches_tags card_tags x ≡ true → sets field x ≡ true → ⊥)
      → IsChosen x.position rules v r
      → IsChosen low (x ∷ rules) v r
  IsChosen-later low x rules v r h skip ih =
      (inr ih.0, ih.1, ih.2, ih.3, omega arith, ((λ m s. absurd (skip m s)), ih.5))

  -- What a default chosen by a rule says about the rules of an ascending list.
  first_found :
      (low : ℕ) (rules : List BoardTagRule) (r : BoardTagRule) (v : String)
      → IsAscendingFrom (λ x. x.position) low rules
      → first_setting (keep (matches_tags card_tags) rules) field
        ≡ some (record { value = v; source = from_tag_rule r })
      → IsChosen low rules v r
  unfolding first_setting keep
  first_found low [] r v asc h = cc
  first_found low (x ∷ rules) r v asc h = elim (Bool-cases (matches_tags card_tags x)) [
    | inl m ↦ elim (Bool-cases (sets field x)) [
      | inl s ↦
          subst (λ r. IsChosen low (x ∷ rules) v r) {x = x} (ground arith)
            (IsChosen-head low x rules v asc m s (ground arith))
      | inr s ↦
          IsChosen-later low x rules v r asc.0 (λ _ s'. cc)
            (first_found x.position rules r v asc.1 (ground arith))
    ]
    | inr m ↦
        IsChosen-later low x rules v r asc.0 (λ m' _. cc)
          (first_found x.position rules r v asc.1 (ground arith))
  ]

first_setting-not_board :
    (rules : List BoardTagRule) (field : DefaultField) (v : String)
    → first_setting rules field ≡ some (record { value = v; source = from_board })
    → ⊥
unfolding first_setting
first_setting-not_board [] field v h = cc
first_setting-not_board (x ∷ rules) field v h = elim (Bool-cases (sets field x)) [
  | inl s ↦ ground arith
  | inr s ↦ first_setting-not_board rules field v (ground arith)
]

by_position-IsAscendingFrom :
    (rules : List BoardTagRule)
    → IsAscendingFrom (λ x. x.position) 0 (sort_stable by_position rules)
by_position-IsAscendingFrom rules =
    sort_stable-IsAscendingFrom by_position (λ x. x.position) (λ a b h. ground arith)
      (λ a b h. ground arith) rules

-- The rule matches the card and sets the field.
abbrev pub competes : List String → DefaultField → BoardTagRule → Bool
competes card_tags field rule = matches_tags card_tags rule && sets field rule

-- `r` has the lowest position of the rules that compete.
abbrev pub IsFirst : List String → DefaultField → BoardTagRule → List BoardTagRule → Type 0
IsFirst card_tags field r rules =
    All (λ x. r.position ≤ x.position) (keep (competes card_tags field) rules)

ComesFirst-IsFirst :
    (card_tags : List String) (field : DefaultField) (r : BoardTagRule) (rules : List BoardTagRule)
    → ComesFirst card_tags field r rules
    → IsFirst card_tags field r rules
unfolding keep
ComesFirst-IsFirst card_tags field r [] h = tt
ComesFirst-IsFirst card_tags field r (x ∷ rules) h =
    elim (Bool-cases (competes card_tags field x)) [
      | inl e ↦
          rw e (h.0 (ground arith) (ground arith), ComesFirst-IsFirst card_tags field r rules h.1)
      | inr e ↦ rw e (ComesFirst-IsFirst card_tags field r rules h.1)
    ]

NeverSet-keep :
    (card_tags : List String) (field : DefaultField) (rules : List BoardTagRule)
    → NeverSet card_tags field rules
    → keep (competes card_tags field) rules ≡ []
unfolding keep
NeverSet-keep card_tags field [] h = refl
NeverSet-keep card_tags field (x ∷ rules) h = elim (Bool-cases (matches_tags card_tags x)) [
  | inl e ↦ rw (e, h.0 e) (NeverSet-keep card_tags field rules h.1)
  | inr e ↦ rw e (NeverSet-keep card_tags field rules h.1)
]

module _ (board : Board) (rules : List BoardTagRule) (card_tags : List String)
    (field : DefaultField) where
  -- A card's default that comes from a tag rule has the value of that rule, which is a rule of the
  -- board that matches the card and sets the field; and no other rule of the board that does both
  -- has a lower position.
  pub effective_default-from_tag_rule :
      (r : BoardTagRule) (v : String)
      → effective_default board rules card_tags field
        ≡ some (record { value = v; source = from_tag_rule r })
      → SomeOf (λ x. x ≡ r) rules
        × (matches_tags card_tags r ≡ true)
        × (sets field r ≡ true)
        × (v ≡ default_value r.defaults field)
        × IsFirst card_tags field r rules
  unfolding effective_default matched_rules
  effective_default-from_tag_rule r v h =
      let sorted = sort_stable by_position rules in
      let (member, m, s, e, _, first) =
        first_found card_tags field 0 sorted r v (by_position-IsAscendingFrom rules)
          (ground arith) in
      (
        SomeOf-sort_stable by_position (λ x. x ≡ r) rules member,
        m,
        s,
        e,
        ComesFirst-IsFirst card_tags field r rules (All-sort_stable by_position _ rules first),
      )

  none_left :
      first_setting (matched_rules rules card_tags) field ≡ none
      → keep (competes card_tags field) rules ≡ []
  unfolding matched_rules
  none_left e = NeverSet-keep card_tags field rules (
      All-sort_stable by_position _ rules
        (first_none card_tags field (sort_stable by_position rules) e))

  -- A card's default comes from the board only when no rule of the board both matches the card and
  -- sets the field, and then it is the board's own value, which is set.
  pub effective_default-from_board :
      (v : String)
      → effective_default board rules card_tags field
        ≡ some (record { value = v; source = from_board })
      → (keep (competes card_tags field) rules ≡ [])
        × (v ≡ default_value board.defaults field)
        × ((v =? "") ≡ false)
  unfolding effective_default matched_rules
  effective_default-from_board v h =
      elim (Option-cases (first_setting (matched_rules rules card_tags) field)) [
        | inl e ↦ (none_left e, ground arith, ground arith)
        | inr (x, e) ↦
            absurd (first_setting-not_board (matched_rules rules card_tags) field v (ground arith))
      ]

  -- A card has no default of a kind only when no rule of the board that matches the card sets it
  -- and the board does not either.
  pub effective_default-none :
      effective_default board rules card_tags field ≡ none
      → (keep (competes card_tags field) rules ≡ [])
        × ((default_value board.defaults field =? "") ≡ true)
  unfolding effective_default matched_rules
  effective_default-none h =
      elim (Option-cases (first_setting (matched_rules rules card_tags) field)) [
        | inl e ↦ (none_left e, ground arith)
        | inr (x, e) ↦ absurd (ground arith)
      ]
