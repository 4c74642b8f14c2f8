-- ===== src/Access/CardLevel.antt =====
-- What a principal may do to a card, in terms of the boards that the card sits on.
use kanban_store.Prelude.{
  ℕ, ◌≤◌, String, Bool, true, false, ◌||◌, List, [], ◌∷◌, ltb, leb, if◌then◌else◌, ◌≡◌, ◌≢◌, ◌⊎◌,
  inl, inr, ◌↔◌, refl, arith, Bool-cases,
}
use kanban_store.Prelude.Lists.{All}
use kanban_store.Access.Levels.{
  PrincipalBoardAccess, BoardAccessLevel, level_on, level_loop, level_on_card, access_view,
  access_edit, access_administer,
}

-- Some board of the list is at the level.
abbrev pub SomeAt : PrincipalBoardAccess → BoardAccessLevel → List String → Type 0
SomeAt access needed [] = ⊥
SomeAt access needed (b ∷ boards) = (needed ≤ level_on access b) ⊎ SomeAt access needed boards

-- Every board of the list is at the level.
abbrev pub EveryAt : PrincipalBoardAccess → BoardAccessLevel → List String → Type 0
EveryAt access needed boards = All (λ b. needed ≤ level_on access b) boards

module _ (access : PrincipalBoardAccess) where
  seen_of_true :
      (boards : List String) (seen : Bool) (lowest : ℕ)
      → seen ≡ true
      → (level_loop access seen lowest boards).0 ≡ true
  unfolding level_loop
  seen_of_true [] seen lowest h = h
  seen_of_true (b ∷ boards) seen lowest h = seen_of_true boards _ _ (ground arith)

  seen_of_some :
      (boards : List String) (seen : Bool) (lowest : ℕ)
      → SomeAt access access_view boards
      → (level_loop access seen lowest boards).0 ≡ true
  unfolding level_loop
  seen_of_some [] seen lowest h = absurd h
  seen_of_some (b ∷ boards) seen lowest (inl h) = seen_of_true boards _ _ (ground arith)
  seen_of_some (b ∷ boards) seen lowest (inr h) = seen_of_some boards _ _ h

  some_of_seen :
      (boards : List String) (seen : Bool) (lowest : ℕ)
      → seen ≡ false
      → (level_loop access seen lowest boards).0 ≡ true
      → SomeAt access access_view boards
  unfolding level_loop
  some_of_seen [] seen lowest e h = cc
  some_of_seen (b ∷ boards) seen lowest e h =
      elim (Bool-cases (leb access_view (level_on access b))) [
        | inl v ↦ inl (ground arith)
        | inr v ↦ inr (some_of_seen boards _ _ (ground arith) h)
      ]

  -- The `lowest` that the loop ends with is the least of its start and the boards' levels.
  lowest_iff :
      (n : ℕ) (seen : Bool) (lowest : ℕ) (boards : List String)
      → (n ≤ (level_loop access seen lowest boards).1) ↔ ((n ≤ lowest) × EveryAt access n boards)
  unfolding level_loop
  lowest_iff n seen lowest [] = (λ h. (h, tt), λ h. h.0)
  lowest_iff n seen lowest (b ∷ boards) =
      let rest =
        lowest_iff n (leb access_view (level_on access b) || seen)
          (if ltb (level_on access b) lowest then level_on access b else lowest) boards in
      (
        λ h. (ground (arith, (rest.0 h).0), (ground (arith, (rest.0 h).0), (rest.0 h).1)),
        λ h. rest.1 (ground arith, h.1.1),
      )

  -- A principal can view a card exactly when it can view a board the card sits on.
  pub level_on_card_view_iff :
      (boards : List String)
      → (access_view ≤ level_on_card access boards) ↔ SomeAt access access_view boards
  unfolding level_on_card
  level_on_card_view_iff boards = (
    λ h. some_of_seen boards false access_administer refl (ground arith),
    λ h. ground (arith, seen_of_some boards false access_administer h),
  )

  seen_of_every :
      (n : ℕ) (boards : List String)
      → access_view ≤ n
      → boards ≢ []
      → EveryAt access n boards
      → SomeAt access access_view boards
  seen_of_every n [] v ne h = absurd (ne refl)
  seen_of_every n (b ∷ boards) v ne h = inl (omega arith)

  -- For editing and administering, a principal is at a level on a card exactly when the card sits
  -- on a board and the principal is at that level on every board it sits on.
  pub level_on_card_all_iff :
      (needed : BoardAccessLevel) (boards : List String)
      → access_edit ≤ needed
      → needed ≤ access_administer
      → (needed ≤ level_on_card access boards) ↔ ((boards ≢ []) × EveryAt access needed boards)
  unfolding level_on_card
  level_on_card_all_iff n boards e a =
      let low = lowest_iff n false access_administer boards in
      (
        λ h. (
          nonempty boards (some_of_seen boards false access_administer refl (ground arith)),
          (low.0 (ground arith)).1,
        ),
        λ h. ground (
          arith,
          seen_of_some boards false access_administer
              (seen_of_every n boards (omega arith) h.0 h.1),
          low.1 (a, h.1),
        ),
      )
    where
      nonempty : (boards : List String) → SomeAt access access_view boards → boards ≢ []
      nonempty [] h = absurd h
      nonempty (b ∷ rest) h = λ p. cc
