-- ===== src/Arrivals/PoolSafety.antt =====
-- Whom a pool's strategies pick, and who can come to be assigned on arrival.
use kanban_store.Prelude.{
  ◌<◌, ◌⊎◌, String, true, false, List, [], ◌∷◌, Option, none, some, ltb, ◌≡◌, refl, subst, arith,
  Bool-cases, Option-cases, All, All-imp, SomeOf, inl, inr, List-cases,
}
use kanban_store.Prelude.Text.{text_lt}
use kanban_store.Prelude.TextOrder.{text_lt_asym, text_lt_step}
use kanban_store.Prelude.Sort.{
  sort_stable, sort_stable-IsLeast, SomeOf-sort_stable, sort_stable-≢[],
}
use kanban_store.TagRules.Rules.{
  BoardTagRule, EffectiveDefault, DefaultSource, from_board, from_tag_rule,
}
use kanban_store.Arrivals.Pool.{
  AssignmentOnBoard, open_cards, newest_assignment, by_round_robin, by_open_cards, picked, nobody,
  pick_failed, least_open_cards, round_robin, other_strategy, AssignmentStrategy,
  pick_from_assignment_pool, AssignmentPool, members, no_such_pool, unreachable, ArrivalAssignment,
  by_tag_rule, by_board_default, by_pool, skipped, arrives, refused_arrival, crashed, Arrival,
  PrincipalStore, MembersAnswer, Picked, picked_on_arrival, members_on_arrival, default_on_arrival,
  pool_on_arrival, assignee_on_arrival, source_on_arrival,
}

module _ (assignments : List AssignmentOnBoard) where
  by_round_robin_asym :
      (a b : String)
      → by_round_robin assignments a b ≡ true
      → by_round_robin assignments b a ≡ false
  unfolding by_round_robin
  by_round_robin_asym a b h = ground (arith, text_lt_asym a b)

  by_round_robin_step :
      (a b c : String)
      → by_round_robin assignments a b ≡ false
      → by_round_robin assignments b c ≡ false
      → by_round_robin assignments a c ≡ false
  unfolding by_round_robin
  by_round_robin_step a b c h k = ground (arith, text_lt_step a b c)

  by_open_cards_asym :
      (a b : String) → by_open_cards assignments a b ≡ true → by_open_cards assignments b a ≡ false
  unfolding by_open_cards
  by_open_cards_asym a b h = ground (arith, by_round_robin_asym a b)

  by_open_cards_step :
      (a b c : String)
      → by_open_cards assignments a b ≡ false
      → by_open_cards assignments b c ≡ false
      → by_open_cards assignments a c ≡ false
  unfolding by_open_cards
  by_open_cards_step a b c h k = ground (arith, by_round_robin_step a b c)

  -- `left` was assigned on the board no later than `right` was and, if at the same time, is not above it.
  abbrev pub WaitsLongest : String → String → Type 0
  WaitsLongest left right =
      (newest_assignment assignments left < newest_assignment assignments right)
      ⊎ ((newest_assignment assignments left ≡ newest_assignment assignments right)
          × (text_lt right left ≡ false))

  round_robin_wait : (p x : String) → by_round_robin assignments x p ≡ false → WaitsLongest p x
  unfolding by_round_robin
  round_robin_wait p x e =
      elim (Bool-cases (ltb (newest_assignment assignments p) (newest_assignment assignments x))) [
        | inl l ↦ inl (ground arith)
        | inr l ↦ inr (ground arith, ground arith)
      ]

  -- `left` has fewer cards open than `right` or as many, and then waits longer.
  abbrev pub HasLess : String → String → Type 0
  HasLess left right =
      (open_cards assignments left < open_cards assignments right)
      ⊎ ((open_cards assignments left ≡ open_cards assignments right) × WaitsLongest left right)

  open_cards_wait : (p x : String) → by_open_cards assignments x p ≡ false → HasLess p x
  unfolding by_open_cards
  open_cards_wait p x e =
      elim (Bool-cases (ltb (open_cards assignments p) (open_cards assignments x))) [
        | inl l ↦ inl (ground arith)
        | inr l ↦ inr (ground arith, round_robin_wait p x (ground arith))
      ]

  -- round_robin picks a member: the one whose newest assignment on the board is the oldest and, of
  -- those, the one of the lowest id.
  pub pick_from_assignment_pool-round_robin :
      (m : String) (ms : List String)
      → (p : String) × (pick_from_assignment_pool assignments round_robin (m ∷ ms) ≡ picked p)
        × SomeOf (λ x. x ≡ p) (m ∷ ms)
        × All (λ x. WaitsLongest p x) (m ∷ ms)
  unfolding pick_from_assignment_pool by_round_robin
  pick_from_assignment_pool-round_robin m ms =
      elim (List-cases (sort_stable (by_round_robin assignments) (m ∷ ms))) [
        | inl e ↦ absurd (sort_stable-≢[] (by_round_robin assignments) m ms e)
        | inr (p, rest, e) ↦ (
          p,
          rw (e, pick_from_assignment_pool) refl,
          SomeOf-sort_stable (by_round_robin assignments) (λ x. x ≡ p) (m ∷ ms) (rw e (inl refl)),
          All-imp (m ∷ ms) (λ x h. round_robin_wait p x h)
              (sort_stable-IsLeast (by_round_robin assignments) by_round_robin_asym
                by_round_robin_step (m ∷ ms) p rest e),
        )
      ]

  -- least_open_cards picks a member with the fewest cards in columns that do not stop the clock and,
  -- of those, the one that round_robin prefers.
  pub pick_from_assignment_pool-least_open_cards :
      (m : String) (ms : List String)
      → (p : String) × (pick_from_assignment_pool assignments least_open_cards (m ∷ ms) ≡ picked p)
        × SomeOf (λ x. x ≡ p) (m ∷ ms)
        × All (λ x. HasLess p x) (m ∷ ms)
  unfolding pick_from_assignment_pool by_open_cards by_round_robin
  pick_from_assignment_pool-least_open_cards m ms =
      elim (List-cases (sort_stable (by_open_cards assignments) (m ∷ ms))) [
        | inl e ↦ absurd (sort_stable-≢[] (by_open_cards assignments) m ms e)
        | inr (p, rest, e) ↦ (
          p,
          rw (e, pick_from_assignment_pool) refl,
          SomeOf-sort_stable (by_open_cards assignments) (λ x. x ≡ p) (m ∷ ms) (rw e (inl refl)),
          All-imp (m ∷ ms) (λ x h. open_cards_wait p x h)
              (sort_stable-IsLeast (by_open_cards assignments) by_open_cards_asym by_open_cards_step
                (m ∷ ms) p rest e),
        )
      ]

-- Every strategy that this store runs picks one of the members; no strategy picks nobody.
pick_from_assignment_pool-member :
    (assignments : List AssignmentOnBoard) (s : AssignmentStrategy) (m : String) (ms : List String)
    → ((p : String)
        → pick_from_assignment_pool assignments s (m ∷ ms) ≡ picked p
        → SomeOf (λ x. x ≡ p) (m ∷ ms))
      × (pick_from_assignment_pool assignments s (m ∷ ms) ≡ nobody → ⊥)
unfolding pick_from_assignment_pool
pick_from_assignment_pool-member assignments least_open_cards m ms =
    let (q, e, member, _) = pick_from_assignment_pool-least_open_cards assignments m ms in
    (
      (λ p h. subst (λ p. SomeOf (λ x. x ≡ p) (m ∷ ms)) {x = q} (ground arith) member),
      (λ h. ground arith),
    )
pick_from_assignment_pool-member assignments round_robin m ms =
    let (q, e, member, _) = pick_from_assignment_pool-round_robin assignments m ms in
    (
      (λ p h. subst (λ p. SomeOf (λ x. x ≡ p) (m ∷ ms)) {x = q} (ground arith) member),
      (λ h. ground arith),
    )
pick_from_assignment_pool-member assignments (other_strategy name) m ms =
    ((λ p h. absurd (ground arith)), (λ h. ground arith))

-- The default does not come from a tag rule.
abbrev pub IsOfBoard : Option EffectiveDefault → Type 0
IsOfBoard none = Unit
IsOfBoard (some d) = d.source ≡ from_board

module _ (store : PrincipalStore) (assignments : List AssignmentOnBoard)
    (named : Option EffectiveDefault) (pool : Option AssignmentPool) where
  -- There is no pool, or it has no available member.
  abbrev pub HasNobody : Option AssignmentPool → Type 0
  HasNobody none = Unit
  HasNobody (some q) = store.available_members q.principal_id ≡ members []

  -- Where the one who is to be assigned comes from, and what principal-store answers on them
  abbrev pub IsAllowed : ArrivalAssignment → Type 0
  IsAllowed (by_tag_rule p) =
      (d : EffectiveDefault) × (rule : BoardTagRule) × (named ≡ some d)
      × (d.source ≡ from_tag_rule rule)
      × (d.value ≡ p)
      × (store.refusal_of p ≡ none)
  IsAllowed (by_board_default p) =
      (d : EffectiveDefault) × (named ≡ some d)
      × (d.source ≡ from_board)
      × (d.value ≡ p)
      × (store.refusal_of p ≡ none)
      × HasNobody pool
  IsAllowed (by_pool p id) =
      (q : AssignmentPool) × (m : String) × (ms : List String) × IsOfBoard named
      × (pool ≡ some q)
      × (q.principal_id ≡ id)
      × (store.available_members id ≡ members (m ∷ ms))
      × SomeOf (λ x. x ≡ p) (m ∷ ms)
      × (pick_from_assignment_pool assignments q.strategy (m ∷ ms) ≡ picked p)
  IsAllowed (skipped id) =
      (q : AssignmentPool) × (named ≡ none)
      × (pool ≡ some q)
      × (q.principal_id ≡ id)
      × (store.available_members id ≡ members [])

  abbrev pub IsSafe : Arrival → Type 0
  IsSafe (arrives none) = (named ≡ none) × (pool ≡ none)
  IsSafe (arrives (some a)) = IsAllowed a
  IsSafe (refused_arrival e) = Unit
  IsSafe crashed = ⊥

module _ (store : PrincipalStore) (assignments : List AssignmentOnBoard) where
  default_on_arrival-IsSafe :
      (named : Option EffectiveDefault) (pool : Option AssignmentPool)
      → IsOfBoard named
      → HasNobody store assignments named pool pool
      → IsSafe store assignments named pool (default_on_arrival store named pool)
  unfolding default_on_arrival
  default_on_arrival-IsSafe (some chosen) pool plain empty =
      elim (Option-cases (store.refusal_of chosen.value)) [
        | inl e ↦ rw (e, default_on_arrival, IsSafe) (chosen, refl, plain, refl, e, empty)
        | inr (status, e) ↦ rw (e, default_on_arrival, IsSafe) tt
      ]
  default_on_arrival-IsSafe none (some q) plain empty = (q, refl, refl, refl, empty)
  default_on_arrival-IsSafe none none plain empty = (refl, refl)

  picked_on_arrival-IsSafe :
      (named : Option EffectiveDefault) (q : AssignmentPool) (m : String) (ms : List String)
      (pick : Picked)
      → IsOfBoard named
      → store.available_members q.principal_id ≡ members (m ∷ ms)
      → pick_from_assignment_pool assignments q.strategy (m ∷ ms) ≡ pick
      → IsSafe store assignments named (some q) (picked_on_arrival q pick)
  unfolding picked_on_arrival
  picked_on_arrival-IsSafe named q m ms (picked p) plain e h =
      let (member, some_pick) = pick_from_assignment_pool-member assignments q.strategy m ms in
      (q, m, ms, plain, refl, refl, e, member p h, h)
  picked_on_arrival-IsSafe named q m ms nobody plain e h =
      (pick_from_assignment_pool-member assignments q.strategy m ms).1 h
  picked_on_arrival-IsSafe named q m ms (pick_failed error) plain e h = tt

  members_on_arrival-IsSafe :
      (named : Option EffectiveDefault) (q : AssignmentPool) (answer : MembersAnswer)
      → IsOfBoard named
      → store.available_members q.principal_id ≡ answer
      → IsSafe store assignments named
          (some q)
          (members_on_arrival store assignments named q answer)
  unfolding members_on_arrival
  members_on_arrival-IsSafe named q no_such_pool plain e = tt
  members_on_arrival-IsSafe named q unreachable plain e = tt
  members_on_arrival-IsSafe named q (members []) plain e =
      default_on_arrival-IsSafe named (some q) plain e
  members_on_arrival-IsSafe named q (members (x ∷ found)) plain e =
      picked_on_arrival-IsSafe named q x found _ plain e refl

  pool_on_arrival-IsSafe :
      (named : Option EffectiveDefault) (pool : Option AssignmentPool)
      → IsOfBoard named
      → IsSafe store assignments named pool (pool_on_arrival store assignments named pool)
  unfolding pool_on_arrival
  pool_on_arrival-IsSafe named none plain = default_on_arrival-IsSafe named none plain tt
  pool_on_arrival-IsSafe named (some q) plain =
      members_on_arrival-IsSafe named q (store.available_members q.principal_id) plain refl

  source_on_arrival-IsSafe :
      (chosen : EffectiveDefault) (source : DefaultSource) (pool : Option AssignmentPool)
      → chosen.source ≡ source
      → IsSafe store assignments
          (some chosen)
          pool
          (source_on_arrival store assignments chosen source pool)
  unfolding source_on_arrival
  source_on_arrival-IsSafe chosen from_board pool from =
      pool_on_arrival-IsSafe (some chosen) pool from
  source_on_arrival-IsSafe chosen (from_tag_rule rule) pool from =
      elim (Option-cases (store.refusal_of chosen.value)) [
        | inl e ↦ rw (e, source_on_arrival, IsSafe) (chosen, rule, refl, from, refl, e)
        | inr (status, e) ↦ rw (e, source_on_arrival, IsSafe) tt
      ]

  -- What a card that arrives comes to. It is assigned to the principal that the effective default names,
  -- if that comes from a tag rule and principal-store does not refuse them; to the one that the strategy
  -- of the board's pool picks among the pool's available members, if no tag rule names one; or to the
  -- one that the board's own default names, if principal-store does not refuse them and there is no pool
  -- or nobody in it is available. The assignment is skipped only for a pool with nobody available and no
  -- default, and there is none only without pool and default. Picking from the pool never indexes
  -- an empty list.
  pub assignee_on_arrival-IsSafe :
      (named : Option EffectiveDefault) (pool : Option AssignmentPool)
      → IsSafe store assignments named pool (assignee_on_arrival store assignments named pool)
  unfolding assignee_on_arrival
  assignee_on_arrival-IsSafe none pool = pool_on_arrival-IsSafe none pool tt
  assignee_on_arrival-IsSafe (some chosen) pool =
      source_on_arrival-IsSafe chosen chosen.source pool refl
