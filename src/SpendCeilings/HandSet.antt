-- ===== src/SpendCeilings/HandSet.antt =====
-- A ceiling set by hand stays (internal/api/priority_default_spend_ceiling.go).
use kanban_store.Prelude.{
  String, Bool, true, false, List, Option, none, some, ◌≡◌, arith, refl, ◌∙◌, Bool-cases,
  Option-cases, inl, inr, SomeOf, All,
}
use kanban_store.Prelude.Int.{ℤ, eq_ℤ}
use kanban_store.Log.Ladder.{Rung}
use kanban_store.SpendCeilings.Defaults.{
  NoteboardItem, unset_priority_value, priority_of_noteboard_item, default_on, is_default,
  lowest_default_spend_ceiling_for_priority, spend_ceiling_of_noteboard_item, replaced_ceiling,
  spend_ceiling_for_priority_change,
}
use kanban_store.SpendCeilings.Lowest.{not_lower, lowest_default-one, lowest_default-not_lower}

-- The card has no ceiling, or the default of the priority it leaves.
abbrev pub is_replaceable : (String → String → Bool) → Option String → Option (Option String) → Bool
is_replaceable same_amount old_default none = false
is_replaceable same_amount old_default (some none) = true
is_replaceable same_amount old_default (some (some ceiling)) =
    is_default same_amount old_default ceiling

-- The amount `a` is a default that may be written.
pub record MayReplace (below same_amount : String → String → Bool) (int_of : String → ℤ)
    (rows : List Rung) (boards : List String) (item : NoteboardItem) (v : ℤ) (a : String)
    : Type 0 where
  pub ranked : eq_ℤ v unset_priority_value ≡ false
  pub given : SomeOf (λ b. default_on rows b v ≡ some a) boards
  pub lowest : All (λ b. not_lower below a (default_on rows b v) ≡ true) boards
  pub over :
      is_replaceable same_amount
        (lowest_default_spend_ceiling_for_priority below rows boards
          (priority_of_noteboard_item int_of item.priority))
        (spend_ceiling_of_noteboard_item item.auto_hold_at_usd)
      ≡ true

replaced_ceiling-is_replaceable :
    (same_amount : String → String → Bool) (d : String) (old : Option String)
    (ceiling : Option (Option String)) (a : String)
    → replaced_ceiling same_amount d old ceiling ≡ some (some a)
    → (d ≡ a) × (is_replaceable same_amount old ceiling ≡ true)
unfolding replaced_ceiling
replaced_ceiling-is_replaceable same_amount d old none a h = absurd (ground arith)
replaced_ceiling-is_replaceable same_amount d old (some none) a h = (ground arith, refl)
replaced_ceiling-is_replaceable same_amount d old (some (some c)) a h =
    elim (Bool-cases (is_default same_amount old c)) [
      | inl e ↦ (ground arith, e)
      | inr e ↦ absurd (ground arith)
    ]

-- Where amounts are linearly ordered, a change of priority writes a spend ceiling only for a ranked
-- priority, only one that some board of the card gives the priority and none of them gives a lower
-- one, and only over no ceiling or over the lowest default of the priority that the card leaves.
pub spend_ceiling_for_priority_change-MayReplace :
    (below same_amount : String → String → Bool)
    → ((a b : String) → below a b ≡ true → below b a ≡ false)
    → ((a b c : String) → below a b ≡ false → below b c ≡ false → below a c ≡ false)
    → (int_of : String → ℤ) (rows : List Rung) (boards : List String) (item : NoteboardItem) (v : ℤ)
      (a : String)
    → spend_ceiling_for_priority_change below same_amount int_of rows boards item v ≡ some (some a)
    → MayReplace below same_amount int_of rows boards item v a
unfolding spend_ceiling_for_priority_change
spend_ceiling_for_priority_change-MayReplace below same_amount asym step int_of rows boards item v a
      h =
    elim (Bool-cases (eq_ℤ v unset_priority_value)) [
      | inl e ↦ absurd (ground arith)
      | inr e ↦
          elim (Option-cases (lowest_default_spend_ceiling_for_priority below rows boards v)) [
            | inl nothing ↦ absurd (ground arith)
            | inr (d, found) ↦
                let (same_one, over) =
                  replaced_ceiling-is_replaceable same_amount d _ _ a (rw (e, found) at h) in
                let there = found ∙ ground arith in
                record {
                  ranked = e;
                  given = lowest_default-one below rows boards v a there;
                  lowest = lowest_default-not_lower below asym step rows boards v a there;
                  over = over;
                }
          ]
    ]
