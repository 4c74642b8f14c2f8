-- ===== src/Boards/VersionedAssignment.antt =====
-- The assignment under a version against the plain one (internal/db/assignment_version.go).
use kanban_store.Prelude.{
  ℕ, ◌≤◌, String, Bool, true, false, ◌||◌, List, [], ◌∷◌, none, some, length, keep, keep-keep, find,
  if◌then◌else◌, ◌≡◌, refl, sym, ap, ◌∙◌, arith, Bool-cases, Option-cases, inl, inr,
}
use kanban_store.Prelude.Text.{◌=?◌}
use kanban_store.Prelude.TextOrder.{text_lt_asym, text_lt_step}
use kanban_store.Prelude.Found.{first_of, find-keep_first}
use kanban_store.Prelude.Sort.{insert_sorted, sort_stable}
use kanban_store.Prelude.SortKeep.{keep-sort_stable}
use kanban_store.Boards.Assignments.{
  CardAssignment, assigns, get_card_assignment, assign_principal_to_card,
}
use kanban_store.Boards.SharedAssignments.{
  assigned_before, list_card_assignments, of_principal, found_or_insert,
  assign_principal_to_card_if_version,
}

assigned_asym : (a b : CardAssignment) → assigned_before a b ≡ true → assigned_before b a ≡ false
unfolding assigned_before
assigned_asym a b h = ground (arith, text_lt_asym a.principal_id b.principal_id)

assigned_step :
    (a b c : CardAssignment)
    → assigned_before a b ≡ false
    → assigned_before b c ≡ false
    → assigned_before a c ≡ false
unfolding assigned_before
assigned_step a b c h k = ground (arith, text_lt_step a.principal_id b.principal_id c.principal_id)

sort_stable-short :
    {A : Type 0} (less : A → A → Bool) (xs : List A) → length xs ≤ 1 → sort_stable less xs ≡ xs
unfolding sort_stable insert_sorted
sort_stable-short less [] h = refl
sort_stable-short less (x ∷ []) h = refl
sort_stable-short less (x ∷ y ∷ xs) h = absurd (omega arith)

-- The snapshot has the row of the principal that the table has.
find-list_card_assignments :
    (card_id principal_id : String) (table : List CardAssignment)
    → length (keep (assigns card_id principal_id) table) ≤ 1
    → find (of_principal principal_id) (list_card_assignments card_id table)
      ≡ get_card_assignment card_id principal_id table
unfolding list_card_assignments get_card_assignment
find-list_card_assignments card_id principal_id table short =
    let own = keep (λ a. a.card_id =? card_id) table in
    find-keep_first (of_principal principal_id) (sort_stable assigned_before own)
    ∙ ap first_of (
        keep-sort_stable assigned_before assigned_asym assigned_step (of_principal principal_id) own
        ∙ ap (sort_stable assigned_before)
            (keep-keep (of_principal principal_id) (λ a. a.card_id =? card_id) table)
        ∙ sort_stable-short assigned_before (keep (assigns card_id principal_id) table) short)
    ∙ sym (find-keep_first (assigns card_id principal_id) table)

found_or_insert-assign :
    (now : ℕ) (card_id principal_id actor : String) (table : List CardAssignment)
    → found_or_insert table
        (record {
          card_id = card_id;
          principal_id = principal_id;
          assigned_by = actor;
          created_at = now;
        })
        (get_card_assignment card_id principal_id table)
      ≡ assign_principal_to_card now card_id principal_id actor table
unfolding assign_principal_to_card
found_or_insert-assign now card_id principal_id actor table =
    elim (Option-cases (get_card_assignment card_id principal_id table)) [
      | inl e ↦ rw e refl
      | inr (a, e) ↦ rw e refl
    ]

-- On a table with at most one row for a card and a principal, an assignment under a version is refused
-- if the version is not empty and is not that of the card's assignments as they are listed now, and
-- does exactly what the assignment without a version does otherwise.
pub assign_principal_to_card_if_version-assign_principal_to_card :
    (version_of : List CardAssignment → String) (now : ℕ)
    (card_id principal_id actor version : String) (table : List CardAssignment)
    → length (keep (assigns card_id principal_id) table) ≤ 1
    → assign_principal_to_card_if_version version_of now card_id principal_id actor version table
      ≡ (if version =? "" || version_of (list_card_assignments card_id table) =? version
          then some (assign_principal_to_card now card_id principal_id actor table)
          else none)
unfolding assign_principal_to_card_if_version
assign_principal_to_card_if_version-assign_principal_to_card version_of now card_id principal_id
      actor version table short =
    elim (Bool-cases (version =? "")) [
      | inl e ↦ rw e refl
      | inr e ↦
          rw
            (
              e,
              find-list_card_assignments card_id principal_id table short,
              found_or_insert-assign now card_id principal_id actor table,
            )
            refl
    ]
