-- ===== src/Cards/Counting.antt =====
-- How many cards a column has after a placement is written (internal/db/db.go, CountColumnCards).
use kanban_store.Prelude.{
  ℕ, ◌+◌, ◌≤◌, String, Bool, true, false, ◌&&◌, not, List, [], ◌∷◌, ◌++◌, some, length, find, keep,
  keep-keep, update_where, is_some, IsUnique, ◌≡◌, ◌⊎◌, refl, sym, ap, ◌∙◌, arith, Bool-cases, inl,
  inr,
}
use kanban_store.Prelude.Text.{◌=?◌}
use kanban_store.Prelude.Found.{
  first_of, find-keep_first, length-keep_key, length-keep-le, length-keep-update_where,
  length-keep-update_out,
}
use kanban_store.Boards.Tables.{Placement, Tables, get_placement, at_key}
use kanban_store.Boards.Placing.{write_placement, upsert_placement, count_column_cards}
use kanban_store.Boards.Consistency.{same_placement, text_eq_trans, text_eq_sym}

module _ {F : Type 0} where
  key_apart :
      (card board : String) (p q : Placement F)
      → at_key card board p ≡ true
      → same_placement p q ≡ false
      → at_key card board q ≡ false
  key_apart card board p q h apart = elim (Bool-cases (at_key card board q)) [
    | inr e ↦ e
    | inl e ↦
        let cards =
          text_eq_trans p.card_id card q.card_id (ground arith)
            (text_eq_sym q.card_id card (ground arith)) in
        let boards =
          text_eq_trans p.board_id board q.board_id (ground arith)
            (text_eq_sym q.board_id board (ground arith)) in
        absurd (ground arith)
  ]

  abbrev pub in_column : String → Placement F → Bool
  in_column k p = p.column_id =? k

  only_one :
      (ys : List (Placement F)) (p : Placement F)
      → first_of ys ≡ some p
      → length ys ≤ 1
      → ys ≡ p ∷ []
  unfolding first_of
  only_one [] p first short = absurd (ground arith)
  only_one (q ∷ []) p first short = ground arith
  only_one (q ∷ r ∷ ys) p first short = absurd (omega arith)

  kept_none :
      (k : String) (p : Placement F)
      → in_column k p ≡ true
      → length (keep (λ q. not (in_column k q)) (p ∷ [])) ≡ 0
  unfolding keep
  kept_none k p h = rw h refl

  -- The row of one card on one board is written over.
  module _ (card board column : String) (position : F) (now : ℕ) (xs : List (Placement F))
      (unique : IsUnique same_placement xs) where
    abbrev rewritten : List (Placement F)
    rewritten = update_where (at_key card board) (write_placement column position now) xs

    leaving : String → ℕ
    leaving k = length (keep (λ p. at_key card board p && not (in_column k p)) xs)

    pub count-rewritten_out :
        (k : String)
        → (column =? k) ≡ false
        → length (keep (in_column k) rewritten) ≤ length (keep (in_column k) xs)
    unfolding write_placement
    count-rewritten_out k other =
        length-keep-update_out (in_column k) (at_key card board)
          (write_placement column position now) (λ p. other) xs

    leaving-le : (k : String) → leaving k ≤ 1
    unfolding leaving
    leaving-le k =
        let one =
          length-keep_key same_placement (at_key card board) (key_apart card board) xs unique in
        let fewer = length-keep-le (λ p. not (in_column k p)) (keep (at_key card board) xs) in
        let both = ap length (keep-keep (λ p. not (in_column k p)) (at_key card board) xs) in
        omega arith

    pub count-rewritten_one :
        (k : String) → length (keep (in_column k) rewritten) ≤ length (keep (in_column k) xs) + 1
    unfolding leaving
    count-rewritten_one k =
        let more =
          length-keep-update_where (in_column k) (at_key card board)
            (write_placement column position now) xs in
        let few = leaving-le k in omega arith

    leaving-stays :
        (k : String) (current : Placement F)
        → find (at_key card board) xs ≡ some current
        → in_column k current ≡ true
        → leaving k ≡ 0
    unfolding leaving
    leaving-stays k current found stays =
        let one =
          length-keep_key same_placement (at_key card board) (key_apart card board) xs unique in
        let alone = only_one _ current (sym (find-keep_first (at_key card board) xs) ∙ found) one in
        sym (ap length (keep-keep (λ p. not (in_column k p)) (at_key card board) xs))
        ∙ ap (λ ys. length (keep (λ p. not (in_column k p)) ys)) alone
        ∙ kept_none k current stays

    pub count-rewritten_stays :
        (current : Placement F)
        → find (at_key card board) xs ≡ some current
        → in_column column current ≡ true
        → (k : String) → length (keep (in_column k) rewritten) ≤ length (keep (in_column k) xs)
    unfolding leaving
    count-rewritten_stays current found stays k = elim (Bool-cases (column =? k)) [
      | inr other ↦ count-rewritten_out k other
      | inl own ↦
          let more =
            length-keep-update_where (in_column k) (at_key card board)
              (write_placement column position now) xs in
          let here = text_eq_trans current.column_id column k stays own in
          let none_left = leaving-stays k current found here in omega arith
    ]

  fewer_kept :
      (p q : Placement F → Bool) (xs : List (Placement F))
      → length (keep p (keep q xs)) ≤ length (keep p xs)
  unfolding keep
  fewer_kept p q [] = omega arith
  fewer_kept p q (x ∷ xs) = ground (arith, fewer_kept p q xs)

  count-added :
      (k : String) (p : Placement F) (xs : List (Placement F))
      → (length (keep (in_column k) (xs ++ (p ∷ []))) ≤ length (keep (in_column k) xs) + 1)
        × (((p.column_id =? k) ≡ true)
            ⊎ (length (keep (in_column k) (xs ++ (p ∷ []))) ≤ length (keep (in_column k) xs)))
  unfolding keep
  count-added k p [] = ground arith
  count-added k p (x ∷ xs) = ground (arith, count-added k p xs)

  pub upsert-counts :
      (p : Placement F) (t : Tables F)
      → IsUnique same_placement t.placements
      → ((k : String) → count_column_cards k (upsert_placement p t) ≤ count_column_cards k t + 1)
        × ((k : String)
            → (p.column_id =? k) ≡ false
            → count_column_cards k (upsert_placement p t) ≤ count_column_cards k t)
  unfolding upsert_placement count_column_cards get_placement
  upsert-counts p t unique =
      elim (Bool-cases (is_some (find (at_key p.card_id p.board_id) t.placements))) [
        | inl old ↦ rw old (
          count-rewritten_one p.card_id p.board_id p.column_id p.position p.updated_at t.placements
              unique,
          count-rewritten_out p.card_id p.board_id p.column_id p.position p.updated_at t.placements
              unique,
        )
        | inr new ↦ rw new (
          (λ k. (count-added k p t.placements).0),
          (λ k other. elim ((count-added k p t.placements).1) [
            | inl own ↦ absurd (ground arith)
            | inr le ↦ le
          ]),
        )
      ]

  pub fewer :
      (k card board : String) (t : Tables F)
      → length (keep (in_column k) (keep (λ p. not (at_key card board p)) t.placements))
        ≤ count_column_cards k t
  unfolding count_column_cards
  fewer k card board t = fewer_kept (in_column k) (λ p. not (at_key card board p)) t.placements
