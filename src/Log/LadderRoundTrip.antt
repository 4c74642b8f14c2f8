-- ===== src/Log/LadderRoundTrip.antt =====
-- A ladder that was validated can be set and is read back (internal/model/activity.go,
-- internal/db/activity.go).
use kanban_store.Prelude.{
  String, Bool, true, false, ◌&&◌, not, List, [], ◌∷◌, ◌++◌, none, some, map, keep, keep-append,
  ◌≡◌, refl, sym, ap, ◌∙◌, arith, Bool-cases, inl, inr, All, All-append, All-imp, ◌⊎◌, none-find,
  keep-keep, keep-same, append_nil, append_one,
}
use kanban_store.Prelude.Int.{ℤ, pos, negsuc, eq_ℤ}
use kanban_store.Prelude.Text.{◌=?◌, contains, text_eq_refl, text_eq_iff}
use kanban_store.Prelude.Sort.{sort_stable}
use kanban_store.Log.Events.{done}
use kanban_store.Log.Ladder.{
  Rung, has_seen, check_rung, check_rungs, validate_ladder, on_board, higher, get_priority_ladder,
  placed_on, has_value, insert_rungs, other_boards, set_priority_ladder,
}

-- The rows of the board have only values that were seen.
abbrev SeenOnly : String → List ℤ → Rung → Type 0
SeenOnly board_id values l =
    (l.board_id =? board_id && not (has_seen values l.priority_value)) ≡ false

eq_path : (v w : ℤ) → eq_ℤ v w ≡ true → v ≡ w
eq_path (pos m) (pos n) h = ap pos (ground arith)
eq_path (negsuc m) (negsuc n) h = ap negsuc (ground arith)
eq_path (pos m) (negsuc n) h = absurd (ground arith)
eq_path (negsuc m) (pos n) h = absurd (ground arith)

eq_refl : (v : ℤ) → eq_ℤ v v ≡ true
eq_refl (pos m) = ground arith
eq_refl (negsuc m) = ground arith

seen_eq :
    (v w : ℤ) (values : List ℤ)
    → has_seen values v ≡ true
    → has_seen values w ≡ false
    → eq_ℤ v w ≡ false
seen_eq v w values h k = elim (Bool-cases (eq_ℤ v w)) [
  | inr e ↦ e
  | inl e ↦ let both = ap (has_seen values) (eq_path v w e) in absurd (ground arith)
]

free_value :
    (board_id : String) (values : List ℤ) (v : ℤ) (rows : List Rung)
    → has_seen values v ≡ false
    → All (SeenOnly board_id values) rows
    → All (λ l. has_value board_id v l ≡ false) rows
free_value board_id values v [] k h = tt
free_value board_id values v (l ∷ rows) k h =
    (ground (arith, seen_eq l.priority_value v values), free_value board_id values v rows k h.1)

check_rung-unseen :
    (amount : String → Bool) (values : List ℤ) (labels : List String) (l : Rung)
    → check_rung amount values labels l ≡ none
    → has_seen values l.priority_value ≡ false
unfolding check_rung
check_rung-unseen amount values labels l h = ground arith

seen_more :
    (board_id : String) (values : List ℤ) (v : ℤ) (l : Rung)
    → SeenOnly board_id values l
    → SeenOnly board_id (v ∷ values) l
unfolding has_seen
seen_more board_id values v l h = ground arith

new_seen :
    (board_id : String) (values : List ℤ) (l : Rung)
    → SeenOnly board_id (l.priority_value ∷ values) (placed_on board_id l)
unfolding has_seen
new_seen board_id values l = ground (arith, eq_refl l.priority_value)

others-SeenOnly :
    (board_id : String) (rows : List Rung) → All (SeenOnly board_id []) (other_boards board_id rows)
unfolding keep has_seen
others-SeenOnly board_id [] = tt
others-SeenOnly board_id (l ∷ rows) = elim (Bool-cases (on_board board_id l)) [
  | inl e ↦ rw e (others-SeenOnly board_id rows)
  | inr e ↦ rw e (ground arith, others-SeenOnly board_id rows)
]

placed_own :
    (board_id : String) (levels : List Rung)
    → All (λ l. on_board board_id l ≡ true) (map (placed_on board_id) levels)
placed_own board_id [] = tt
placed_own board_id (l ∷ levels) = (text_eq_refl board_id, placed_own board_id levels)

keep_everything :
    (p : Rung → Bool) (rows : List Rung) → All (λ l. p l ≡ true) rows → keep p rows ≡ rows
unfolding keep
keep_everything p [] h = refl
keep_everything p (l ∷ rows) h = rw (h.0) (ap (λ rest. l ∷ rest) (keep_everything p rows h.1))

keep_nothing : (p : Rung → Bool) (rows : List Rung) → All (λ l. p l ≡ false) rows → keep p rows ≡ []
unfolding keep
keep_nothing p [] h = refl
keep_nothing p (l ∷ rows) h = rw (h.0) (keep_nothing p rows h.1)

others-not_own :
    (board_id : String) (rows : List Rung)
    → keep (on_board board_id) (other_boards board_id rows) ≡ []
unfolding keep
others-not_own board_id [] = refl
others-not_own board_id (l ∷ rows) = elim (Bool-cases (on_board board_id l)) [
  | inl e ↦ rw e (others-not_own board_id rows)
  | inr e ↦ rw (e, e) (others-not_own board_id rows)
]

keep-own :
    (board_id : String) (placed rows : List Rung)
    → All (λ l. on_board board_id l ≡ true) placed
    → keep (on_board board_id) (other_boards board_id rows ++ placed) ≡ placed
keep-own board_id placed rows h =
    keep-append (on_board board_id) (other_boards board_id rows) placed
    ∙ ap (λ xs. xs ++ keep (on_board board_id) placed) (others-not_own board_id rows)
    ∙ keep_everything (on_board board_id) placed h

placed_elsewhere :
    (board_id other : String) (levels : List Rung)
    → (board_id =? other) ≡ false
    → All (λ l. on_board other l ≡ false) (map (placed_on board_id) levels)
placed_elsewhere board_id other [] h = tt
placed_elsewhere board_id other (l ∷ levels) h = (h, placed_elsewhere board_id other levels h)

own_apart :
    (board_id other : String) (l : Rung)
    → (board_id =? other) ≡ false
    → (not (on_board board_id l) && on_board other l) ≡ on_board other l
own_apart board_id other l apart = elim (Bool-cases (on_board board_id l)) [
  | inr e ↦ rw e refl
  | inl e ↦
      let same : (l.board_id =? other) ≡ false =
        ap (λ x. x =? other) ((text_eq_iff l.board_id board_id).0 e) ∙ apart in
      rw (e, same) refl
]

keep-other :
    (board_id other : String) (placed rows : List Rung)
    → (board_id =? other) ≡ false
    → All (λ l. on_board other l ≡ false) placed
    → keep (on_board other) (other_boards board_id rows ++ placed) ≡ keep (on_board other) rows
keep-other board_id other placed rows apart h =
    keep-append (on_board other) (other_boards board_id rows) placed
    ∙ ap (λ xs. keep (on_board other) (other_boards board_id rows) ++ xs)
        (keep_nothing (on_board other) placed h)
    ∙ append_nil (keep (on_board other) (other_boards board_id rows))
    ∙ keep-keep (on_board other) (λ l. not (on_board board_id l)) rows
    ∙ keep-same _ (on_board other) rows (λ l. own_apart board_id other l apart)

pub insert_rungs-some :
    (amount : String → Bool) (board_id : String) (values : List ℤ) (labels : List String)
    (levels rows : List Rung)
    → check_rungs amount values labels levels ≡ none
    → All (SeenOnly board_id values) rows
    → insert_rungs board_id levels rows ≡ some (rows ++ map (placed_on board_id) levels)
unfolding insert_rungs check_rungs
insert_rungs-some amount board_id values labels [] rows h seen = ap some (sym (append_nil rows))
insert_rungs-some amount board_id values labels (l ∷ levels) rows h seen =
    let fits : check_rung amount values labels l ≡ none = ground arith in
    let fresh = check_rung-unseen amount values labels l fits in
    let rest : check_rungs amount (l.priority_value ∷ values) (l.label ∷ labels) levels ≡ none =
      ground arith in
    let free = none-find _ rows (free_value board_id values l.priority_value rows fresh seen) in
    let after =
      All-append (SeenOnly board_id (l.priority_value ∷ values)) rows (placed_on board_id l ∷ [])
        (All-imp rows (λ r k. seen_more board_id values l.priority_value r k) seen)
        (new_seen board_id values l, tt) in
    rw free (
      insert_rungs-some amount board_id (l.priority_value ∷ values) (l.label ∷ labels) levels _ rest
        after
      ∙ ap some (append_one rows (placed_on board_id l) (map (placed_on board_id) levels)))

-- A ladder that is validated is set on a board that exists: what the call answers, and what the board's
-- ladder then is, are the rungs of the request from the highest priority to the lowest; and the
-- ladder of every other board stays as it was.
pub set_priority_ladder-get :
    (amount : String → Bool) (boards : List String) (board_id : String) (levels rows : List Rung)
    → validate_ladder amount levels ≡ none
    → contains boards board_id ≡ true
    → (after : List Rung) × (set_priority_ladder boards board_id levels rows
        ≡ done after (sort_stable higher (map (placed_on board_id) levels)))
      × (get_priority_ladder after board_id ≡ sort_stable higher (map (placed_on board_id) levels))
      × ((other : String)
          → ((board_id =? other) ≡ true)
            ⊎ (get_priority_ladder after other ≡ get_priority_ladder rows other))
unfolding set_priority_ladder validate_ladder get_priority_ladder
set_priority_ladder-get amount boards board_id levels rows valid there =
    let inserted =
      insert_rungs-some amount board_id [] [] levels (other_boards board_id rows) valid
        (others-SeenOnly board_id rows) in
    let own =
      ap (sort_stable higher)
        (keep-own board_id (map (placed_on board_id) levels) rows (placed_own board_id levels)) in
    (
      other_boards board_id rows ++ map (placed_on board_id) levels,
      rw (there, inserted)
          (ap (done (other_boards board_id rows ++ map (placed_on board_id) levels)) own),
      own,
      λ other. elim (Bool-cases (board_id =? other)) [
        | inl same ↦ inl same
        | inr apart ↦ inr (
            ap (sort_stable higher) (
              keep-other board_id other (map (placed_on board_id) levels) rows apart
                (placed_elsewhere board_id other levels apart)))
      ],
    )
