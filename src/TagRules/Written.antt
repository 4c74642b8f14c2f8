-- ===== src/TagRules/Written.antt =====
-- The rows that setting a board's rules writes (internal/db/tag_rules.go).
use kanban_store.Prelude.{
  ℕ, suc, ◌≤◌, String, Bool, true, not, List, [], ◌∷◌, ◌++◌, none, some, ◌≡◌, refl, sym, ap, ◌∙◌,
  arith, Bool-cases, Option-cases, inl, inr, keep, keep-append,
}
use kanban_store.Prelude.Text.{contains, text_eq_refl}
use kanban_store.Prelude.Sort.{sort_stable, insert_sorted, IsAscendingFrom}
use kanban_store.TagRules.Rules.{BoardTagRule, BoardTagRuleInput}
use kanban_store.TagRules.Stored.{
  TagRuleRow, TagsJson, rules_found, on_board, row_before, rule_of_row, read_rows,
  get_board_tag_rules, unknown_id, row_of_input, insert_rows, set_board_tag_rules,
}

-- The rows of the inputs, numbered on from `position`.
abbrev pub rows_from :
    (ℕ → BoardTagRuleInput → TagRuleRow) → ℕ → List BoardTagRuleInput → List TagRuleRow
rows_from row_at position [] = []
rows_from row_at position (input ∷ inputs) =
    row_at position input ∷ rows_from row_at (suc position) inputs

-- The rules of the inputs, numbered on from `position`.
abbrev pub rules_from :
    (ℕ → BoardTagRuleInput → TagRuleRow) → ℕ → List BoardTagRuleInput → List BoardTagRule
rules_from row_at position [] = []
rules_from row_at position (input ∷ inputs) =
    rule_of_row (row_at position input) input.tags ∷ rules_from row_at (suc position) inputs

append-assoc_one :
    (xs : List TagRuleRow) (y : TagRuleRow) (zs : List TagRuleRow)
    → (xs ++ (y ∷ [])) ++ zs ≡ xs ++ (y ∷ zs)
append-assoc_one [] y zs = refl
append-assoc_one (x ∷ xs) y zs = ap (λ l. x ∷ l) (append-assoc_one xs y zs)

append_nil : (xs : List TagRuleRow) → xs ++ [] ≡ xs
append_nil [] = refl
append_nil (x ∷ xs) = ap (λ l. x ∷ l) (append_nil xs)

module _ (json : TagsJson) (row_at : ℕ → BoardTagRuleInput → TagRuleRow) where
  insert_rows-some :
      (inputs : List BoardTagRuleInput) (position : ℕ) (table after : List TagRuleRow)
      → insert_rows json row_at position inputs table ≡ some after
      → after ≡ table ++ rows_from row_at position inputs
  unfolding insert_rows
  insert_rows-some [] position table after h = ground (arith, append_nil table)
  insert_rows-some (input ∷ inputs) position table after h =
      insert_rows-some inputs (suc position) (table ++ (row_at position input ∷ [])) after
        (ground arith)
      ∙ append-assoc_one table (row_at position input) (rows_from row_at (suc position) inputs)

sort_stable-ascending :
    (xs : List TagRuleRow) (low : ℕ)
    → IsAscendingFrom (λ r. r.position) low xs
    → sort_stable row_before xs ≡ xs
unfolding sort_stable insert_sorted
sort_stable-ascending [] low h = refl
sort_stable-ascending (x ∷ []) low h = refl
sort_stable-ascending (x ∷ y ∷ ys) low h =
    let rest = sort_stable-ascending (y ∷ ys) x.position h.1 in
    ap (insert_sorted row_before x) rest ∙ ground arith

keep_nothing :
    (p : TagRuleRow → Bool) (xs : List TagRuleRow) → keep p (keep (λ x. not (p x)) xs) ≡ []
unfolding keep
keep_nothing p [] = refl
keep_nothing p (x ∷ xs) = elim (Bool-cases (p x)) [
  | inl e ↦ ground (arith, keep_nothing p xs)
  | inr e ↦ ground (arith, keep_nothing p xs)
]

module _ (json : TagsJson)
    (reads : (tags : List String) → json.unmarshal (json.marshal tags) ≡ some tags)
    (new_id : ℕ → String) (old : List TagRuleRow) (stamp : ℕ) (board_id : String) where
  abbrev row_at : ℕ → BoardTagRuleInput → TagRuleRow
  row_at = row_of_input json new_id old stamp board_id

  rows_from-IsAscendingFrom :
      (inputs : List BoardTagRuleInput) (low position : ℕ)
      → low ≤ position
      → IsAscendingFrom (λ r. r.position) low (rows_from row_at position inputs)
  unfolding row_of_input
  rows_from-IsAscendingFrom [] low position h = tt
  rows_from-IsAscendingFrom (input ∷ inputs) low position h =
      (h, rows_from-IsAscendingFrom inputs position (suc position) (omega arith))

  keep-rows_from :
      (inputs : List BoardTagRuleInput) (position : ℕ)
      → (keep (on_board board_id) (rows_from row_at position inputs)
          ≡ rows_from row_at position inputs)
        × (keep (λ r. not (on_board board_id r)) (rows_from row_at position inputs) ≡ [])
  unfolding keep row_of_input
  keep-rows_from [] position = (refl, refl)
  keep-rows_from (input ∷ inputs) position =
      let (mine, others) = keep-rows_from inputs (suc position) in
      (ground (arith, text_eq_refl board_id, mine), ground (arith, text_eq_refl board_id, others))

  read_rows-rows_from :
      (inputs : List BoardTagRuleInput) (position : ℕ)
      → read_rows json (rows_from row_at position inputs)
        ≡ rules_found (rules_from row_at position inputs)
  unfolding read_rows row_of_input
  read_rows-rows_from [] position = refl
  read_rows-rows_from (input ∷ inputs) position =
      rw (reads input.tags, read_rows-rows_from inputs (suc position)) refl

  -- What is read of a table from which the board's rows were deleted and then inserted anew.
  get_board_tag_rules-inserted :
      (boards : List String) (inputs : List BoardTagRuleInput) (others : List TagRuleRow)
      → contains boards board_id ≡ true
      → keep (on_board board_id) others ≡ []
      → get_board_tag_rules json boards (others ++ rows_from row_at 0 inputs) board_id
        ≡ rules_found (rules_from row_at 0 inputs)
  unfolding get_board_tag_rules
  get_board_tag_rules-inserted boards inputs others known none_left =
      rw
        (
          known,
          get_board_tag_rules,
          keep-append (on_board board_id) others (rows_from row_at 0 inputs),
          none_left,
          (keep-rows_from inputs 0).0,
          sort_stable-ascending (rows_from row_at 0 inputs) 0
              (rows_from-IsAscendingFrom inputs 0 0 (omega arith)),
        )
        (read_rows-rows_from inputs 0)

keep_twice : (p : TagRuleRow → Bool) (xs : List TagRuleRow) → keep p (keep p xs) ≡ keep p xs
unfolding keep
keep_twice p [] = refl
keep_twice p (x ∷ xs) = elim (Bool-cases (p x)) [
  | inl e ↦ ground (arith, keep_twice p xs)
  | inr e ↦ ground (arith, keep_twice p xs)
]

-- What the table that was written reads back as.
written_back :
    (json : TagsJson) (boards : List String) (new_id : ℕ → String) (stamp : ℕ) (board_id : String)
    (inputs : List BoardTagRuleInput) (table after written : List TagRuleRow)
    (rules : List BoardTagRule)
    → ((tags : List String) → json.unmarshal (json.marshal tags) ≡ some tags)
    → contains boards board_id ≡ true
    → written
      ≡ keep (λ r. not (on_board board_id r)) table
        ++ rows_from
            (row_of_input json new_id (keep (on_board board_id) table) stamp board_id)
            0
            inputs
    → after ≡ written
    → rules_found rules ≡ get_board_tag_rules json boards written board_id
    → (rules
        ≡ rules_from
            (row_of_input json new_id (keep (on_board board_id) table) stamp board_id)
            0
            inputs)
      × (get_board_tag_rules json boards after board_id ≡ rules_found rules)
      × (keep (λ r. not (on_board board_id r)) after ≡ keep (λ r. not (on_board board_id r)) table)
written_back json boards new_id stamp board_id inputs table after written rules reads known inserted
      same answered =
    let old = keep (on_board board_id) table in
    let others = keep (λ r. not (on_board board_id r)) table in
    let row = row_of_input json new_id old stamp board_id in
    let got =
      get_board_tag_rules-inserted json reads new_id old stamp board_id boards inputs others known
        (keep_nothing (on_board board_id) table) in
    let read : rules_found rules ≡ rules_found (rules_from row 0 inputs) =
      answered ∙ (ap (λ t. get_board_tag_rules json boards t board_id) inserted ∙ got) in
    (
      ground arith,
      ap (λ t. get_board_tag_rules json boards t board_id) same ∙ sym answered,
      ap (keep (λ r. not (on_board board_id r))) (same ∙ inserted)
          ∙ (keep-append (λ r. not (on_board board_id r)) others (rows_from row 0 inputs)
              ∙ rw
                  (
                    (keep-rows_from json reads new_id old stamp board_id inputs 0).1,
                    keep_twice (λ r. not (on_board board_id r)) table,
                  )
                  (append_nil others)),
    )

-- What the table and the answer are, by the rows that are inserted
pub rows_written :
    (json : TagsJson) (boards : List String) (new_id : ℕ → String) (stamp : ℕ) (board_id : String)
    (inputs : List BoardTagRuleInput) (table after : List TagRuleRow) (rules : List BoardTagRule)
    → ((tags : List String) → json.unmarshal (json.marshal tags) ≡ some tags)
    → set_board_tag_rules json boards new_id stamp board_id inputs table
      ≡ (after, rules_found rules)
    → (rules
        ≡ rules_from
            (row_of_input json new_id (keep (on_board board_id) table) stamp board_id)
            0
            inputs)
      × (get_board_tag_rules json boards after board_id ≡ rules_found rules)
      × (keep (λ r. not (on_board board_id r)) after ≡ keep (λ r. not (on_board board_id r)) table)
unfolding set_board_tag_rules
rows_written json boards new_id stamp board_id inputs table after rules reads h =
    let rows = keep (on_board board_id) table in
    let others = keep (λ r. not (on_board board_id r)) table in
    let row = row_of_input json new_id rows stamp board_id in
    elim (Bool-cases (contains boards board_id)) [
      | inr e ↦ absurd (ground arith)
      | inl known ↦ elim (Option-cases (unknown_id json rows inputs)) [
        | inr (id, e) ↦ absurd (ground arith)
        | inl all_known ↦ elim (Option-cases (insert_rows json row 0 inputs others)) [
          | inl e ↦ absurd (ground arith)
          | inr (written, e) ↦
              let ran : set_board_tag_rules json boards new_id stamp board_id inputs table
                  ≡ (written, get_board_tag_rules json boards written board_id) =
                rw (known, set_board_tag_rules, all_known, e) refl in
              let same : after ≡ written = ap (λ x. x.0) (sym h ∙ ran) in
              let answered : rules_found rules ≡ get_board_tag_rules json boards written board_id =
                ap (λ x. x.1) (sym h ∙ ran) in
              written_back json boards new_id stamp board_id inputs table after written rules reads
                known (insert_rows-some json row inputs 0 others written e) same answered
        ]
      ]
    ]

-- A call that answers with rules names no rule that the board did not have.
pub known_ids :
    (json : TagsJson) (boards : List String) (new_id : ℕ → String) (stamp : ℕ) (board_id : String)
    (inputs : List BoardTagRuleInput) (table after : List TagRuleRow) (rules : List BoardTagRule)
    → set_board_tag_rules json boards new_id stamp board_id inputs table
      ≡ (after, rules_found rules)
    → unknown_id json (keep (on_board board_id) table) inputs ≡ none
unfolding set_board_tag_rules
known_ids json boards new_id stamp board_id inputs table after rules h =
    elim (Bool-cases (contains boards board_id)) [
      | inr e ↦ absurd (ground arith)
      | inl known ↦ elim (Option-cases (unknown_id json (keep (on_board board_id) table) inputs)) [
        | inr (id, e) ↦ absurd (ground arith)
        | inl all_known ↦ all_known
      ]
    ]
