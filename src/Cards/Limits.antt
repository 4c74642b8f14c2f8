-- ===== src/Cards/Limits.antt =====
-- The limits of columns on the cards in them (internal/api/api.go, checkWIP).
use kanban_store.Prelude.{
  ℕ, ◌+◌, ◌≤◌, String, Bool, true, false, not, List, [], ◌∷◌, Option, none, some, find, find-passes,
  All, All-imp, IsUnique, ◌≡◌, ◌⊎◌, refl, sym, ap, subst, ◌∙◌, arith, Bool-cases, Option-cases, inl,
  inr,
}
use kanban_store.Prelude.Int.{ℤ, pos, negsuc, lt_ℤ}
use kanban_store.Prelude.Text.{◌=?◌, text_eq_iff}
use kanban_store.Boards.Tables.{Column, Tables, get_column}
use kanban_store.Boards.Placing.{count_column_cards}
use kanban_store.Boards.Consistency.{same_column, IsConsistent, text_eq_trans, text_eq_sym}
use kanban_store.Cards.Placements.{under_limit, check_wip}

-- No limit, or not more cards than it
abbrev pub is_within : ℕ → Option ℤ → Bool
is_within n none = true
is_within n (some limit) = not (lt_ℤ limit (pos n))

is_within-le :
    (m n : ℕ) (limit : Option ℤ) → m ≤ n → is_within n limit ≡ true → is_within m limit ≡ true
is_within-le m n none h k = refl
is_within-le m n (some (pos l)) h k = ground arith
is_within-le m n (some (negsuc l)) h k = absurd (ground arith)

is_within-under_limit :
    (m n : ℕ) (limit : Option ℤ) → m ≤ n + 1 → under_limit n limit ≡ true → is_within m limit ≡ true
is_within-under_limit m n none h k = refl
is_within-under_limit m n (some (pos l)) h k = ground arith
is_within-under_limit m n (some (negsuc l)) h k = absurd (ground arith)

flip : (a b : String) → (a =? b) ≡ false → (b =? a) ≡ false
flip a b h = elim (Bool-cases (b =? a)) [
  | inr e ↦ e
  | inl e ↦ let back = text_eq_sym b a e in absurd (ground arith)
]

module _ {F : Type 0} where
  abbrev pub column_is_within : Tables F → Column F → Bool
  column_is_within t c = is_within (count_column_cards c.id t) c.wip_limit

  -- No column has more cards than its limit.
  abbrev pub IsWithinWip : Tables F → Type 0
  IsWithinWip t = All (λ c. column_is_within t c ≡ true) t.columns

  -- Of two lists of columns with the same limits, one with no more cards
  pub IsWithinWip-le :
      (t u : Tables F) (columns : List (Column F))
      → ((c : Column F) → count_column_cards c.id u ≤ count_column_cards c.id t)
      → All (λ c. column_is_within t c ≡ true) columns
      → All (λ c. column_is_within u c ≡ true) columns
  IsWithinWip-le t u [] le h = tt
  IsWithinWip-le t u (c ∷ columns) le h =
      (is_within-le _ _ c.wip_limit (le c) h.0, IsWithinWip-le t u columns le h.1)

  not_this :
      (id : String) (x y : Column F)
      → (x.id =? id) ≡ true
      → same_column x y ≡ false
      → (y.id =? id) ≡ false
  not_this id x y own apart = elim (Bool-cases (y.id =? id)) [
    | inr e ↦ e
    | inl e ↦
        let same = text_eq_trans x.id id y.id own (text_eq_sym y.id id e) in absurd (ground arith)
  ]

  -- The column that a query by an id finds is the only one with the id.
  only_column :
      (id : String) (columns : List (Column F)) (col : Column F)
      → IsUnique same_column columns
      → find (λ c. c.id =? id) columns ≡ some col
      → All (λ c. ((c.id =? id) ≡ false) ⊎ (c ≡ col)) columns
  unfolding find
  only_column id [] col unique found = tt
  only_column id (x ∷ columns) col unique found = elim (Bool-cases (x.id =? id)) [
    | inl own ↦
        (inr (ground arith), All-imp columns (λ y apart. inl (not_this id x y own apart)) unique.0)
    | inr other ↦ (inl other, only_column id columns col unique.1 (ground arith))
  ]

  -- One column, that was under its limit, gets one card at most.
  IsWithinWip-one_more :
      (t u : Tables F) (col : Column F) (columns : List (Column F))
      → under_limit (count_column_cards col.id t) col.wip_limit ≡ true
      → count_column_cards col.id u ≤ count_column_cards col.id t + 1
      → ((c : Column F)
          → (c.id =? col.id) ≡ false
          → count_column_cards c.id u ≤ count_column_cards c.id t)
      → All (λ c. ((c.id =? col.id) ≡ false) ⊎ (c ≡ col)) columns
      → All (λ c. column_is_within t c ≡ true) columns
      → All (λ c. column_is_within u c ≡ true) columns
  IsWithinWip-one_more t u col [] room more same only h = tt
  IsWithinWip-one_more t u col (c ∷ columns) room more same only h =
      let rest = IsWithinWip-one_more t u col columns room more same only.1 h.1 in
      elim (only.0) [
        | inl other ↦ (is_within-le _ _ c.wip_limit (same c other) h.0, rest)
        | inr own ↦ (
          subst (λ d. column_is_within u d ≡ true) (sym own)
              (is_within-under_limit _ _ col.wip_limit more room),
          rest,
        )
      ]

  -- At most one card more in a column that admits one, and none more in the others
  pub IsWithinWip-placed :
      (t u : Tables F) (column_id : String)
      → IsConsistent t
      → u.columns ≡ t.columns
      → check_wip t column_id ≡ true
      → ((k : String) → count_column_cards k u ≤ count_column_cards k t + 1)
      → ((k : String) → (column_id =? k) ≡ false → count_column_cards k u ≤ count_column_cards k t)
      → IsWithinWip t
      → IsWithinWip u
  unfolding check_wip get_column
  IsWithinWip-placed t u column_id ok columns room one out h =
      elim (Option-cases (find (λ c. c.id =? column_id) t.columns)) [
        | inl nowhere ↦ absurd (ground arith)
        | inr (col, found) ↦
            let id = (text_eq_iff col.id column_id).0 (find-passes _ t.columns col found) in
            let only = only_column column_id t.columns col ok.column_ids found in
            subst (λ cs. All (λ c. column_is_within u c ≡ true) cs) (sym columns)
              (IsWithinWip-one_more t u col t.columns (rw found at room) (one col.id)
                (λ c other. out c.id (flip c.id column_id (ap (λ x. c.id =? x) (sym id) ∙ other)))
                (subst (λ x. All (λ c. ((c.id =? x) ≡ false) ⊎ (c ≡ col)) t.columns) (sym id) only)
                h)
      ]
