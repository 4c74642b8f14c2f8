-- ===== src/Boards/Consistency.antt =====
-- What the tables of boards, columns and placements have to keep to, in their keys and references.
use kanban_store.Prelude.{
  String, Bool, true, false, ◌&&◌, List, [], ◌∷◌, some, ◌≡◌, All, keep, find, IsUnique, inl, inr,
  Bool-cases, arith, ◌∙◌, sym,
}
use kanban_store.Prelude.Text.{◌=?◌, contains, text_eq_iff}
use kanban_store.Boards.Tables.{Column, Placement, Tables}

abbrev pub same_id : String → String → Bool
same_id a b = a =? b

module _ {F : Type 0} where
  abbrev pub same_column : Column F → Column F → Bool
  same_column c d = c.id =? d.id

  abbrev pub same_placement : Placement F → Placement F → Bool
  same_placement p q = p.card_id =? q.card_id && p.board_id =? q.board_id

  -- The placement's column exists, on the placement's board.
  abbrev pub IsOnItsBoard : List (Column F) → Placement F → Type 0
  IsOnItsBoard columns p =
      (c : Column F) × (find (λ c. c.id =? p.column_id) columns ≡ some c)
      × ((c.board_id =? p.board_id) ≡ true)

  -- The primary keys of the tables are unique, every column's board exists, and every card is placed
  -- in a column of the board that it is placed on.
  pub record IsConsistent (t : Tables F) : Type 0 where
    pub board_ids : IsUnique same_id t.boards
    pub column_ids : IsUnique same_column t.columns
    pub placement_keys : IsUnique same_placement t.placements
    pub column_boards : All (λ c. contains t.boards c.board_id ≡ true) t.columns
    pub placement_columns : All (IsOnItsBoard t.columns) t.placements

pub text_eq_trans : (a b c : String) → (a =? b) ≡ true → (b =? c) ≡ true → (a =? c) ≡ true
text_eq_trans a b c h k =
    let ab = (text_eq_iff a b).0 h in
    let bc = (text_eq_iff b c).0 k in (text_eq_iff a c).1 (ab ∙ bc)

pub text_eq_sym : (a b : String) → (a =? b) ≡ true → (b =? a) ≡ true
text_eq_sym a b h = (text_eq_iff b a).1 (sym ((text_eq_iff a b).0 h))

-- A set keeps the members that pass a deletion.
pub contains-keep :
    (xs : List String) (p : String → Bool) (a : String)
    → contains xs a ≡ true
    → p a ≡ true
    → contains (keep p xs) a ≡ true
unfolding contains keep
contains-keep [] p a h k = h
contains-keep (x ∷ xs) p a h k = elim (Bool-cases (x =? a)) [
  | inl e ↦ let xa = (text_eq_iff x a).0 e in let px : p x ≡ true = cc in ground arith
  | inr e ↦ ground (arith, contains-keep xs p a)
]

-- A set that does not have a text has only others.
pub others_only :
    (xs : List String) (a : String) → contains xs a ≡ false → All (λ x. same_id x a ≡ false) xs
unfolding contains
others_only [] a h = tt
others_only (x ∷ xs) a h = (ground arith, others_only xs a (ground arith))
