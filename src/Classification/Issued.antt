-- ===== src/Classification/Issued.antt =====
-- Minted ids (internal/db/classification.go, mintClassificationIdentifier).
use kanban_store.Prelude.{
  ℕ, suc, ◌≤◌, String, Bool, false, List, [], ◌∷◌, ◌++◌, ◌≡◌, sym, ap, ◌∙◌, arith, Bool-cases, inl,
  inr, ◌⊎◌, All, All-append, All-imp, IsUnique, IsUnique-insert,
}
use kanban_store.Prelude.Text.{◌=?◌, ◌<>◌, text_eq_iff}
use Prim.Native.Char.{char, code}
use text.Mathlib.TextLemmas.{cons-append, append_cancel_left}
use kanban_store.Prelude.Decimal.{six_digits, six_digits-injective}
use kanban_store.Classification.Records.{Identifier}
use kanban_store.Classification.Identifiers.{identifier_text}

pub identifier_text-injective :
    (kind : String) (m n : ℕ) → identifier_text kind m ≡ identifier_text kind n → m ≡ n
unfolding identifier_text
identifier_text-injective kind m n h = six_digits-injective m n (
    append_cancel_left "_" _ _
      (append_cancel_left kind _ _ (append_cancel_left "classification_" _ _ h)))

head_code : String → ℕ
head_code String.[] = 0
head_code (String.◌∷◌ c s) = code c

axis_is_no_value : (m n : ℕ) → identifier_text "axis" m ≡ identifier_text "value" n → ⊥
unfolding identifier_text head_code
axis_is_no_value m n h =
    let rest : "axis" <> ("_" <> six_digits m) ≡ "value" <> ("_" <> six_digits n) =
      append_cancel_left "classification_" _ _ h in
    let a : "axis" <> ("_" <> six_digits m)
        ≡ String.◌∷◌ (char 97 tt) ("xis" <> ("_" <> six_digits m)) =
      cons-append _ _ _ in
    let v : "value" <> ("_" <> six_digits n)
        ≡ String.◌∷◌ (char 118 tt) ("alue" <> ("_" <> six_digits n)) =
      cons-append _ _ _ in
    let codes : 97 ≡ 118 = ap head_code (sym a ∙ rest ∙ v) in absurd (omega (arith, codes))

abbrev pub IsKind : String → Type 0
IsKind kind = (kind ≡ "axis") ⊎ (kind ≡ "value")

-- The id is of the kind and the sequence, which is one of those handed out so far.
pub record IsIssued (last : ℕ) (i : Identifier) : Type 0 where
  pub kind : IsKind i.kind
  pub id : i.id ≡ identifier_text i.kind i.sequence
  pub sequence : i.sequence ≤ last

as_kinds :
    (k l k' l' : String) (m n : ℕ)
    → k ≡ k'
    → l ≡ l'
    → identifier_text k m ≡ identifier_text l n
    → identifier_text k' m ≡ identifier_text l' n
as_kinds k l k' l' m n a b e =
    sym (ap (λ x. identifier_text x m) a) ∙ e ∙ ap (λ x. identifier_text x n) b

texts_differ :
    (k l : String) (m n : ℕ)
    → IsKind k
    → IsKind l
    → identifier_text k m ≡ identifier_text l n
    → m ≡ n
texts_differ k l m n (inl a) (inl b) e =
    identifier_text-injective "axis" m n (as_kinds k l "axis" "axis" m n a b e)
texts_differ k l m n (inr a) (inr b) e =
    identifier_text-injective "value" m n (as_kinds k l "value" "value" m n a b e)
texts_differ k l m n (inl a) (inr b) e =
    absurd (axis_is_no_value m n (as_kinds k l "axis" "value" m n a b e))
texts_differ k l m n (inr a) (inl b) e =
    absurd (axis_is_no_value n m (sym (as_kinds k l "value" "axis" m n a b e)))

abbrev pub same_identifier : Identifier → Identifier → Bool
same_identifier i j = i.id =? j.id

new_differs :
    (last : ℕ) (i j : Identifier)
    → IsIssued last i
    → IsIssued (suc last) j
    → j.sequence ≡ suc last
    → same_identifier i j ≡ false
new_differs last i j h k e = elim (Bool-cases (i.id =? j.id)) [
  | inr other ↦ other
  | inl same ↦
      let ids : i.id ≡ j.id = (text_eq_iff i.id j.id).0 same in
      let texts : identifier_text i.kind i.sequence ≡ identifier_text j.kind j.sequence =
        sym h.id ∙ ids ∙ k.id in
      absurd (
        omega (
          arith,
          texts_differ i.kind j.kind i.sequence j.sequence h.kind k.kind texts,
          h.sequence,
          e,
        ))
]

-- The ids of a board's axes and values were handed out by the sequence, and none twice.
pub record IsRegistered (last : ℕ) (rows : List Identifier) : Type 0 where
  pub issued : All (IsIssued last) rows
  pub once : IsUnique same_identifier rows

pub IsRegistered-new :
    (last : ℕ) (rows : List Identifier) (j : Identifier)
    → IsIssued (suc last) j
    → j.sequence ≡ suc last
    → IsRegistered last rows
    → IsRegistered (suc last) (rows ++ (j ∷ []))
IsRegistered-new last rows j k e h = record {
  issued = All-append _ rows (j ∷ []) (All-imp rows (λ i x. later i x) h.issued) (k, tt);
  once =
      IsUnique-insert same_identifier rows j
        (All-imp rows (λ i x. new_differs last i j x k e) h.issued) h.once;
}
  where
    later : (i : Identifier) → IsIssued last i → IsIssued (suc last) i
    later i x = record { kind = x.kind; id = x.id; sequence = omega (arith, x.sequence) }
