-- ===== src/Classification/Register.antt =====
-- A board's taxonomy and its policy as registers that keep their whole history
-- (internal/db/classification.go, SetBoardTaxonomy and SetBoardClassificationPolicy).
use kanban_store.Prelude.{
  ℕ, String, true, List, [], ◌∷◌, ◌++◌, Option, none, some, ◌≡◌, refl, sym, ◌∙◌, subst, Bool-cases,
  inl, inr, ◌⊎◌, length,
}
use kanban_store.Prelude.Text.{◌=?◌}
use kanban_store.Classification.Records.{Records, Taxonomy, AxisPolicies, Revision, TaxonomyContent}
use kanban_store.Classification.Work.{wrote, Settings}
use kanban_store.Classification.Revisions.{
  current_taxonomy_revision, current_policy, number, current, or_zero,
}
use kanban_store.Classification.Identifiers.{mint_identifier}
use kanban_store.Classification.Taxonomies.{TaxonomyCall, TaxonomyUpdateResult, set_board_taxonomy}
use kanban_store.Classification.Policies.{set_board_classification_policy, insert_policy_revision}
use kanban_store.Classification.Outcomes.{OnWrite-wrote}
use kanban_store.Classification.TaxonomyEffects.{
  Minted, TaxonomyEffect, kept, added, no_more, one_more, added_taxonomy, taxonomy-Effect,
}
use kanban_store.Classification.PolicyEffects.{PolicyEffect, PolicyWritten, policy-Effect}
use kanban_store.Classification.Counted.{
  IsCounted, history, history-length, history-added, history-other,
}

-- A write to a register at version `n`, which is the length of its history: the history is kept, or
-- one item is put at its end.
pub data RegisterWrite {A : Type 0} (n : ℕ) (h : List A) : List A → Type 0 where
  same : length h ≡ n → RegisterWrite n h h
  next : (a : A) → length h ≡ n → RegisterWrite n h (h ++ (a ∷ []))

-- A write to the register of one of the boards
pub record BoardWrite {A : Type 0} (board_id : String) (n : ℕ) (before after : List (Revision A))
    : Type 0 where
  pub written : RegisterWrite n (history before board_id) (history after board_id)
  pub others :
      (other : String) → ((board_id =? other) ≡ true) ⊎ (history after other ≡ history before other)

BoardWrite-kept :
    {A : Type 0} (rows : List (Revision A)) (board_id : String) (n : ℕ)
    → IsCounted rows
    → n ≡ number (current rows board_id)
    → BoardWrite board_id n rows rows
BoardWrite-kept rows board_id n counted e = record {
  written = same (history-length rows board_id counted ∙ sym e);
  others = λ other. inr refl;
}

BoardWrite-added :
    {A : Type 0} (rows : List (Revision A)) (r : Revision A) (n : ℕ)
    → IsCounted rows
    → n ≡ number (current rows r.board_id)
    → BoardWrite r.board_id n rows (rows ++ (r ∷ []))
BoardWrite-added rows r n counted e = record {
  written =
      subst (RegisterWrite n (history rows r.board_id)) (sym (history-added rows r))
        (next r.content (history-length rows r.board_id counted ∙ sym e));
  others = λ other. elim (Bool-cases (r.board_id =? other)) [
    | inl own ↦ inl own
    | inr apart ↦ inr (history-other rows r other apart)
  ];
}

or_zero-number :
    (board_id : String) (o : Option (Revision TaxonomyContent))
    → (or_zero board_id o).revision ≡ number o
or_zero-number board_id none = refl
or_zero-number board_id (some r) = refl

pub current-number :
    (rows : List (Revision TaxonomyContent)) (board_id : String)
    → (current_taxonomy_revision rows board_id).revision ≡ number (current rows board_id)
unfolding current_taxonomy_revision
current-number rows board_id = or_zero-number board_id (current rows board_id)

pub Minted-taxonomies : (r m : Records) → Minted r m → m.taxonomies ≡ r.taxonomies
unfolding mint_identifier
Minted-taxonomies r m no_more = refl
Minted-taxonomies r m (one_more now kind board_id axis_id k h) = Minted-taxonomies r _ h

effect-BoardWrite :
    (c : TaxonomyCall) (n : ℕ) (r r' : Records)
    → IsCounted r.taxonomies
    → n ≡ number (current r.taxonomies c.board_id)
    → TaxonomyEffect c r r'
    → BoardWrite c.board_id n r.taxonomies r'.taxonomies
effect-BoardWrite c n r r' counted e kept = BoardWrite-kept r.taxonomies c.board_id n counted e
effect-BoardWrite c n r r' counted e (added m t digest h) =
    rw (Minted-taxonomies r m h)
      (BoardWrite-added r.taxonomies (added_taxonomy c r t digest) n counted e)

-- Where the revisions of each board are counted from 1, a write of SetBoardTaxonomy that expects
-- revision `n` is a write at version `n` to a register that keeps its whole history: the board has
-- had `n` taxonomies, and has now the same ones, or these and one more at the end. The histories of
-- the other boards stay as they were.
pub set_board_taxonomy-BoardWrite :
    (c : TaxonomyCall) (n : ℕ) (t : Option Taxonomy) (r r' : Records) (x : TaxonomyUpdateResult)
    → IsCounted r.taxonomies
    → set_board_taxonomy c n t r ≡ wrote r' x
    → BoardWrite c.board_id n r.taxonomies r'.taxonomies
set_board_taxonomy-BoardWrite c n t r r' x counted e =
    let (effect, at) = OnWrite-wrote _ _ r' x (taxonomy-Effect c r n t) e in
    effect-BoardWrite c n r r' counted (at ∙ current-number r.taxonomies c.board_id) effect

policy-BoardWrite :
    (c : TaxonomyCall) (n : ℕ) (r r' : Records)
    → IsCounted r.policies
    → n ≡ number (current r.policies c.board_id)
    → PolicyEffect c r r'
    → BoardWrite c.board_id n r.policies r'.policies
unfolding insert_policy_revision
policy-BoardWrite c n r r' counted e PolicyEffect.kept =
    BoardWrite-kept r.policies c.board_id n counted e
policy-BoardWrite c n r r' counted e (PolicyEffect.added policies k) =
    BoardWrite-added r.policies _ n counted e

-- Where the revisions of each board are counted from 1, a write of SetBoardClassificationPolicy that
-- expects revision `n`, 0 for a board that has none, is a write at version `n` to a register that
-- keeps its whole history: the board has had `n` policies, and has now the same ones, or these and
-- one more at the end. The histories of the other boards stay as they were.
pub set_board_classification_policy-BoardWrite :
    (c : TaxonomyCall) (n : ℕ) (policies : Option AxisPolicies) (r r' : Records) (x : Settings)
    → IsCounted r.policies
    → set_board_classification_policy c n policies r ≡ wrote r' x
    → BoardWrite c.board_id n r.policies r'.policies
unfolding current_policy
set_board_classification_policy-BoardWrite c n policies r r' x counted e =
    let (effect, at) =
      OnWrite-wrote (PolicyWritten c n r) _ r' x (policy-Effect c r n policies) e in
    policy-BoardWrite c n r r' counted at effect
