-- ===== src/Classification/Outcomes.antt =====
-- What holds of the records and of the answer whenever a call writes.
use kanban_store.Prelude.{Bool, true, false, Option, none, some, if◌then◌else◌, ◌≡◌, refl, subst}
use kanban_store.Classification.Records.{Records}
use kanban_store.Classification.Work.{WriteError, Outcome, stopped, wrote, write_immediately}
use kanban_store.Classification.Taxonomies.{or_stop, and_then}

module _ {A : Type 0} where
  abbrev pub OnWrite : (Records → A → Type 0) → Outcome A → Type 0
  OnWrite P (stopped r e) = Unit
  OnWrite P (wrote r a) = P r a

  pub OnWrite-write_immediately :
      (P : Records → A → Type 0) (r : Records) (o : Outcome A)
      → OnWrite P o
      → OnWrite P (write_immediately r o)
  unfolding write_immediately
  OnWrite-write_immediately P r (stopped r' e) h = tt
  OnWrite-write_immediately P r (wrote r' a) h = h

  pub OnWrite-if :
      (P : Records → A → Type 0) (b : Bool) (o p : Outcome A)
      → (b ≡ true → OnWrite P o)
      → (b ≡ false → OnWrite P p)
      → OnWrite P (if b then o else p)
  OnWrite-if P true o p h k = h refl
  OnWrite-if P false o p h k = k refl

  pub OnWrite-or_stop :
      {B : Type 0} (P : Records → A → Type 0) (r : Records) (e : WriteError) (o : Option B)
      (f : B → Outcome A)
      → ((b : B) → o ≡ some b → OnWrite P (f b))
      → OnWrite P (or_stop r e o f)
  OnWrite-or_stop P r e none f h = tt
  OnWrite-or_stop P r e (some b) f h = h b refl

  pub OnWrite-imp :
      (P Q : Records → A → Type 0) (o : Outcome A)
      → OnWrite P o
      → ((r : Records) (a : A) → P r a → Q r a)
      → OnWrite Q o
  OnWrite-imp P Q (stopped r e) h k = tt
  OnWrite-imp P Q (wrote r a) h k = k r a h

  pub OnWrite-wrote :
      (P : Records → A → Type 0) (o : Outcome A) (r : Records) (a : A)
      → OnWrite P o
      → o ≡ wrote r a
      → P r a
  OnWrite-wrote P o r a h e = subst (OnWrite P) e h

pub OnWrite-and_then :
    {A B : Type 0} (Q : Records → B → Type 0) (P : Records → A → Type 0) (o : Outcome B)
    (f : Records → B → Outcome A)
    → OnWrite Q o
    → ((r : Records) (b : B) → Q r b → OnWrite P (f r b))
    → OnWrite P (and_then o f)
OnWrite-and_then Q P (stopped r e) f h k = tt
OnWrite-and_then Q P (wrote r b) f h k = k r b h
