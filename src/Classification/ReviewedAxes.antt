-- ===== src/Classification/ReviewedAxes.antt =====
-- The axes that reviewedValues sets (internal/db/classification.go).
use kanban_store.Prelude.{
  String, Bool, true, false, ◌&&◌, ◌||◌, List, [], ◌∷◌, ◌++◌, Option, none, some, ◌==◌,
  if◌then◌else◌, is_some, ◌≡◌, refl, subst, arith, length,
}
use kanban_store.Prelude.Text.{◌=?◌, contains, trim_space}
use kanban_store.Classification.Records.{
  Selections, Taxonomy, TaxonomyAxis, ReviewRequest, Revision, PolicyContent,
}
use kanban_store.Classification.Work.{Messages}
use kanban_store.Classification.Reviews.{
  lookup, ReviewedValues, unfit, values, AxisCheck, axis_selection, given_values, action_values,
  assisted_axis, axis_values, and_values, all_axis_values, unless_rejected, reviewed_values_of,
  with_action, reviewed_values, corrections_fit, action_of, Action, accept, correct, reject,
}

lookup-append :
    (xs ys : Selections) (a : String)
    → is_some (lookup (xs ++ ys) a) ≡ (is_some (lookup xs a) || is_some (lookup ys a))
unfolding lookup
lookup-append [] ys a = refl
lookup-append ((axis, ids) ∷ xs) ys a = ground (arith, lookup-append xs ys a)

-- The axes that a loop over axis ids has set are those it has walked.
abbrev SetsOnly : List String → Selections → ReviewedValues → Type 0
SetsOnly ids out (unfit e) = Unit
SetsOnly ids out (values new) =
    (a : String) → is_some (lookup new a) ≡ true → (is_some (lookup out a) || contains ids a) ≡ true

one_axis : (id : String) (ids : List String) → SetsOnly (id ∷ []) [] (values ((id, ids) ∷ []))
unfolding lookup contains
one_axis id ids a h = ground arith

SetsOnly-if :
    (b : Bool) (ids : List String) (x y : ReviewedValues)
    → SetsOnly ids [] x
    → SetsOnly ids [] y
    → SetsOnly ids [] (if b then x else y)
SetsOnly-if true ids x y h k = h
SetsOnly-if false ids x y h k = k

given-SetsOnly :
    (c : AxisCheck) (axis : TaxonomyAxis) (id : String) (o : Option (List String))
    → SetsOnly (id ∷ []) [] (given_values c axis id o)
unfolding axis_selection
given-SetsOnly c axis id none = tt
given-SetsOnly c axis id (some ids) =
    SetsOnly-if (c.msg.validate_axis_selection axis ids) _ _ _
      (SetsOnly-if (axis.required && length ids == 0) _ _ _ tt (one_axis id ids)) tt

action-SetsOnly :
    (c : AxisCheck) (action : Action) (axis : TaxonomyAxis) (id : String)
    → SetsOnly (id ∷ []) [] (action_values c action axis id)
unfolding action_values
action-SetsOnly c accept axis id = given-SetsOnly c axis id (lookup c.selections id)
action-SetsOnly c correct axis id = given-SetsOnly c axis id (lookup c.request.corrections id)
action-SetsOnly c reject axis id = one_axis id []

axis-SetsOnly :
    (c : AxisCheck) (id : String) (o : Option TaxonomyAxis)
    → SetsOnly (id ∷ []) [] (assisted_axis c id o)
unfolding assisted_axis
axis-SetsOnly c id none = tt
axis-SetsOnly c id (some axis) = SetsOnly-if axis.archived _ _ _ tt (
    SetsOnly-if (c.msg.mode_of c.policy id =? c.msg.mode_assisted) _ _ _
      (action-SetsOnly c c.action axis id) tt)

more-SetsOnly :
    (id : String) (ids : List String) (out one : Selections) (w : ReviewedValues)
    → SetsOnly (id ∷ []) [] (values one)
    → SetsOnly ids (out ++ one) w
    → SetsOnly (id ∷ ids) out w
unfolding lookup contains
more-SetsOnly id ids out one (unfit e) h k = tt
more-SetsOnly id ids out one (values new) h k =
    λ a there. ground (arith, k a there, h a, lookup-append out one a)

then-SetsOnly :
    (c : AxisCheck) (id : String) (ids : List String) (out : Selections) (v : ReviewedValues)
    → SetsOnly (id ∷ []) [] v
    → ((one : Selections) → SetsOnly ids (out ++ one) (all_axis_values c ids (out ++ one)))
    → SetsOnly (id ∷ ids) out (and_values v (λ one. all_axis_values c ids (out ++ one)))
then-SetsOnly c id ids out (unfit e) h k = tt
then-SetsOnly c id ids out (values one) h k =
    more-SetsOnly id ids out one (all_axis_values c ids (out ++ one)) h (k one)

all-SetsOnly :
    (c : AxisCheck) (ids : List String) (out : Selections)
    → SetsOnly ids out (all_axis_values c ids out)
unfolding all_axis_values axis_values lookup contains
all-SetsOnly c [] out = λ a h. ground arith
all-SetsOnly c (id ∷ ids) out =
    then-SetsOnly c id ids out (axis_values c out id)
      (SetsOnly-if (is_some (lookup out id)) (id ∷ []) _ _ tt
        (axis-SetsOnly c id (c.msg.axis_by_id c.taxonomy id)))
      (λ one. all-SetsOnly c ids (out ++ one))

rejected-SetsOnly :
    (action : Action) (ids : List String) (v : ReviewedValues)
    → SetsOnly ids [] v
    → SetsOnly ids [] (unless_rejected action v)
unfolding lookup
rejected-SetsOnly accept ids v h = h
rejected-SetsOnly correct ids v h = h
rejected-SetsOnly reject ids (unfit e) h = tt
rejected-SetsOnly reject ids (values new) h = λ a there. absurd (ground arith)

action_of-SetsOnly :
    (msg : Messages) (q : ReviewRequest) (s : Selections) (t : Taxonomy)
    (p : Option (Revision PolicyContent)) (o : Option Action)
    → SetsOnly q.axis_ids [] (with_action msg q s t p o)
unfolding reviewed_values_of
action_of-SetsOnly msg q s t p none = tt
action_of-SetsOnly msg q s t p (some action) =
    SetsOnly-if (length q.axis_ids == 0) q.axis_ids _ _ tt (
      SetsOnly-if (corrections_fit action q) q.axis_ids _ _
        (rejected-SetsOnly action q.axis_ids _ (all-SetsOnly _ q.axis_ids [])) tt)

pub reviewed_values-axes :
    (msg : Messages) (q : ReviewRequest) (s : Selections) (t : Taxonomy)
    (p : Option (Revision PolicyContent)) (new : Selections) (a : String)
    → reviewed_values msg q s t p ≡ values new
    → is_some (lookup new a) ≡ true
    → contains q.axis_ids a ≡ true
unfolding reviewed_values lookup
reviewed_values-axes msg q s t p new a h there =
    subst (SetsOnly q.axis_ids []) h
      (SetsOnly-if (trim_space q.idempotency_key =? "") q.axis_ids _ _ tt
        (action_of-SetsOnly msg q s t p (action_of q.action)))
      a there
