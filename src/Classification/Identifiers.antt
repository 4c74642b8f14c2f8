-- ===== src/Classification/Identifiers.antt =====
-- The ids of axes and values: minting, and the ids that a request may carry (internal/db/classification.go,
-- mintClassificationIdentifier and checkTaxonomyIdentifiers).
use kanban_store.Prelude.{
  ℕ, suc, String, Bool, true, false, ◌&&◌, ◌||◌, not, List, [], ◌∷◌, ◌++◌, Option, none, some, map,
  if◌then◌else◌, keep, find,
}
use kanban_store.Prelude.Text.{◌=?◌, ◌<>◌, contains}
use kanban_store.Prelude.Decimal.{six_digits}
use kanban_store.Classification.Records.{Records, Identifier, Taxonomy, TaxonomyAxis, TaxonomyValue}
use kanban_store.Classification.Work.{invalid, WriteError, refuse}

unfoldable pub identifier_text : String → ℕ → String
identifier_text kind sequence = "classification_" <> (kind <> ("_" <> six_digits sequence))

-- The sequence counts on from the last one there ever was, also past rows that were deleted.
unfoldable pub mint_identifier : ℕ → String → String → String → Records → Records × String
unfolding identifier_text
mint_identifier now kind board_id axis_id r =
    let sequence = suc r.last_identifier in
    let id = identifier_text kind sequence in
    (
      record r {
        last_identifier = sequence;
        identifiers =
            r.identifiers
            ++ (record {
              sequence = sequence;
              id = id;
              kind = kind;
              board_id = board_id;
              axis_id = axis_id;
              created_at = now;
            }
                ∷ []);
      },
      id,
    )

unfoldable pub mint_value : ℕ → String → String → TaxonomyValue → Records → Records × TaxonomyValue
mint_value now board_id axis_id v r =
    let minted = mint_identifier now "value" board_id axis_id r in
    if v.id =? "" then (minted.0, record v { id = minted.1 }) else (r, v)

unfoldable pub mint_values :
    ℕ → String → String → List TaxonomyValue → Records → Records × List TaxonomyValue
mint_values now board_id axis_id [] r = (r, [])
mint_values now board_id axis_id (v ∷ values) r =
    let (r', v') = mint_value now board_id axis_id v r in
    let (r'', values') = mint_values now board_id axis_id values r' in (r'', v' ∷ values')

unfoldable pub mint_axis_id : ℕ → String → TaxonomyAxis → Records → Records × String
mint_axis_id now board_id a r =
    let minted = mint_identifier now "axis" board_id "" r in
    if a.id =? "" then minted else (r, a.id)

unfoldable pub mint_axes : ℕ → String → List TaxonomyAxis → Records → Records × List TaxonomyAxis
mint_axes now board_id [] r = (r, [])
mint_axes now board_id (a ∷ axes) r =
    let (r', id) = mint_axis_id now board_id a r in
    let (r'', values) = mint_values now board_id id a.values r' in
    let (r''', axes') = mint_axes now board_id axes r'' in
    (r''', record a { id = id; values = values } ∷ axes')

-- `known[id]` of this board
unfoldable pub known : List Identifier → String → String → Option Identifier
known rows board_id id = find (λ i. i.board_id =? board_id && i.id =? id) rows

-- The answer of the two tests that an id of a value has to pass
pub data ValueCheck : Type 0 where
  fine unknown moved : ValueCheck

abbrev pub known_value : String → Option Identifier → ValueCheck
known_value axis_id none = unknown
known_value axis_id (some entry) =
    if entry.kind =? "value"
    then (if axis_id =? "" || not (entry.axis_id =? axis_id) then moved else fine)
    else unknown

unfoldable pub check_value : List Identifier → String → String → TaxonomyValue → ValueCheck
check_value rows board_id axis_id v =
    if v.id =? "" then fine else known_value axis_id (known rows board_id v.id)

abbrev pub then_values : ValueCheck → Option WriteError → Option WriteError
then_values fine rest = rest
then_values unknown rest = some (refuse invalid "unknown_identifier")
then_values moved rest = some (refuse invalid "value_moved_axis")

unfoldable pub check_values :
    List Identifier → String → String → List TaxonomyValue → Option WriteError
check_values rows board_id axis_id [] = none
check_values rows board_id axis_id (v ∷ values) =
    then_values (check_value rows board_id axis_id v) (check_values rows board_id axis_id values)

abbrev is_axis : Option Identifier → Bool
is_axis none = false
is_axis (some entry) = entry.kind =? "axis"

abbrev pub or_else : Option WriteError → Option WriteError → Option WriteError
or_else none rest = rest
or_else (some e) rest = some e

unfoldable pub check_axes : List Identifier → String → List TaxonomyAxis → Option WriteError
check_axes rows board_id [] = none
check_axes rows board_id (a ∷ axes) =
    let rest = check_axes rows board_id axes in
    if a.id =? "" || is_axis (known rows board_id a.id)
    then or_else (check_values rows board_id a.id a.values) rest
    else some (refuse invalid "unknown_identifier")

abbrev pub value_ids : List TaxonomyValue → List String
value_ids values = map (λ v. v.id) values

-- The ids of the axes and of their values, in order
unfoldable pub entry_ids : List TaxonomyAxis → List String
entry_ids [] = []
entry_ids (a ∷ axes) = a.id ∷ (value_ids a.values ++ entry_ids axes)

abbrev pub not_empty : String → Bool
not_empty id = not (id =? "")

-- `sent`: the axes' ids, and the ids that the values have
unfoldable pub sent_ids : List TaxonomyAxis → List String
sent_ids [] = []
sent_ids (a ∷ axes) = a.id ∷ (keep not_empty (value_ids a.values) ++ sent_ids axes)

unfoldable pub all_sent : List String → List String → Bool
all_sent sent [] = true
all_sent sent (id ∷ ids) = contains sent id && all_sent sent ids

abbrev pub left_out : List TaxonomyAxis → Option Taxonomy → Option WriteError
left_out axes none = none
left_out axes (some old) =
    if all_sent (sent_ids axes) (entry_ids old.axes)
    then none
    else some (refuse invalid "identifier_left_out")

unfoldable pub some_empty : List String → Bool
some_empty [] = false
some_empty (id ∷ ids) = id =? "" || some_empty ids

pub data IdentifierCheck : Type 0 where
  unfit : WriteError → IdentifierCheck
  fit : (needs_minting : Bool) → IdentifierCheck

abbrev pub checked : Bool → Option WriteError → IdentifierCheck
checked needs_minting none = fit needs_minting
checked needs_minting (some e) = unfit e

unfoldable pub check_taxonomy_identifiers :
    List Identifier → String → Taxonomy → Option Taxonomy → IdentifierCheck
check_taxonomy_identifiers rows board_id t current =
    checked (some_empty (entry_ids t.axes))
      (or_else (check_axes rows board_id t.axes) (left_out t.axes current))
