-- ===== src/Access/GrantLevel.antt =====
-- The level that a list of grants gives on a board, against the highest relation granted there.
use kanban_store.Prelude.{
  String, List, [], ◌∷◌, none, some, ltb, if◌then◌else◌, ◌≡◌, refl, arith, Option-cases, inl, inr,
}
use kanban_store.Prelude.Text.{◌=?◌, text_eq_iff}
use Prim.Native.Nat.{max}
use kanban_store.Access.Levels.{BoardAccessLevel, level_of_relation, level_at, set_level, level_on}
use kanban_store.Access.Grants.{BoardGrant, apply_grant, apply_grants}

-- The level of one grant on one board, 0 for another board or an unknown relation.
abbrev pub grant_level : BoardGrant → String → BoardAccessLevel
grant_level grant board_id =
    if grant.board_id =? board_id
    then elim (level_of_relation grant.relation) [ none ↦ 0 | some level ↦ level ]
    else 0

-- The highest level that any of the grants gives on the board.
abbrev pub highest_grant : List BoardGrant → String → BoardAccessLevel
highest_grant [] board_id = 0
highest_grant (grant ∷ grants) board_id =
    max (grant_level grant board_id) (highest_grant grants board_id)

level_at-set_level :
    (levels : List (String × BoardAccessLevel)) (b c : String) (level : BoardAccessLevel)
    → level_at (set_level levels b level) c ≡ (if b =? c then level else level_at levels c)
unfolding level_at set_level
level_at-set_level [] b c level = refl
level_at-set_level ((d, old) ∷ rest) b c level =
    ground
      (arith, level_at-set_level rest b c level, text_eq_iff d b, text_eq_iff d c, text_eq_iff b c)

level_at-raised :
    (levels : List (String × BoardAccessLevel)) (c b : String) (level : BoardAccessLevel)
    → level_at (if ltb (level_at levels c) level then set_level levels c level else levels) b
      ≡ max (level_at levels b) (if c =? b then level else 0)
level_at-raised levels c b level =
    ground (arith, level_at-set_level levels c b level, text_eq_iff c b)

level_at-apply_grant :
    (levels : List (String × BoardAccessLevel)) (grant : BoardGrant) (b : String)
    → level_at (apply_grant levels grant) b ≡ max (level_at levels b) (grant_level grant b)
unfolding apply_grant
level_at-apply_grant levels grant b = elim (Option-cases (level_of_relation grant.relation)) [
  | inl e ↦ rw (e, apply_grant) (ground arith)
  | inr (level, e) ↦ rw (e, apply_grant) (level_at-raised levels grant.board_id b level)
]

level_at-apply_grants :
    (levels : List (String × BoardAccessLevel)) (grants : List BoardGrant) (b : String)
    → level_at (apply_grants levels grants) b ≡ max (level_at levels b) (highest_grant grants b)
unfolding apply_grants
level_at-apply_grants levels [] b = omega arith
level_at-apply_grants levels (grant ∷ grants) b = omega (
  arith,
  level_at-apply_grants (apply_grant levels grant) grants b,
  level_at-apply_grant levels grant b,
)

-- The level that grant-store's grants give on a board is the highest level of the relations that
-- they hold there, in whatever order the grants come, and 0 on a board that no grant names.
pub level_on-apply_grants :
    (id : String) (grants : List BoardGrant) (b : String)
    → level_on (record { principal_id = id; levels = apply_grants [] grants }) b
      ≡ highest_grant grants b
unfolding level_on level_at
level_on-apply_grants id grants b = omega (arith, level_at-apply_grants [] grants b)
