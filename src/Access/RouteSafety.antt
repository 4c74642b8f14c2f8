-- ===== src/Access/RouteSafety.antt =====
-- What the route table lets through.
use kanban_store.Prelude.{
  ◌≤◌, String, false, List, [], ◌∷◌, none, some, if◌then◌else◌, ◌≡◌, inl, inr, refl, arith,
  Bool-cases, Option-cases, ◌≢◌,
}
use kanban_store.Prelude.Text.{◌=?◌, text_eq_iff}
use kanban_store.Access.Levels.{
  BoardAccessLevel, PrincipalBoardAccess, AccessRefusal, level_on, require_on_board,
  require_on_boards_of_card, access_view, access_edit, refuse_unseen,
}
use kanban_store.Access.CardLevel.{SomeAt, EveryAt, level_on_card_view_iff, level_on_card_all_iff}
use kanban_store.Access.Routes.{
  Request, StoreReads, allowed, refused, decision_of, member, route_of, BoardRule, needs, attaching,
  publishing, unknown_section, board_rule, apply_board_rule, require_on_card, authorize_card,
  authorize_member, authorize_route, classification_rule, cards_rule, authorize_request,
}

post_rule_floor :
    (m : String) (rest : List String) (l : BoardAccessLevel)
    → (classification_rule m rest) ≡ needs l
    → (access_view ≤ l) × ((m =? "GET") ≡ false → access_edit ≤ l)
unfolding classification_rule
post_rule_floor m [] l h = ground arith
post_rule_floor m (a ∷ []) l h = ground arith
post_rule_floor m (a ∷ b ∷ []) l h = ground arith
post_rule_floor m (a ∷ b ∷ c ∷ []) l h = ground arith
post_rule_floor m (a ∷ b ∷ c ∷ d ∷ r) l h = ground arith

cards_rule_floor :
    (m : String) (rest : List String) (l : BoardAccessLevel)
    → (cards_rule m rest) ≡ needs l
    → (access_view ≤ l) × ((m =? "GET") ≡ false → access_edit ≤ l)
unfolding cards_rule
cards_rule_floor m [] l h = ground arith
cards_rule_floor m (a ∷ r) l h = ground arith

-- Each rule for a board asks for can_view, and for can_edit where the method is not GET.
board_rule_floor :
    (m : String) (rest : List String) (l : BoardAccessLevel)
    → (board_rule m rest) ≡ needs l
    → (access_view ≤ l) × ((m =? "GET") ≡ false → access_edit ≤ l)
unfolding board_rule
board_rule_floor m [] l h = ground arith
board_rule_floor m (section ∷ more) l h =
    ground (arith, post_rule_floor m more l, cards_rule_floor m more l)

-- "/settings" is no path below "/api".
not_settings :
    (path b : String) (rest : List String)
    → route_of path ≡ member "boards" (b ∷ rest)
    → (path =? "/settings") ≡ false
unfolding route_of
not_settings path b rest h = elim (Bool-cases (path =? "/settings")) [
  | inl e ↦ absurd (settings_elsewhere ((text_eq_iff path "/settings").0 e))
  | inr e ↦ e
]
  where
    settings_elsewhere : path ≡ "/settings" → ⊥
    settings_elsewhere e = cc (rw e at h)

module _ (reads : StoreReads) (access : PrincipalBoardAccess) where
  board_allowed :
      (b : String) (n l : BoardAccessLevel)
      → decision_of (require_on_board access b l) ≡ allowed
      → n ≤ l
      → n ≤ level_on access b
  unfolding require_on_board
  board_allowed b n l h p = ground arith

  -- A rule that lets a request through has checked the board at the rule's level.
  rule_allowed :
      (b : String) (n : BoardAccessLevel) (rule : BoardRule)
      → ((l : BoardAccessLevel) → rule ≡ needs l → n ≤ l)
      → n ≤ access_edit
      → apply_board_rule reads access b rule ≡ allowed
      → n ≤ level_on access b
  unfolding apply_board_rule
  rule_allowed b n (needs l) floor e h = board_allowed b n l h (floor l refl)
  rule_allowed b n (attaching card) floor e h =
      elim (Option-cases (require_on_board access b access_edit)) [
        | inl clear ↦ board_allowed b n access_edit (rw clear) e
        | inr (refusal, shut) ↦ absurd (refused_attach refusal shut h)
      ]
    where
      refused_attach :
          (refusal : AccessRefusal)
          → require_on_board access b access_edit ≡ some refusal
          → apply_board_rule reads access b (attaching card) ≡ allowed
          → ⊥
      refused_attach refusal shut h = ground arith
  rule_allowed b n publishing floor e h = ground arith
  rule_allowed b n unknown_section floor e h = cc

  board_route_member :
      (r : Request) (b : String) (rest : List String)
      → route_of r.path ≡ member "boards" (b ∷ rest)
      → authorize_request reads access r ≡ allowed
      → apply_board_rule reads access b (board_rule r.method rest) ≡ allowed
  unfolding authorize_request authorize_route authorize_member
  board_route_member r b rest route h = ground arith

  -- A request under "/api/boards/{id}" that the table allows comes from a principal who can view
  -- that board, and who can edit it where the method is not GET.
  pub authorize_request-board_safe :
      (r : Request) (b : String) (rest : List String)
      → route_of r.path ≡ member "boards" (b ∷ rest)
      → authorize_request reads access r ≡ allowed
      → (if r.method =? "GET" then access_view else access_edit) ≤ level_on access b
  authorize_request-board_safe r b rest route h =
      let open_rule = board_route_member r b rest route h in
      let floor = board_rule_floor r.method rest in
      elim (Bool-cases (r.method =? "GET")) [
        | inl get ↦ rw get (
            rule_allowed b access_view (board_rule r.method rest) (λ l e. (floor l e).0)
              (omega arith) open_rule)
        | inr put ↦ rw put (
            rule_allowed b access_edit (board_rule r.method rest) (λ l e. (floor l e).1 put)
              (omega arith) open_rule)
      ]

  card_route_member :
      (r : Request) (card : String) (rest boards : List String)
      → route_of r.path ≡ member "cards" (card ∷ rest)
      → reads.boards_of_card card ≡ some boards
      → authorize_request reads access r ≡ allowed
      → require_on_boards_of_card access boards
          (if r.method =? "GET" then access_view else access_edit)
        ≡ none
  unfolding authorize_request authorize_route authorize_member authorize_card require_on_card
  card_route_member r card rest boards route placed h = ground arith

  -- A request under "/api/cards/{id}" that the table allows comes from a principal who can view one
  -- of the boards the card sits on.
  pub authorize_request-card_safe :
      (r : Request) (card : String) (rest boards : List String)
      → route_of r.path ≡ member "cards" (card ∷ rest)
      → reads.boards_of_card card ≡ some boards
      → authorize_request reads access r ≡ allowed
      → SomeAt access access_view boards
  unfolding require_on_boards_of_card
  authorize_request-card_safe r card rest boards route placed h =
      let clear = card_route_member r card rest boards route placed h in
      (level_on_card_view_iff access boards).0 (ground arith)

  -- A request under "/api/cards/{id}" with another method than GET that the table allows comes from a
  -- principal who can edit every board the card sits on, and there is one.
  pub authorize_request-card_write_safe :
      (r : Request) (card : String) (rest boards : List String)
      → route_of r.path ≡ member "cards" (card ∷ rest)
      → reads.boards_of_card card ≡ some boards
      → (r.method =? "GET") ≡ false
      → authorize_request reads access r ≡ allowed
      → (boards ≢ []) × EveryAt access access_edit boards
  unfolding require_on_boards_of_card
  authorize_request-card_write_safe r card rest boards route placed put h =
      let clear = card_route_member r card rest boards route placed h in
      (level_on_card_all_iff access access_edit boards (omega arith) (omega arith)).0 (ground arith)

  board_unseen :
      (b : String) (l : BoardAccessLevel)
      → level_on access b ≡ 0
      → require_on_board access b l ≡ some refuse_unseen
  unfolding require_on_board
  board_unseen b l h = ground arith

  rule_unseen :
      (b : String) (rule : BoardRule)
      → level_on access b ≡ 0
      → apply_board_rule reads access b rule ≡ refused refuse_unseen
  unfolding apply_board_rule
  rule_unseen b (needs l) h = rw (board_unseen b l h)
  rule_unseen b (attaching card) h = rw (board_unseen b access_edit h)
  rule_unseen b publishing h = ground arith
  rule_unseen b unknown_section h = refl

  -- Whatever a request asks of a board that the principal holds nothing on, and whatever the board
  -- holds, the answer is the same 404.
  pub authorize_request-board_unseen :
      (r : Request) (b : String) (rest : List String)
      → route_of r.path ≡ member "boards" (b ∷ rest)
      → level_on access b ≡ 0
      → authorize_request reads access r ≡ refused refuse_unseen
  unfolding authorize_request authorize_route authorize_member
  authorize_request-board_unseen r b rest route h =
      ground (arith, rule_unseen b (board_rule r.method rest) h, not_settings r.path b rest route)
