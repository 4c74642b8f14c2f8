-- ===== src/Boards/Settings.antt =====
-- A board's settings and UpdateBoard (internal/db/db.go, UpdateBoardIfVersion). The call reads the
-- board, changes what it read and writes it where the row still has the version that was read: the
-- reading and the writing are two functions, between which another call may write.
use kanban_store.Prelude.{
  ℕ, suc, String, Bool, true, false, ◌&&◌, not, List, [], ◌∷◌, Option, none, some, ltb, ◌==◌,
  if◌then◌else◌, find, update_where, is_some,
}
use kanban_store.Prelude.Text.{◌=?◌, text_lt}
use kanban_store.Prelude.Sort.{sort_stable}

pub record ClassifierConfig : Type 0 where
  pub vocabulary : String
  pub mail_account_ids : List String
  pub hold_new_cards : Bool
  pub organization_id : String

pub record PoolSetting : Type 0 where
  pub principal_id : String
  pub strategy : String

-- The working week; `none` is a nil list of holidays.
pub record HoursSetting : Type 0 where
  pub tzid : String
  pub days : List String
  pub start : String
  pub stop : String
  pub holidays : Option (List String)

pub record BoardRow : Type 0 where
  pub id : String
  pub name : String
  pub description : String
  pub archived : Bool
  pub business_hours : Option HoursSetting
  pub default_principal_id : String
  pub default_agent_id : String
  pub default_instance_id : String
  pub default_bundle_id : String
  pub classifier : Option ClassifierConfig
  pub assignment_pool : Option PoolSetting
  pub organization_id : String
  pub updated_at : ℕ

pub record UpdateBoardRequest : Type 0 where
  pub name : Option String
  pub description : Option String
  pub archived : Option Bool
  pub business_hours : Option HoursSetting
  pub default_principal_id : Option String
  pub default_agent_id : Option String
  pub default_instance_id : Option String
  pub default_bundle_id : Option String
  pub classifier : Option ClassifierConfig
  pub assignment_pool : Option PoolSetting
  pub organization_id : Option String

abbrev is_empty : List String → Bool
is_empty [] = true
is_empty (x ∷ xs) = false

-- Cleared of ClassifierConfig and of AssignmentPool
unfoldable pub classifier_cleared : ClassifierConfig → Bool
classifier_cleared c =
    c.vocabulary =? ""
    && is_empty c.mail_account_ids
    && not c.hold_new_cards
    && c.organization_id =? ""

unfoldable pub pool_cleared : PoolSetting → Bool
pool_cleared p = p.principal_id =? "" && p.strategy =? ""

abbrev pub new_or_old : {A : Type 0} → Option A → A → A
new_or_old none old = old
new_or_old (some new) old = new

-- The holidays of a request that leaves them out are those stored.
unfoldable pub holidays_of : Option HoursSetting → Option (List String) → List String
holidays_of old (some holidays) = holidays
holidays_of none none = []
holidays_of (some hours) none = elim hours.holidays [ none ↦ [] | some holidays ↦ holidays ]

abbrev none_if_empty : List String → Option (List String)
none_if_empty [] = none
none_if_empty (x ∷ xs) = some (x ∷ xs)

unfoldable pub hours_of : Option HoursSetting → Option HoursSetting → Option HoursSetting
hours_of old none = old
hours_of old (some new) =
    if new.tzid =? ""
    then none
    else some (record {
      tzid = new.tzid;
      days = new.days;
      start = new.start;
      stop = new.stop;
      holidays = none_if_empty (sort_stable text_lt (holidays_of old new.holidays));
    })

unfoldable pub classifier_of :
    Option ClassifierConfig → Option ClassifierConfig → Option ClassifierConfig
classifier_of old none = old
classifier_of old (some new) = if classifier_cleared new then none else some new

unfoldable pub pool_of : Option PoolSetting → Option PoolSetting → Option PoolSetting
pool_of old none = old
pool_of old (some new) = if pool_cleared new then none else some new

-- The new version: now, or one nanosecond after the version that was read.
unfoldable pub next_version : ℕ → ℕ → ℕ
next_version now previous = if ltb previous now then now else suc previous

unfoldable pub changed_board : ℕ → UpdateBoardRequest → BoardRow → BoardRow
changed_board now req b = record {
  id = b.id;
  name = new_or_old req.name b.name;
  description = new_or_old req.description b.description;
  archived = new_or_old req.archived b.archived;
  business_hours = hours_of b.business_hours req.business_hours;
  default_principal_id = new_or_old req.default_principal_id b.default_principal_id;
  default_agent_id = new_or_old req.default_agent_id b.default_agent_id;
  default_instance_id = new_or_old req.default_instance_id b.default_instance_id;
  default_bundle_id = new_or_old req.default_bundle_id b.default_bundle_id;
  classifier = classifier_of b.classifier req.classifier;
  assignment_pool = pool_of b.assignment_pool req.assignment_pool;
  organization_id = new_or_old req.organization_id b.organization_id;
  updated_at = next_version now b.updated_at;
}

pub data UpdateRefusal : Type 0 where
  no_such_board board_changed : UpdateRefusal

-- What is to be written, and the version that it was made from.
pub record BoardWrite : Type 0 where
  pub previous : ℕ
  pub board : BoardRow

pub data Prepared : Type 0 where
  refused_update : UpdateRefusal → Prepared
  prepared : BoardWrite → Prepared

unfoldable pub prepare_found : ℕ → UpdateBoardRequest → Option ℕ → BoardRow → Prepared
prepare_found now req none b =
    prepared (record { previous = b.updated_at; board = changed_board now req b })
prepare_found now req (some expected) b =
    if expected == b.updated_at
    then prepared (record { previous = b.updated_at; board = changed_board now req b })
    else refused_update board_changed

-- Up to the UPDATE.
unfoldable pub prepare_update :
    ℕ → String → UpdateBoardRequest → Option ℕ → List BoardRow → Prepared
prepare_update now id req expected rows = elim (find (λ b. b.id =? id) rows) [
  | none ↦ refused_update no_such_board
  | some b ↦ prepare_found now req expected b
]

-- `WHERE id=? AND updated_at=?`
abbrev pub is_version : String → ℕ → BoardRow → Bool
is_version id version b = b.id =? id && b.updated_at == version

-- The UPDATE, and the count of the rows it changed; `none` is ErrBoardChanged.
unfoldable pub commit_update : BoardWrite → List BoardRow → Option (List BoardRow)
commit_update w rows =
    if is_some (find (is_version w.board.id w.previous) rows)
    then some (update_where (is_version w.board.id w.previous) (λ b. w.board) rows)
    else none
