-- ===== src/Playbooks.antt =====
-- cpkit/playbooks/types.py, cpkit/playbooks/repository.py and the table cpkit.playbooks of
-- cpkit/resources/ddl.sql: versioned playbooks. Times are microseconds since an epoch; a version is
-- rounded to a second by its column. Bytes are texts, and texts compare by code points. A statement
-- that raises has had no effect.
pub mod Service
pub mod Formats
pub mod Ordered
pub mod Selected
pub mod Default
pub mod Reads
pub mod Undecided
pub mod Protected
pub mod Bypassed
pub mod Saved
pub mod Missing
mod Examples
use cpkit.Base.{
  ℕ, ◌+◌, ◌*◌, ◌/◌, suc, String, Bool, true, false, ◌&&◌, ◌||◌, Option, none, some, List, [], ◌∷◌,
  ◌++◌, map, ltb, ◌==◌, str_eq, if◌then◌else◌, any, where_rows, first_row, update_rows, delete_rows,
  order_by, limit_one,
}
use cpkit.Base.Exec.{Result, ok, err, Exec, pure, raise, gets, catch, ◌>>=◌, ◌>>◌}
use cpkit.Base.Texts.{sorted}
use cpkit.Errors.{
  DatabaseError, unique_violation, other_database, RepositoryError, translate_database_error,
  ServiceError,
}
use cpkit.Jobs.Types.{seconds}

-- Playbook; PlaybookOverview is the same without the content.
pub record Playbook : Type 0 where
  pub name : String
  pub version : ℕ
  pub default_version : Option ℕ
  pub created_at : ℕ
  pub created_by : Option String
  pub updated_by : Option String
  pub content : Option String

-- The exceptions: of the repository, of the service, of an attribute of None, and of a content that
-- cannot be decoded.
pub data PlaybookFailure : Type 0 where
  repository : RepositoryError → PlaybookFailure
  service : ServiceError → PlaybookFailure
  attribute_of_none undecodable : PlaybookFailure

pub data Call : Type 0 where
  list_names list_versions get_version get_default create set_default delete : Call

-- The clock, what the standard library makes of a time and of bytes, the server's reading of a time
-- in a text, what each statement may raise, and what the hook that is configured does, if one is.
pub record Env : Type 0 where
  pub now : ℕ
  pub strftime : ℕ → String
  pub parse_time : String → Option ℕ
  pub compress : String → String
  pub decompress : String → Option String
  pub fault : Call → Option DatabaseError
  pub hook : Option (Result PlaybookFailure (Unit {0}))

abbrev pub Query : Type 0 → Type 0
Query A = Exec PlaybookFailure (List Playbook) A

abbrev pub database : DatabaseError → PlaybookFailure
database e = repository (translate_database_error (λ _. false) e none)

-- to the nearest second, as TIMESTAMPTZ(0) rounds
abbrev pub whole_second : ℕ → ℕ
whole_second t = seconds ((t + 500000) / 1000000)

abbrev pub is_named : String → Playbook → Bool
is_named name r = str_eq r.name name

-- (name, version) = (…, …)
abbrev pub is_version : String → ℕ → Playbook → Bool
is_version name version r = str_eq r.name name && (r.version == version)

-- version DESC
abbrev pub is_newer : Playbook → Playbook → Bool
is_newer a b = ltb b.version a.version

-- default_version, a null before every time
abbrev pub rank_of : Option ℕ → ℕ
rank_of none = 0
rank_of (some d) = suc d

abbrev pub default_rank : Playbook → ℕ
default_rank r = rank_of r.default_version

-- default_version DESC NULLS LAST, version DESC
abbrev pub defaults_first : Playbook → Playbook → Bool
defaults_first a b =
    ltb (default_rank b) (default_rank a) || ((default_rank a == default_rank b) && is_newer a b)

module _ (env : Env) where
  abbrev pub statement_or : {A : Type 0} → Option DatabaseError → Query A → Query A
  statement_or none stmt = stmt
  statement_or (some e) stmt = raise (database e)

  unfoldable pub run_call : {A : Type 0} → Call → Query A → Query A
  run_call c stmt = statement_or (env.fault c) stmt

  -- the server rejects a text that is no time
  abbrev pub at_time : {A : Type 0} → Option ℕ → (ℕ → Query A) → Query A
  at_time none stmt = raise (database other_database)
  at_time (some t) stmt = stmt t

  unfoldable pub list_playbook_names : Query (List String)
  list_playbook_names = run_call list_names (gets (λ rows. sorted (map (λ r. r.name) rows)))

  unfoldable pub get_playbook : String → String → Query (Option Playbook)
  get_playbook name version =
      run_call get_version
        (at_time (env.parse_time version) λ t. gets (first_row (is_version name t)))

  unfoldable pub get_default_playbook : String → Query (Option Playbook)
  get_default_playbook name =
      run_call get_default
        (gets (λ rows. limit_one (order_by defaults_first (where_rows (is_named name) rows))))

  unfoldable pub list_playbook_versions : String → Query (List Playbook)
  list_playbook_versions name =
      run_call list_versions (gets (λ rows. order_by is_newer (where_rows (is_named name) rows)))

  abbrev pub new_playbook : String → String → String → Playbook
  new_playbook name content created_by = record {
    name = name;
    version = whole_second env.now;
    default_version = none;
    created_at = env.now;
    created_by = some created_by;
    updated_by = none;
    content = some content;
  }

  -- INSERT … RETURNING *, with the primary key (name, version)
  abbrev pub insert_playbook : Playbook → Query Playbook
  insert_playbook row rows =
      if any (is_version row.name row.version) rows
      then (err (database unique_violation), rows)
      else (ok row, rows ++ row ∷ [])

  unfoldable pub create_playbook : String → String → String → Query Playbook
  create_playbook name content created_by =
      run_call create (insert_playbook (new_playbook name content created_by))

  abbrev pub as_default : String → Playbook → Playbook
  as_default updated_by r = record r {
    default_version = some env.now;
    updated_by = some updated_by;
  }

  abbrev pub update_default : String → String → ℕ → Query (Unit {0})
  update_default name updated_by t rows =
      (ok tt, update_rows (is_version name t) (as_default updated_by) rows)

  unfoldable pub set_default_playbook : String → String → String → Query (Unit {0})
  set_default_playbook name version updated_by =
      run_call set_default (at_time (env.parse_time version) (update_default name updated_by))

  abbrev pub remove_version : String → ℕ → Query (Unit {0})
  remove_version name t rows = (ok tt, delete_rows (is_version name t) rows)

  unfoldable pub delete_playbook : String → String → Query (Unit {0})
  delete_playbook name version =
      run_call delete (at_time (env.parse_time version) (remove_version name))
