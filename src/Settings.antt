-- ===== src/Settings.antt =====
-- cpkit/settings: the settings table with its repository, cpkit/settings/repository.py, and the
-- settings service, cpkit/settings/service.py. Keys, of an enumeration of texts, are texts. What each
-- statement raises is a parameter, as is the clock of the database.
pub mod Service
pub mod Stored
mod Examples
use cpkit.Base.{
  ℕ, String, Bool, false, Option, none, some, List, str_eq, if◌then◌else◌, map, first_row,
  update_rows, order_by,
}
use cpkit.Base.Exec.{Result, ok, err, Exec, pure, raise, lift, gets, catch, ◌>>=◌, ◌>>◌}
use cpkit.Base.Texts.{followed_by, is_before}
use cpkit.Errors.{
  DatabaseError, RepositoryError, ServiceError, ServiceKind, Messages, no_messages, service_error,
  from_repository_error, translate_database_error,
}

-- a row of the table, and SettingRecord, whose default_value is a text: a row in which that column
-- is NULL cannot be read as one
pub record Setting : Type 0 where
  pub key : String
  pub value : Option String
  pub default_value : String
  pub value_type : String
  pub category : String
  pub is_secret : Bool
  pub description : String
  pub updated_at : ℕ
  pub updated_by : Option String

-- The exceptions: of the repository, of the service, and any that a hook raises.
pub data SettingsFailure : Type 0 where
  repository : RepositoryError → SettingsFailure
  service : ServiceError → SettingsFailure
  hook_error : SettingsFailure

abbrev pub Query : Type 0 → Type 0
Query A = Exec SettingsFailure (List Setting) A

pub data SettingsCall : Type 0 where
  list get update reset : SettingsCall

-- What a statement raises, the clock of the database, and the hooks of SettingsService, which are
-- handed the repository and so may do anything to the table.
pub record Env : Type 0 where
  pub fault : SettingsCall → Option DatabaseError
  pub now : ℕ
  pub setting_updated_hook : Option (String → String → String → Query (Unit {0}))
  pub setting_reset_hook : Option (String → String → Query (Unit {0}))

abbrev pub has_key : String → Setting → Bool
has_key k s = str_eq s.key k

-- COALESCE(value, default_value)
abbrev pub coalesce : Option String → String → String
coalesce none d = d
coalesce (some v) d = v

abbrev pub shown : Setting → Setting
shown s = record s { value = some (coalesce s.value s.default_value) }

abbrev pub shown_option : Option Setting → Option Setting
shown_option none = none
shown_option (some s) = some (shown s)

-- ORDER BY category, key
abbrev is_listed_before : Setting → Setting → Bool
is_listed_before s t =
    if str_eq s.category t.category then is_before s.key t.key else is_before s.category t.category

abbrev pub with_value : ℕ → Option String → String → Setting → Setting
with_value now value updated_by s = record s {
  value = value;
  updated_at = now;
  updated_by = some updated_by;
}

abbrev pub raised : Option DatabaseError → Result SettingsFailure (Unit {0})
raised none = ok tt
raised (some e) = err (repository (translate_database_error (λ _. false) e none))

module _ (env : Env) where
  unfoldable pub stated : {A : Type 0} → SettingsCall → Query A → Query A
  stated statement query = lift (raised (env.fault statement)) >>= λ _. query

  -- the UPDATE of the value column, with its RETURNING
  unfoldable pub write_value : String → Option String → String → Query (Option Setting)
  write_value key value updated_by ss =
      let written = update_rows (has_key key) (with_value env.now value updated_by) ss in
      (ok (first_row (has_key key) written), written)

  unfoldable pub list_settings : Query (List Setting)
  list_settings = stated list (gets λ ss. map shown (order_by is_listed_before ss))

  unfoldable pub get_setting : String → Query (Option Setting)
  get_setting key = stated get (gets λ ss. shown_option (first_row (has_key key) ss))

  unfoldable pub update_setting : String → String → String → Query (Option Setting)
  update_setting key value updated_by = stated update (write_value key (some value) updated_by)

  unfoldable pub reset_setting : String → String → Query (Option Setting)
  reset_setting key updated_by = stated reset (write_value key none updated_by)
