-- ===== src/Settings/Service.antt =====
-- SettingsService of cpkit/settings/service.py, with its audit hooks.
use cpkit.Base.{String, Option, none, some, List}
use cpkit.Base.Exec.{pure, raise, catch, ◌>>=◌}
use cpkit.Base.Texts.{followed_by}
use cpkit.Errors.{ServiceKind, Messages, no_messages, service_error, from_repository_error}
use cpkit.Settings
use cpkit.Settings.{Setting, SettingsFailure, repository, service, hook_error, Query, Env}

abbrev pub translated : Messages → SettingsFailure → SettingsFailure
translated m (repository e) = service (from_repository_error e m)
translated m f = f

-- `except RepositoryError as err: raise from_repository_error(err, …)`
unfoldable pub guarded : {A : Type 0} → Messages → Query A → Query A
guarded m action = catch action λ f. raise (translated m f)

abbrev about_setting : String → String → String → String
about_setting before setting_id after = followed_by before (followed_by setting_id after)

abbrev pub load_messages : String → Messages
load_messages fallback = record no_messages {
  unavailable_message = some "Settings are temporarily unavailable.";
  fallback_message = some fallback;
}

abbrev pub update_messages : String → Messages
update_messages setting_id = record no_messages {
  unavailable_message = some "Settings could not be updated right now.";
  conflict_message = some (
      about_setting "Setting '" setting_id
        "' could not be updated because of a conflicting change.");
  validation_message = some (about_setting "Setting '" setting_id "' has an invalid value.");
  fallback_message = some (about_setting "Unable to update setting '" setting_id "'.");
}

abbrev pub reset_messages : String → Messages
reset_messages setting_id = record no_messages {
  unavailable_message = some "Settings could not be updated right now.";
  conflict_message = some (
      about_setting "Setting '" setting_id "' could not be reset because of a conflicting change.");
  validation_message = some (about_setting "Setting '" setting_id "' could not be reset.");
  fallback_message = some (about_setting "Unable to reset setting '" setting_id "'.");
}

abbrev pub missing_setting : String → SettingsFailure
missing_setting setting_id = service (
    service_error ServiceKind.validation
      (some (about_setting "Required setting '" setting_id "' is not configured."))
      (some "Missing Configuration"))

abbrev pub value_or_missing : String → Option Setting → Query (Option String)
value_or_missing setting_id none = raise (missing_setting setting_id)
value_or_missing setting_id (some s) = pure s.value

module _ (env : Env) where
  abbrev pub run_updated_hook :
      Option (String → String → String → Query (Unit {0}))
      → String
      → String
      → String
      → Query (Unit {0})
  run_updated_hook none setting_id value updated_by = pure tt
  run_updated_hook (some hook) setting_id value updated_by = hook setting_id value updated_by

  abbrev pub run_reset_hook :
      Option (String → String → Query (Unit {0})) → String → String → Query (Unit {0})
  run_reset_hook none setting_id updated_by = pure tt
  run_reset_hook (some hook) setting_id updated_by = hook setting_id updated_by

  unfoldable pub list_settings : Query (List Setting)
  list_settings = guarded (load_messages "Unable to load settings.") (Settings.list_settings env)

  -- the value of the setting, for which COALESCE gives a text
  unfoldable pub get_setting : String → Query (Option String)
  get_setting setting_id =
      guarded (load_messages (about_setting "Unable to load setting '" setting_id "'."))
        (Settings.get_setting env setting_id)
      >>= value_or_missing setting_id

  unfoldable pub update_setting : String → String → String → Query (Unit {0})
  update_setting setting_id value updated_by = guarded (update_messages setting_id) (
      Settings.update_setting env setting_id value updated_by >>= λ row.
      run_updated_hook env.setting_updated_hook setting_id value updated_by)

  unfoldable pub reset_setting : String → String → Query (Unit {0})
  reset_setting setting_id updated_by = guarded (reset_messages setting_id) (
      Settings.reset_setting env setting_id updated_by >>= λ row.
      run_reset_hook env.setting_reset_hook setting_id updated_by)
