-- ===== src/Settings/Examples.antt =====
-- Settings for the theorems on cpkit/settings.
use cpkit.Base.{false, none, some, List, [], ◌∷◌, ◌≡◌, refl}
use cpkit.Base.Exec.{pure, raise}
use cpkit.Errors.{operational}
use cpkit.Settings.{Setting, hook_error, Env, update}
use cpkit.Settings.Service
use cpkit.Settings.Stored.{
  Write, updating, resetting, run_writes, spec_writes, view, read_result, get_setting-run_writes,
}

abbrev rows : List Setting
rows =
    record {
      key = "logging.level";
      value = none;
      default_value = "INFO";
      value_type = "string";
      category = "logging";
      is_secret = false;
      description = "";
      updated_at = 0;
      updated_by = none;
    }
    ∷ record {
      key = "oidc.enabled";
      value = some "true";
      default_value = "false";
      value_type = "bool";
      category = "oidc";
      is_secret = false;
      description = "";
      updated_at = 0;
      updated_by = none;
    }
    ∷ []

abbrev env : Env
env = record {
  fault = λ s. none;
  now = 5;
  setting_updated_hook = some λ k v u. raise hook_error;
  setting_reset_hook = none;
}

abbrev failing : Env
failing = record env { fault = λ s. elim s [ update ↦ some operational | _ ↦ none ] }

abbrev writes : List Write
writes =
    updating env "logging.level" "DEBUG" "alice"
    ∷ updating failing "logging.level" "ERROR" "bob"
    ∷ resetting env "oidc.enabled" "alice"
    ∷ updating env "logging.levle" "DEBUG" "alice"
    ∷ []

get_setting-run_writes_example :
    (Service.get_setting env "logging.level" (run_writes writes rows)).0
    ≡ read_result "logging.level" (spec_writes writes (view rows) "logging.level")
unfolding raise pure
get_setting-run_writes_example =
    get_setting-run_writes env writes rows "logging.level"
      (λ ss. refl, (λ ss. refl, (λ ss. refl, (λ ss. refl, tt)))) refl
