-- ===== src/Runner/Options.antt =====
-- run_playbook and _effective_playbook_run_options of cpkit/playbooks/ansible.py: the options of one run, and
-- those that are configured for every run. The statuses are the defaults.
use cpkit.Base.{ℕ, String, Bool, Option, none, some, List}
use cpkit.Base.Exec.{Result}
use cpkit.Base.Value.{Dict}
use cpkit.Errors.{or_text}
use cpkit.Jobs.Types.{Tables}
use cpkit.Runner.{FilePath, PlaybookRunOptions, RunFailure, RunnerResult, RunnerState, Env}
use cpkit.Runner.Launch.{launch_runner, new_runner}

-- the arguments of run_playbook that stand for single options
pub record Overrides : Type 0 where
  pub hook_enabled : Option Bool
  pub prepare_playbook : Option String
  pub cleanup_playbook : Option String
  pub dir_root : Option String
  pub retain_artifacts_on_failure : Option Bool

abbrev or_else {ℓ} : {A : Type ℓ} → Option A → A → A
or_else none a = a
or_else (some b) a = b

abbrev pub overridden : PlaybookRunOptions → Overrides → PlaybookRunOptions
overridden base o = record {
  ssh_credential_hook_enabled = or_else o.hook_enabled base.ssh_credential_hook_enabled;
  ssh_credential_prepare_playbook = or_text o.prepare_playbook base.ssh_credential_prepare_playbook;
  ssh_credential_cleanup_playbook = or_text o.cleanup_playbook base.ssh_credential_cleanup_playbook;
  ssh_credential_dir_root = or_text o.dir_root base.ssh_credential_dir_root;
  ssh_credential_retain_artifacts_on_failure =
      or_else o.retain_artifacts_on_failure base.ssh_credential_retain_artifacts_on_failure;
}

-- `configured` is the module's global, as configure_playbook_run_options set it
unfoldable pub effective_playbook_run_options :
    PlaybookRunOptions → Option PlaybookRunOptions → Overrides → PlaybookRunOptions
effective_playbook_run_options configured given o = overridden (or_else given configured) o

abbrev pub with_options : Env → PlaybookRunOptions → Env
with_options env options = record env { options = options }

unfoldable pub run_playbook :
    Env
    → PlaybookRunOptions
    → Option PlaybookRunOptions
    → Overrides
    → String
    → Dict
    → ℕ
    → Tables
    → List FilePath
    → Result RunFailure RunnerResult × RunnerState
run_playbook env configured given o name extra counter tables dirs =
    launch_runner (with_options env (effective_playbook_run_options configured given o)) name extra
      (new_runner counter tables dirs)
