-- ===== src/Runner/Examples.antt =====
-- A job with its playbooks, for the theorems on AnsibleRunner.
use cpkit.Base.{
  ◌==◌, String, ◌≡◌, refl, true, false, Bool, Option, none, some, [], ◌∷◌, if◌then◌else◌, str_eq,
}
use cpkit.Base.Exec.{ok, err}
use cpkit.Base.Exec.Ends.{EndsIn}
use cpkit.Jobs.Types.{Job, Tables}
use cpkit.Playbooks.{Playbook}
use cpkit.Runner.{RunFailure, RunnerState, Running, occurs, heartbeat, warning, malformed, Env}
use cpkit.Runner.Loaded.{load_playbook, run_loaded_playbook}
use cpkit.Runner.Launch.{new_runner, launch_runner}
use cpkit.Runner.Ready.{Ready, Anything, Faulty}
use cpkit.Runner.Settled.{Settled}
use cpkit.Runner.Returned.{launch_runner-Settled}
use cpkit.Runner.Removed.{IsGone, CredentialsGone, launch_runner-CredentialsGone}
use cpkit.Runner.Lite.{lite_dir, launch_lite}
use cpkit.Runner.Lite.Returned.{IsUntouched, launch_lite_returns}
use cpkit.Errors.{operational}
use cpkit.Runner.Unwatched.{Stale, run_loaded_playbook-Stale}
use cpkit.Runner.Unprepared.{launch_runner_raises}

abbrev stored : String → Playbook
stored name = record {
  name = name;
  version = 7;
  content = some "- hosts: all";
  created_at = 7;
  created_by = some "alice";
  default_version = some 7;
  updated_by = none;
}

abbrev running : Job
running = record {
  job_id = 1;
  job_type = "BUILD";
  status = some "RUNNING";
  playbook_version = none;
  description = [];
  created_at = 4;
  created_by = some "alice";
  updated_at = 4;
}

abbrev tables : Tables
tables = record { mq = []; mq_seq = 2; jobs = running ∷ []; tasks = [] }

abbrev begun : Running
begun = record {
  ticks = occurs 5 (warning "slow") ∷ heartbeat ∷ occurs 6 malformed ∷ [];
  final_status = λ raised. if raised then "failed" else "successful";
}

-- the playbook that prepares the credentials is not there
abbrev lookup : String → Option Playbook
lookup name = if str_eq name "PREPARE" then none else some (stored name)

abbrev env : Bool → Env
env hooks = record {
  now = 9;
  job_id = 1;
  job_text = "1";
  job_dir_root = "/tmp";
  options = record {
    ssh_credential_hook_enabled = hooks;
    ssh_credential_prepare_playbook = "PREPARE";
    ssh_credential_cleanup_playbook = "CLEAN";
    ssh_credential_dir_root = "/tmp/cpkit/jobs";
    ssh_credential_retain_artifacts_on_failure = false;
  };
  fault = λ n. none;
  get_default_playbook = λ name. ok (lookup name);
  decompress = λ s. some s;
  strftime = λ t. "7";
  makedirs_fails = λ p. false;
  stays = λ p. false;
  run_async = λ l p vars. ok begun;
  exists = λ p. false;
  path_text = λ p. "path";
  dumps = λ v. "{}";
  str_value = λ v. "";
  str_error = λ e. "failed";
}

abbrev runner : RunnerState
runner = new_runner 0 tables []

runner-Ready : Ready (env false) Anything runner
runner-Ready = record { unused = tt; there = refl; jobs = tt }

launch_runner-Settled_example :
    EndsIn
      (Settled (env false))
      (λ _ _. Faulty (env false))
      (launch_runner (env false) "BUILD" [] runner)
launch_runner-Settled_example =
    launch_runner-Settled (env false) refl "BUILD" [] runner runner-Ready

launch_runner-CredentialsGone_example :
    EndsIn
      (λ _. CredentialsGone (env true))
      (λ _ _. Unit)
      (launch_runner (env true) "BUILD" [] runner)
launch_runner-CredentialsGone_example =
    launch_runner-CredentialsGone (env true) refl refl "BUILD" [] runner

launch_runner_raises_example :
    (e : RunFailure) × ((launch_runner (env true) "BUILD" [] runner).0 ≡ err e)
unfolding load_playbook
launch_runner_raises_example =
    launch_runner_raises (env true) (λ n. refl) refl refl _ refl "BUILD" [] _ _ runner refl refl

launch_lite_returns_example :
    EndsIn
      (λ _ s'. IsUntouched (env false) tables s' × IsGone (env false) (lite_dir (env false)) s')
      (λ _ _. ⊥)
      (launch_lite (env false) "BUILD" [] runner)
launch_lite_returns_example = launch_lite_returns (env false) "BUILD" [] runner

abbrev late : Running
late = record {
  ticks = heartbeat ∷ occurs 5 (warning "slow") ∷ heartbeat ∷ occurs 6 malformed ∷ [];
  final_status = λ raised. "successful";
}

-- the heartbeat, which is the second statement, raises, and a warning comes after it
abbrev unwatched : Env
unwatched = record (env false) {
  fault = λ n. if n == 1 then some operational else none;
  run_async = λ l p vars. ok late;
}

run_loaded_playbook-Stale_example :
    EndsIn
      (Stale unwatched 0)
      (λ _ _. ⊥)
      (run_loaded_playbook unwatched "BUILD"
        (record { content = "- hosts: all"; version = "7" })
        []
        "target"
        true
        runner)
run_loaded_playbook-Stale_example =
    run_loaded_playbook-Stale unwatched "BUILD" (record { content = "- hosts: all"; version = "7" })
      [] "target" late 5 "slow" (heartbeat ∷ occurs 6 malformed ∷ []) runner refl refl refl refl
      (λ e. absurd (cc e)) refl refl (record { unused = tt; there = refl; jobs = tt })
