-- ===== src/Runner/Lite.antt =====
-- LiteAnsibleRunner of cpkit/playbooks/ansible.py, which captures a playbook's data and records no task.
-- It hands the stored text itself to the library that runs it, whose start is the same parameter.
pub mod Returned
use cpkit.Base.{
  ℕ, String, Bool, true, false, Option, none, some, List, [], ◌∷◌, str_eq, if◌then◌else◌,
}
use cpkit.Base.Exec.{Result, ok, err, pure, raise, lift, gets, catch, ◌>>=◌, ◌>>◌}
use cpkit.Base.Value.{Value, Dict}
use cpkit.Base.Texts.{followed_by}
use cpkit.Jobs.Repository.{set_job_playbook_version}
use cpkit.Runner.{
  FilePath, LoadedPlaybook, Event, events_of, runner_on_ok, malformed, RunFailure, key_error,
  Running, RunnerState, Env, Run, attempt, query, set_data,
}
use cpkit.Runner.Loaded.{remove_tree, load_playbook, make_dirs, version_in}
use cpkit.Runner.Launch.{set_loaded}

pub record LiteRunnerResult : Type 0 where
  pub status : String
  pub result_data : Value
  pub playbook_name : Option String
  pub playbook_version : Option String

abbrev result_of : String → String → RunnerState → LiteRunnerResult
result_of status name s = record {
  status = status;
  result_data = s.run_data;
  playbook_name = some name;
  playbook_version = version_in s.loaded_playbook;
}

module _ (env : Env) where
  abbrev pub lite_dir : FilePath
  lite_dir = env.job_dir_root ∷ followed_by "job-" env.job_text ∷ []

  unfoldable pub handle_event : Event → Run (Unit {0})
  handle_event (runner_on_ok task msg) = if str_eq task "Data" then set_data env msg else pure tt
  handle_event malformed = raise key_error
  handle_event e = pure tt

  -- the events up to one whose handler raises, which ends the thread; whether one did
  unfoldable pub run_thread : List (ℕ × Event) → Run Bool
  run_thread [] = pure false
  run_thread ((created, e) ∷ es) =
      let rest = run_thread es in catch (handle_event e >>= λ _. rest) λ _. pure true

  unfoldable pub start_lite : String → Dict → Run Running
  start_lite name extra = do
    loaded ← lift (load_playbook env name)
    set_loaded env loaded
    query env (set_job_playbook_version env.job_id loaded.version)
    remove_tree env lite_dir
    make_dirs env lite_dir
    lift (env.run_async loaded lite_dir extra)

  abbrev pub join_or_fail : String → Result RunFailure Running → Run LiteRunnerResult
  join_or_fail name (err e) = remove_tree env lite_dir >>= λ _. gets (result_of "failed" name)
  join_or_fail name (ok r) = do
    raised ← run_thread (events_of r.ticks)
    remove_tree env lite_dir
    gets (result_of (r.final_status raised) name)

  unfoldable pub launch_lite : String → Dict → Run LiteRunnerResult
  launch_lite name extra = attempt (start_lite name extra) >>= join_or_fail name
