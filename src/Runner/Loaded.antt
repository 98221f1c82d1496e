-- ===== src/Runner/Loaded.antt =====
-- _load_playbook and _run_loaded_playbook of cpkit/playbooks/ansible.py. The events of a run come from
-- another thread than the heartbeat, in an order that is given with them. After a heartbeat that
-- raises, the thread lives on: its remaining events come when the result has been made. What it
-- may then write below the removed directory is left out, as are the log lines. The statuses are the
-- runner's defaults.
use cpkit.Base.{
  ℕ, suc, String, Bool, true, false, not, ◌&&◌, Option, none, some, List, [], ◌∷◌, str_eq,
  if◌then◌else◌, delete_rows,
}
use cpkit.Base.Exec.{Result, ok, err, pure, lift, gets, catch, ◌>>=◌, ◌>>◌}
use cpkit.Base.Value.{Dict}
use cpkit.Base.Texts.{followed_by}
use cpkit.Playbooks.{Playbook}
use cpkit.Runner.{
  attempt, FilePath, LoadedPlaybook, RunnerResult, Event, Tick, occurs, heartbeat, events_of,
  RunFailure, not_configured, other_error, Running, RunnerState, Env, Run, finally, is_below,
  set_status, add_task, event_handler,
}

-- a statement that is executed if the flag is set
abbrev pub when : Bool → Run (Unit {0}) → Run (Unit {0})
when true m = m
when false m = pure tt

abbrev pub version_in : Option LoadedPlaybook → Option String
version_in none = none
version_in (some l) = some l.version

abbrev pub result_of : String → String → Option LoadedPlaybook → ℕ → RunnerState → RunnerResult
result_of status name loaded counter s = record {
  status = status;
  result_data = s.run_data;
  task_id_counter = counter;
  playbook_name = some name;
  playbook_version = version_in loaded;
}

-- the result at this point, and the one after a FAILURE task that is not counted
unfoldable pub result_now : String → String → Option LoadedPlaybook → Run RunnerResult
result_now status name loaded = gets λ s. result_of status name loaded s.counter s

unfoldable pub result_after_failure : String → Option LoadedPlaybook → Run RunnerResult
result_after_failure name loaded = gets λ s. result_of "failed" name loaded (suc s.counter) s

abbrev pub end_status : String → String
end_status status = if str_eq status "successful" then "COMPLETED" else "FAILED"

module _ (env : Env) where
  -- `shutil.rmtree(path, ignore_errors=True)`, which says nothing of a directory that it cannot remove
  unfoldable pub remove_tree : FilePath → Run (Unit {0})
  remove_tree p s =
      (ok tt, record s { dirs = delete_rows (λ d. is_below p d && not (env.stays d)) s.dirs })

  abbrev decoded : ℕ → Option String → Result RunFailure LoadedPlaybook
  decoded version none = err other_error
  decoded version (some s) = ok (record { content = s; version = env.strftime version })

  abbrev with_content : String → ℕ → Option String → Result RunFailure LoadedPlaybook
  with_content name version none = err (not_configured name)
  with_content name version (some c) = decoded version (env.decompress c)

  abbrev found_playbook :
      String → Result RunFailure (Option Playbook) → Result RunFailure LoadedPlaybook
  found_playbook name (err e) = err e
  found_playbook name (ok none) = err (not_configured name)
  found_playbook name (ok (some p)) = with_content name p.version p.content

  unfoldable pub load_playbook : String → Result RunFailure LoadedPlaybook
  load_playbook name = found_playbook name (env.get_default_playbook name)

  unfoldable pub make_dirs : FilePath → Run (Unit {0})
  make_dirs p s =
      if env.makedirs_fails p then (err other_error, s) else (ok tt, record s { dirs = p ∷ s.dirs })

  abbrev pub job_dir_of : String → FilePath
  job_dir_of suffix =
      env.job_dir_root ∷ followed_by "job-" (followed_by env.job_text (followed_by "-" suffix)) ∷ []

  -- the events up to one whose handler raises; whether one did
  unfoldable pub handle_events : List (ℕ × Event) → Run Bool
  handle_events [] = pure false
  handle_events ((created, e) ∷ es) =
      let rest = handle_events es in
      catch (event_handler env created e >>= λ _. rest) λ _. pure true

  module _ (name : String) (loaded : LoadedPlaybook) (update_job_status : Bool) where
    -- the `except Exception` of the loop that watches the thread
    unfoldable pub monitor_failed : Run RunnerResult
    monitor_failed = when update_job_status (set_status env "FAILED") >>= λ _.
        result_now "failed" name (some loaded)

    -- from the end of the thread on, for the run's status
    unfoldable pub joined : String → Run RunnerResult
    joined status =
        catch
          (when update_job_status (set_status env (end_status status)) >>= λ _.
            result_now status name (some loaded))
          λ e. monitor_failed

    abbrev pub after_event :
        Running → Run RunnerResult → Result RunFailure (Unit {0}) → Run RunnerResult
    after_event r rest (ok _) = rest
    after_event r rest (err e) = joined (r.final_status true)

    abbrev pub after_heartbeat :
        List Tick → Run RunnerResult → Result RunFailure (Unit {0}) → Run RunnerResult
    after_heartbeat late rest (ok _) = rest
    after_heartbeat late rest (err e) =
        finally monitor_failed (handle_events (events_of late) >>= λ _. pure tt)

    -- the thread and the loop that watches it
    unfoldable pub monitor : Running → List Tick → Run RunnerResult
    monitor r [] = joined (r.final_status false)
    monitor r (occurs created e ∷ ts) =
        let rest = monitor r ts in attempt (event_handler env created e) >>= after_event r rest
    monitor r (heartbeat ∷ ts) =
        let rest = monitor r ts in
        attempt (when update_job_status (set_status env "RUNNING")) >>= after_heartbeat ts rest

  unfoldable pub record_failure : RunFailure → Run (Unit {0})
  record_failure e = add_task env env.now "FAILURE" (env.str_error e)

  -- from the start of the thread on
  unfoldable pub watch : String → LoadedPlaybook → FilePath → Bool → Running → Run RunnerResult
  watch name loaded job_dir update_job_status r =
      finally (monitor name loaded update_job_status r r.ticks) (remove_tree job_dir)

  unfoldable pub start : LoadedPlaybook → FilePath → Bool → Dict → Run Running
  start loaded job_dir update_job_status vars = do
    remove_tree job_dir
    make_dirs job_dir
    when update_job_status (set_status env "RUNNING")
    lift (env.run_async loaded job_dir vars)

  unfoldable pub not_started :
      String → LoadedPlaybook → FilePath → Bool → RunFailure → Run RunnerResult
  not_started name loaded job_dir update_job_status e = do
    when update_job_status (set_status env "FAILED")
    record_failure e
    remove_tree job_dir
    result_after_failure name (some loaded)

  abbrev pub run_or_fail :
      String → LoadedPlaybook → FilePath → Bool → Result RunFailure Running → Run RunnerResult
  run_or_fail name loaded job_dir update_job_status (ok r) =
      watch name loaded job_dir update_job_status r
  run_or_fail name loaded job_dir update_job_status (err e) =
      not_started name loaded job_dir update_job_status e

  unfoldable pub run_loaded_playbook :
      String → LoadedPlaybook → Dict → String → Bool → Run RunnerResult
  run_loaded_playbook name loaded vars suffix update_job_status =
      attempt (start loaded (job_dir_of suffix) update_job_status vars)
      >>= run_or_fail name loaded (job_dir_of suffix) update_job_status
