-- ===== src/Runner/Stuck.antt =====
-- What follows a task that launch_runner or _run_loaded_playbook records without counting it.
use cpkit.Base.{
  ℕ, String, ◌≡◌, true, false, Option, none, some, List, [], ◌∷◌, any, if_split, str_eq,
}
use cpkit.Base.Exec.{Result, ok, err, pure, raise, catch, ◌>>=◌}
use cpkit.Base.Exec.Ends.{
  EndsIn, Ends, Ends-pure, Ends-lift, Ends-gets, Ends-bind, Ends-if, Ends-weaken, Ends-catch,
}
use cpkit.Base.Value.{Dict}
use cpkit.Errors.{DatabaseError}
use cpkit.Jobs.Repository.{is_task, create_task, insert_task, run_statement}
use cpkit.Runner.{
  Event, Tick, occurs, heartbeat, events_of, quiet, malformed, runner_on_ok, RunFailure,
  RunnerState, LoadedPlaybook, Running, Env, FilePath, stated, query, add_task, set_data,
  record_event, event_handler, task_text, record_internal_task,
}
use cpkit.Runner.Loaded.{
  monitor_failed, joined, remove_tree, make_dirs, load_playbook, result_now, handle_events, monitor,
  record_failure, watch, start, not_started, run_loaded_playbook,
}
use cpkit.Runner.Launch.{cleanup_with, run_cleanup, run_ssh_credential_cleanup, cleanup_credentials}
use cpkit.Runner.Rules.{Ends-finally, Ends-attempt}

module _ (env : Env) where
  -- the runner's counter is the id of a task of the job
  abbrev pub IsTaken : RunnerState → Type 0
  IsTaken s = any (is_task env.job_id s.counter) s.tables.tasks ≡ true

  pub Ends-add-IsTaken :
      (created : ℕ) (task_type task_data : String)
      → Ends IsTaken (λ _ _. ⊥) (λ _. IsTaken) (add_task env created task_type task_data)
  unfolding add_task query create_task insert_task run_statement catch raise
  Ends-add-IsTaken created task_type task_data = record {
    at = λ s h. at (env.fault s.statements) s h;
  }
    where
      at :
          (o : Option DatabaseError) (s : RunnerState)
          → IsTaken s
          → EndsIn
              (λ _ _. ⊥)
              (λ _. IsTaken)
              (stated env o (create_task env.job_id s.counter created task_type task_data) s)
      at none s h = rw h h
      at (some d) s h = h

  Ends-record-IsTaken :
      (created : ℕ) (task : String × String)
      → Ends IsTaken (λ _ _. ⊥) (λ _. IsTaken) (record_event env created task)
  unfolding record_event
  Ends-record-IsTaken created (task_type, task_data) =
      Ends-bind _ _ (Ends-add-IsTaken created task_type task_data)
        λ _. record { at = λ s h. absurd h }

  Ends-event-IsTaken :
      (created : ℕ) (e : Event)
      → Ends IsTaken (λ _. IsTaken) (λ _. IsTaken) (event_handler env created e)
  unfolding event_handler pure raise set_data
  Ends-event-IsTaken created quiet = record { at = λ s h. h }
  Ends-event-IsTaken created malformed = record { at = λ s h. h }
  Ends-event-IsTaken created (runner_on_ok task msg) =
      Ends-if (str_eq task "Data") _ _ (λ _. record { at = λ s h. h }) λ _. record { at = λ s h. h }
  Ends-event-IsTaken created e =
      Ends-weaken _ (Ends-record-IsTaken created (task_text env e)) (λ s h. h) (λ a s h. absurd h)
        λ e s h. h

  Ends-events-IsTaken :
      (es : List (ℕ × Event)) → Ends IsTaken (λ _. IsTaken) (λ _. IsTaken) (handle_events env es)
  unfolding handle_events pure
  Ends-events-IsTaken [] = record { at = λ s h. h }
  Ends-events-IsTaken ((created, e) ∷ es) =
      Ends-catch _ _ (Ends-bind _ _ (Ends-event-IsTaken created e) λ _. Ends-events-IsTaken es)
        λ _. record { at = λ s h. h }

  Ends-remove-IsTaken :
      (p : FilePath) → Ends IsTaken (λ _. IsTaken) (λ _. IsTaken) (remove_tree env p)
  unfolding remove_tree
  Ends-remove-IsTaken p = record { at = λ s h. h }

  Ends-result-IsTaken :
      {X : RunFailure → RunnerState → Type 0} (status name : String) (l : Option LoadedPlaybook)
      → Ends IsTaken (λ _. IsTaken) X (result_now status name l)
  unfolding result_now
  Ends-result-IsTaken status name l = Ends-gets _ λ s h. h

  module _ (name : String) (l : LoadedPlaybook) where
    Ends-monitor_failed-IsTaken :
        Ends IsTaken (λ _. IsTaken) (λ _. IsTaken) (monitor_failed env name l false)
    unfolding monitor_failed
    Ends-monitor_failed-IsTaken =
        Ends-bind _ _ (Ends-pure tt λ s h. h) λ _. Ends-result-IsTaken "failed" name (some l)

    Ends-joined-IsTaken :
        (status : String)
        → Ends IsTaken (λ _. IsTaken) (λ _. IsTaken) (joined env name l false status)
    unfolding joined
    Ends-joined-IsTaken status =
        Ends-catch _ _
          (Ends-bind _ _ (Ends-pure tt λ s h. h) λ _. Ends-result-IsTaken status name (some l))
          λ e. Ends-monitor_failed-IsTaken

    Ends-late-IsTaken :
        (es : List (ℕ × Event))
        → Ends IsTaken (λ _. IsTaken) (λ _. IsTaken) (handle_events env es >>= λ _. pure tt)
    Ends-late-IsTaken es = Ends-bind _ _ (Ends-events-IsTaken es) λ _. Ends-pure tt λ s h. h

    Ends-monitor-IsTaken :
        (r : Running) (ts : List Tick)
        → Ends IsTaken (λ _. IsTaken) (λ _. IsTaken) (monitor env name l false r ts)
    unfolding monitor
    Ends-monitor-IsTaken r [] = Ends-joined-IsTaken (r.final_status false)
    Ends-monitor-IsTaken r (occurs created e ∷ ts) =
        Ends-attempt _ _ (Ends-event-IsTaken created e) (λ _. Ends-monitor-IsTaken r ts)
          λ x. Ends-joined-IsTaken (r.final_status true)
    Ends-monitor-IsTaken r (heartbeat ∷ ts) =
        Ends-attempt {X = λ _. IsTaken} _ _ (Ends-pure tt λ s h. h) (λ _. Ends-monitor-IsTaken r ts)
          λ e.
            Ends-finally _ _ Ends-monitor_failed-IsTaken (λ _. Ends-late-IsTaken (events_of ts))
              λ _. Ends-late-IsTaken (events_of ts)

  Ends-watch-IsTaken :
      (name : String) (l : LoadedPlaybook) (p : FilePath) (r : Running)
      → Ends IsTaken (λ _. IsTaken) (λ _. IsTaken) (watch env name l p false r)
  unfolding watch
  Ends-watch-IsTaken name l p r =
      Ends-finally _ _ (Ends-monitor-IsTaken name l r r.ticks) (λ _. Ends-remove-IsTaken p)
        λ _. Ends-remove-IsTaken p

  Ends-start-IsTaken :
      (l : LoadedPlaybook) (p : FilePath) (vars : Dict)
      → Ends IsTaken (λ _. IsTaken) (λ _. IsTaken) (start env l p false vars)
  unfolding start make_dirs
  Ends-start-IsTaken l p vars = Ends-bind _ _ (Ends-remove-IsTaken p) λ _.
      Ends-bind _ _
        (record {
          at = λ s h.
              if_split (EndsIn (λ _. IsTaken) (λ _. IsTaken)) (env.makedirs_fails p) (λ _. h)
                (λ _. h);
        })
        λ _. Ends-bind _ _ (Ends-pure tt λ s h. h) λ _. Ends-lift _ (λ a s e h. h) λ e s k h. h

  Ends-not_started-IsTaken :
      (name : String) (l : LoadedPlaybook) (p : FilePath) (e : RunFailure)
      → Ends IsTaken (λ _. IsTaken) (λ _. IsTaken) (not_started env name l p false e)
  unfolding not_started record_failure
  Ends-not_started-IsTaken name l p e = Ends-bind _ _ (Ends-pure tt λ s h. h) λ _.
      Ends-bind _ _ (Ends-add-IsTaken env.now "FAILURE" (env.str_error e))
        λ _. record { at = λ s h. absurd h }

  Ends-run-IsTaken :
      (name : String) (l : LoadedPlaybook) (vars : Dict) (suffix : String)
      → Ends IsTaken
          (λ _. IsTaken)
          (λ _. IsTaken)
          (run_loaded_playbook env name l vars suffix false)
  unfolding run_loaded_playbook
  Ends-run-IsTaken name l vars suffix =
      Ends-attempt _ _ (Ends-start-IsTaken l _ vars) (λ r. Ends-watch-IsTaken name l _ r)
        λ e. Ends-not_started-IsTaken name l _ e

  Ends-cleanup-IsTaken :
      (l : LoadedPlaybook) (dir : FilePath) (name version : String) (extra : Dict)
      → Ends IsTaken (λ _ _. ⊥) (λ _. IsTaken) (run_cleanup env l dir name version extra)
  unfolding run_cleanup record_internal_task
  Ends-cleanup-IsTaken l dir name version extra =
      Ends-bind _ _ (Ends-run-IsTaken _ l _ _) λ r. Ends-record-IsTaken env.now _

  module _ (l : LoadedPlaybook)
      (loads : load_playbook env env.options.ssh_credential_cleanup_playbook ≡ ok l) where
    pub Ends-credentials-IsTaken :
        (dir : FilePath) (name : String) (extra : Dict)
        → Ends IsTaken (λ _ _. ⊥) (λ _. IsTaken) (cleanup_credentials env dir name extra)
    unfolding cleanup_credentials run_ssh_credential_cleanup
    Ends-credentials-IsTaken dir name extra = Ends-bind _ _ (Ends-gets _ λ s h. h) λ version.
        Ends-bind _ _
          (cleaned (load_playbook env env.options.ssh_credential_cleanup_playbook) loads version)
          λ _. record { at = λ s h. absurd h }
      where
        cleaned :
            (r : Result RunFailure LoadedPlaybook)
            → r ≡ ok l
            → (version : String)
            → Ends IsTaken (λ _ _. ⊥) (λ _. IsTaken) (cleanup_with env r dir name version extra)
        cleaned (ok c) e version = Ends-cleanup-IsTaken c dir name version extra
        cleaned (err x) e version = absurd (cc e)
