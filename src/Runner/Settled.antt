-- ===== src/Runner/Settled.antt =====
-- What a run leaves, from its first event on, and where it returns.
use cpkit.Base.{
  refl, ◌⊎◌, inl, inr, [], ◌∷◌, ℕ, suc, String, ◌≡◌, true, false, Option, some, List, if_split,
}
use cpkit.Base.Exec.{pure, ◌>>=◌}
use cpkit.Base.Exec.Ends.{
  EndsIn, Ends, Ends-pure, Ends-lift, Ends-gets, Ends-bind, Ends-weaken, Ends-catch,
}
use cpkit.Base.Value.{Dict}
use cpkit.Jobs.Types.{Job}
use cpkit.Jobs.Repository.Shape.{has_job}
use cpkit.Runner.{
  RunFailure, RunnerState, RunnerResult, Running, Event, Tick, occurs, heartbeat, events_of,
  finally, LoadedPlaybook, FilePath, Env,
}
use cpkit.Runner.Loaded.{
  remove_tree, make_dirs, result_now, result_after_failure, end_status, handle_events,
  monitor_failed, joined, monitor, record_failure, watch, start, not_started, run_loaded_playbook,
}
use cpkit.Runner.Ready.{
  IsUnused, Ready, StatusIs, Anything, Faulty, Broken, Ends-set_status, Ends-add_task,
}
use cpkit.Runner.Rules.{Ends-finally, Ends-attempt}
use cpkit.Runner.Events.{same, forget, Ends-event_handler, Ends-handle_events}

module _ (env : Env) where
  -- the job's rows say how `r` ended, and its counter is free, unless it failed and a statement did
  pub record Settled (r : RunnerResult) (s : RunnerState) : Type 0 where
    pub unused :
        IsUnused env r.task_id_counter s.tables.tasks ⊎ ((r.status ≡ "failed") × Faulty env)
    pub there : has_job s.tables.jobs env.job_id ≡ true
    pub status : StatusIs env (end_status r.status) s.tables.jobs

  Ends-result_now :
      {X : RunFailure → RunnerState → Type 0} (status name : String)
      (loaded : Option LoadedPlaybook)
      → Ends
          (Ready env (StatusIs env (end_status status)))
          Settled
          X
          (result_now status name loaded)
  unfolding result_now
  Ends-result_now status name loaded =
      Ends-gets _ λ s h. record { unused = inl h.unused; there = h.there; status = h.jobs }

  pub Ends-result_after_failure :
      {X : RunFailure → RunnerState → Type 0} (name : String) (loaded : Option LoadedPlaybook)
      → Ends
          (λ s. Ready env (StatusIs env "FAILED") (record s { counter = suc s.counter }))
          Settled
          X
          (result_after_failure name loaded)
  unfolding result_after_failure
  Ends-result_after_failure name loaded =
      Ends-gets _ λ s h. record { unused = inl h.unused; there = h.there; status = h.jobs }

  -- the events that come later change no status
  Ends-late :
      {C : List Job → Type 0} {F : Type 0} {X : RunFailure → RunnerState → Type 0}
      (es : List (ℕ × Event))
      → ((e : RunFailure) (s : RunnerState) → Ready env C s → X e s)
      → Ends
          (λ s. Ready env C s × F)
          (λ _ s. Ready env C s × F)
          X
          (handle_events env es >>= λ _. pure tt)
  Ends-late {C = C} {F = F} es broken =
      Ends-bind _ _
        (record {
          at = λ s h.
              (Ends-weaken _ (Ends-handle_events env {C = C} es) (λ s' k. k) (λ a s' k. (k, h.1))
                  λ e s' k. broken e s' k.0).at
                s h.0;
        })
        λ _. Ends-pure tt λ s h. h

  module _ (name : String) (loaded : LoadedPlaybook) where
    Ends-monitor_failed :
        Ends
          (Ready env Anything)
          (λ r s.
            Ready env (StatusIs env (end_status r.status)) s
            × ((r.status ≡ "failed") × IsUnused env r.task_id_counter s.tables.tasks))
          (Broken env Anything)
          (monitor_failed env name loaded true)
    unfolding monitor_failed result_now
    Ends-monitor_failed =
        Ends-bind _ _ (Ends-set_status env "FAILED") λ _. Ends-gets _ λ s h. (h, (refl, h.unused))

    Ends-joined :
        (status : String)
        → Ends
            (Ready env Anything)
            Settled
            (Broken env Anything)
            (joined env name loaded true status)
    unfolding joined
    Ends-joined status =
        Ends-catch _ _
          (Ends-bind _ _ (Ends-set_status env _) λ _. Ends-result_now status name (some loaded))
          λ e.
            Ends-weaken _ Ends-monitor_failed (λ s h. h.0)
              (λ r s h. record { unused = inl h.1.1; there = h.0.there; status = h.0.jobs })
              λ e s h. h

    -- the heartbeat has raised
    Ends-unwatched :
        (late : List Tick)
        → Ends
            (λ s. Ready env Anything s × Faulty env)
            Settled
            (Broken env Anything)
            (finally
              (monitor_failed env name loaded true)
              (handle_events env (events_of late) >>= λ _. pure tt))
    Ends-unwatched late = record {
      at = λ s h.
          (Ends-weaken _
              (Ends-finally _ _
                (Ends-weaken _ Ends-monitor_failed (λ s' k. k) (λ r s' k. (k.0, (k.1.0, h.1)))
                  λ e s' k. k)
                (λ r.
                  Ends-late {X = Broken env Anything} (events_of late)
                    λ e s' k. (forget env k, h.1))
                λ e. Ends-late {X = Broken env Anything} (events_of late) λ e s' k. (k, h.1))
              (λ s' k. k)
              (λ r s' k. record { unused = inr k.1; there = k.0.there; status = k.0.jobs })
              λ e s' k. k).at
            s h.0;
    }

    Ends-monitor :
        (r : Running) (ts : List Tick)
        → Ends
            (Ready env Anything)
            Settled
            (Broken env Anything)
            (monitor env name loaded true r ts)
    unfolding monitor
    Ends-monitor r [] = Ends-joined (r.final_status false)
    Ends-monitor r (occurs created e ∷ ts) =
        Ends-attempt _ _ (Ends-event_handler env created e) (λ _. Ends-monitor r ts)
          λ x. Ends-joined (r.final_status true)
    Ends-monitor r (heartbeat ∷ ts) =
        Ends-attempt _ _
          (Ends-weaken _ (Ends-set_status env "RUNNING") (λ s h. h) (λ a s h. forget env h)
            λ e s h. h)
          (λ _. Ends-monitor r ts) λ e. Ends-unwatched ts

  Ends-watch :
      (name : String) (loaded : LoadedPlaybook) (job_dir : FilePath) (r : Running)
      → Ends
          (Ready env Anything)
          Settled
          (Broken env Anything)
          (watch env name loaded job_dir true r)
  unfolding watch remove_tree
  Ends-watch name loaded job_dir r =
      Ends-finally _ (remove_tree env job_dir) (Ends-monitor name loaded r r.ticks)
        (λ a. record {
          at = λ s h. record { unused = h.unused; there = h.there; status = h.status };
        })
        λ e. record { at = λ s h. (same env h.0, h.1) }

  Ends-remove_tree :
      {C : List Job → Type 0} {X : RunFailure → RunnerState → Type 0} (p : FilePath)
      → Ends (Ready env C) (λ _. Ready env C) X (remove_tree env p)
  unfolding remove_tree
  Ends-remove_tree p = record { at = λ s h. same env h }

  Ends-make_dirs :
      (p : FilePath)
      → Ends
          (Ready env Anything)
          (λ _. Ready env Anything)
          (λ _. Ready env Anything)
          (make_dirs env p)
  unfolding make_dirs
  Ends-make_dirs p = record {
    at = λ s h.
        if_split (EndsIn (λ _. Ready env Anything) (λ _. Ready env Anything)) (env.makedirs_fails p)
          (λ _. h) (λ _. same env h);
  }

  Ends-start :
      (loaded : LoadedPlaybook) (job_dir : FilePath) (vars : Dict)
      → Ends
          (Ready env Anything)
          (λ _. Ready env Anything)
          (λ _. Ready env Anything)
          (start env loaded job_dir true vars)
  unfolding start
  Ends-start loaded job_dir vars = Ends-bind _ _ (Ends-remove_tree job_dir) λ _.
      Ends-bind _ _ (Ends-make_dirs job_dir) λ _.
        Ends-bind _ _
          (Ends-weaken _ (Ends-set_status env "RUNNING") (λ s h. h) (λ a s h. forget env h)
            λ e s h. h.0)
          λ _. Ends-lift _ (λ a s e h. h) (λ e s k h. h)

  -- a task with the runner's counter, which is not counted
  abbrev pub IsUncounted : RunnerState → Type 0
  IsUncounted s = Ready env (StatusIs env "FAILED") (record s { counter = suc s.counter })

  pub Ends-record_failure :
      (e : RunFailure)
      → Ends
          (Ready env (StatusIs env "FAILED"))
          (λ _. IsUncounted)
          (Broken env (StatusIs env "FAILED"))
          (record_failure env e)
  unfolding record_failure
  Ends-record_failure e = Ends-add_task env env.now "FAILURE" (env.str_error e)

  Ends-remove_tree_after_failure :
      {X : RunFailure → RunnerState → Type 0} (p : FilePath)
      → Ends IsUncounted (λ _. IsUncounted) X (remove_tree env p)
  unfolding remove_tree
  Ends-remove_tree_after_failure p = record {
    at = λ s h. record { unused = h.unused; there = h.there; jobs = h.jobs };
  }

  Ends-not_started :
      (name : String) (loaded : LoadedPlaybook) (job_dir : FilePath) (e : RunFailure)
      → Ends
          (Ready env Anything)
          Settled
          (Broken env Anything)
          (not_started env name loaded job_dir true e)
  unfolding not_started
  Ends-not_started name loaded job_dir e = Ends-bind _ _ (Ends-set_status env "FAILED") λ _.
      Ends-bind _ _
        (Ends-weaken _ (Ends-record_failure e) (λ s h. h) (λ a s h. h)
          λ e s h. (forget env h.0, h.1))
        λ _.
          Ends-bind _ _ (Ends-remove_tree_after_failure job_dir)
            λ _. Ends-result_after_failure name (some loaded)

  pub Ends-run_loaded_playbook :
      (name : String) (loaded : LoadedPlaybook) (vars : Dict) (suffix : String)
      → Ends
          (Ready env Anything)
          Settled
          (Broken env Anything)
          (run_loaded_playbook env name loaded vars suffix true)
  unfolding run_loaded_playbook
  Ends-run_loaded_playbook name loaded vars suffix =
      Ends-attempt _ _ (Ends-start loaded _ vars) (λ r. Ends-watch name loaded _ r)
        λ e. Ends-not_started name loaded _ e
