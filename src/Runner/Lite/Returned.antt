-- ===== src/Runner/Lite/Returned.antt =====
-- LiteAnsibleRunner always returns, and leaves no trace in the history but the playbook's version, and of its
-- directory what cannot be removed.
use cpkit.Base.{
  ℕ, String, ◌≡◌, refl, ◌∙◌, true, false, Option, none, some, List, [], ◌∷◌, map, ◌==◌, str_eq,
  arith, if_split, update_rows,
}
use cpkit.Base.Exec.{ok, err, raise}
use cpkit.Base.Exec.Ends.{
  EndsIn, Ends, Ends-pure, Ends-lift, Ends-gets, Ends-bind, Ends-if, Ends-weaken, Ends-catch,
}
use cpkit.Base.Value.{Dict}
use cpkit.Errors.{DatabaseError}
use cpkit.Jobs.Types.{Job, Tables}
use cpkit.Jobs.Repository.{set_job_playbook_version}
use cpkit.Runner.{
  Event, events_of, runner_on_ok, malformed, RunFailure, RunnerState, FilePath, Env, Running,
  stated, query, set_data,
}
use cpkit.Runner.Loaded.{remove_tree, make_dirs}
use cpkit.Runner.Launch.{set_loaded}
use cpkit.Runner.Rules.{Ends-attempt, Ends-both}
use cpkit.Runner.Removed.{IsGone, Ensures-remove_tree}
use cpkit.Runner.Lite.{lite_dir, handle_event, run_thread, start_lite, join_or_fail, launch_lite}

abbrev statuses : List Job → List (Option String)
statuses js = map (λ j. j.status) js

statuses_kept :
    (id : ℕ) (version : String) (js : List Job)
    → statuses
        (update_rows (λ j. j.job_id == id) (λ j. record j { playbook_version = some version }) js)
      ≡ statuses js
statuses_kept id version [] = refl
statuses_kept id version (j ∷ js) = ground (arith, statuses_kept id version js)

module _ (env : Env) (old : Tables) where
  -- the tasks and the statuses of the jobs are the old ones
  pub record IsUntouched (s : RunnerState) : Type 0 where
    pub tasks : s.tables.tasks ≡ old.tasks
    pub jobs : statuses s.tables.jobs ≡ statuses old.jobs

  Ends-set_version :
      (version : String)
      → Ends IsUntouched
          (λ _. IsUntouched)
          (λ _. IsUntouched)
          (query env (set_job_playbook_version env.job_id version))
  unfolding query set_job_playbook_version
  Ends-set_version version = record { at = λ s h. at (env.fault s.statements) s h }
    where
      at :
          (o : Option DatabaseError) (s : RunnerState)
          → IsUntouched s
          → EndsIn
              (λ _. IsUntouched)
              (λ _. IsUntouched)
              (stated env o (set_job_playbook_version env.job_id version) s)
      at none s h = record {
        tasks = h.tasks;
        jobs = statuses_kept env.job_id version s.tables.jobs ∙ h.jobs;
      }
      at (some d) s h = record { tasks = h.tasks; jobs = h.jobs }

  Ends-remove_tree :
      {X : RunFailure → RunnerState → Type 0} (p : FilePath)
      → Ends IsUntouched (λ _. IsUntouched) X (remove_tree env p)
  unfolding remove_tree
  Ends-remove_tree p = record { at = λ s h. record { tasks = h.tasks; jobs = h.jobs } }

  Ends-make_dirs :
      (p : FilePath) → Ends IsUntouched (λ _. IsUntouched) (λ _. IsUntouched) (make_dirs env p)
  unfolding make_dirs
  Ends-make_dirs p = record {
    at = λ s h.
        if_split (EndsIn (λ _. IsUntouched) (λ _. IsUntouched)) (env.makedirs_fails p) (λ _. h)
          λ _. record { tasks = h.tasks; jobs = h.jobs };
  }

  Ends-start_lite :
      (name : String) (extra : Dict)
      → Ends IsUntouched (λ _. IsUntouched) (λ _. IsUntouched) (start_lite env name extra)
  unfolding start_lite set_loaded
  Ends-start_lite name extra = Ends-bind _ _ (Ends-lift _ (λ a s e h. h) λ e s k h. h) λ l.
      Ends-bind _ _ (record { at = λ s h. record { tasks = h.tasks; jobs = h.jobs } })
        λ _. Ends-bind _ _ (Ends-set_version l.version) λ _.
          Ends-bind _ _ (Ends-remove_tree (lite_dir env)) λ _.
            Ends-bind _ _ (Ends-make_dirs (lite_dir env))
              λ _. Ends-lift _ (λ a s e h. h) λ e s k h. h

  Ends-handle_event :
      (e : Event) → Ends IsUntouched (λ _. IsUntouched) (λ _. IsUntouched) (handle_event env e)
  unfolding handle_event set_data raise
  Ends-handle_event (runner_on_ok task msg) =
      Ends-if (str_eq task "Data") _ _
        (λ _. record { at = λ s h. record { tasks = h.tasks; jobs = h.jobs } })
        λ _. Ends-pure tt λ s h. h
  Ends-handle_event malformed = record { at = λ s h. h }
  Ends-handle_event e = Ends-pure tt λ s h. h

  Ends-run_thread :
      (es : List (ℕ × Event)) → Ends IsUntouched (λ _. IsUntouched) (λ _ _. ⊥) (run_thread env es)
  unfolding run_thread
  Ends-run_thread [] = Ends-pure false λ s h. h
  Ends-run_thread ((created, e) ∷ es) =
      Ends-catch _ _
        (Ends-bind _ _ (Ends-handle_event e)
          λ _. Ends-weaken _ (Ends-run_thread es) (λ s h. h) (λ a s h. h) λ e s h. absurd h)
        λ _. Ends-pure true λ s h. h

  -- what is left of the directory after its removal
  Ends-removed :
      Ends IsUntouched
        (λ _ s. IsUntouched s × IsGone env (lite_dir env) s)
        (λ _ _. ⊥)
        (remove_tree env (lite_dir env))
  Ends-removed =
      Ends-weaken _
        (Ends-both _ (Ends-remove_tree {X = λ _ _. ⊥} (lite_dir env))
          (Ensures-remove_tree env (lite_dir env)))
        (λ s h. (h, tt)) (λ a s h. h) λ e s h. h.0

  Ends-join :
      (name : String) (r : Running)
      → Ends IsUntouched
          (λ _ s. IsUntouched s × IsGone env (lite_dir env) s)
          (λ _ _. ⊥)
          (join_or_fail env name (ok r))
  Ends-join name r =
      Ends-bind _ _ (Ends-run_thread (events_of r.ticks))
        λ _. Ends-bind _ _ Ends-removed λ _. Ends-gets _ λ s h. h

  Ends-fail :
      (name : String) (e : RunFailure)
      → Ends IsUntouched
          (λ _ s. IsUntouched s × IsGone env (lite_dir env) s)
          (λ _ _. ⊥)
          (join_or_fail env name (err e))
  Ends-fail name e = Ends-bind _ _ Ends-removed λ _. Ends-gets _ λ s h. h

-- Whatever the statements, the file system and the library do, and from every state: launch_runner of
-- LiteAnsibleRunner returns a result, the tasks and the statuses of the jobs are as they were, and each
-- directory that is left at the job's directory or below it is one that rmtree cannot remove.
pub launch_lite_returns :
    (env : Env) (name : String) (extra : Dict) (s : RunnerState)
    → EndsIn
        (λ _ s'. IsUntouched env s.tables s' × IsGone env (lite_dir env) s')
        (λ _ _. ⊥)
        (launch_lite env name extra s)
unfolding launch_lite
launch_lite_returns env name extra s =
    (Ends-attempt _ _ (Ends-start_lite env s.tables name extra) (λ r. Ends-join env s.tables name r)
        λ e. Ends-fail env s.tables name e).at
      s (record { tasks = refl; jobs = refl })
