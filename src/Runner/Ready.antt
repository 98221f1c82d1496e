-- ===== src/Runner/Ready.antt =====
-- What the runner needs before each statement that it executes, and what the statement leaves.
use cpkit.Base.{
  ℕ, suc, ◌<◌, String, ◌≡◌, refl, ◌∙◌, true, false, Option, none, some, List, [], ◌∷◌, arith, ◌==◌,
  any, All, All-append, All-mono, update_rows,
}
use cpkit.Base.Exec.{catch}
use cpkit.Base.Exec.Ends.{EndsIn, Ends}
use cpkit.Errors.{DatabaseError}
use cpkit.Jobs.Types.{Job, Task}
use cpkit.Jobs.Repository.{
  update_job, set_job_playbook_version, create_task, run_statement, insert_task, is_task, task_row,
}
use cpkit.Jobs.Repository.Shape.{has_job}
use cpkit.Runner.{RunnerState, Env, query, stated, set_status, add_task}

abbrev pub Anything : List Job → Type 0
Anything js = Unit

module _ (env : Env) where
  -- the job's tasks have ids below n
  abbrev pub IsUnused : ℕ → List Task → Type 0
  IsUnused n ks = All (λ k. k.job_id ≡ env.job_id → k.task_id < n) ks

  -- the job exists, its next task id is free, and `C` holds of the jobs
  pub record Ready (C : List Job → Type 0) (s : RunnerState) : Type 0 where
    pub unused : IsUnused s.counter s.tables.tasks
    pub there : has_job s.tables.jobs env.job_id ≡ true
    pub jobs : C s.tables.jobs

  -- the database raises at some statement
  abbrev pub Faulty : Type 0
  Faulty = (n : ℕ) × ((d : DatabaseError) × (env.fault n ≡ some d))

  abbrev pub StatusIs : String → List Job → Type 0
  StatusIs status js = All (λ j. j.job_id ≡ env.job_id → j.status ≡ some status) js

  -- a statement that raises only counts itself
  still :
      {C : List Job → Type 0} {s : RunnerState}
      → Ready C s
      → Ready C (record s { statements = suc s.statements })
  still h = record { unused = h.unused; there = h.there; jobs = h.jobs }

  abbrev pub Broken : (C : List Job → Type 0) → {E : Type 0} → E → RunnerState → Type 0
  Broken C e s = Ready C s × Faulty

  pub unused_none : (n : ℕ) (ks : List Task) → IsUnused n ks → any (is_task env.job_id n) ks ≡ false
  unused_none n [] h = refl
  unused_none n (k ∷ ks) h = ground (arith, unused_none n ks h.1, h.0)

  pub has_job-update_rows :
      (f : Job → Job)
      → ((j : Job) → (f j).job_id ≡ j.job_id)
      → (js : List Job)
      → has_job (update_rows (λ j. j.job_id == env.job_id) f js) env.job_id ≡ has_job js env.job_id
  has_job-update_rows f e [] = refl
  has_job-update_rows f e (j ∷ js) = ground (arith, e j, has_job-update_rows f e js)

  status_set :
      (status : String) (js : List Job)
      → StatusIs status
          (update_rows (λ j. j.job_id == env.job_id) (λ j. record j { status = some status }) js)
  status_set status [] = tt
  status_set status (j ∷ js) = (λ e. ground (arith, e), status_set status js)

  pub Ends-set_status :
      {C : List Job → Type 0} (status : String)
      → Ends (Ready C) (λ _. Ready (StatusIs status)) (Broken C) (set_status env status)
  unfolding set_status query update_job
  Ends-set_status {C = C} status = record { at = λ s h. at (env.fault s.statements) s refl h }
    where
      at :
          (o : Option DatabaseError) (s : RunnerState)
          → env.fault s.statements ≡ o
          → Ready C s
          → EndsIn
              (λ _. Ready (StatusIs status))
              (Broken C)
              (stated env o (update_job env.job_id status) s)
      at none s e h = record {
        unused = h.unused;
        there =
            has_job-update_rows (λ j. record j { status = some status }) (λ j. refl) s.tables.jobs
            ∙ h.there;
        jobs = status_set status s.tables.jobs;
      }
      at (some d) s e h = (still h, (s.statements, (d, e)))

  pub Ends-set_version :
      (version : String)
      → Ends
          (Ready Anything)
          (λ _. Ready Anything)
          (Broken Anything)
          (query env (set_job_playbook_version env.job_id version))
  unfolding query set_job_playbook_version
  Ends-set_version version = record { at = λ s h. at (env.fault s.statements) s refl h }
    where
      at :
          (o : Option DatabaseError) (s : RunnerState)
          → env.fault s.statements ≡ o
          → Ready Anything s
          → EndsIn
              (λ _. Ready Anything)
              (Broken Anything)
              (stated env o (set_job_playbook_version env.job_id version) s)
      at none s e h = record {
        unused = h.unused;
        there =
            has_job-update_rows (λ j. record j { playbook_version = some version }) (λ j. refl)
              s.tables.jobs
            ∙ h.there;
        jobs = tt;
      }
      at (some d) s e h = (still h, (s.statements, (d, e)))

  -- a task is inserted where its id is free
  pub Ends-add_task :
      {C : List Job → Type 0} (created : ℕ) (task_type task_data : String)
      → Ends
          (Ready C)
          (λ _ s. Ready C (record s { counter = suc s.counter }))
          (Broken C)
          (add_task env created task_type task_data)
  unfolding add_task query create_task insert_task run_statement catch
  Ends-add_task {C = C} created task_type task_data = record {
    at = λ s h. at (env.fault s.statements) s refl h;
  }
    where
      row : RunnerState → Task
      row s = task_row env.job_id s.counter created task_type task_data

      at :
          (o : Option DatabaseError) (s : RunnerState)
          → env.fault s.statements ≡ o
          → Ready C s
          → EndsIn
              (λ _ s. Ready C (record s { counter = suc s.counter }))
              (Broken C)
              (stated env o (create_task env.job_id s.counter created task_type task_data) s)
      at none s e h = rw (unused_none s.counter s.tables.tasks h.unused) (
          rw h.there (record {
            unused =
                All-append _ s.tables.tasks (row s ∷ [])
                  (All-mono _ _ (λ k u e. ground (arith, u e)) s.tables.tasks h.unused)
                  ((λ e. ground arith), tt);
            there = h.there;
            jobs = h.jobs;
          }))
      at (some d) s e h = (still h, (s.statements, (d, e)))
