-- ===== src/Runner/Unwatched/Tasks.antt =====
-- The tasks of a job while its runner executes one statement after another.
use cpkit.Base.{
  ap, sym, subst, ◌≢◌, ℕ, suc, String, ◌≡◌, refl, ◌∙◌, true, false, Bool, Option, none, some, List,
  [], ◌∷◌, ◌++◌, any, arith, str_eq,
}
use cpkit.Base.Exec.{pure, raise, catch}
use cpkit.Base.Exec.Ends.{EndsIn, Ends, Ends-pure, Ends-bind, Ends-if, Ends-weaken, Ends-catch}
use cpkit.Errors.{DatabaseError}
use cpkit.Jobs.Types.{Task}
use cpkit.Jobs.Repository.{update_job, is_task, create_task, insert_task, run_statement, task_row}
use cpkit.Jobs.Repository.Shape.{has_job}
use cpkit.Runner.{
  Event, quiet, malformed, runner_on_ok, RunnerState, Env, stated, query, add_task, set_status,
  set_data, record_event, event_handler, task_text, count_task,
}
use cpkit.Runner.Ready.{IsUnused, unused_none, has_job-update_rows}
use cpkit.Runner.Loaded.{handle_events}

module _ (env : Env) (id : ℕ) where
  -- the job has a task of this id
  abbrev pub HasTask : RunnerState → Type 0
  HasTask s = any (is_task env.job_id id) s.tables.tasks ≡ true

  any-append :
      (ks : List Task) (k : Task)
      → any (is_task env.job_id id) ks ≡ true
      → any (is_task env.job_id id) (ks ++ (k ∷ [])) ≡ true
  any-append [] k h = absurd (cc h)
  any-append (j ∷ ks) k h = ground (arith, h, any-append ks k)

  Keeps-add_task :
      (created : ℕ) (task_type task_data : String)
      → Ends HasTask (λ _. HasTask) (λ _. HasTask) (add_task env created task_type task_data)
  unfolding add_task query create_task insert_task run_statement catch raise
  Keeps-add_task created task_type task_data = record {
    at = λ s h. at (env.fault s.statements) s h;
  }
    where
      at :
          (o : Option DatabaseError) (s : RunnerState)
          → HasTask s
          → EndsIn
              (λ _. HasTask)
              (λ _. HasTask)
              (stated env o (create_task env.job_id s.counter created task_type task_data) s)
      at none s h = cases _ _ refl refl
        where
          row : Task
          row = task_row env.job_id s.counter created task_type task_data

          cases :
              (b c : Bool)
              → any (is_task env.job_id s.counter) s.tables.tasks ≡ b
              → has_job s.tables.jobs env.job_id ≡ c
              → EndsIn
                  (λ _. HasTask)
                  (λ _. HasTask)
                  (stated env none (create_task env.job_id s.counter created task_type task_data) s)
          cases true c p q = rw p h
          cases false true p q = rw p (rw q (any-append s.tables.tasks row h))
          cases false false p q = rw p (rw q h)
      at (some d) s h = h

  Keeps-record_event :
      (created : ℕ) (task : String × String)
      → Ends HasTask (λ _. HasTask) (λ _. HasTask) (record_event env created task)
  unfolding record_event count_task
  Keeps-record_event created (task_type, task_data) =
      Ends-bind _ _ (Keeps-add_task created task_type task_data) λ _. record { at = λ s h. h }

  Keeps-event_handler :
      (created : ℕ) (e : Event)
      → Ends HasTask (λ _. HasTask) (λ _. HasTask) (event_handler env created e)
  unfolding event_handler pure raise set_data
  Keeps-event_handler created quiet = record { at = λ s h. h }
  Keeps-event_handler created malformed = record { at = λ s h. h }
  Keeps-event_handler created (runner_on_ok task msg) =
      Ends-if (str_eq task "Data") _ _ (λ _. record { at = λ s h. h }) λ _. record { at = λ s h. h }
  Keeps-event_handler created e = Keeps-record_event created (task_text env e)

  pub Keeps-handle_events :
      (es : List (ℕ × Event)) → Ends HasTask (λ _. HasTask) (λ _ _. ⊥) (handle_events env es)
  unfolding handle_events
  Keeps-handle_events [] = Ends-pure false λ s h. h
  Keeps-handle_events ((created, e) ∷ es) =
      Ends-catch _ _
        (Ends-bind _ _ (Keeps-event_handler created e)
          λ _. Ends-weaken _ (Keeps-handle_events es) (λ s h. h) (λ a s h. h) λ x s h. absurd h)
        λ _. Ends-pure true λ s h. h

  any-last :
      (ks : List Task) (k : Task)
      → is_task env.job_id id k ≡ true
      → any (is_task env.job_id id) (ks ++ (k ∷ [])) ≡ true
  any-last [] k h = ground (arith, h)
  any-last (j ∷ ks) k h = ground (arith, any-last ks k h)

  -- the next statement is the k-th, and the next task of the job, which exists, has this id
  pub record At (k : ℕ) (s : RunnerState) : Type 0 where
    pub statement : s.statements ≡ k
    pub counted : s.counter ≡ id
    pub there : has_job s.tables.jobs env.job_id ≡ true
    pub unused : IsUnused env id s.tables.tasks

  pub Ends-status :
      (k : ℕ) (status : String)
      → Ends
          (At k)
          (λ _ s. At (suc k) s × (env.fault k ≡ none))
          (λ _ s. At (suc k) s × (env.fault k ≢ none))
          (set_status env status)
  unfolding set_status query update_job
  Ends-status k status = record { at = λ s h. at (env.fault s.statements) s refl h }
    where
      at :
          (o : Option DatabaseError) (s : RunnerState)
          → env.fault s.statements ≡ o
          → At k s
          → EndsIn
              (λ _ s. At (suc k) s × (env.fault k ≡ none))
              (λ _ s. At (suc k) s × (env.fault k ≢ none))
              (stated env o (update_job env.job_id status) s)
      at none s e h = (
        record {
          statement = ap suc h.statement;
          counted = h.counted;
          there =
              has_job-update_rows env (λ j. record j { status = some status }) (λ j. refl)
                s.tables.jobs
              ∙ h.there;
          unused = h.unused;
        },
        cc (e, h.statement),
      )
      at (some d) s e h = (
        record {
          statement = ap suc h.statement;
          counted = h.counted;
          there = h.there;
          unused = h.unused;
        },
        λ n. cc (e, h.statement, n),
      )

  pub Ends-task :
      (k created : ℕ) (task_type task_data : String)
      → env.fault k ≡ none
      → Ends (At k) (λ _. HasTask) (λ _ _. ⊥) (add_task env created task_type task_data)
  unfolding add_task query create_task insert_task run_statement catch
  Ends-task k created task_type task_data works = record {
    at = λ s h. at (env.fault s.statements) s (ap env.fault h.statement ∙ works) h;
  }
    where
      at :
          (o : Option DatabaseError) (s : RunnerState)
          → o ≡ none
          → At k s
          → EndsIn
              (λ _. HasTask)
              (λ _ _. ⊥)
              (stated env o (create_task env.job_id s.counter created task_type task_data) s)
      at none s e h =
          let row = task_row env.job_id s.counter created task_type task_data in
          rw
            (unused_none env s.counter s.tables.tasks
              (subst (λ n. IsUnused env n s.tables.tasks) (sym h.counted) h.unused))
            (rw h.there (any-last s.tables.tasks row (ground (arith, h.counted))))
      at (some d) s e h = absurd (cc e)
