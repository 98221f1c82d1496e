-- ===== src/Runner/Uncounted.antt =====
-- The task that launch_runner records, and does not count, where it fails.
use cpkit.Base.{
  ℕ, String, ◌≡◌, refl, Bool, true, ◌&&◌, Option, none, some, List, [], ◌∷◌, ◌++◌, arith, ◌==◌,
  ==_refl, any, Bool-cases, inl, inr,
}
use cpkit.Base.Exec.{Result, ok, err, raise, catch}
use cpkit.Base.Exec.Ends.{EndsIn, Ends, Ends-gets, Ends-bind, Ends-weaken}
use cpkit.Errors.{DatabaseError}
use cpkit.Jobs.Types.{Job, Task, Tables}
use cpkit.Jobs.Repository.{
  Raised, Query, is_task, create_task, insert_task, run_statement, task_row, update_job,
}
use cpkit.Runner.{
  RunFailure, RunnerState, Env, Run, unless_raised, stated, queried, query, add_task, set_status,
}
use cpkit.Runner.Loaded.{result_after_failure, record_failure}
use cpkit.Runner.Launch.{credential_dir_of, launch_failed}
use cpkit.Runner.Rules.{Ensures, Ends-both}
use cpkit.Runner.Stuck.{IsTaken}

any-concat :
    (p : Task → Bool) (ks : List Task) (k : Task) → p k ≡ true → any p (ks ++ k ∷ []) ≡ true
any-concat p [] k h = ground (arith, h)
any-concat p (i ∷ ks) k h = ground (arith, any-concat p ks k h)

own_id : (id n : ℕ) → ((id == id) && (n == n)) ≡ true
own_id id n = ground (arith, ==_refl id, ==_refl n)

module _ (env : Env) where
  abbrev pub HasDir : RunnerState → Type 0
  HasDir s = s.credential_dir ≡ some (credential_dir_of env)

  -- no statement changes the runner's own variables
  Ends-query : {A : Type 0} (q : Query A) → Ends HasDir (λ _. HasDir) (λ _. HasDir) (query env q)
  unfolding query
  Ends-query {A = A} q = record { at = λ s h. at (env.fault s.statements) s h }
    where
      after :
          (x : Result Raised A × Tables) (s : RunnerState)
          → HasDir s
          → EndsIn (λ _. HasDir) (λ _. HasDir) (queried env x s)
      after (ok a, t) s h = h
      after (err e, t) s h = h

      at :
          (o : Option DatabaseError) (s : RunnerState)
          → HasDir s
          → EndsIn (λ _. HasDir) (λ _. HasDir) (stated env o q s)
      at none s h = after (q s.tables) s h
      at (some d) s h = h

  -- a task that is recorded takes its id
  Ensures-add_task :
      (created : ℕ) (task_type task_data : String)
      → Ensures (λ _. IsTaken env) (add_task env created task_type task_data)
  unfolding add_task query create_task insert_task run_statement catch raise
  Ensures-add_task created task_type task_data = record {
    at = λ s h. at (env.fault s.statements) s;
  }
    where
      row : RunnerState → Task
      row s = task_row env.job_id s.counter created task_type task_data

      at :
          (o : Option DatabaseError) (s : RunnerState)
          → EndsIn
              (λ _. IsTaken env)
              (λ _ _. Unit)
              (stated env o (create_task env.job_id s.counter created task_type task_data) s)
      at none s = elim (Bool-cases (any (is_task env.job_id s.counter) s.tables.tasks)) [
        | inl t ↦ rw t tt
        | inr f ↦
            rw f (elim (Bool-cases (any (λ (j : Job). j.job_id == env.job_id) s.tables.jobs)) [
              | inl t ↦ rw t (any-concat _ s.tables.tasks (row s) (own_id env.job_id s.counter))
              | inr f ↦ rw f tt
            ])
      ]
      at (some d) s = tt

  Ends-add_task :
      (created : ℕ) (task_type task_data : String)
      → Ends HasDir
          (λ _ s. HasDir s × IsTaken env s)
          (λ _. HasDir)
          (add_task env created task_type task_data)
  unfolding add_task
  Ends-add_task created task_type task_data =
      Ends-weaken _
        (Ends-both _
          (record {
            at = λ s h.
                (Ends-query (create_task env.job_id s.counter created task_type task_data)).at s h;
          })
          (Ensures-add_task created task_type task_data))
        (λ s h. (h, tt)) (λ a s h. h) (λ e s h. h.0)

  pub Ends-launch_failed :
      (name : String) (e : RunFailure)
      → Ends HasDir (λ _ s. HasDir s × IsTaken env s) (λ _. HasDir) (launch_failed env name e)
  unfolding launch_failed set_status record_failure result_after_failure
  Ends-launch_failed name e = Ends-bind _ _ (Ends-query (update_job env.job_id "FAILED")) λ _.
      Ends-bind _ _ (Ends-add_task env.now "FAILURE" (env.str_error e))
        λ _. Ends-bind _ _ (Ends-gets _ λ s h. h) λ l. Ends-gets _ λ s h. h

  -- an action that reaches no return, whatever is done at its end
  pub never :
      {A : Type 0} (r : Result RunFailure A) (s : RunnerState) (f : Run (Unit {0}))
      → EndsIn (λ _ s. HasDir s × IsTaken env s) (λ _. HasDir) (r, s)
      → ((s : RunnerState) → HasDir s → IsTaken env s → EndsIn (λ _ _. ⊥) (λ _ _. Unit) (f s))
      → (e : RunFailure) × (unless_raised (f s).0 r ≡ err e)
  never {A = A} (ok a) s f h k = raised (f s).0 (f s).1 (k s h.0 h.1)
    where
      raised :
          (g : Result RunFailure (Unit {0})) (s' : RunnerState)
          → EndsIn (λ _ _. ⊥) (λ _ _. Unit) (g, s')
          → (e : RunFailure) × (unless_raised {A = A} g (ok a) ≡ err e)
      raised (ok _) s' h = absurd h
      raised (err e) s' h = (e, refl)
  never {A = A} (err e) s f h k = raised (f s).0
    where
      raised :
          (g : Result RunFailure (Unit {0}))
          → (e' : RunFailure) × (unless_raised {A = A} g (err e) ≡ err e')
      raised (ok _) = (e, refl)
      raised (err e') = (e', refl)
