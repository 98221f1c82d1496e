-- ===== src/Runner/Returned.antt =====
-- launch_runner without the hooks of the SSH credentials.
use cpkit.Base.{String, ◌≡◌, refl, sym, subst, false, Option, none, some}
use cpkit.Base.Exec.{ok, pure, ◌>>=◌}
use cpkit.Base.Exec.Ends.{
  EndsIn, Ends, Ends-pure, Ends-lift, Ends-gets, Ends-bind, Ends-if, Ends-weaken, Ends-catch,
}
use cpkit.Base.Value.{Dict}
use cpkit.Runner.{RunFailure, RunnerState, LoadedPlaybook, Env, FilePath}
use cpkit.Runner.Launch.{
  set_loaded, set_target, vars_of, run_target, launch_body, launch_failed, cleanup_of,
  launch_cleanup, launch_runner,
}
use cpkit.Runner.Rules.{Ends-finally}
use cpkit.Runner.Ready.{Ready, Faulty, Anything, Ends-set_status, Ends-set_version}
use cpkit.Runner.Settled.{
  Settled, Ends-record_failure, Ends-run_loaded_playbook, Ends-result_after_failure,
}

module _ (env : Env) (off : env.options.ssh_credential_hook_enabled ≡ false) where
  Ends-set_loaded :
      (l : LoadedPlaybook)
      → Ends
          (Ready env Anything)
          (λ _. Ready env Anything)
          (λ _. Ready env Anything)
          (set_loaded env l)
  unfolding set_loaded
  Ends-set_loaded l = record {
    at = λ s h. record { unused = h.unused; there = h.there; jobs = tt };
  }

  Ends-run_target :
      (name : String) (l : LoadedPlaybook) (vars : Dict)
      → Ends
          (Ready env Anything)
          (Settled env)
          (λ _. Ready env Anything)
          (run_target env name l (some vars))
  unfolding set_target pure ◌>>=◌
  Ends-run_target name l vars =
      Ends-bind _ _
        (Ends-weaken _ (Ends-run_loaded_playbook env name l vars "target") (λ s h. h) (λ r s h. h)
          λ e s h. h.0)
        λ r. record { at = λ s h. record { unused = h.unused; there = h.there; status = h.status } }

  Ends-vars_of :
      (name : String) (l : LoadedPlaybook) (extra : Dict)
      → Ends
          (Ready env Anything)
          (λ o s. Ready env Anything s × (o ≡ some extra))
          (λ _. Ready env Anything)
          (vars_of env name l extra)
  Ends-vars_of name l extra =
      Ends-if env.options.ssh_credential_hook_enabled _ _ (λ on. cc (off, on))
        λ _. Ends-pure (some extra) λ s h. (h, refl)

  Ends-run_vars :
      (name : String) (l : LoadedPlaybook) (extra : Dict) (o : Option Dict)
      → Ends
          (λ s. Ready env Anything s × (o ≡ some extra))
          (Settled env)
          (λ _. Ready env Anything)
          (run_target env name l o)
  Ends-run_vars name l extra none = record { at = λ s h. cc (h.1) }
  Ends-run_vars name l extra (some vars) =
      Ends-weaken _ (Ends-run_target name l vars) (λ s h. h.0) (λ r s h. h) λ e s h. h

  Ends-launch_body :
      (name : String) (extra : Dict)
      → Ends
          (Ready env Anything)
          (Settled env)
          (λ _. Ready env Anything)
          (launch_body env name extra)
  unfolding launch_body
  Ends-launch_body name extra = Ends-bind _ _ (Ends-lift _ (λ a s e h. h) (λ e s k h. h)) λ l.
      Ends-bind _ _ (Ends-set_loaded l) λ _.
        Ends-bind _ _
          (Ends-weaken _ (Ends-set_version env l.version) (λ s h. h) (λ a s h. h) λ e s h. h.0)
          λ _. Ends-bind _ _ (Ends-vars_of name l extra) (Ends-run_vars name l extra)

  Ends-launch_failed :
      (name : String) (e : RunFailure)
      → Ends (Ready env Anything) (Settled env) (λ _ _. Faulty env) (launch_failed env name e)
  unfolding launch_failed
  Ends-launch_failed name e =
      Ends-bind _ _
        (Ends-weaken _ (Ends-set_status env "FAILED") (λ s h. h) (λ a s h. h) λ e s h. h.1)
        λ _.
          Ends-bind _ _
            (Ends-weaken _ (Ends-record_failure env e) (λ s h. h) (λ a s h. h) λ e s h. h.1)
            λ _. Ends-bind _ _ (Ends-gets _ λ s h. h) λ l. Ends-result_after_failure env name l

  cleanup_nothing :
      (o : Option FilePath) (name : String) (extra : Dict) (s : RunnerState)
      → cleanup_of env o name extra s ≡ (ok tt, s)
  unfolding pure
  cleanup_nothing none name extra s = refl
  cleanup_nothing (some dir) name extra s = rw off refl

  Ends-launch_cleanup :
      {P : RunnerState → Type 0} {X : RunFailure → RunnerState → Type 0} (name : String)
      (extra : Dict)
      → Ends P (λ _. P) X (launch_cleanup env name extra)
  unfolding launch_cleanup
  Ends-launch_cleanup {P = P} {X = X} name extra = record {
    at = λ s h. subst (EndsIn (λ _. P) X) (sym (cleanup_nothing s.credential_dir name extra s)) h;
  }

  -- With the hooks off, from a state in which the job exists and the runner's counter is above the ids
  -- of its tasks: either launch_runner returns a result, the job's status is COMPLETED if the result is
  -- successful and FAILED if not, and the result's counter is above the ids of all the job's tasks,
  -- unless the result is failed and the database raises at some statement; or launch_runner raises and
  -- the database raises at some statement. So it is in whatever order the run's events and its
  -- heartbeats come, with the events after a heartbeat that raises coming when the result is made.
  pub launch_runner-Settled :
      (name : String) (extra : Dict) (s : RunnerState)
      → Ready env Anything s
      → EndsIn (Settled env) (λ _ _. Faulty env) (launch_runner env name extra s)
  unfolding launch_runner
  launch_runner-Settled name extra =
      (Ends-finally _ _
        (Ends-catch _ _ (Ends-launch_body name extra) λ e. Ends-launch_failed name e)
        (λ a. Ends-launch_cleanup name extra) λ e. Ends-launch_cleanup name extra).at
