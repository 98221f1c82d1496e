-- ===== src/Runner/Unwatched.antt =====
-- A run whose heartbeat raises: _run_loaded_playbook of cpkit/playbooks/ansible.py returns while the
-- thread of the run goes on.
pub mod Tasks
use cpkit.Base.{
  ap, sym, subst, ◌≢◌, ℕ, suc, String, ◌≡◌, refl, ◌∙◌, true, false, none, List, ◌∷◌, any,
}
use cpkit.Base.Exec.{Result, ok, err, pure, raise, catch}
use cpkit.Base.Exec.Ends.{
  EndsIn, Ends, Ends-pure, Ends-lift, Ends-gets, Ends-bind, Ends-weaken, Ends-catch,
}
use cpkit.Base.Value.{Dict}
use cpkit.Jobs.Types.{Task}
use cpkit.Runner.{
  Event, warning, Tick, occurs, heartbeat, events_of, RunFailure, RunnerState, RunnerResult,
  LoadedPlaybook, Running, Env, FilePath, Run, finally, unless_raised, record_event, event_handler,
  count_task,
}
use cpkit.Runner.Ready.{Ready, Anything}
use cpkit.Runner.Loaded.{
  handle_events, monitor_failed, monitor, result_now, watch, start, run_loaded_playbook,
  remove_tree, make_dirs, job_dir_of,
}
use cpkit.Runner.Rules.{Ends-attempt, Ends-finally}
use cpkit.Runner.Unwatched.Tasks.{HasTask, At, Keeps-handle_events, Ends-status, Ends-task}

-- What follows an action that does not raise, in a `finally`.
module _ {A : Type 0} (R : A → RunnerState → Type 0) where
  closed :
      (a : A) (g : Result RunFailure (Unit {0})) (s : RunnerState)
      → EndsIn (λ _. R a) (λ _ _. ⊥) (g, s)
      → EndsIn R (λ _ _. ⊥) (unless_raised g (ok a), s)
  closed a (ok _) s h = h
  closed a (err e) s h = absurd h

module _ {A : Type 0} {Q R : A → RunnerState → Type 0} where
  after :
      (r : Result RunFailure A) (s : RunnerState) (f : Run (Unit {0}))
      → ((a : A) → Ends (Q a) (λ _. R a) (λ _ _. ⊥) f)
      → EndsIn Q (λ _ _. ⊥) (r, s)
      → EndsIn R (λ _ _. ⊥) (unless_raised (f s).0 r, (f s).1)
  after (ok a) s f k h = closed R a (f s).0 (f s).1 ((k a).at s h)
  after (err e) s f k h = absurd h

  Ends-then :
      {P : RunnerState → Type 0} (m : Run A) (f : Run (Unit {0}))
      → Ends P Q (λ _ _. ⊥) m
      → ((a : A) → Ends (Q a) (λ _. R a) (λ _ _. ⊥) f)
      → Ends P R (λ _ _. ⊥) (finally m f)
  unfolding finally
  Ends-then m f k l = record { at = λ s h. after (m s).0 (m s).1 f l (k.at s h) }

module _ (env : Env) (id : ℕ) where
  -- the result's counter is the id of a task
  abbrev pub Stale : RunnerResult → RunnerState → Type 0
  Stale r s = (r.task_id_counter ≡ id) × HasTask env id s

  module _ (k : ℕ) (starts : env.fault k ≡ none) (beats : env.fault (suc k) ≢ none)
      (fails : env.fault (suc (suc k)) ≡ none) (records : env.fault (suc (suc (suc k))) ≡ none)
      (name : String) (l : LoadedPlaybook) where
    Ends-made :
        Ends
          (At env id (suc (suc k)))
          (λ r s. At env id (suc (suc (suc k))) s × (r.task_id_counter ≡ id))
          (λ _ _. ⊥)
          (monitor_failed env name l true)
    unfolding monitor_failed result_now
    Ends-made =
        Ends-bind {Q = λ _. At env id (suc (suc (suc k)))} _ _
          (Ends-weaken _ (Ends-status env id (suc (suc k)) "FAILED") (λ s h. h) (λ a s h. h.0)
            λ e s h. absurd (h.1 fails))
          λ _. Ends-gets _ λ s h. (h, h.counted)

    Ends-first :
        (created : ℕ) (stdout : String)
        → Ends
            (At env id (suc (suc (suc k))))
            (λ _. HasTask env id)
            (λ _. HasTask env id)
            (event_handler env created (warning stdout))
    unfolding event_handler record_event count_task
    Ends-first created stdout =
        Ends-bind _ _
          (Ends-weaken _ (Ends-task env id (suc (suc (suc k))) created "WARNING" stdout records)
            (λ s h. h) (λ a s h. h) λ e s h. absurd h)
          λ _. record { at = λ s h. h }

    Ends-late :
        (created : ℕ) (stdout : String) (es : List (ℕ × Event))
        → Ends
            (At env id (suc (suc (suc k))))
            (λ _. HasTask env id)
            (λ _ _. ⊥)
            (handle_events env ((created, warning stdout) ∷ es))
    unfolding handle_events
    Ends-late created stdout es =
        Ends-catch _ _
          (Ends-bind _ _ (Ends-first created stdout) λ _.
            Ends-weaken _ (Keeps-handle_events env id es) (λ s h. h) (λ a s h. h) λ x s h. absurd h)
          λ _. Ends-pure true λ s h. h

    Ends-monitor :
        (r : Running) (created : ℕ) (stdout : String) (ts : List Tick)
        → Ends
            (At env id (suc k))
            Stale
            (λ _ _. ⊥)
            (monitor env name l true r (heartbeat ∷ occurs created (warning stdout) ∷ ts))
    unfolding monitor
    Ends-monitor r created stdout ts =
        Ends-attempt _ _ (Ends-status env id (suc k) "RUNNING")
          (λ _. record { at = λ s h. absurd (beats h.1) })
          λ e.
            Ends-weaken _
              (Ends-then _ _ Ends-made λ a. record {
                at = λ s h.
                    (Ends-bind _ _
                        (Ends-weaken _ (Ends-late created stdout (events_of ts)) (λ s' x. x)
                          (λ _ s' x. (h.1, x)) λ x s' y. y)
                        λ _. Ends-pure tt λ s' x. x).at
                      s h.0;
              })
              (λ s h. h.0) (λ a s h. h) λ x s h. h

    Ends-watch :
        (dir : FilePath) (r : Running) (created : ℕ) (stdout : String) (ts : List Tick)
        → r.ticks ≡ heartbeat ∷ occurs created (warning stdout) ∷ ts
        → Ends (At env id (suc k)) Stale (λ _ _. ⊥) (watch env name l dir true r)
    unfolding watch remove_tree
    Ends-watch dir r created stdout ts e =
        Ends-finally _ _
          (subst (λ x. Ends (At env id (suc k)) Stale (λ _ _. ⊥) (monitor env name l true r x))
            (sym e) (Ends-monitor r created stdout ts))
          (λ a. record { at = λ s h. h }) λ x. record { at = λ s h. h }

    Ends-start :
        (dir : FilePath) (vars : Dict) (r : Running)
        → env.makedirs_fails dir ≡ false
        → env.run_async l dir vars ≡ ok r
        → Ends
            (At env id k)
            (λ a s. At env id (suc k) s × (a ≡ r))
            (λ _ _. ⊥)
            (start env l dir true vars)
    unfolding start remove_tree make_dirs
    Ends-start dir vars r made ran =
        Ends-bind {Q = λ _. At env id k} _ _ (record { at = λ s h. moved s h })
          λ _.
            Ends-bind {Q = λ _. At env id k} _ _ (record { at = λ s h. rw made (moved s h) })
              λ _.
                Ends-bind {Q = λ _. At env id (suc k)} _ _
                  (Ends-weaken _ (Ends-status env id k "RUNNING") (λ s h. h) (λ a s h. h.0)
                    λ e s h. absurd (h.1 starts))
                  λ _. Ends-lift _ (λ a s e h. (h, cc (e, ran))) λ e s x h. absurd (cc (x, ran))
      where
        moved :
            (s : RunnerState) {dirs : List FilePath}
            → At env id k s
            → At env id k (record s { dirs = dirs })
        moved s h = record {
          statement = h.statement;
          counted = h.counted;
          there = h.there;
          unused = h.unused;
        }

-- From a state in which the job exists and the counter is above the ids of its tasks: where the
-- directory can be made, the run starts, its heartbeat falls due before any event and raises, the three
-- statements round it (of the statuses RUNNING and FAILED and of a task) do not, and a warning comes
-- after the result has been made, then _run_loaded_playbook returns, and the job has a task whose id is
-- the result's counter, whatever else comes.
pub run_loaded_playbook-Stale :
    (env : Env) (name : String) (l : LoadedPlaybook) (vars : Dict) (suffix : String) (r : Running)
    (created : ℕ) (stdout : String) (ts : List Tick) (s : RunnerState)
    → env.makedirs_fails (job_dir_of env suffix) ≡ false
    → env.run_async l (job_dir_of env suffix) vars ≡ ok r
    → r.ticks ≡ heartbeat ∷ occurs created (warning stdout) ∷ ts
    → env.fault s.statements ≡ none
    → env.fault (suc s.statements) ≢ none
    → env.fault (suc (suc s.statements)) ≡ none
    → env.fault (suc (suc (suc s.statements))) ≡ none
    → Ready env Anything s
    → EndsIn (Stale env s.counter) (λ _ _. ⊥) (run_loaded_playbook env name l vars suffix true s)
unfolding run_loaded_playbook
run_loaded_playbook-Stale env name l vars suffix r created stdout ts s made ran ticks a b c d h =
    (Ends-attempt _ _ (Ends-start env s.counter s.statements a b c d name l _ vars r made ran)
        (λ x. record {
          at = λ s' q.
              (Ends-watch env s.counter s.statements a b c d name l _ x created stdout ts
                  (ap (λ y. y.ticks) q.1 ∙ ticks)).at
                s' q.0;
        })
        λ e. record { at = λ s' q. absurd q }).at
      s (record { statement = refl; counted = refl; there = h.there; unused = h.unused })
