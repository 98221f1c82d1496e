-- ===== src/Runner/Events.antt =====
-- The events of a run keep the tables ready for the next statement.
use cpkit.Base.{ℕ, String, List, [], ◌∷◌, str_eq}
use cpkit.Base.Exec.{pure, raise}
use cpkit.Base.Exec.Ends.{Ends, Ends-bind, Ends-if, Ends-weaken, Ends-catch}
use cpkit.Base.Value.{Value}
use cpkit.Jobs.Types.{Job}
use cpkit.Runner.{
  Event, quiet, malformed, runner_on_ok, RunnerState, FilePath, Env, count_task, set_data,
  record_event, event_handler, task_text,
}
use cpkit.Runner.Loaded.{handle_events}
use cpkit.Runner.Ready.{Ready, Anything, Broken, Ends-add_task}

module _ (env : Env) where
  pub same :
      {C : List Job → Type 0} {s : RunnerState} {msg : Value} {dirs : List FilePath}
      → Ready env C s
      → Ready env C (record s { run_data = msg; dirs = dirs })
  same h = record { unused = h.unused; there = h.there; jobs = h.jobs }

  pub forget : {C : List Job → Type 0} {s : RunnerState} → Ready env C s → Ready env Anything s
  forget h = record { unused = h.unused; there = h.there; jobs = tt }

  Ends-record_event :
      {C : List Job → Type 0} (created : ℕ) (task : String × String)
      → Ends (Ready env C) (λ _. Ready env C) (Broken env C) (record_event env created task)
  unfolding record_event count_task
  Ends-record_event created (task_type, task_data) =
      Ends-bind _ _ (Ends-add_task env created task_type task_data) λ _. record { at = λ s h. h }

  Ends-task :
      {C : List Job → Type 0} (created : ℕ) (task : String × String)
      → Ends (Ready env C) (λ _. Ready env C) (λ _. Ready env C) (record_event env created task)
  Ends-task created task =
      Ends-weaken _ (Ends-record_event created task) (λ s h. h) (λ a s h. h) (λ e s h. h.0)

  pub Ends-event_handler :
      {C : List Job → Type 0} (created : ℕ) (e : Event)
      → Ends (Ready env C) (λ _. Ready env C) (λ _. Ready env C) (event_handler env created e)
  unfolding event_handler pure raise set_data
  Ends-event_handler created quiet = record { at = λ s h. h }
  Ends-event_handler created malformed = record { at = λ s h. h }
  Ends-event_handler created (runner_on_ok task msg) =
      Ends-if (str_eq task "Data") _ _ (λ _. record { at = λ s h. same h })
        λ _. record { at = λ s h. h }
  Ends-event_handler created e = Ends-task created (task_text env e)

  pub Ends-handle_events :
      {C : List Job → Type 0} (es : List (ℕ × Event))
      → Ends (Ready env C) (λ _. Ready env C) (Broken env C) (handle_events env es)
  unfolding handle_events pure
  Ends-handle_events [] = record { at = λ s h. h }
  Ends-handle_events {C = C} ((created, e) ∷ es) =
      Ends-catch _ _
        (Ends-bind _ _ (Ends-event_handler created e)
          λ _. Ends-weaken _ (Ends-handle_events es) (λ s h. h) (λ a s h. h) λ e s h. h.0)
        λ _. record { at = λ s h. h }
