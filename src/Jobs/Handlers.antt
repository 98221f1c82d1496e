-- ===== src/Jobs/Handlers.antt =====
-- cpkit/jobs/worker.py, what a dispatched handler runs in: _run_queue_handler with the logging
-- context of the job, and the maintenance handlers, resolver, parser and failure record that
-- create_queue_worker puts together. `E` are the exceptions that `except Exception` catches.
pub mod Recorded
mod Examples
use cpkit.Base.{
  ℕ, String, Bool, true, false, not, ◌||◌, Option, none, some, List, str_eq, if◌then◌else◌,
}
use cpkit.Base.Exec.{Result, ok, err, Exec, pure, raise, lift, gets, catch, ◌>>=◌, ◌>>◌}
use cpkit.Base.Value.{Dict, get}
use cpkit.Jobs.Types.{QueueMessage, Tables}
use cpkit.Jobs.Recurring.{fail_zombie_jobs_message_type}
use cpkit.Jobs.Repository.{update_job, fail_zombie_jobs}
use cpkit.Jobs.Dispatch.{Parsed, parsed, raw}

-- The tables, and the job id that the context of the thread holds for its log lines.
pub record Process : Type 0 where
  pub tables : Tables
  pub job_id_ctx : Option ℕ

pub record HandlerOutcome (E : Type 0) : Type 0 where
  pub error : Option E
  pub failure_hook_error : Option E

abbrev pub Handler : Type 0 → Type 0 → Type 0
Handler E P = ℕ → P → String → Exec E Process (Unit {0})

abbrev pub FailureHandler : Type 0 → Type 0
FailureHandler E = QueueMessage → E → Exec E Process (Unit {0})

abbrev pub is_maintenance : QueueMessage → Bool
is_maintenance m = str_eq m.msg_type fail_zombie_jobs_message_type

abbrev pub has_job : QueueMessage → Bool
has_job m = not (m.is_recurring || is_maintenance m)

abbrev pub with_job_id : Option ℕ → Process → Process
with_job_id job_id s = record s { job_id_ctx = job_id }

module _ {E : Type 0} where
  -- the token is what the context held before
  unfoldable pub set_current_job_id : QueueMessage → Exec E Process (Option (Option ℕ))
  set_current_job_id m s =
      if has_job m then (ok (some s.job_id_ctx), with_job_id (some m.msg_id) s) else (ok none, s)

  abbrev pub reset_job_id : Option (Option ℕ) → Exec E Process (Unit {0})
  reset_job_id none s = (ok tt, s)
  reset_job_id (some before) s = (ok tt, with_job_id before s)

  abbrev pub outcome : Option E → Option E → HandlerOutcome E
  outcome e f = record { error = e; failure_hook_error = f }

  abbrev pub run_failure_hook :
      QueueMessage → Option (FailureHandler E) → E → Exec E Process (HandlerOutcome E)
  run_failure_hook m none e = pure (outcome (some e) none)
  run_failure_hook m (some hook) e =
      catch (hook m e >>= λ _. pure (outcome (some e) none)) λ f. pure (outcome (some e) (some f))

  abbrev on_tables : (Tables → Tables) → Exec E Process (Unit {0})
  on_tables f s = (ok tt, record s { tables = f s.tables })

  abbrev raising : Option E → Result E (Unit {0})
  raising none = ok tt
  raising (some e) = err e

  -- `get_repo().update_job(...)`: `mark_fault` is what getting the repository or the statement raises
  unfoldable pub mark_failed : Option E → ℕ → String → Exec E Process (Unit {0})
  mark_failed mark_fault job_id failed_status =
      lift (raising mark_fault) >>= λ _. on_tables λ t. (update_job job_id failed_status t).1

  -- a failure to mark the job is logged
  unfoldable pub mark_job : Option E → String → QueueMessage → Exec E Process (Unit {0})
  mark_job mark_fault failed_status m =
      if m.is_recurring
      then pure tt
      else catch (mark_failed mark_fault m.msg_id failed_status) λ _. pure tt

  abbrev pub then_handle : Option (FailureHandler E) → QueueMessage → E → Exec E Process (Unit {0})
  then_handle none m e = pure tt
  then_handle (some handle_failure) m e = handle_failure m e

  unfoldable pub record_failure : Option E → String → Option (FailureHandler E) → FailureHandler E
  record_failure mark_fault failed_status handle_failure m e =
      mark_job mark_fault failed_status m >>= λ _. then_handle handle_failure m e

module _ {E P : Type 0} where
  -- Everything that the inner part can raise is caught, so its `finally` is what comes next.
  unfoldable pub run_queue_handler :
      QueueMessage → Handler E P → P → Option (FailureHandler E) → Exec E Process (HandlerOutcome E)
  run_queue_handler m handler payload handle_failure = do
    token ← set_current_job_id m
    result ←
        catch (handler m.msg_id payload m.created_by >>= λ _. pure (outcome none none))
          (run_failure_hook m handle_failure)
    reset_job_id token
    pure result

  -- create_fail_zombie_jobs_handler, at the database's time
  unfoldable pub fail_zombie_jobs_handler : Option E → ℕ → Handler E P
  fail_zombie_jobs_handler fault now job_id command requested_by =
      lift (raising fault) >>= λ _. on_tables λ t. (fail_zombie_jobs now t).1

  abbrev by_resolver :
      Option (QueueMessage → Result E (Option (Handler E P)))
      → QueueMessage
      → Result E (Option (Handler E P))
  by_resolver none m = ok none
  by_resolver (some resolve) m = resolve m

  abbrev or_resolved :
      Option (QueueMessage → Result E (Option (Handler E P)))
      → QueueMessage
      → Option (Handler E P)
      → Result E (Option (Handler E P))
  or_resolved resolver m none = by_resolver resolver m
  or_resolved resolver m (some h) = ok (some h)

  abbrev handler_for : Option (List (String × Handler E P)) → QueueMessage → Option (Handler E P)
  handler_for none m = none
  handler_for (some handlers) m = get m.msg_type handlers

  -- _resolve_worker_handler, for the one maintenance handler
  unfoldable pub resolve_worker_handler :
      Handler E P
      → Option (List (String × Handler E P))
      → Option (QueueMessage → Result E (Option (Handler E P)))
      → QueueMessage
      → Result E (Option (Handler E P))
  resolve_worker_handler maintenance handlers resolver m =
      if is_maintenance m
      then ok (some maintenance)
      else or_resolved resolver m (handler_for handlers m)

  abbrev parsed_by : Option (QueueMessage → Result E P) → QueueMessage → Result E (Parsed P)
  parsed_by none m = ok (raw m.msg_data)
  parsed_by (some parse_message) m = elim (parse_message m) [ ok p ↦ ok (parsed p) | err e ↦ err e ]

  -- _parse_worker_message
  unfoldable pub parse_worker_message :
      Option (QueueMessage → Result E P) → QueueMessage → Result E (Parsed P)
  parse_worker_message parse_message m =
      if is_maintenance m then ok (raw m.msg_data) else parsed_by parse_message m
