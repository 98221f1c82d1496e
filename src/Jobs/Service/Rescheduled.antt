-- ===== src/Jobs/Service/Rescheduled.antt =====
-- What the rescheduling of a job does to the tables, whatever the application's hook does.
use cpkit.Base.{ℕ, suc, String, ◌≡◌, refl, false, none, some, [], ◌∷◌, ◌++◌, first_row, ◌==◌}
use cpkit.Base.Exec.{Result, ok, err, lift, pure, ◌>>=◌}
use cpkit.Base.Value.{Dict}
use cpkit.Jobs.Types.{Job, Tables}
use cpkit.Jobs.Repository.{mapping, message_row, queued_job, get_job}
use cpkit.Jobs.Repository.Shape.{IsWellFormed}
use cpkit.Jobs.Repository.Effects.{enqueue_command_lem}
use cpkit.Jobs.Service.{
  JobsService, JobFailure, translated, guarded, run_query, reschedule_messages, run_hook,
  audit_details, get_job_for_user, enqueue_replacement, enqueue_job_reschedule,
}

module _ (job_text : ℕ → String) where
  -- what the request gives, by how the hook ends
  abbrev pub answer : ℕ → ℕ → Result JobFailure (Unit {0}) → Result JobFailure ℕ
  answer job_id id (ok _) = ok id
  answer job_id id (err e) = err (translated (reschedule_messages (job_text job_id)) e)

  hook_ends :
      (job_id id : ℕ) (r : Result JobFailure (Unit {0})) (t : Tables)
      → guarded (reschedule_messages (job_text job_id)) (lift r >>= λ _. pure id) t
        ≡ (answer job_id id r, t)
  unfolding guarded ◌>>=◌
  hook_ends job_id id (ok _) t = refl
  hook_ends job_id id (err e) t = refl

module _ (svc : JobsService) (job_text : ℕ → String) where
  -- For well-formed tables, statements that do not fail and a job that exists, whose type is resolved
  -- and whose description is parsed to a mapping: rescheduling appends one message and one queued
  -- job under the sequence's next value and changes nothing else, however the audit hook ends. It
  -- returns that id where the hook does not raise, and else fails with the hook's exception, a
  -- repository error translated.
  pub enqueue_job_reschedule_lem :
      (job_id : ℕ) (requested_by command_type : String) (job : Job) (d : Dict) (t : Tables)
      → IsWellFormed t
      → svc.read_fault ≡ none
      → svc.write_fault ≡ none
      → first_row (λ j. j.job_id == job_id) t.jobs ≡ some job
      → svc.reschedule_type_resolver job.job_type ≡ ok command_type
      → svc.parse_payload command_type job.description ≡ ok (mapping d)
      → enqueue_job_reschedule svc job_text job_id requested_by t ≡ (
        answer job_text job_id t.mq_seq (
            run_hook svc.rescheduled_hook requested_by
              (audit_details svc job_text job command_type (mapping d) t.mq_seq)),
        record {
          mq = t.mq ++ message_row command_type d requested_by svc.now svc.now false t.mq_seq ∷ [];
          mq_seq = suc t.mq_seq;
          jobs = t.jobs ++ queued_job svc.str svc.now command_type d requested_by t.mq_seq ∷ [];
          tasks = t.tasks;
        },
      )
  unfolding enqueue_job_reschedule get_job_for_user guarded run_query get_job ◌>>=◌
      enqueue_replacement
  enqueue_job_reschedule_lem job_id requested_by command_type job d t w r f found resolved parsed =
      rw r (
        rw found (
          rw resolved (
            rw parsed (
              rw f (
                rw (enqueue_command_lem svc.str svc.now command_type d requested_by t w) (
                  hook_ends job_text job_id t.mq_seq
                    (run_hook svc.rescheduled_hook requested_by
                      (audit_details svc job_text job command_type (mapping d) t.mq_seq))
                    _))))))
