-- ===== src/Jobs/Service.antt =====
-- JobsService of cpkit/jobs/service.py, from the rescheduling of a job. The application's resolver and
-- parser, the audit hook and what each statement raises are parameters. The repository reads a job
-- for any groups, so the caller's groups are left out.
pub mod Rescheduled
pub mod Replaced
mod Examples
use cpkit.Base.{ℕ, String, false, Option, none, some, List, [], ◌∷◌, ◌++◌}
use cpkit.Base.Exec.{Result, ok, err, Exec, pure, raise, lift, catch, ◌>>=◌, ◌>>◌}
use cpkit.Base.Value.{Value, null, number, text, Dict, update}
use cpkit.Base.Texts.{followed_by}
use cpkit.Errors.{
  DatabaseError, RepositoryError, ServiceError, ServiceKind, Messages, no_messages, service_error,
  from_repository_error, translate_database_error,
}
use cpkit.Jobs.Types.{Job, Tables}
use cpkit.Jobs.Repository
use cpkit.Jobs.Repository.{
  Payload, absent, unsupported, model, mapping, Raised, Query, get_job, enqueue_command,
}

-- The exceptions: of the repository, of the service, of a payload that is no mapping, and of the
-- application's functions.
pub data JobFailure : Type 0 where
  repository : RepositoryError → JobFailure
  service : ServiceError → JobFailure
  payload_type application_error : JobFailure

abbrev pub Action : Type 0 → Type 0
Action A = Exec JobFailure Tables A

-- The parameters. `attached` is what the hook is given of a payload that is no mapping.
pub record JobsService : Type 0 where
  pub parse_payload : String → Dict → Result JobFailure Payload
  pub reschedule_type_resolver : String → Result JobFailure String
  pub rescheduled_hook : Option (String → String → Dict → Result JobFailure (Unit {0}))
  pub attached : Dict
  pub read_fault : Option DatabaseError
  pub write_fault : Option DatabaseError
  pub str : Value → String
  pub now : ℕ

abbrev pub of_repository : Raised → JobFailure
of_repository (Raised.repository e) = repository e
of_repository Raised.payload_type = payload_type

unfoldable pub run_query : {A : Type 0} → Option DatabaseError → Query A → Action A
run_query none q = catch q λ e. raise (of_repository e)
run_query (some d) q = raise (repository (translate_database_error (λ _. false) d none))

abbrev pub translated : Messages → JobFailure → JobFailure
translated m (repository e) = service (from_repository_error e m)
translated m f = f

-- `except RepositoryError as err: raise from_repository_error(err, …)`
unfoldable pub guarded : {A : Type 0} → Messages → Action A → Action A
guarded m action = catch action λ f. raise (translated m f)

abbrev about_job : String → String → String → String
about_job before job_text after = followed_by before (followed_by job_text after)

abbrev pub details_messages : String → Messages
details_messages job_text = record no_messages {
  unavailable_message = some "Job details are temporarily unavailable.";
  fallback_message = some (about_job "Unable to load job '" job_text "'.");
}

abbrev pub reschedule_messages : String → Messages
reschedule_messages job_text = record no_messages {
  unavailable_message = some "Job rescheduling is temporarily unavailable.";
  validation_message = some "The job could not be rescheduled with its current payload.";
  fallback_message = some (about_job "Unable to reschedule job '" job_text "'.");
}

abbrev pub run_hook :
    Option (String → String → Dict → Result JobFailure (Unit {0}))
    → String
    → Dict
    → Result JobFailure (Unit {0})
run_hook none requested_by details = ok tt
run_hook (some hook) requested_by details = hook requested_by "JOB_RESCHEDULE_REQUESTED" details

module _ (svc : JobsService) (job_text : ℕ → String) where
  unfoldable pub get_job_for_user : ℕ → Action (Option Job)
  get_job_for_user job_id =
      guarded (details_messages (job_text job_id)) (run_query svc.read_fault (get_job job_id))

  -- _payload_value
  abbrev pub payload_value : Payload → Dict
  payload_value (model d) = d
  payload_value (mapping d) = d
  payload_value absent = ("payload", null) ∷ []
  payload_value unsupported = svc.attached

  abbrev pub audit_details : Job → String → Payload → ℕ → Dict
  audit_details job command_type payload id = update (payload_value payload) (
      ("job_id", number job.job_id)
      ∷ ("job_type", text job.job_type)
      ∷ ("source_job_id", number job.job_id)
      ∷ ("source_job_type", text job.job_type)
      ∷ ("replacement_job_id", number id)
      ∷ ("replacement_job_type", text command_type)
      ∷ [])

  unfoldable pub enqueue_replacement : Job → String → Payload → String → Action ℕ
  enqueue_replacement job command_type payload requested_by = do
    id ←
        run_query svc.write_fault
          (enqueue_command svc.str svc.now command_type payload requested_by)
    lift (run_hook svc.rescheduled_hook requested_by (audit_details job command_type payload id))
    pure id

  -- enqueue_job_reschedule, from the job that was found
  abbrev pub reschedule : ℕ → String → Option Job → Action ℕ
  reschedule job_id requested_by none = raise (
      service (
        service_error ServiceKind.not_found
          (some (about_job "Job '" (job_text job_id) "' was not found.")) none))
  reschedule job_id requested_by (some job) = do
    command_type ← lift (svc.reschedule_type_resolver job.job_type)
    payload ← lift (svc.parse_payload command_type job.description)
    guarded (reschedule_messages (job_text job_id))
        (enqueue_replacement job command_type payload requested_by)

  unfoldable pub enqueue_job_reschedule : ℕ → String → Action ℕ
  enqueue_job_reschedule job_id requested_by =
      get_job_for_user job_id >>= reschedule job_id requested_by
