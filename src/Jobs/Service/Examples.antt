-- ===== src/Jobs/Service/Examples.antt =====
-- A job that waits, for the theorems on JobsService.
use cpkit.Base.{◌≡◌, refl, arith, false, none, some, [], ◌∷◌, first_row, ◌==◌}
use cpkit.Base.Exec.{ok, err}
use cpkit.Base.Value.{text, Dict}
use cpkit.Jobs.Types.{Job, Tables}
use cpkit.Jobs.Repository.{mapping, message_row, queued_job, enqueue_command}
use cpkit.Jobs.Repository.Shape.{IsWellFormed}
use cpkit.Jobs.Service.{JobsService, application_error, enqueue_job_reschedule}
use cpkit.Jobs.Service.Rescheduled.{enqueue_job_reschedule_lem}
use cpkit.Jobs.Service.Replaced.{replacement_unpinned}

-- the application keeps types and descriptions, and its audit fails
abbrev svc : JobsService
svc = record {
  parse_payload = λ ty d. ok (mapping d);
  reschedule_type_resolver = λ ty. ok ty;
  rescheduled_hook = some λ by action details. err application_error;
  attached = [];
  read_fault = none;
  write_fault = none;
  str = λ v. "7";
  now = 9;
}

abbrev waiting : Job
waiting = record {
  job_id = 1;
  job_type = "BUILD";
  status = some "QUEUED";
  playbook_version = none;
  description = ("size", text "small") ∷ [];
  created_at = 4;
  created_by = some "alice";
  updated_at = 4;
}

abbrev tables : Tables
tables = record { mq = []; mq_seq = 2; jobs = waiting ∷ []; tasks = [] }

tables-IsWellFormed : IsWellFormed tables
tables-IsWellFormed = record {
  issued = tt;
  rows = tt;
  jobs_issued = (ground arith, tt);
  jobs_distinct = (tt, tt);
  tasks_distinct = tt;
  tasks_owned = tt;
}

abbrev pinned : Dict
pinned = ("playbook_version", text "7") ∷ ("size", text "small") ∷ []

enqueue_job_reschedule_lem_example : enqueue_job_reschedule svc (λ id. "1") 1 "bob" tables ≡ (
  err application_error,
  record {
    mq = message_row "BUILD" waiting.description "bob" 9 9 false 2 ∷ [];
    mq_seq = 3;
    jobs = waiting ∷ queued_job (λ v. "7") 9 "BUILD" waiting.description "bob" 2 ∷ [];
    tasks = [];
  },
)
enqueue_job_reschedule_lem_example =
    enqueue_job_reschedule_lem svc (λ id. "1") 1 "bob" "BUILD" waiting waiting.description tables
      tables-IsWellFormed refl refl refl refl refl

replacement_unpinned_example :
    let t1 = (enqueue_command (λ v. "7") 9 "BUILD" (mapping pinned) "alice" tables).1 in
    let t2 = (enqueue_job_reschedule svc (λ id. "1") 2 "bob" t1).1 in
    (job : Job) × (replacement : Job) × (first_row (λ j. j.job_id == 2) t1.jobs ≡ some job)
    × (first_row (λ j. j.job_id == 3) t2.jobs ≡ some replacement)
    × (job.playbook_version ≡ some "7")
    × (replacement.job_type ≡ job.job_type)
    × (replacement.description ≡ job.description)
    × (replacement.playbook_version ≡ none)
replacement_unpinned_example =
    replacement_unpinned svc (λ id. "1") "BUILD" "alice" "bob" pinned tables tables-IsWellFormed
      refl refl refl refl
