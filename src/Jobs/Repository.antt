-- ===== src/Jobs/Repository.antt =====
-- cpkit/jobs/repository.py: each method is one SQL statement, so it takes effect whole or not at
-- all. `now` is the statement's now(); `random` maps a span to random() times it.
pub mod Shape
pub mod Effects
pub mod Zombies
pub mod Ensures
use cpkit.Base.{
  ℕ, suc, ◌+◌, ◌*◌, String, Bool, true, false, ◌&&◌, ◌||◌, Option, none, some, List, [], ◌∷◌, ◌++◌,
  map, ltb, ◌==◌, str_eq, if◌then◌else◌, length, any, where_rows, first_row, update_rows,
}
use cpkit.Base.Exec.{Result, ok, err, Exec, pure, raise, lift, catch, ◌>>=◌, ◌>>◌}
use cpkit.Base.Value.{Value, null, Dict, get, without}
use cpkit.Errors.{
  DatabaseError, unique_violation, foreign_key_violation, RepositoryError, translate_database_error,
  or_text,
}
use cpkit.Jobs.Types.{QueueMessage, RecurringMessage, Job, Task, JobStatsResponse, Tables, seconds}

-- what a statement does before its failure is translated
abbrev pub Statement : Type 0 → Type 0
Statement A = Exec DatabaseError Tables A

-- The exceptions of a repository method: its own, and the `TypeError` of a payload that is no
-- mapping.
pub data Raised : Type 0 where
  repository : RepositoryError → Raised
  payload_type : Raised

abbrev pub Query : Type 0 → Type 0
Query A = Exec Raised Tables A

-- A driver error leaves the helpers of db/postgres.py translated.
unfoldable pub run_statement : {A : Type 0} → Statement A → Option String → Query A
run_statement stmt operation =
    catch stmt (λ e. raise (repository (translate_database_error (λ _. false) e operation)))

-- The payload that a caller hands over.
pub data Payload : Type 0 where
  absent unsupported : Payload
  model : Dict → Payload
  mapping : Dict → Payload

unfoldable pub payload_value : Payload → Result Raised Dict
payload_value absent = ok []
payload_value (model d) = ok d
payload_value (mapping d) = ok d
payload_value unsupported = err payload_type

-- Two rows that the primary key or the partial unique index of cpkit.mq forbids together.
abbrev pub is_twin : QueueMessage → QueueMessage → Bool
is_twin a b =
    (a.msg_id == b.msg_id) || (a.is_recurring && b.is_recurring && str_eq a.msg_type b.msg_type)

abbrev pub message_row : String → Dict → String → ℕ → ℕ → Bool → ℕ → QueueMessage
message_row msg_type msg_data created_by start_after now recurring id = record {
  msg_id = id;
  start_after = start_after;
  msg_type = msg_type;
  msg_data = msg_data;
  created_at = now;
  created_by = created_by;
  is_recurring = recurring;
}

-- INSERT INTO cpkit.mq …: the id is the sequence's next value, which is used up even by a failure.
unfoldable pub insert_row : (ℕ → QueueMessage) → Statement ℕ
insert_row row t =
    let id = t.mq_seq in
    let t' = record t { mq_seq = suc id } in
    if any (λ m. is_twin m (row id)) t.mq
    then (err unique_violation, t')
    else (ok id, record t' { mq = t.mq ++ row id ∷ [] })

unfoldable pub enqueue_message : ℕ → String → Payload → String → ℕ → Query (Unit {0})
enqueue_message now msg_type payload created_by start_after_seconds =
    lift (payload_value payload) >>= λ d.
    run_statement
      (insert_row (message_row msg_type d created_by (now + seconds start_after_seconds) now false)
        >>= λ _. pure tt)
      (some "jobs.enqueue_message")

abbrev pub is_recurring_of : String → QueueMessage → Bool
is_recurring_of msg_type m = str_eq m.msg_type msg_type && m.is_recurring

abbrev payload_or_empty : Option Dict → Dict
payload_or_empty none = []
payload_or_empty (some d) = d

abbrev pub recurring_row : ℕ → (ℕ → ℕ) → RecurringMessage → ℕ → QueueMessage
recurring_row now random m =
    message_row m.msg_type (payload_or_empty m.payload) (or_text m.created_by "system")
      (now + seconds m.interval_seconds + random (seconds m.jitter_seconds)) now true

-- INSERT … SELECT … WHERE NOT EXISTS (a recurring row of the type)
unfoldable pub insert_unless_there : ℕ → (ℕ → ℕ) → RecurringMessage → Statement (Unit {0})
insert_unless_there now random m t =
    if any (is_recurring_of m.msg_type) t.mq
    then (ok tt, t)
    else (insert_row (recurring_row now random m) >>= λ _. pure tt) t

unfoldable pub ensure_recurring_message : ℕ → (ℕ → ℕ) → RecurringMessage → Query (Unit {0})
ensure_recurring_message now random message =
    run_statement (insert_unless_there now random message) (some "jobs.ensure_recurring_message")

unfoldable pub ensure_recurring_messages : ℕ → (ℕ → ℕ) → List RecurringMessage → Query (Unit {0})
ensure_recurring_messages now random [] = pure tt
ensure_recurring_messages now random (m ∷ ms) =
    ensure_recurring_message now random m >>= λ _. ensure_recurring_messages now random ms

-- `str(playbook_version) if playbook_version is not None else None`
abbrev pub version_text : (Value → String) → Option Value → Option String
version_text str none = none
version_text str (some null) = none
version_text str (some v) = some (str v)

abbrev pub queued_job : (Value → String) → ℕ → String → Dict → String → ℕ → Job
queued_job str now command_type payload created_by id = record {
  job_id = id;
  job_type = command_type;
  status = some "QUEUED";
  playbook_version = version_text str (get "playbook_version" payload);
  description = without "playbook_version" payload;
  created_at = now;
  created_by = some created_by;
  updated_at = now;
}

-- Both inserts are one statement: where the second fails the first is undone, and of its effect
-- only the sequence's move stays.
abbrev pub insert_job : List QueueMessage → Job → Statement ℕ
insert_job old_mq row t =
    if any (λ j. j.job_id == row.job_id) t.jobs
    then (err unique_violation, record t { mq = old_mq })
    else (ok row.job_id, record t { jobs = t.jobs ++ row ∷ [] })

-- The faults of the database other than a conflict are added where it is called.
unfoldable pub enqueue_command : (Value → String) → ℕ → String → Payload → String → Query ℕ
enqueue_command str now command_type payload created_by = lift (payload_value payload) >>= λ d.
    run_statement
      (λ t.
        (insert_row (message_row command_type d created_by now now false) >>= λ id.
        insert_job t.mq (queued_job str now command_type d created_by id))
          t)
      (some "jobs.enqueue_command")

abbrev has_status : String → Job → Bool
has_status s j = elim j.status [ none ↦ false | some t ↦ str_eq t s ]

abbrev count_status : String → List Job → ℕ
count_status s jobs = length (where_rows (has_status s) jobs)

unfoldable pub get_job_stats : Query JobStatsResponse
get_job_stats t = (
  ok (record {
    total = length t.jobs;
    running = count_status "RUNNING" t.jobs;
    queued = count_status "QUEUED" t.jobs;
    failed = count_status "FAILED" t.jobs;
  }),
  t,
)

unfoldable pub get_job : ℕ → Query (Option Job)
get_job job_id t = (ok (first_row (λ j. j.job_id == job_id) t.jobs), t)

unfoldable pub update_job : ℕ → String → Query (Unit {0})
update_job job_id status t = (
  ok tt,
  record t {
    jobs = update_rows (λ j. j.job_id == job_id) (λ j. record j { status = some status }) t.jobs;
  },
)

unfoldable pub set_job_playbook_version : ℕ → String → Query (Unit {0})
set_job_playbook_version job_id version t = (
  ok tt,
  record t {
    jobs =
        update_rows (λ j. j.job_id == job_id) (λ j. record j { playbook_version = some version })
          t.jobs;
  },
)

-- INTERVAL '300s'
abbrev pub zombie_age : ℕ
zombie_age = seconds 300

abbrev pub is_zombie : ℕ → Job → Bool
is_zombie now j =
    (has_status "RUNNING" j || has_status "QUEUED" j) && ltb (j.updated_at + zombie_age) now

unfoldable pub fail_zombie_jobs : ℕ → Query (List ℕ)
fail_zombie_jobs now t = (
  ok (map (λ j. j.job_id) (where_rows (is_zombie now) t.jobs)),
  record t { jobs = update_rows (is_zombie now) (λ j. record j { status = some "FAILED" }) t.jobs },
)

abbrev pub is_task : ℕ → ℕ → Task → Bool
is_task job_id task_id k = (k.job_id == job_id) && (k.task_id == task_id)

abbrev pub task_row : ℕ → ℕ → ℕ → String → String → Task
task_row job_id task_id created_at task_name task_desc = record {
  job_id = job_id;
  task_id = task_id;
  created_at = created_at;
  task_name = some task_name;
  task_desc = some task_desc;
}

-- The primary key is (job_id, task_id), and the job must be there.
unfoldable pub insert_task : Task → Statement (Unit {0})
insert_task row t =
    if any (is_task row.job_id row.task_id) t.tasks
    then (err unique_violation, t)
    else if any (λ j. j.job_id == row.job_id) t.jobs
    then (ok tt, record t { tasks = t.tasks ++ row ∷ [] })
    else (err foreign_key_violation, t)

unfoldable pub create_task : ℕ → ℕ → ℕ → String → String → Query (Unit {0})
create_task job_id task_id created_at task_name task_desc =
    run_statement (insert_task (task_row job_id task_id created_at task_name task_desc)) none
