-- ===== src/Jobs/Examples.antt =====
-- Concrete tables, application callables and events for the theorems on cpkit/jobs.
use cpkit.Base.{
  String, ◌≡◌, refl, true, false, none, some, List, [], ◌∷◌, ◌++◌, any, All, AllPairs, ◌==◌, arith,
}
use cpkit.Base.Exec.{ok, ◌>>=◌}
use cpkit.Base.Value.{Value, number, Dict, get}
use cpkit.Jobs.Types.{QueueMessage, Job, Tables}
use cpkit.Jobs.Recurring.{
  Configs, default_recurring_messages, fail_zombie_jobs_message_type,
  fail_zombie_jobs_recurring_message, recurring_message_map, configure_recurring_messages,
}
use cpkit.Jobs.Recurring.Lookup.{latest, or_default, get-configure_recurring_messages}
use cpkit.Jobs.Repository.{
  mapping, enqueue_command, message_row, queued_job, ensure_recurring_message, is_recurring_of,
  get_job, fail_zombie_jobs,
}
use cpkit.Jobs.Repository.Shape.{IsWellFormed}
use cpkit.Jobs.Repository.Effects.{enqueue_command_lem}
use cpkit.Jobs.Repository.Zombies.{
  IsOverdue, failed, heartbeats, get_job-fail_zombie_jobs, heartbeats-fail_zombie_jobs,
}
use cpkit.Jobs.Repository.Ensures.{ensure_recurring_message_twice}
use cpkit.Jobs.Dispatch.{
  Env, Callables, any_message, commits, claim_and_prepare_dispatch, prepare, claim_due_message,
  claim_due_recurring_message, resolve_handler, parse_payload, delete_unless_recurring, delete_row,
  earliest, set_start_after,
}
use cpkit.Jobs.Dispatch.Explained.{Explains, claim_and_prepare_dispatch-Explains}
use cpkit.Jobs.History.{dispatch, run}
use cpkit.Jobs.History.Once.{run_at_most_once}
use cpkit.Jobs.Worker.{
  System, Event, run_started, wait_ended, stop_requested, handler_returned, drain_finished,
  new_worker, run_events, step,
}
use cpkit.Jobs.Worker.Stopped.{Rests, run_events-Rests}
use cpkit.Jobs.Worker.Drained.{complete_drain}

abbrev plain : QueueMessage
plain = record {
  msg_id = 1;
  start_after = 5;
  msg_type = "BUILD";
  msg_data = [];
  created_at = 4;
  created_by = "alice";
  is_recurring = false;
}

abbrev sweeper : QueueMessage
sweeper = record {
  msg_id = 2;
  start_after = 9;
  msg_type = "FAIL_ZOMBIE_JOBS";
  msg_data = [];
  created_at = 4;
  created_by = "system";
  is_recurring = true;
}

abbrev running : Job
running = record {
  job_id = 1;
  job_type = "BUILD";
  status = some "RUNNING";
  playbook_version = none;
  description = [];
  created_at = 4;
  created_by = some "alice";
  updated_at = 4;
}

abbrev tables : Tables
tables = record { mq = plain ∷ sweeper ∷ []; mq_seq = 3; jobs = running ∷ []; tasks = [] }

tables-IsWellFormed : IsWellFormed tables
tables-IsWellFormed = record {
  issued = (omega arith, (omega arith, tt));
  rows = ((refl, tt), (tt, tt));
  jobs_issued = (omega arith, tt);
  jobs_distinct = (tt, tt);
  tasks_distinct = tt;
  tasks_owned = tt;
}

abbrev env : Env
env = record {
  now = 20;
  random = λ n. n;
  is_locked = λ n. false;
  connects = true;
  is_idle = true;
  statement_fault = λ s. none;
  commit = commits;
  cleanup_raises = false;
}

-- handlers and payloads are texts
abbrev app : Callables String String String
app = record {
  handlers = some (("BUILD", "build") ∷ ("FAIL_ZOMBIE_JOBS", "sweep") ∷ []);
  resolver = none;
  parse_message = none;
}

abbrev configs : Configs
configs = recurring_message_map default_recurring_messages

run_at_most_once_example :
    IsWellFormed
      (run
        (dispatch app env configs any_message ∷ dispatch app env configs any_message ∷ [])
        tables).1
    × AllPairs
        (λ a b. (a == b) ≡ false)
        (run
          (dispatch app env configs any_message ∷ dispatch app env configs any_message ∷ [])
          tables).0
run_at_most_once_example =
    run_at_most_once
      (dispatch app env configs any_message ∷ dispatch app env configs any_message ∷ []) tables
      tables-IsWellFormed

claim_and_prepare_dispatch-Explains_example :
    Explains app env configs any_message tables
      (claim_and_prepare_dispatch app env configs any_message tables)
claim_and_prepare_dispatch-Explains_example =
    claim_and_prepare_dispatch-Explains app env configs any_message tables tt

abbrev worked : List (Event String)
worked = run_started 7 ∷ wait_ended env false ∷ wait_ended env false ∷ []

abbrev stopped : System String String
stopped = record (new_worker tables) { stop = true }

run_events-Rests_example : Rests stopped (run_events app default_recurring_messages worked stopped)
run_events-Rests_example = run_events-Rests app default_recurring_messages worked stopped refl

abbrev drained_events : List (Event String)
drained_events =
    run_started 7
    ∷ wait_ended env false
    ∷ stop_requested 7
    ∷ handler_returned 0
    ∷ wait_ended env false
    ∷ []

complete_drain_example :
    let s = run_events app default_recurring_messages drained_events (new_worker tables) in
    let s' = (step app default_recurring_messages drain_finished s).1 in
    All (λ f. f.done ≡ true) s'.futures
    × (s'.executor ≡ false)
    × Rests s' (run_events app default_recurring_messages worked s')
    × ((run_events app default_recurring_messages worked s').executor ≡ false)
unfolding run_events step claim_and_prepare_dispatch prepare claim_due_message
    claim_due_recurring_message resolve_handler parse_payload delete_unless_recurring delete_row
    ◌>>=◌ recurring_message_map earliest set_start_after
complete_drain_example =
    complete_drain app default_recurring_messages tables drained_events worked refl

abbrev text_of : Value → String
text_of v = "1.0"

abbrev build : Dict
build = ("playbook_version", number 3) ∷ ("size", number 4) ∷ []

enqueue_command_lem_example : enqueue_command text_of 6 "BUILD" (mapping build) "bob" tables ≡ (
  ok 3,
  record {
    mq = tables.mq ++ message_row "BUILD" build "bob" 6 6 false 3 ∷ [];
    mq_seq = 4;
    jobs = tables.jobs ++ queued_job text_of 6 "BUILD" build "bob" 3 ∷ [];
    tasks = [];
  },
)
enqueue_command_lem_example =
    enqueue_command_lem text_of 6 "BUILD" build "bob" tables tables-IsWellFormed

get_job-fail_zombie_jobs_example :
    (IsOverdue 400000000 running
      → (get_job 1 (fail_zombie_jobs 400000000 tables).1).0 ≡ ok (some (failed running)))
    × ((¬ IsOverdue 400000000 running)
        → (get_job 1 (fail_zombie_jobs 400000000 tables).1).0 ≡ ok (some running))
    × ((fail_zombie_jobs 400000000 (fail_zombie_jobs 400000000 tables).1).0 ≡ ok [])
unfolding get_job
get_job-fail_zombie_jobs_example = get_job-fail_zombie_jobs 400000000 1 tables running refl

heartbeats-fail_zombie_jobs_example :
    (get_job 1 (fail_zombie_jobs 400000000 (heartbeats 3 1 tables)).1).0
    ≡ ok (some (failed running))
unfolding get_job
heartbeats-fail_zombie_jobs_example =
    heartbeats-fail_zombie_jobs 2 400000000 1 tables running refl (omega arith)

ensure_recurring_message_twice_example :
    let m = fail_zombie_jobs_recurring_message in
    let t' = (ensure_recurring_message 20 (λ n. n) m tables).1 in
    ((ensure_recurring_message 20 (λ n. n) m tables).0 ≡ ok tt)
    × (any (is_recurring_of m.msg_type) t'.mq ≡ true)
    × (ensure_recurring_message 30 (λ n. 0) m t' ≡ (ok tt, t'))
ensure_recurring_message_twice_example =
    ensure_recurring_message_twice 20 30 (λ n. n) (λ n. 0) fail_zombie_jobs_recurring_message
      fail_zombie_jobs_recurring_message tables tables-IsWellFormed refl

get-configure_recurring_messages_example :
    (get "BUILD" (recurring_message_map (configure_recurring_messages default_recurring_messages))
      ≡ latest "BUILD" (default_recurring_messages ++ default_recurring_messages))
    × (get fail_zombie_jobs_message_type
          (recurring_message_map (configure_recurring_messages default_recurring_messages))
        ≡ some (
            or_default
              (latest fail_zombie_jobs_message_type default_recurring_messages)
              fail_zombie_jobs_recurring_message))
get-configure_recurring_messages_example =
    get-configure_recurring_messages "BUILD" default_recurring_messages
