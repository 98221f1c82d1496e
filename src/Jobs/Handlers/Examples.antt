-- ===== src/Jobs/Handlers/Examples.antt =====
-- A message, a handler that fails and the tables for the theorem on the run of a handler.
use cpkit.Base.{String, none, some, [], ◌∷◌, refl, false}
use cpkit.Base.Exec.{raise}
use cpkit.Base.Exec.Ends.{EndsIn}
use cpkit.Base.Exec.Keeps.{Keeps-pure}
use cpkit.Jobs.Types.{QueueMessage, Job}
use cpkit.Jobs.Handlers.{Process, Handler, record_failure, run_queue_handler}
use cpkit.Jobs.Handlers.Recorded.{Recorded, raised_by, Never, run_queue_handler-Recorded}

abbrev message : QueueMessage
message = record {
  msg_id = 7;
  start_after = 5;
  msg_type = "BUILD";
  msg_data = [];
  created_at = 4;
  created_by = "alice";
  is_recurring = false;
}

abbrev job : Job
job = record {
  job_id = 7;
  job_type = "BUILD";
  status = some "RUNNING";
  playbook_version = none;
  description = [];
  created_at = 4;
  created_by = some "alice";
  updated_at = 4;
}

abbrev process : Process
process = record {
  tables = record { mq = []; mq_seq = 7; jobs = job ∷ []; tasks = [] };
  job_id_ctx = some 3;
}

abbrev failing : Handler String (Unit {0})
failing job_id payload requested_by = raise "boom"

run_queue_handler-Recorded_example :
    EndsIn
      (Recorded message failing tt none "FAILED" none
        (raised_by message failing tt none "FAILED" none process)
        (some 3))
      (Never message failing tt none "FAILED" none)
      (run_queue_handler message failing tt (some (record_failure none "FAILED" none)) process)
run_queue_handler-Recorded_example =
    run_queue_handler-Recorded message failing tt none "FAILED" none refl (λ e. Keeps-pure tt)
      process
