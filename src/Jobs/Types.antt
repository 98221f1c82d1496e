-- ===== src/Jobs/Types.antt =====
-- cpkit/jobs/types.py, and the tables of the queue in cpkit/resources/ddl.sql. Times and intervals
-- are microseconds since an epoch.
use cpkit.Base.{ℕ, ◌*◌, String, Bool, Option, List}
use cpkit.Base.Value.{Dict}

pub record QueueMessage : Type 0 where
  pub msg_id : ℕ
  pub start_after : ℕ
  pub msg_type : String
  pub msg_data : Dict
  pub created_at : ℕ
  pub created_by : String
  pub is_recurring : Bool

pub record RecurringMessage : Type 0 where
  pub msg_type : String
  pub interval_seconds : ℕ
  pub jitter_seconds : ℕ
  pub payload : Option Dict
  pub created_by : Option String

pub record Job : Type 0 where
  pub job_id : ℕ
  pub job_type : String
  pub status : Option String
  pub playbook_version : Option String
  pub description : Dict
  pub created_at : ℕ
  pub created_by : Option String
  pub updated_at : ℕ

pub record Task : Type 0 where
  pub job_id : ℕ
  pub task_id : ℕ
  pub created_at : ℕ
  pub task_name : Option String
  pub task_desc : Option String

pub record JobStatsResponse : Type 0 where
  pub total : ℕ
  pub running : ℕ
  pub queued : ℕ
  pub failed : ℕ

-- cpkit.mq with its sequence, cpkit.jobs and cpkit.tasks
pub record Tables : Type 0 where
  pub mq : List QueueMessage
  pub mq_seq : ℕ
  pub jobs : List Job
  pub tasks : List Task

-- n seconds
abbrev pub seconds : ℕ → ℕ
seconds n = n * 1000000
