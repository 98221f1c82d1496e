-- ===== src/Runner.antt =====
-- AnsibleRunner of cpkit/playbooks/ansible.py: a job's playbook is run, with the playbooks that prepare
-- and clean up its SSH credentials round it, and its progress is written to cpkit.jobs and
-- cpkit.tasks. A path is the list of its parts. The library that runs a playbook, the file system and
-- the default playbooks enter as parameters; rmtree, which ignores errors, removes of
-- its tree what can be removed.
pub mod Vars
pub mod Loaded
pub mod Launch
pub mod Lite
pub mod Options
pub mod Rules
pub mod Ready
pub mod Events
pub mod Settled
pub mod Returned
pub mod Removed
pub mod Stuck
pub mod Uncounted
pub mod Unprepared
pub mod Unwatched
mod Examples
use cpkit.Base.{
  ℕ, suc, ◌+◌, String, Bool, true, false, not, ◌&&◌, ◌||◌, Option, none, some, List, [], ◌∷◌,
  str_eq, if◌then◌else◌, delete_rows,
}
use cpkit.Base.Exec.{
  Result, ok, err, Exec, pure, raise, lift, gets, catch, handled, continue, ◌>>=◌, ◌>>◌,
}
use cpkit.Base.Value.{Value, object, Dict}
use cpkit.Base.Texts.{followed_by}
use cpkit.Errors.{DatabaseError, translate_database_error}
use cpkit.Jobs.Types.{Tables}
use cpkit.Playbooks.{Playbook}
use cpkit.Jobs.Repository
use cpkit.Jobs.Repository.{Query, Raised, create_task, update_job}

abbrev pub FilePath : Type 0
FilePath = List String

pub record LoadedPlaybook : Type 0 where
  pub content : String
  pub version : String

pub record RunnerResult : Type 0 where
  pub status : String
  pub result_data : Value
  pub task_id_counter : ℕ
  pub playbook_name : Option String
  pub playbook_version : Option String

pub record PlaybookRunOptions : Type 0 where
  pub ssh_credential_hook_enabled : Bool
  pub ssh_credential_prepare_playbook : String
  pub ssh_credential_cleanup_playbook : String
  pub ssh_credential_dir_root : String
  pub ssh_credential_retain_artifacts_on_failure : Bool

-- An event that the library hands over, by what event_handler reads of it: `quiet` are the nine kinds
-- that it skips, `malformed` one that lacks a key which the code reads.
pub data Event : Type 0 where
  quiet malformed : Event
  runner_on_ok : (task : String) → (msg : Value) → Event
  warning error : (stdout : String) → Event
  playbook_on_play_start : (play : String) → Event
  playbook_on_task_start : (task : String) → Event
  runner_on_failed : (host : String) → (msg : Value) → (stderr : String) → Event
  runner_item_on_failed : (host stderr : String) → Event
  playbook_on_stats : (ok_hosts failures : Value) → Event
  other_event : (kind : String) → (whole : Value) → Event

pub data RunFailure : Type 0 where
  repository : Raised → RunFailure
  not_configured : (name : String) → RunFailure
  key_error other_error : RunFailure

-- What happens while a run's thread lives: an event at a time, or the heartbeat falls due.
pub data Tick : Type 0 where
  occurs : (created : ℕ) → (e : Event) → Tick
  heartbeat : Tick

abbrev pub events_of : List Tick → List (ℕ × Event)
events_of [] = []
events_of (occurs created e ∷ ts) = (created, e) ∷ events_of ts
events_of (heartbeat ∷ ts) = events_of ts

-- A run that has begun: what happens, in its order, and the status that the library gives it, which
-- may depend on whether an event's handler raised, which ends the run's thread.
pub record Running : Type 0 where
  pub ticks : List Tick
  pub final_status : Bool → String

-- The runner with its data and counter, the tables, the directories that exist, the number of
-- statements so far, and the variables of launch_runner.
pub record RunnerState : Type 0 where
  pub run_data : Value
  pub counter : ℕ
  pub tables : Tables
  pub dirs : List FilePath
  pub statements : ℕ
  pub loaded_playbook : Option LoadedPlaybook
  pub credential_dir : Option FilePath
  pub target_result : Option RunnerResult

-- The runner's arguments and the parameters: what each statement may raise by its number, the
-- default playbook that the repository gives, the directories that cannot be made and those that
-- rmtree cannot remove, the start of
-- a run, the files of the credentials, and the texts that the standard library makes.
pub record Env : Type 0 where
  pub now : ℕ
  pub job_id : ℕ
  pub job_text : String
  pub job_dir_root : String
  pub options : PlaybookRunOptions
  pub fault : ℕ → Option DatabaseError
  pub get_default_playbook : String → Result RunFailure (Option Playbook)
  pub decompress : String → Option String
  pub strftime : ℕ → String
  pub makedirs_fails : FilePath → Bool
  pub stays : FilePath → Bool
  pub run_async : LoadedPlaybook → FilePath → Dict → Result RunFailure Running
  pub exists : FilePath → Bool
  pub path_text : FilePath → String
  pub dumps : Value → String
  pub str_value : Value → String
  pub str_error : RunFailure → String

abbrev pub Run : Type 0 → Type 0
Run A = Exec RunFailure RunnerState A

-- `try: m finally: f`; what `f` raises replaces the result
module _ {A : Type 0} where
  abbrev pub unless_raised :
      Result RunFailure (Unit {0}) → Result RunFailure A → Result RunFailure A
  unless_raised (ok _) r = r
  unless_raised (err e) r = err e

  unfoldable pub finally : Run A → Run (Unit {0}) → Run A
  finally m f s = (unless_raised (f (m s).1).0 (m s).0, (f (m s).1).1)

-- what an action gives, its exception included
unfoldable pub attempt : {A : Type 0} → Run A → Run (Result RunFailure A)
attempt m s = (ok (m s).0, (m s).1)

abbrev pub is_below : FilePath → FilePath → Bool
is_below [] q = true
is_below (a ∷ p) [] = false
is_below (a ∷ p) (b ∷ q) = str_eq a b && is_below p q

module _ (env : Env) where
  abbrev pub queried :
      {A : Type 0} → Result Raised A × Tables → RunnerState → Result RunFailure A × RunnerState
  queried (ok a, t) s = (ok a, record s { tables = t; statements = suc s.statements })
  queried (err e, t) s =
      (err (repository e), record s { tables = t; statements = suc s.statements })

  abbrev pub stated : {A : Type 0} → Option DatabaseError → Query A → Run A
  stated none q s = queried (q s.tables) s
  stated (some e) q s = (
    err (repository (Raised.repository (translate_database_error (λ _. false) e none))),
    record s { statements = suc s.statements },
  )

  -- a statement of the repository, which raises what the database does
  unfoldable pub query : {A : Type 0} → Query A → Run A
  query q s = stated (env.fault s.statements) q s

  unfoldable pub set_status : String → Run (Unit {0})
  set_status status = query (update_job env.job_id status)

  unfoldable pub add_task : ℕ → String → String → Run (Unit {0})
  add_task created task_type task_data s =
      query (create_task env.job_id s.counter created task_type task_data) s

  unfoldable pub count_task : Run (Unit {0})
  count_task s = (ok tt, record s { counter = suc s.counter })

  abbrev wrapped : String → String → String → String
  wrapped before t after = followed_by before (followed_by t after)

  -- what event_handler writes for an event that is a task's
  abbrev pub task_text : Event → String × String
  task_text (warning stdout) = ("WARNING", stdout)
  task_text (error stdout) = ("ERROR", stdout)
  task_text (playbook_on_play_start play) = (wrapped "PLAY [" play "]", "")
  task_text (playbook_on_task_start task) = (task, "")
  task_text (runner_on_failed host msg stderr) = (
    "",
    followed_by (wrapped "fatal: [" host "]\n") (wrapped (env.dumps msg) "\nstderr: " stderr),
  )
  task_text (runner_item_on_failed host stderr) =
      ("", wrapped "fatal: [" host (followed_by "]\n" stderr))
  task_text (playbook_on_stats ok_hosts failures) = (
    "PLAY RECAP",
    followed_by (wrapped "ok: " (env.str_value ok_hosts) " \n")
        (followed_by "failures: " (env.str_value failures)),
  )
  task_text (other_event kind whole) = (kind, env.dumps whole)
  task_text _ = ("", "")

  unfoldable pub set_data : Value → Run (Unit {0})
  set_data msg s = (ok tt, record s { run_data = msg })

  unfoldable pub record_event : ℕ → String × String → Run (Unit {0})
  record_event created (task_type, task_data) = do add_task created task_type task_data; count_task

  unfoldable pub event_handler : ℕ → Event → Run (Unit {0})
  event_handler created quiet = pure tt
  event_handler created malformed = raise key_error
  event_handler created (runner_on_ok task msg) =
      if str_eq task "Data" then set_data msg else pure tt
  event_handler created e = record_event created (task_text e)

  unfoldable pub record_internal_task : String → Value → Run (Unit {0})
  record_internal_task task_name task_desc = record_event env.now (task_name, env.dumps task_desc)
