-- ===== src/Jobs/Recurring.antt =====
-- cpkit/jobs/recurring.py: the configured recurring messages, keyed by type.
pub mod Lookup
use cpkit.Base.{String, ◌≡◌, Option, none, some, List, [], ◌∷◌, ◌++◌, str_eq, if◌then◌else◌}
use cpkit.Base.Value.{put}
use cpkit.Jobs.Types.{RecurringMessage}

abbrev pub fail_zombie_jobs_message_type : String
fail_zombie_jobs_message_type = "FAIL_ZOMBIE_JOBS"

abbrev pub fail_zombie_jobs_recurring_message : RecurringMessage
fail_zombie_jobs_recurring_message = record {
  msg_type = fail_zombie_jobs_message_type;
  interval_seconds = 300;
  jitter_seconds = 10;
  payload = some [];
  created_by = some "system";
}

abbrev pub default_recurring_messages : List RecurringMessage
default_recurring_messages = fail_zombie_jobs_recurring_message ∷ []

abbrev pub Configs : Type 0
Configs = List (String × RecurringMessage)

-- the dict comprehension, from what it has built so far
map_from : Configs → List RecurringMessage → Configs
map_from d [] = d
map_from d (m ∷ ms) = map_from (put m.msg_type m d) ms

unfoldable pub recurring_message_map : List RecurringMessage → Configs
unfolding map_from
recurring_message_map ms = map_from [] ms

values : Configs → List RecurringMessage
values [] = []
values ((k, m) ∷ d) = m ∷ values d

unfoldable pub dedupe_recurring_messages : List RecurringMessage → List RecurringMessage
unfolding recurring_message_map values
dedupe_recurring_messages ms = values (recurring_message_map ms)

-- the value that the module's global takes
unfoldable pub configure_recurring_messages : List RecurringMessage → List RecurringMessage
unfolding dedupe_recurring_messages
configure_recurring_messages ms = dedupe_recurring_messages (default_recurring_messages ++ ms)
