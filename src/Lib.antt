-- ===== src/Lib.antt =====
-- A model of cpkit, a Python toolkit for control-plane applications, and theorems about it.
--
-- The parts and how they interact. Repositories run SQL statements on PostgreSQL and translate
-- every driver error into a repository error; services translate those into service errors, and
-- the HTTP layer maps these to a status. The queue is the table cpkit.mq: the API and the
-- application enqueue messages and commands, and a worker claims a due message under a row lock,
-- finds its handler and payload, deletes or reschedules the row, commits, and hands the message to
-- a thread pool. Jobs and tasks are the history that commands leave: a handler that runs a stored
-- playbook writes the job's status and a task for each event through AnsibleRunner. A request's
-- caller is known by an API key's signature or by a session that OIDC opened.
--
-- Base: results, actions that raise, lists, JSON values. An action is a function on the tables that
--   returns a result and the tables, `Exec`; what was written before a raise stays written.
-- Errors: cpkit/errors/*.py and translate_database_error of cpkit/db/postgres.py.
-- Jobs.Types, Jobs.Repository: cpkit/jobs/types.py, cpkit/jobs/repository.py and the tables of
--   cpkit/resources/ddl.sql that they use, with their keys and the partial unique index. The
--   limits of the column types (JSON, INT2 of a task's id) are left out.
-- Jobs.Recurring: cpkit/jobs/recurring.py; the module's global is the value that
--   configure_recurring_messages returns.
-- Jobs.Dispatch: the module functions of cpkit/jobs/worker.py that claim and prepare a message. The
--   database, the application's handlers, resolver and parser, and the pool enter as parameters:
--   what each may raise, the rows that others have locked, how the commit ends (and, where it fails,
--   whether the server applied it), and whether leaving the pool's connection raises.
-- Jobs.History: any sequence of repository calls and dispatches, each a transaction of its own.
-- Jobs.Worker: the class QueueWorker of cpkit/jobs/worker.py as a state machine whose events are what
--   happens between two awaits: a run begins, a poll's wait ends, the run is cancelled, a single
--   dispatch is asked for, polling is stopped, a handler returns, a drain ends. Its event loop is a
--   number, the identity that _bind_loop compares; which wait ends when is the sequence's choice.
-- Jobs.Service: cpkit/jobs/service.py, the rescheduling of a job. The application's resolver, parser and
--   audit hook are parameters. The caller's groups are left out, as the repository ignores them.
-- Auth.Claims, Auth.Access: cpkit/auth/claims.py, the groups of cpkit/auth/config.py, the decisions by
--   role of cpkit/auth/oidc.py and cpkit/auth/dependencies.py.
-- Auth.ApiKeys: cpkit/auth/api_keys.py, requests signed with an API key.
-- Auth.Sessions: OIDCSessionManager of cpkit/auth/oidc.py over the table cpkit.oidc_sessions.
-- Auth.Callers: OIDCManager.current_claims, which chooses between the two. The provider's tokens, the
--   cipher, the HMAC and the clocks are parameters.
-- Auth.Config: cpkit/auth/config.py and cpkit/config/env.py, the configuration that the settings give;
--   Auth.Config.Usable: what validate accepts. A number of seconds is not negative.
-- Auth.ProviderClient, with Tokens, Requests and Loading: OIDCProviderClient of cpkit/auth/oidc.py and
--   the loading of its configuration by OIDCManager. The clock's readings, the HTTP answers and the
--   stored settings are functions of the number of the question; PyJWT and urlencode are parameters.
--   Operations: the calls in a row, update_provider_config among them. Cached, Listed, Validated, Rotation: where the documents and keys
--   come from.
-- Auth.Login: cpkit/auth/router.py and cpkit/auth/redirects.py over the provider client and the
--   sessions. Checked, Admitted: who gets a session. The flags of the cookies are left out.
-- Auth.KeyService: cpkit/auth/api_key_service.py over the table cpkit.api_keys. The random texts, the
--   cipher and the hooks are parameters. Created: a new key and the requests that it signs.
-- Jobs.Handlers: the run of a handler in its thread, in cpkit/jobs/worker.py, with the job id of the
--   logging context, and cpkit/jobs/maintenance.py. The exceptions are those of `except Exception`.
-- Settings, Settings.Service: cpkit/settings/repository.py and cpkit/settings/service.py over the table
--   cpkit.settings. What the statements raise and the hooks, which are handed the table, are
--   parameters. Settings.Stored: the table as a map from keys to values.
-- Playbooks: cpkit/playbooks/types.py and repository.py over the table cpkit.playbooks. A call's
--   fault, by the call, the formats that show and read a time and the compression are parameters.
-- Playbooks.Service: cpkit/playbooks/service.py. Playbooks.Formats states of the formats what the
--   theorems need: a time's text shows its second, and orders as the seconds do.
-- Playbooks.Reads, Ordered, Selected, Default, Undecided, Protected, Bypassed, Saved, Missing: lemmas
--   on the rows in the order of a query, and the theorems on which version is the default.
-- Runner: AnsibleRunner of cpkit/playbooks/ansible.py: its state, its handler of events and the tasks
--   that it records. Runner.Vars: the variables of a run; Runner.Loaded: _load_playbook and
--   _run_loaded_playbook; Runner.Launch: launch_runner with the hooks of SSH credentials. What each
--   statement raises, by its number, the start of a run with its events and its final status, and the
--   directories that cannot be made or removed are parameters. A run's events and the heartbeats
--   of the thread that watches it come in an order that is part of its start; after a heartbeat that
--   raises, the events that are left come when the result has been made. The modes that chmod
--   sets are left out.
-- Runner.Options: run_playbook with the options of one call; Runner.Lite: LiteAnsibleRunner. Both are of
--   the same file, with the same parameters.
-- Runner.Rules, Ready, Events, Settled, Returned, Removed: where the runner's actions end. Runner.Stuck,
--   Uncounted, Unprepared: what follows a task that is recorded and not counted. Runner.Unwatched: a run
--   whose heartbeat raises.
-- Audit: cpkit/audit/recorder.py, repository.py and events_service.py over the table cpkit.event_log.
--   The providers of ids, the record factory and what the statements raise are parameters.
--   Audit.BestEffort: events that must not fail their caller.
-- Times are microseconds since an epoch. Nothing runs on fuel: every loop of the code that is
-- modelled is over a list, or over a sequence of events.
--
-- Not modelled: the FastAPI routers of jobs, settings, playbooks and audit, which only call the
-- services, and the app factory; logging; the command line; the web application's assets; the
-- listings of jobs; and run_queue_worker, which repeats a drain while asyncio cancels it.
pub mod Base
pub mod Errors
pub mod Jobs
pub mod Auth
pub mod Playbooks
pub mod Runner
pub mod Settings
pub mod Audit
