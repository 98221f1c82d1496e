-- ===== src/Jobs/Dispatch.antt =====
-- cpkit/jobs/worker.py, the module's functions: a message is claimed, its handler and payload are
-- found, and its disposition is committed. The database, the application's callables and the pool
-- enter as an `Env`: what each may raise, and how the commit ends.
pub mod Claim
pub mod Explained
use cpkit.Base.{
  ℕ, ◌+◌, String, Bool, true, false, not, ◌&&◌, ◌||◌, Option, none, some, List, [], ◌∷◌, ltb, leb,
  ◌==◌, str_eq, if◌then◌else◌, first_row, where_rows, update_rows, delete_rows,
}
use cpkit.Base.Exec.{Result, ok, err, Exec, pure, raise, gets, ◌>>=◌, ◌>>◌}
use cpkit.Base.Value.{Dict, get}
use cpkit.Errors.{DatabaseError}
use cpkit.Jobs.Types.{QueueMessage, RecurringMessage, Tables, seconds}
use cpkit.Jobs.Recurring.{Configs}

-- The optional restrictions of a claim.
pub record Selection : Type 0 where
  pub message_id : Option ℕ
  pub expected_type : Option String
  pub expected_actor : Option String

abbrev pub any_message : Selection
any_message = record { message_id = none; expected_type = none; expected_actor = none }

abbrev wanted_id : Option ℕ → ℕ → Bool
wanted_id none n = true
wanted_id (some k) n = n == k

abbrev wanted_text : Option String → String → Bool
wanted_text none s = true
wanted_text (some t) s = str_eq s t

-- _selection_conditions
abbrev pub selected : Selection → QueueMessage → Bool
selected sel m =
    wanted_id sel.message_id m.msg_id
    && wanted_text sel.expected_type m.msg_type
    && wanted_text sel.expected_actor m.created_by

pub data SqlStep : Type 0 where
  select_recurring reschedule select_due delete_claimed : SqlStep

-- How the commit at the end of `conn.transaction()` goes. A failure may leave the transaction
-- applied on the server.
pub data Commit : Type 0 where
  commits : Commit
  fails : (integrity : Bool) (sqlstate : Option String) (applied : Bool) → Commit

-- The exceptions that leave a dispatch as they are; `E` are those of the application's callables.
pub data Fault (E : Type 0) : Type 0 where
  connection_failed idle_required : Fault E
  key_error : String → Fault E
  unknown_task_type : String → Fault E
  database : DatabaseError → Fault E
  commit_failed : Fault E
  cleanup_failed : Fault E
  application : E → Fault E

pub data Phase : Type 0 where
  commit_rejected commit_unknown committed_cleanup submission : Phase

-- what a handler is given: the parsed message or, with no parser, `msg_data`
pub data Parsed (P : Type 0) : Type 0 where
  parsed : P → Parsed P
  raw : Dict → Parsed P

pub record Env : Type 0 where
  pub now : ℕ
  pub random : ℕ → ℕ
  pub is_locked : ℕ → Bool
  pub connects : Bool
  pub is_idle : Bool
  pub statement_fault : SqlStep → Option DatabaseError
  pub commit : Commit
  pub cleanup_raises : Bool

-- The application's side: the `handlers` mapping, the resolver and the parser, each optional.
pub record Callables (E H P : Type 0) : Type 0 where
  pub handlers : Option (List (String × H))
  pub resolver : Option (QueueMessage → Result E (Option H))
  pub parse_message : Option (QueueMessage → Result E P)

abbrev pub Step : Type 0 → Type 0 → Type 0
Step E A = Exec (Fault E) Tables A

abbrev pub faulty : {E : Type 0} → Option DatabaseError → Step E (Unit {0})
faulty none = pure tt
faulty (some e) = raise (database e)

abbrev pub is_due : Env → Selection → QueueMessage → Bool
is_due env sel m = ltb m.start_after env.now && selected sel m && not (env.is_locked m.msg_id)

abbrev pub is_plain_due : Env → Selection → QueueMessage → Bool
is_plain_due env sel m = not m.is_recurring && is_due env sel m

abbrev is_configured : Configs → String → Bool
is_configured configs k = elim (get k configs) [ none ↦ false | some _ ↦ true ]

abbrev pub is_recurring_due : Env → Configs → Selection → QueueMessage → Bool
is_recurring_due env configs sel m =
    m.is_recurring && is_configured configs m.msg_type && is_due env sel m

abbrev sooner : QueueMessage → Option QueueMessage → Option QueueMessage
sooner m none = some m
sooner m (some k) = if ltb k.start_after m.start_after then some k else some m

-- ORDER BY start_after LIMIT 1
unfoldable pub earliest : List QueueMessage → Option QueueMessage
earliest [] = none
earliest (m ∷ ms) = sooner m (earliest ms)

abbrev pub with_start : ℕ → QueueMessage → QueueMessage
with_start at m = record m { start_after = at }

-- now() + interval + random() * jitter
abbrev pub next_start : Env → RecurringMessage → ℕ
next_start env c = env.now + seconds c.interval_seconds + env.random (seconds c.jitter_seconds)

abbrev pub is_empty : Configs → Bool
is_empty [] = true
is_empty (c ∷ cs) = false

module _ {E : Type 0} where
  -- the first row in the order of the list, where the statement leaves the order to the database
  unfoldable pub claim_due_message : Env → Selection → Step E (Option QueueMessage)
  claim_due_message env sel = do
    faulty (env.statement_fault select_due)
    gets (λ t. first_row (is_plain_due env sel) t.mq)

  unfoldable pub set_start_after : ℕ → ℕ → Step E (Unit {0})
  set_start_after id at t =
      (ok tt, record t { mq = update_rows (λ k. k.msg_id == id) (with_start at) t.mq })

  -- UPDATE … RETURNING *
  abbrev pub reschedule_as :
      Env → QueueMessage → Option RecurringMessage → Step E (Option QueueMessage)
  reschedule_as env m none = raise (key_error m.msg_type)
  reschedule_as env m (some c) = do
    faulty (env.statement_fault reschedule)
    set_start_after m.msg_id (next_start env c)
    pure (some (with_start (next_start env c) m))

  abbrev pub reschedule_found : Env → Configs → Option QueueMessage → Step E (Option QueueMessage)
  reschedule_found env configs none = pure none
  reschedule_found env configs (some m) = reschedule_as env m (get m.msg_type configs)

  unfoldable pub claim_due_recurring_message :
      Env → Configs → Selection → Step E (Option QueueMessage)
  claim_due_recurring_message env configs sel = if is_empty configs then pure none else do
    faulty (env.statement_fault select_recurring)
    found ← gets (λ t. earliest (where_rows (is_recurring_due env configs sel) t.mq))
    reschedule_found env configs found

  unfoldable pub delete_row : ℕ → Step E (Unit {0})
  delete_row id t = (ok tt, record t { mq = delete_rows (λ k. k.msg_id == id) t.mq })

  unfoldable pub delete_unless_recurring : Env → QueueMessage → Step E (Unit {0})
  delete_unless_recurring env m =
      if m.is_recurring
      then pure tt
      else do faulty (env.statement_fault delete_claimed); delete_row m.msg_id

  abbrev pub or_due : Env → Selection → Option QueueMessage → Step E (Option QueueMessage)
  or_due env sel none = claim_due_message env sel
  or_due env sel (some m) = pure (some m)

  abbrev pub application_result : {A : Type 0} → Result E A → Step E A
  application_result (ok a) = pure a
  application_result (err e) = raise (application e)

module _ {E H P : Type 0} (app : Callables E H P) where
  abbrev found_handler : QueueMessage → Option H → Step E H
  found_handler m none = raise (unknown_task_type m.msg_type)
  found_handler m (some h) = pure h

  abbrev lookup_handler : QueueMessage → Option (List (String × H)) → Step E H
  lookup_handler m none = found_handler m none
  lookup_handler m (some hs) = found_handler m (get m.msg_type hs)

  abbrev resolve_by : QueueMessage → Option (QueueMessage → Result E (Option H)) → Step E H
  resolve_by m none = lookup_handler m app.handlers
  resolve_by m (some r) = application_result (r m) >>= found_handler m

  -- _resolve_handler: a resolver, where there is one, is asked alone
  unfoldable pub resolve_handler : QueueMessage → Step E H
  resolve_handler m = resolve_by m app.resolver

  abbrev parse_by : QueueMessage → Option (QueueMessage → Result E P) → Step E (Parsed P)
  parse_by m none = pure (raw m.msg_data)
  parse_by m (some p) = application_result (p m) >>= λ v. pure (parsed v)

  unfoldable pub parse_payload : QueueMessage → Step E (Parsed P)
  parse_payload m = parse_by m app.parse_message

  abbrev pub prepare_found :
      Env → Option QueueMessage → Step E (Option (QueueMessage × H × Parsed P))
  prepare_found env none = pure none
  prepare_found env (some m) = do
    h ← resolve_handler m
    payload ← parse_payload m
    delete_unless_recurring env m
    pure (some (m, h, payload))

  -- the block under `with conn.transaction()`
  unfoldable pub prepare : Env → Configs → Selection → Step E (Option (QueueMessage × H × Parsed P))
  prepare env configs sel = do
    recurring ← claim_due_recurring_message env configs sel
    found ← or_due env sel recurring
    prepare_found env found

-- What a dispatch comes to.
pub data Outcome (E H P : Type 0) : Type 0 where
  nothing : Outcome E H P
  prepared : QueueMessage → H → Parsed P → Outcome E H P
  dispatch_error : QueueMessage → Phase → Outcome E H P
  raised : Fault E → Outcome E H P

abbrev is_rejection : String → Bool
is_rejection s = str_eq s "40000" || str_eq s "40001" || str_eq s "40002" || str_eq s "40P01"

abbrev is_rejected : Option String → Bool
is_rejected none = false
is_rejected (some s) = is_rejection s

-- the phase of a failed commit
abbrev pub commit_phase : Bool → Option String → Phase
commit_phase integrity sqlstate =
    if integrity || is_rejected sqlstate then commit_rejected else commit_unknown

module _ {E H P : Type 0} where
  -- Leaving `conn.transaction()` and then the pool's connection, which may raise in its turn.
  -- `t` are the tables before, `t'` those that the block has written.
  abbrev pub committed_as :
      Commit → Bool → Tables → Tables → QueueMessage → H → Parsed P → Outcome E H P × Tables
  committed_as commits false t t' m h p = (prepared m h p, t')
  committed_as commits true t t' m h p = (dispatch_error m committed_cleanup, t')
  committed_as (fails integrity sqlstate applied) false t t' m h p =
      (dispatch_error m (commit_phase integrity sqlstate), if applied then t' else t)
  committed_as (fails integrity sqlstate applied) true t t' m h p =
      (dispatch_error m commit_unknown, if applied then t' else t)

  abbrev pub left_empty : Commit → Bool → Tables → Tables → Outcome E H P × Tables
  left_empty commits false t t' = (nothing, t')
  left_empty (fails integrity sqlstate applied) false t t' =
      (raised commit_failed, if applied then t' else t)
  left_empty commits true t t' = (raised cleanup_failed, t')
  left_empty (fails integrity sqlstate applied) true t t' =
      (raised cleanup_failed, if applied then t' else t)

  abbrev pub leave :
      Env
      → Tables
      → Result (Fault E) (Option (QueueMessage × H × Parsed P)) × Tables
      → Outcome E H P × Tables
  leave env t (err f, t') = (raised (if env.cleanup_raises then cleanup_failed else f), t)
  leave env t (ok none, t') = left_empty env.commit env.cleanup_raises t t'
  leave env t (ok (some (m, h, p)), t') = committed_as env.commit env.cleanup_raises t t' m h p

  -- _claim_and_prepare_dispatch
  unfoldable pub claim_and_prepare_dispatch :
      Callables E H P → Env → Configs → Selection → Tables → Outcome E H P × Tables
  claim_and_prepare_dispatch app env configs sel t =
      if not env.connects
      then (raised connection_failed, t)
      else if env.is_idle
      then leave env t (prepare app env configs sel t)
      else (raised (if env.cleanup_raises then cleanup_failed else idle_required), t)
