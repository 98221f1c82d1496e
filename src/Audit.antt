-- ===== src/Audit.antt =====
-- cpkit/audit: the recorder of cpkit/audit/recorder.py, which writes the log of events, and the reads
-- of cpkit/audit/repository.py and cpkit/audit/events_service.py over the table cpkit.event_log. The
-- clock, the providers of the ids, the record factory and what the statements raise are parameters.
pub mod BestEffort
mod Examples
use cpkit.Base.{
  ℕ, zero, suc, String, Bool, true, false, ◌&&◌, Option, none, some, List, [], ◌∷◌, ◌++◌, str_eq,
  ltb, ◌==◌, any, if◌then◌else◌, order_by, length,
}
use cpkit.Base.Exec.{Result, ok, err, Exec, pure, raise, lift, gets, catch, ◌>>=◌, ◌>>◌}
use cpkit.Base.Value.{Dict, is_nonempty}
use cpkit.Base.Texts.{strip}
use cpkit.Errors.{
  DatabaseError, unique_violation, RepositoryError, ServiceError, Messages, no_messages,
  from_repository_error, translate_database_error,
}

pub record AuditLogRecord : Type 0 where
  pub ts : ℕ
  pub user_id : String
  pub action : String
  pub job_id : Option ℕ
  pub details : Option Dict
  pub request_id : Option String

-- `failed` is any exception of a provider or of the factory
pub data AuditFailure : Type 0 where
  repository : RepositoryError → AuditFailure
  service : ServiceError → AuditFailure
  failed : AuditFailure

pub data AuditCall : Type 0 where
  list_call count_call insert_call : AuditCall

abbrev pub Log : Type 0 → Type 0
Log A = Exec AuditFailure (List AuditLogRecord) A

-- What a record is made of.
pub record AuditEvent : Type 0 where
  pub event_type : String
  pub actor_id : String
  pub metadata : Option Dict
  pub request_id : Option String
  pub job_id : Option ℕ

pub record Recorder : Type 0 where
  pub fault : AuditCall → Option DatabaseError
  pub record_factory : AuditEvent → Result AuditFailure AuditLogRecord
  pub request_id_provider : Option (Result AuditFailure (Option String))
  pub job_id_provider : Option (Result AuditFailure (Option ℕ))

-- `(str(request_id).strip() or None) if request_id else None`
abbrev pub normalize_request_id : Option String → Option String
normalize_request_id none = none
normalize_request_id (some r) = if is_nonempty (strip r) then some (strip r) else none

abbrev or_default : Option Dict → Option Dict → Option Dict
or_default none d = d
or_default (some m) d = some m

-- the standard factory, at a reading of the clock
unfoldable pub build_audit_log_record : ℕ → Option Dict → AuditEvent → AuditLogRecord
build_audit_log_record now default_metadata e = record {
  ts = now;
  user_id = e.actor_id;
  action = e.event_type;
  job_id = e.job_id;
  details = or_default e.metadata default_metadata;
  request_id = normalize_request_id e.request_id;
}

abbrev statement_fault : Option DatabaseError → String → Result AuditFailure (Unit {0})
statement_fault none operation = ok tt
statement_fault (some e) operation =
    err (repository (translate_database_error (λ _. false) e (some operation)))

abbrev same_key : AuditLogRecord → AuditLogRecord → Bool
same_key a b = (a.ts == b.ts) && str_eq a.user_id b.user_id

-- the INSERT, with the primary key of the table
unfoldable pub insert_record : AuditLogRecord → Log (Unit {0})
insert_record r log =
    if any (same_key r) log
    then (err (repository (translate_database_error (λ _. false) unique_violation none)), log)
    else (ok tt, log ++ (r ∷ []))

-- the id that is given, or else the provider's
abbrev pub id_or_provided :
    {A : Type 0}
    → Option A
    → Option (Result AuditFailure (Option A))
    → Result AuditFailure (Option A)
id_or_provided (some a) provider = ok (some a)
id_or_provided none none = ok none
id_or_provided none (some r) = r

abbrev is_later : AuditLogRecord → AuditLogRecord → Bool
is_later a b = ltb b.ts a.ts

abbrev pub skip : {A : Type 0} → ℕ → List A → List A
skip zero xs = xs
skip (suc n) [] = []
skip (suc n) (x ∷ xs) = skip n xs

abbrev pub at_most : {A : Type 0} → ℕ → List A → List A
at_most zero xs = []
at_most (suc n) [] = []
at_most (suc n) (x ∷ xs) = x ∷ at_most n xs

abbrev translated : Messages → AuditFailure → AuditFailure
translated m (repository e) = service (from_repository_error e m)
translated m f = f

abbrev messages : String → String → Messages
messages unavailable fallback = record no_messages {
  unavailable_message = some unavailable;
  fallback_message = some fallback;
}

-- The event of a hook's arguments.
abbrev pub hook_event : String → String → Option Dict → AuditEvent
hook_event actor_id action details = record {
  event_type = action;
  actor_id = actor_id;
  metadata = details;
  request_id = none;
  job_id = none;
}

module _ (a : Recorder) where
  unfoldable pub log_record : AuditLogRecord → Log (Unit {0})
  log_record r = lift (statement_fault (a.fault insert_call) "") >>= λ _. insert_record r

  unfoldable pub build_record : AuditEvent → Log AuditLogRecord
  build_record e = do
    request_id ← lift (id_or_provided e.request_id a.request_id_provider)
    job_id ← lift (id_or_provided e.job_id a.job_id_provider)
    lift (a.record_factory (record e { request_id = request_id; job_id = job_id }))

  unfoldable pub emit : AuditEvent → Log (Unit {0})
  emit e = build_record e >>= log_record

  unfoldable pub write_audit_record_best_effort : AuditLogRecord → Log Bool
  write_audit_record_best_effort r = catch (log_record r >>= λ _. pure true) λ f. pure false

  unfoldable pub emit_best_effort : AuditEvent → Log Bool
  emit_best_effort e = catch (build_record e >>= write_audit_record_best_effort) λ f. pure false

  -- the hook of create_audit_event_hook
  unfoldable pub emit_audit_event : Bool → String → String → Option Dict → Log (Unit {0})
  emit_audit_event best_effort actor_id action details =
      let e = hook_event actor_id action details in
      if best_effort then (emit_best_effort e >>= λ written. pure tt) else emit e

  unfoldable pub list_events : ℕ → ℕ → Bool → Log (List AuditLogRecord)
  list_events limit offset is_admin =
      if is_admin
      then (lift (statement_fault (a.fault list_call) "audit.list_events") >>= λ _.
          gets λ log. at_most limit (skip offset (order_by is_later log)))
      else pure []

  unfoldable pub get_event_count : Log ℕ
  get_event_count =
      lift (statement_fault (a.fault count_call) "audit.get_event_count") >>= λ _. gets length

  unfoldable pub list_visible_events : ℕ → ℕ → Bool → Log (List AuditLogRecord)
  list_visible_events limit offset is_admin = catch (list_events limit offset is_admin) λ f.
      raise (translated (messages "Events are temporarily unavailable." "Unable to load events.") f)

  unfoldable pub get_event_total : Log ℕ
  get_event_total = catch get_event_count λ f. raise (
      translated
        (messages "Event totals are temporarily unavailable." "Unable to load the event count.") f)
