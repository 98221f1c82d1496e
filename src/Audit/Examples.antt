-- ===== src/Audit/Examples.antt =====
-- A recorder whose insert fails, for the theorem on audit events.
use cpkit.Base.{true, none, some, [], ◌≡◌}
use cpkit.Base.Exec.{ok}
use cpkit.Errors.{operational}
use cpkit.Audit.{
  hook_event, Recorder, AuditEvent, insert_call, build_audit_log_record, emit, emit_best_effort,
  emit_audit_event,
}
use cpkit.Audit.BestEffort.{has_returned, emit_audit_event-emit}

abbrev recorder : Recorder
unfolding build_audit_log_record
recorder = record {
  fault = λ c. elim c [ insert_call ↦ some operational | _ ↦ none ];
  record_factory = λ e. ok (build_audit_log_record 5 none e);
  request_id_provider = some (ok (some " r1 "));
  job_id_provider = some (ok (some 7));
}

abbrev event : AuditEvent
event = hook_event "alice" "LOGIN" none

emit_audit_event-emit_example :
    (emit_audit_event recorder true "alice" "LOGIN" none [] ≡ (ok tt, (emit recorder event []).1))
    × (emit_best_effort recorder event []
        ≡ (ok (has_returned (emit recorder event []).0), (emit recorder event []).1))
emit_audit_event-emit_example = emit_audit_event-emit recorder true "alice" "LOGIN" none []
