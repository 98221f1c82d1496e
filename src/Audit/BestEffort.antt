-- ===== src/Audit/BestEffort.antt =====
-- Audit events that must not fail their caller, in cpkit/audit/recorder.py.
use cpkit.Base.{String, Bool, true, false, Option, List, ◌≡◌, refl, ap, if◌then◌else◌}
use cpkit.Base.Exec.{Result, ok, err, pure, continue, handled, ◌>>=◌}
use cpkit.Base.Value.{Dict}
use cpkit.Audit.{
  AuditLogRecord, AuditFailure, AuditEvent, Recorder, log_record, build_record, emit,
  write_audit_record_best_effort, emit_best_effort, emit_audit_event, hook_event,
}

abbrev pub has_returned : {A : Type 0} → Result AuditFailure A → Bool
has_returned (ok a) = true
has_returned (err f) = false

emit_best_effort-emit :
    (a : Recorder) (e : AuditEvent) (log : List AuditLogRecord)
    → emit_best_effort a e log ≡ (ok (has_returned (emit a e log).0), (emit a e log).1)
unfolding emit_best_effort emit write_audit_record_best_effort ◌>>=◌
emit_best_effort-emit a e log = built (build_record a e log).0 (build_record a e log).1
  where
    written :
        (q : Result AuditFailure (Unit {0})) (s : List AuditLogRecord)
        → let w =
            handled
              (continue q (λ _. pure {E = AuditFailure} true) s).0
              (λ f. pure {E = AuditFailure} false)
              (continue q (λ _. pure {E = AuditFailure} true) s).1 in
          handled w.0 (λ f. pure {E = AuditFailure} false) w.1 ≡ (ok (has_returned q), s)
    written (ok u) s = refl
    written (err f) s = refl

    built :
        (r : Result AuditFailure AuditLogRecord) (s : List AuditLogRecord)
        → handled
            (continue r (write_audit_record_best_effort a) s).0
            (λ f. pure {E = AuditFailure} false)
            (continue r (write_audit_record_best_effort a) s).1
          ≡ (ok (has_returned (continue r (log_record a) s).0), (continue r (log_record a) s).1)
    built (err f) s = refl
    built (ok x) s = written (log_record a x s).0 (log_record a x s).1

-- Whatever the providers, the factory and the database do: the hook with best effort returns, never
-- raises, and leaves the log as `emit` leaves it; the hook without best effort does what `emit` does.
-- The answer of emit_best_effort itself says whether `emit` would have returned.
pub emit_audit_event-emit :
    (a : Recorder) (best_effort : Bool) (actor_id action : String) (details : Option Dict)
    (log : List AuditLogRecord)
    → let e = hook_event actor_id action details in
      (emit_audit_event a best_effort actor_id action details log
        ≡ (if best_effort then (ok tt, (emit a e log).1) else emit a e log))
      × (emit_best_effort a e log ≡ (ok (has_returned (emit a e log).0), (emit a e log).1))
unfolding emit_audit_event ◌>>=◌
emit_audit_event-emit a true actor_id action details log =
    let same = emit_best_effort-emit a (hook_event actor_id action details) log in
    (ap (λ x. continue x.0 (λ _. pure tt) x.1) same, same)
emit_audit_event-emit a false actor_id action details log =
    (refl, emit_best_effort-emit a (hook_event actor_id action details) log)
