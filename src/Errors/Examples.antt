-- ===== src/Errors/Examples.antt =====
-- A failed database call, for the theorem on the translation of errors.
use cpkit.Base.{◌≡◌, ◌↔◌, Bool, true, false, some}
use cpkit.Errors.{
  DatabaseError, deadlock_detected, no_messages, translate_database_error,
  raise_http_from_service_error,
}
use cpkit.Errors.Translation.{surfaced, status-translate}

abbrev none_more : DatabaseError → Bool
none_more e = false

status-translate_example :
    ((raise_http_from_service_error
        (surfaced none_more deadlock_detected (some "jobs.get_job") no_messages)).status_code
      ≡ 503)
    × (((raise_http_from_service_error
            (surfaced none_more deadlock_detected (some "jobs.get_job") no_messages)).status_code
          ≡ 503)
        ↔ ((translate_database_error none_more deadlock_detected (some "jobs.get_job")).retryable
            ≡ true))
status-translate_example =
    status-translate none_more deadlock_detected (some "jobs.get_job") no_messages
