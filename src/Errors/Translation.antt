-- ===== src/Errors/Translation.antt =====
-- What a database failure becomes at the HTTP boundary.
use cpkit.Base.{ℕ, String, ◌≡◌, ◌↔◌, Bool, true, Option, arith, if◌then◌else◌}
use cpkit.Errors.{
  DatabaseError, operational, interface, serialization_failure, deadlock_detected, unique_violation,
  duplicate_database, insufficient_privilege, other_database, foreign, Messages, ServiceError,
  translate_database_error, from_repository_error, raise_http_from_service_error,
}

-- The status that an operator expects for each class of failure.
abbrev pub expected_status : DatabaseError → ℕ
expected_status operational = 503
expected_status interface = 503
expected_status serialization_failure = 503
expected_status deadlock_detected = 503
expected_status unique_violation = 409
expected_status duplicate_database = 409
expected_status insufficient_privilege = 403
expected_status other_database = 500
expected_status foreign = 500
expected_status _ = 400

module _ (extra : DatabaseError → Bool) (e : DatabaseError) (operation : Option String) where
  -- the service error that a repository call's failure becomes
  abbrev pub surfaced : Messages → ServiceError
  surfaced m = from_repository_error (translate_database_error extra e operation) m

  -- For every database failure, operation name and messages: the response's status is 503 for a
  -- type that the caller names as unavailable and otherwise the one expected for its class, and
  -- it is 503 exactly when the repository error is marked retryable.
  pub status-translate :
      (m : Messages)
      → ((raise_http_from_service_error (surfaced m)).status_code
          ≡ (if extra e then 503 else expected_status e))
        × (((raise_http_from_service_error (surfaced m)).status_code ≡ 503)
            ↔ ((translate_database_error extra e operation).retryable ≡ true))
  unfolding translate_database_error from_repository_error raise_http_from_service_error
  status-translate m = ground arith
