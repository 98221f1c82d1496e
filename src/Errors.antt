-- ===== src/Errors.antt =====
-- cpkit/errors/*.py and the error translation of cpkit/db/postgres.py: the exceptions of the
-- database driver, of the repositories and of the services, and the HTTP status of each.
pub mod Translation
mod Examples
use cpkit.Base.{ℕ, String, Bool, true, false, ◌||◌, Option, none, some, str_eq, if◌then◌else◌}

-- An optional text with a default, as Python's `a or b` gives it: the empty text counts as none.
abbrev pub or_text : Option String → String → String
or_text none d = d
or_text (some t) d = if str_eq t "" then d else t

pub data RepositoryKind : Type 0 where
  general unavailable conflict validation permission : RepositoryKind

pub record RepositoryError : Type 0 where
  pub kind : RepositoryKind
  pub message : String
  pub operation : Option String
  pub retryable : Bool

-- The classes of psycopg exceptions that `translate_database_error` tells apart; `other_database`
-- is any other `DatabaseError`, and `foreign` an exception that is none.
pub data DatabaseError : Type 0 where
  operational interface serialization_failure deadlock_detected : DatabaseError
  unique_violation duplicate_database : DatabaseError
  foreign_key_violation check_violation not_null_violation : DatabaseError
  invalid_text_representation insufficient_privilege : DatabaseError
  other_database foreign : DatabaseError

abbrev repository_error : RepositoryKind → String → String → Bool → RepositoryError
repository_error k m op r = record { kind = k; message = m; operation = some op; retryable = r }

abbrev database_unavailable : String → RepositoryError
database_unavailable op =
    repository_error unavailable "Database is temporarily unavailable." op true

abbrev invalid_data : String → RepositoryError
invalid_data op = repository_error validation "Database rejected invalid data." op false

translate_by_class : DatabaseError → String → RepositoryError
translate_by_class operational op = database_unavailable op
translate_by_class interface op = database_unavailable op
translate_by_class serialization_failure op = database_unavailable op
translate_by_class deadlock_detected op = database_unavailable op
translate_by_class unique_violation op =
    repository_error conflict "Database write conflicts with existing data." op false
translate_by_class duplicate_database op =
    repository_error conflict "Database already exists." op false
translate_by_class foreign_key_violation op = invalid_data op
translate_by_class check_violation op = invalid_data op
translate_by_class not_null_violation op = invalid_data op
translate_by_class invalid_text_representation op = invalid_data op
translate_by_class insufficient_privilege op =
    repository_error permission "Database permission denied." op false
translate_by_class other_database op =
    repository_error general "Database operation failed." op false
translate_by_class foreign op = repository_error general "Repository operation failed." op false

-- The caller may name further types as unavailable: `extra` says whether an exception is of one.
unfoldable pub translate_database_error :
    (DatabaseError → Bool) → DatabaseError → Option String → RepositoryError
unfolding translate_by_class
translate_database_error extra e operation =
    let operation_name = or_text operation "database.statement" in
    if extra e then database_unavailable operation_name else translate_by_class e operation_name

pub data ServiceKind : Type 0 where
  service unavailable conflict validation authorization not_found : ServiceKind

pub record ServiceError : Type 0 where
  pub kind : ServiceKind
  pub user_title : String
  pub user_message : String

unfoldable pub default_title : ServiceKind → String
default_title ServiceKind.service = "Error"
default_title ServiceKind.unavailable = "Temporarily Unavailable"
default_title ServiceKind.conflict = "Conflict"
default_title ServiceKind.validation = "Invalid Request"
default_title ServiceKind.authorization = "Not Authorized"
default_title ServiceKind.not_found = "Not Found"

unfoldable pub default_message : ServiceKind → String
default_message ServiceKind.service = "Something went wrong. Please try again."
default_message ServiceKind.unavailable =
    "The service is temporarily unavailable. Please try again."
default_message ServiceKind.conflict = "The requested change conflicts with existing data."
default_message ServiceKind.validation = "The submitted data is invalid."
default_message ServiceKind.authorization = "You are not authorized to perform this action."
default_message ServiceKind.not_found = "The requested item could not be found."

-- ServiceError.__init__
unfoldable pub service_error : ServiceKind → Option String → Option String → ServiceError
unfolding default_title default_message
service_error k message title = record {
  kind = k;
  user_title = or_text title (default_title k);
  user_message = or_text message (default_message k);
}

-- The optional arguments of `from_repository_error`.
pub record Messages : Type 0 where
  pub unavailable_message : Option String
  pub conflict_message : Option String
  pub validation_message : Option String
  pub permission_message : Option String
  pub fallback_message : Option String
  pub fallback_title : Option String

abbrev pub no_messages : Messages
no_messages = record {
  unavailable_message = none;
  conflict_message = none;
  validation_message = none;
  permission_message = none;
  fallback_message = none;
  fallback_title = none;
}

unfoldable pub from_repository_kind : RepositoryKind → Messages → ServiceError
unfolding service_error
from_repository_kind RepositoryKind.unavailable m =
    service_error ServiceKind.unavailable m.unavailable_message none
from_repository_kind RepositoryKind.conflict m =
    service_error ServiceKind.conflict m.conflict_message none
from_repository_kind RepositoryKind.validation m =
    service_error ServiceKind.validation m.validation_message none
from_repository_kind RepositoryKind.permission m =
    service_error ServiceKind.authorization m.permission_message none
from_repository_kind RepositoryKind.general m =
    service_error ServiceKind.service m.fallback_message m.fallback_title

unfoldable pub from_repository_error : RepositoryError → Messages → ServiceError
unfolding from_repository_kind
from_repository_error e m = from_repository_kind e.kind m

pub record HttpException : Type 0 where
  pub status_code : ℕ
  pub detail : String

unfoldable pub status_of : ServiceKind → ℕ
status_of ServiceKind.not_found = 404
status_of ServiceKind.validation = 400
status_of ServiceKind.conflict = 409
status_of ServiceKind.authorization = 403
status_of ServiceKind.unavailable = 503
status_of ServiceKind.service = 500

unfoldable pub raise_http_from_service_error : ServiceError → HttpException
unfolding status_of
raise_http_from_service_error e = record { status_code = status_of e.kind; detail = e.user_message }
