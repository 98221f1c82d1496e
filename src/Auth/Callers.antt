-- ===== src/Auth/Callers.antt =====
-- OIDCManager of cpkit/auth/oidc.py: the claims of a request, by its API key or its session, and
-- the exceptions that the manager makes of the failures of both.
pub mod Source
use cpkit.Base.{
  ℕ, String, Bool, true, false, not, ◌&&◌, ◌||◌, Option, none, some, List, [], ◌∷◌, str_eq,
  if◌then◌else◌,
}
use cpkit.Base.Exec.{Result, ok, err, Exec, pure, raise, catch}
use cpkit.Base.Value.{Value, Dict}
use cpkit.Errors.{RepositoryError, HttpException}
use cpkit.Auth.Claims.{is_nonempty}
use cpkit.Auth.Access.{AccessConfig, ensure_authorized}
use cpkit.Auth.ApiKeys.{
  ApiKey, Request, Signing, KeyFailure, refused, crypto, type_error, authenticate_request,
}
use cpkit.Auth.Sessions.{
  Session, AuthFailure, oidc, http, repository, runtime, Provider, Sessions, claims_from_session,
}

-- What the manager raises: a response, 401 with the login path in the header X-Auth-Login-Url where
-- a session is missing, or another exception that passes through it.
pub data CallerFailure : Type 0 where
  response : HttpException → (login_url : Option String) → CallerFailure
  passed : AuthFailure → CallerFailure
  key_error : KeyFailure → CallerFailure

-- The three headers of a signed request and the session's cookie, as the request has them.
pub record Credentials : Type 0 where
  pub access_key : Option String
  pub signature : Option String
  pub timestamp : Option String
  pub session_token : Option String

-- The manager's configuration, what the clocks, ciphers and the provider give, and what the
-- repository finds for an access key.
pub record Manager : Type 0 where
  pub enabled : Bool
  pub login_path : String
  pub api_key_signature_ttl_seconds : ℕ
  pub missing_api_key_headers_detail : String
  pub auth_disabled_claims : Dict
  pub access : AccessConfig
  pub str_value : Value → String
  pub provider : Provider
  pub signing : Signing
  pub find_key : String → Result RepositoryError (Option ApiKey)

abbrev pub given : Option String → Bool
given none = false
given (some s) = is_nonempty s

abbrev pub unauthorized : String → HttpException
unauthorized detail = record { status_code = 401; detail = detail }

abbrev pub Callers : Type 0 → Type 0
Callers A = Exec CallerFailure (List Session) A

module _ (m : Manager) where
  abbrev pub not_authenticated_exception : String → CallerFailure
  not_authenticated_exception detail = response (unauthorized detail) (some m.login_path)

  abbrev authorized_or_http : Result HttpException Dict → Result AuthFailure Dict
  authorized_or_http (ok c) = ok c
  authorized_or_http (err e) = err (http e)

  -- ensure_authorized as the session manager calls it
  unfoldable pub authorize_claims : Dict → Result AuthFailure Dict
  authorize_claims claims = authorized_or_http (ensure_authorized m.str_value m.access claims)

  abbrev pub of_key : Result KeyFailure Dict → Result CallerFailure Dict
  of_key (ok c) = ok c
  of_key (err (refused detail)) = err (response (unauthorized detail) none)
  of_key (err crypto) = err (key_error crypto)
  of_key (err type_error) = err (key_error type_error)

  module _ (r : Request) where
    abbrev pub checked_key :
        String → String → Result RepositoryError (Option ApiKey) → Result CallerFailure Dict
    checked_key signature timestamp (err e) = err (passed (repository e))
    checked_key signature timestamp (ok found) =
        of_key (
          authenticate_request m.signing r signature timestamp m.api_key_signature_ttl_seconds
            found)

    unfoldable pub validate_api_key : String → String → String → Result CallerFailure Dict
    validate_api_key access_key signature timestamp =
        checked_key signature timestamp (m.find_key access_key)

    -- the three headers, once one of them is there
    abbrev pub by_headers :
        Option String → Option String → Option String → Result CallerFailure Dict
    by_headers (some a) (some s) (some t) =
        if is_nonempty a && is_nonempty s && is_nonempty t
        then validate_api_key a s t
        else err (response (unauthorized m.missing_api_key_headers_detail) none)
    by_headers _ _ _ = err (response (unauthorized m.missing_api_key_headers_detail) none)

    abbrev translated : AuthFailure → CallerFailure
    translated (oidc detail) = not_authenticated_exception detail
    translated e = passed e

    -- OIDCManager.claims_from_session
    unfoldable pub claims_from_token : String → Callers Dict
    claims_from_token id =
        catch (claims_from_session m.provider authorize_claims id) λ e. raise (translated e)

    abbrev pub by_session : Option String → Callers Dict
    by_session none = raise (not_authenticated_exception "Not authenticated.")
    by_session (some id) =
        if is_nonempty id
        then claims_from_token id
        else raise (not_authenticated_exception "Not authenticated.")

    unfoldable pub current_claims : Credentials → Callers Dict
    current_claims c ss =
        if given c.access_key || given c.signature || given c.timestamp
        then (by_headers c.access_key c.signature c.timestamp, ss)
        else if not m.enabled
        then (ok m.auth_disabled_claims, ss)
        else by_session c.session_token ss
