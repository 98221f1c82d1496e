-- ===== src/Auth/Login.antt =====
-- cpkit/auth/router.py and cpkit/auth/redirects.py: the login, its callback and the logout, over the
-- provider client and the session store. The random texts, the address of the callback and the audit
-- hook are parameters; the cookies' flags, which are constants of the configuration, are left out.
pub mod Checked
pub mod Admitted
mod Examples
use Prim.Native.Char.{code}
use Prim.Native.String
use cpkit.Base.{
  ℕ, String, Bool, true, false, not, ◌&&◌, ◌||◌, Option, none, some, List, [], ◌∷◌, ◌++◌, str_eq,
  ◌==◌, any, if◌then◌else◌,
}
use cpkit.Base.Exec.{Result, ok, err, Exec, pure, raise, lift, gets, catch, ◌>>=◌, ◌>>◌}
use cpkit.Base.Value.{Value, text, boolean, Dict, get, is_nonempty, truthy}
use cpkit.Base.Texts.{followed_by, strip}
use cpkit.Errors.{
  HttpException, RepositoryError, DatabaseError, unique_violation, translate_database_error,
}
use cpkit.Auth.Claims.{str_of}
use cpkit.Auth.Access.{ensure_authorized, or_value}
use cpkit.Auth.Config.{OidcConfig}
use cpkit.Auth.Sessions.{
  Session, AuthFailure, oidc, http, repository, runtime, Provider, is_session, reached,
  delete_oidc_session, build_session_record,
}
use cpkit.Auth.ProviderClient.{World, Client, Calls}
use cpkit.Auth.ProviderClient.Tokens
use cpkit.Auth.ProviderClient.Requests.{build_authorization_url, exchange_code}
use cpkit.Auth.ProviderClient.Loading.{load_config}

-- the client of the provider and the rows of cpkit.oidc_sessions
pub record App : Type 0 where
  pub client : Client
  pub sessions : List Session

abbrev pub AppCalls : Type 0 → Type 0
AppCalls A = Exec AuthFailure App A

unfoldable pub on_client : {A : Type 0} → Calls A → AppCalls A
on_client m s = ((m s.client).0, record s { client = (m s.client).1 })

unfoldable pub on_sessions : {A : Type 0} → Exec AuthFailure (List Session) A → AppCalls A
on_sessions m s = ((m s.sessions).0, record s { sessions = (m s.sessions).1 })

-- `next_path.startswith("/")`
unfoldable pub starts_with_slash : String → Bool
starts_with_slash String.[] = false
starts_with_slash (String.◌∷◌ c s) = code c == b'/'

-- `next_path.startswith("//")`
unfoldable pub starts_with_slashes : String → Bool
unfolding starts_with_slash
starts_with_slashes String.[] = false
starts_with_slashes (String.◌∷◌ c s) = (code c == b'/') && starts_with_slash s

unfoldable pub safe_next_path : Option String → String
unfolding starts_with_slashes
safe_next_path none = "/"
safe_next_path (some next_path) =
    if not (is_nonempty next_path)
    then "/"
    else if not (starts_with_slash next_path)
    then "/"
    else if starts_with_slashes next_path
    then "/"
    else next_path

-- The query and the cookies of a callback.
pub record Callback : Type 0 where
  pub code : Option String
  pub state : Option String
  pub error : Option String
  pub error_description : Option String
  pub state_cookie : Option String
  pub nonce_cookie : Option String
  pub next_cookie : Option String
  pub callback_url : String

-- The response: where it redirects, the session cookie with its age, and the cookies it deletes.
pub record Redirect : Type 0 where
  pub location : String
  pub session_cookie : Option (String × ℕ)
  pub deletes_login_cookies : Bool

-- The response of a login, with the state, nonce and next cookies.
pub record LoginRedirect : Type 0 where
  pub auth_url : String
  pub state_cookie : String
  pub nonce_cookie : String
  pub next_cookie : String

abbrev pub http_error : ℕ → String → AuthFailure
http_error status detail = http (record { status_code = status; detail = detail })

abbrev pub text_of : Option String → String
text_of none = ""
text_of (some s) = s

-- the description, or the standard one
abbrev or_description : Option String → String
or_description d = if is_nonempty (text_of d) then text_of d else "OIDC authorization failed."

-- The checks before the code is exchanged, in their order: the code and the expected nonce.
unfoldable pub checked_callback : Callback → Result AuthFailure (String × String)
checked_callback cb =
    if is_nonempty (text_of cb.error)
    then err (
        http_error 401
          (followed_by (text_of cb.error) (followed_by ": " (or_description cb.error_description))))
    else if not (is_nonempty (text_of cb.code))
    then err (http_error 400 "Missing authorization code.")
    else if not (is_nonempty (text_of cb.state))
        || not (is_nonempty (text_of cb.state_cookie))
        || not (str_eq (text_of cb.state) (text_of cb.state_cookie))
    then err (http_error 401 "Invalid OIDC state.")
    else if not (is_nonempty (text_of cb.nonce_cookie))
    then err (http_error 401 "Missing OIDC nonce.")
    else ok (text_of cb.code, text_of cb.nonce_cookie)

abbrev missing_id_token : AuthFailure
missing_id_token = http_error 401 "Token endpoint response missing id_token."

abbrev pub id_token_of : Option Value → Result AuthFailure String
id_token_of (some (text s)) = if is_nonempty s then ok s else err missing_id_token
id_token_of _ = err missing_id_token

abbrev pub refresh_token_of : Option Value → Option String
refresh_token_of (some (text s)) = if is_nonempty s then some s else none
refresh_token_of _ = none

abbrev is_some : Option String → Bool
is_some none = false
is_some (some s) = true

abbrev pub of_http : Result HttpException Dict → Result AuthFailure Dict
of_http (ok c) = ok c
of_http (err e) = err (http e)

abbrev to_http : AuthFailure → AuthFailure
to_http (oidc detail) = http_error 401 detail
to_http e = e

abbrev run_event :
    Option (String → String → Dict → Result AuthFailure (Unit {0}))
    → String
    → String
    → Dict
    → Result AuthFailure (Unit {0})
run_event none actor action details = ok tt
run_event (some hook) actor action details = hook actor action details

module _ {Key : Type 0} (w : World Key) (p : Provider) (has_cookie_name : Bool)
    (audit_event_hook : Option (String → String → Dict → Result AuthFailure (Unit {0}))) where
  -- OIDCManager.validate_jwt
  unfoldable pub validate_jwt_or_401 : String → Option String → Bool → Calls Dict
  validate_jwt_or_401 token nonce strict =
      catch (Tokens.validate_jwt w token nonce strict) λ e. raise (to_http e)

  abbrev redirect_uri_of : OidcConfig → String → String
  redirect_uri_of c callback_url =
      if is_nonempty c.redirect_uri then c.redirect_uri else callback_url

  unfoldable pub enabled_config : AppCalls OidcConfig
  enabled_config = do
    on_client (load_config w false)
    c ← gets (λ s. s.client.config)
    if c.enabled then pure c else raise (http_error 404 "OIDC is disabled.")

  unfoldable pub oidc_login : String → Option String → String → String → AppCalls LoginRedirect
  oidc_login callback_url next state nonce = do
    c ← enabled_config
    auth_url ← on_client (build_authorization_url w (redirect_uri_of c callback_url) state nonce)
    pure (record {
      auth_url = auth_url;
      state_cookie = state;
      nonce_cookie = nonce;
      next_cookie = safe_next_path next;
    })

  -- the INSERT, with the primary key of the table
  unfoldable pub insert_session : Session → Exec AuthFailure (List Session) (Unit {0})
  insert_session r ss =
      if any (is_session r.session_id) ss
      then (
        err (
            repository (
              translate_database_error (λ _. false) unique_violation
                (some "auth.create_oidc_session"))),
        ss,
      )
      else (ok tt, ss ++ (r ∷ []))

  unfoldable pub create_oidc_session :
      Option RepositoryError → Session → Exec AuthFailure (List Session) (Unit {0})
  create_oidc_session fault r = lift (reached fault) >>= λ _. insert_session r

  abbrev session_cookie_of : String → OidcConfig → Option (String × ℕ)
  session_cookie_of session_id c =
      if has_cookie_name then some (session_id, c.session_max_age_seconds) else none

  abbrev str_or_none : Option Value → String
  str_or_none none = "None"
  str_or_none (some v) = str_of w.readers.repr v

  abbrev with_max_age : OidcConfig → Provider
  with_max_age c = record p { session_max_age_seconds = c.session_max_age_seconds }

  -- the callback from the validated claims on
  unfoldable pub open_session :
      Option RepositoryError → Callback → String → String → Option String → Dict → AppCalls Redirect
  open_session fault cb session_id id_token refresh_token claims = do
    c ← gets (λ s. s.client.config)
    lift (of_http (ensure_authorized w.readers.repr c.access claims))
    r ← build_session_record (with_max_age c) session_id id_token refresh_token claims
    on_sessions (create_oidc_session fault r)
    lift (
        run_event audit_event_hook
          (str_or_none (or_value (get c.access.ui_username_claim claims) (get "sub" claims)))
          "LOGIN"
          (("auth_type", text "oidc")
            ∷ ("refresh_token_present", boolean (is_some refresh_token))
            ∷ []))
    pure (record {
      location = safe_next_path cb.next_cookie;
      session_cookie = session_cookie_of session_id c;
      deletes_login_cookies = true;
    })

  unfoldable pub oidc_callback : Option RepositoryError → String → Callback → AppCalls Redirect
  oidc_callback fault session_id cb = do
    c ← enabled_config
    checked ← lift (checked_callback cb)
    payload ← on_client (exchange_code w checked.0 (redirect_uri_of c cb.callback_url))
    id_token ← lift (id_token_of (get "id_token" payload))
    claims ← on_client (validate_jwt_or_401 id_token (some checked.1) true)
    open_session fault cb session_id id_token (refresh_token_of (get "refresh_token" payload))
        claims

  abbrev text_or : Option Value → String → String
  text_or none d = d
  text_or (some v) d = if truthy v then str_of w.readers.repr v else d

  -- the response of a logout deletes the session's cookie
  unfoldable pub oidc_logout : String → Dict → AppCalls (Unit {0})
  oidc_logout actor claims = do
    let session_id = strip (text_or (get "_session_id" claims) "") in
        (if is_nonempty session_id then on_sessions (delete_oidc_session p session_id) else pure tt)
    lift (
        run_event audit_event_hook actor "LOGOUT"
          (("auth_type", text (text_or (get "auth_type" claims) "oidc")) ∷ []))
