-- ===== src/Auth/Examples.antt =====
-- A configuration, a key, a request and a session for the theorems on cpkit/auth.
use cpkit.Base.{String, ◌≡◌, ◌≢◌, refl, ◌↔◌, ◌⊎◌, true, false, none, some, List, [], ◌∷◌, any}
use cpkit.Base.Exec.{ok, err}
use cpkit.Base.Value.{Value, text, number, Dict}
use cpkit.Base.Texts.{contains, strip}
use cpkit.Auth.Claims.{as_array}
use cpkit.Auth.Access.{
  AccessConfig, Role, named, member, role_value, ensure_any_role, require_readonly,
  get_access_scope,
}
use cpkit.Auth.Access.Scope.{get_access_scope-ensure_any_role, require_readonly_iff}
use cpkit.Auth.ApiKeys.{ApiKey, Request, Signing, key_claims, authenticate_request}
use cpkit.Auth.ApiKeys.Accepted.{Accepted, authenticate_request-Accepted}
use cpkit.Auth.ApiKeys.Roles.{AreTrimmed, ensure_any_role-key_claims}
use cpkit.Auth.Sessions.{Session, Provider, runtime, claims_from_session}
use cpkit.Auth.Sessions.Outcome.{Grants, claims_from_session-Grants}
use cpkit.Auth.Callers.{Manager, Credentials, current_claims}
use cpkit.Auth.Callers.Source.{Sourced, current_claims-Sourced}

abbrev repr : Value → String
repr v = "?"

abbrev access : AccessConfig
access = record {
  groups_claim_name = "groups";
  ui_username_claim = "preferred_username";
  readonly_groups_raw = "viewers";
  user_groups_raw = "devs, ops";
  admin_groups_raw = "ops";
}

abbrev claims : Dict
claims =
    ("sub", text "alice") ∷ ("groups", as_array ("devs" ∷ "ops" ∷ [])) ∷ ("exp", number 900) ∷ []

abbrev admins : List Role
admins = named "CP_ADMIN" ∷ []

abbrev users : List Role
users = member "CP_USER" ∷ named "CP_ADMIN" ∷ []

abbrev readers : List Role
readers = named "CP_READONLY" ∷ []

get_access_scope-ensure_any_role_example :
    ((get_access_scope repr access admins claims).1 ≡ true)
    ↔ (ensure_any_role repr access claims admins ≡ ok claims)
get_access_scope-ensure_any_role_example =
    get_access_scope-ensure_any_role repr access admins claims

require_readonly_iff_example :
    ((require_readonly repr access readers users true claims ≡ ok claims) ↔ (
      (ensure_any_role repr access claims readers ≡ ok claims)
      ⊎ (ensure_any_role repr access claims users ≡ ok claims)))
    × ((require_readonly repr access readers users false claims ≡ ok claims)
        ↔ (ensure_any_role repr access claims users ≡ ok claims))
require_readonly_iff_example = require_readonly_iff repr access readers users claims

abbrev key : ApiKey
key = record {
  access_key = "cp-1";
  encrypted_secret_access_key = "sealed";
  owner = "alice";
  valid_until = 500;
  roles = "CP_USER" ∷ [];
}

abbrev request : Request
request = record {
  upper_method = "GET";
  raw_path = none;
  url_path = "/api/jobs";
  query_string = some "limit=5";
  body = "";
}

abbrev signing : Signing
signing = record {
  now = 400;
  checked_at = 401;
  number_time = λ s. some 390;
  iso_time = λ s. none;
  lower = λ s. s;
  hmac_sha256 = λ k m. "signed";
  decrypt_secret = λ s. some "secret";
}

authenticate_request-Accepted_example :
    ((authenticate_request signing request "signed" "390" 300 (some key) ≡ ok (key_claims key))
      ↔ Accepted signing request "signed" "390" 300 key)
    × ((c : Dict) → authenticate_request signing request "signed" "390" 300 none ≢ ok c)
authenticate_request-Accepted_example =
    authenticate_request-Accepted signing request "signed" "390" 300 key

key-AreTrimmed : AreTrimmed key.roles
unfolding strip
key-AreTrimmed = ((refl, refl), tt)

ensure_any_role-key_claims_example :
    (ensure_any_role repr access (key_claims key) users ≡ ok (key_claims key))
    ↔ (any (λ r. contains key.roles (role_value r)) users ≡ true)
ensure_any_role-key_claims_example = ensure_any_role-key_claims repr access key users key-AreTrimmed

abbrev session : Session
session = record {
  session_id = "s1";
  encrypted_id_token = "sealed";
  encrypted_refresh_token = some "sealed";
  token_expires_at = 100000900;
  session_expires_at = 900000000;
}

abbrev provider : Provider
provider = record {
  now = 400;
  database_now = 400;
  refresh_leeway_seconds = 60;
  session_max_age_seconds = 3600;
  decrypt_secret = λ s. ok "token";
  encrypt_secret = λ s. ok "sealed";
  refresh_tokens = λ s. err runtime;
  validate_jwt = λ s. ok claims;
  from_timestamp = λ v. some 100000900;
  call_fault = λ c. none;
}

claims_from_session-Grants_example :
    Grants provider
      (λ c. ok c)
      "s1"
      (session ∷ [])
      (claims_from_session provider (λ c. ok c) "s1" (session ∷ []))
claims_from_session-Grants_example =
    claims_from_session-Grants provider (λ c. ok c) "s1" (session ∷ [])

abbrev manager : Manager
manager = record {
  enabled = true;
  login_path = "/api/auth/login";
  api_key_signature_ttl_seconds = 300;
  missing_api_key_headers_detail = "Access key, signature, and timestamp are required.";
  auth_disabled_claims = [];
  access = access;
  str_value = repr;
  provider = provider;
  signing = signing;
  find_key = λ a. ok (some key);
}

abbrev credentials : Credentials
credentials = record {
  access_key = some "cp-1";
  signature = some "signed";
  timestamp = some "390";
  session_token = some "s1";
}

current_claims-Sourced_example :
    Sourced manager request credentials
      (session ∷ [])
      (current_claims manager request credentials (session ∷ []))
current_claims-Sourced_example = current_claims-Sourced manager request credentials (session ∷ [])
