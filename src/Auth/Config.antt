-- ===== src/Auth/Config.antt =====
-- cpkit/auth/config.py and cpkit/config/env.py: the OIDC configuration that the stored settings give,
-- and its validation at startup. Settings map a key's text to the setting's value. `str.lower`, `int`,
-- `json.loads` and `str` on a JSON value are parameters; a number of seconds is not negative.
pub mod Usable
use Prim.Native.Char.{code}
use Prim.Native.String
use cpkit.Base.{
  ℕ, String, Bool, true, false, not, ◌&&◌, ◌==◌, Option, none, some, List, [], ◌∷◌, str_eq,
  if◌then◌else◌,
}
use cpkit.Base.Exec.{Result, ok, err}
use cpkit.Base.Results.{◌>>=◌, raise_if}
use cpkit.Base.Value.{Value, object, Dict, get, is_nonempty}
use cpkit.Base.Texts.{strip, contains, join_commas, followed_by}
use cpkit.Auth.Claims.{entries, str_of}
use cpkit.Auth.Access.{AccessConfig, authorized_groups, is_empty}

pub record OidcConfig : Type 0 where
  pub enabled : Bool
  pub issuer_url : String
  pub client_id : String
  pub client_secret : String
  pub scopes : String
  pub audience : String
  pub extra_auth_params_raw : String
  pub redirect_uri : String
  pub login_path : String
  pub session_max_age_seconds : ℕ
  pub refresh_leeway_seconds : ℕ
  pub cookie_secure : Bool
  pub cookie_samesite : String
  pub cookie_domain : Option String
  pub verify_audience : Bool
  pub cache_ttl_seconds : ℕ
  pub api_key_signature_ttl_seconds : ℕ
  -- ui_username_claim, the raw group lists and groups_claim_name
  pub access : AccessConfig

-- `key_error` is a setting that is not there
pub data ConfigFailure : Type 0 where
  key_error : (key : String) → ConfigFailure
  value_error runtime_error : (message : String) → ConfigFailure

abbrev pub Settings : Type 0
Settings = List (String × String)

-- `OIDCConfig()`
abbrev pub default_config : OidcConfig
default_config = record {
  enabled = false;
  issuer_url = "";
  client_id = "";
  client_secret = "";
  scopes = "openid profile email offline_access";
  audience = "";
  extra_auth_params_raw = "{}";
  redirect_uri = "";
  login_path = "/api/auth/login";
  session_max_age_seconds = 2592000;
  refresh_leeway_seconds = 60;
  cookie_secure = false;
  cookie_samesite = "lax";
  cookie_domain = none;
  verify_audience = false;
  cache_ttl_seconds = 300;
  api_key_signature_ttl_seconds = 300;
  access = record {
    groups_claim_name = "groups";
    ui_username_claim = "preferred_username";
    readonly_groups_raw = "";
    user_groups_raw = "";
    admin_groups_raw = "";
  };
}

-- `s.rstrip("/")`
unfoldable pub rstrip_slash : String → String
rstrip_slash String.[] = ""
rstrip_slash (String.◌∷◌ c s) =
    let rest = rstrip_slash s in
    if (code c == b'/') && str_eq rest "" then "" else String.◌∷◌ c rest

abbrev some_if_nonempty : String → Option String
some_if_nonempty s = if is_nonempty s then some s else none

-- what the standard library gives
pub record Readers : Type 0 where
  pub lower : String → String
  pub parse_int : String → Option ℕ
  pub json_loads : String → Option Value
  pub repr : Value → String

abbrev setting : String → Settings → Result ConfigFailure String
setting key settings = elim (get key settings) [ none ↦ err (key_error key) | some v ↦ ok v ]

abbrev items_as_text : (Value → String) → Dict → List (String × String)
items_as_text repr [] = []
items_as_text repr ((k, v) ∷ d) = (k, str_of repr v) ∷ items_as_text repr d

abbrev missing_if_empty : String → String → List String → List String
missing_if_empty key value keys = if is_nonempty value then keys else key ∷ keys

unfoldable pub missing_settings : OidcConfig → List String
missing_settings c = missing_if_empty "oidc_issuer_url" c.issuer_url (
    missing_if_empty "oidc_client_id" c.client_id
      (missing_if_empty "oidc_client_secret" c.client_secret []))

module _ (r : Readers) where
  unfoldable pub as_bool : Option String → Bool → Bool
  as_bool none default = default
  as_bool (some value) default = contains ("1" ∷ "true" ∷ "yes" ∷ "on" ∷ []) (r.lower (strip value))

  abbrev json_object : Option Value → Result ConfigFailure (List (String × String))
  json_object none = err (value_error "Invalid JSON.")
  json_object (some (object fs)) = ok (items_as_text r.repr (entries fs))
  json_object (some v) = err (value_error "Expected a JSON object.")

  unfoldable pub safe_json_string_dict :
      Option String → List (String × String) → Result ConfigFailure (List (String × String))
  safe_json_string_dict none default = ok default
  safe_json_string_dict (some value) default =
      if is_nonempty value then json_object (r.json_loads value) else ok default

  abbrev int_setting : String → Settings → Result ConfigFailure ℕ
  int_setting key settings = setting key settings >>= λ v. elim (r.parse_int v) [
    | none ↦ err (value_error "invalid literal for int()")
    | some n ↦ ok n
  ]

  -- the settings of the access rules, in the order they are read
  unfoldable pub access_from_settings : Settings → Result ConfigFailure AccessConfig
  access_from_settings settings = do
    ui_username_claim ← setting "oidc.ui_username_claim" settings
    readonly_groups_raw ← setting "oidc.authz_readonly_groups" settings
    user_groups_raw ← setting "oidc.authz_user_groups" settings
    admin_groups_raw ← setting "oidc.authz_admin_groups" settings
    groups_claim_name ← setting "oidc.authz_groups_claim" settings
    ok (record {
      groups_claim_name = groups_claim_name;
      ui_username_claim = ui_username_claim;
      readonly_groups_raw = readonly_groups_raw;
      user_groups_raw = user_groups_raw;
      admin_groups_raw = admin_groups_raw;
    })

  unfoldable pub from_disabled : Settings → Result ConfigFailure OidcConfig
  from_disabled settings = do
    cache_ttl_seconds ← int_setting "oidc.cache_ttl_seconds" settings
    signature_ttl ← int_setting "auth.api_key_signature_ttl_seconds" settings
    ok (record default_config {
      cache_ttl_seconds = cache_ttl_seconds;
      api_key_signature_ttl_seconds = signature_ttl;
    })

  unfoldable pub from_enabled : Settings → Result ConfigFailure OidcConfig
  from_enabled settings = do
    issuer_url ← setting "oidc.issuer_url" settings
    client_id ← setting "oidc.client_id" settings
    client_secret ← setting "oidc.client_secret" settings
    scopes ← setting "oidc.scopes" settings
    audience ← setting "oidc.audience" settings
    extra_auth_params_raw ← setting "oidc.extra_auth_params" settings
    redirect_uri ← setting "oidc.redirect_uri" settings
    login_path ← setting "oidc.login_path" settings
    session_max_age_seconds ← int_setting "oidc.session_max_age_seconds" settings
    refresh_leeway_seconds ← int_setting "oidc.refresh_leeway_seconds" settings
    cookie_secure ← setting "oidc.cookie_secure" settings
    cookie_samesite ← setting "oidc.cookie_samesite" settings
    cookie_domain ← setting "oidc.cookie_domain" settings
    verify_audience ← setting "oidc.verify_audience" settings
    access ← access_from_settings settings
    cache_ttl_seconds ← int_setting "oidc.cache_ttl_seconds" settings
    signature_ttl ← int_setting "auth.api_key_signature_ttl_seconds" settings
    ok (record {
      enabled = true;
      issuer_url = rstrip_slash issuer_url;
      client_id = client_id;
      client_secret = client_secret;
      scopes = scopes;
      audience = audience;
      extra_auth_params_raw = extra_auth_params_raw;
      redirect_uri = redirect_uri;
      login_path = login_path;
      session_max_age_seconds = session_max_age_seconds;
      refresh_leeway_seconds = refresh_leeway_seconds;
      cookie_secure = as_bool (some cookie_secure) false;
      cookie_samesite = r.lower cookie_samesite;
      cookie_domain = some_if_nonempty cookie_domain;
      verify_audience = as_bool (some verify_audience) false;
      cache_ttl_seconds = cache_ttl_seconds;
      api_key_signature_ttl_seconds = signature_ttl;
      access = access;
    })

  unfoldable pub from_settings : Settings → Result ConfigFailure OidcConfig
  from_settings settings = do
    enabled ← setting "oidc.enabled" settings
    if as_bool (some enabled) false then from_enabled settings else from_disabled settings

  abbrev about_params :
      Result ConfigFailure (List (String × String)) → Result ConfigFailure (List (String × String))
  about_params (err (value_error m)) =
      err (value_error "oidc_extra_auth_params must be a JSON object")
  about_params other = other

  unfoldable pub extra_auth_params : OidcConfig → Result ConfigFailure (List (String × String))
  extra_auth_params c = about_params (safe_json_string_dict (some c.extra_auth_params_raw) [])

  -- validate, from the cookie settings on
  unfoldable pub validate_rest : OidcConfig → Result ConfigFailure (Unit {0})
  validate_rest c =
      raise_if (not (contains ("lax" ∷ "strict" ∷ "none" ∷ []) c.cookie_samesite))
        (runtime_error "oidc_cookie_samesite must be one of: lax, strict, none")
        (raise_if (str_eq c.cookie_samesite "none" && not c.cookie_secure)
          (runtime_error "oidc_cookie_secure must be true when oidc_cookie_samesite=none")
          (raise_if (not (is_nonempty c.access.ui_username_claim))
            (runtime_error "oidc_ui_username_claim must be set when OIDC is enabled")
            (raise_if (not (is_nonempty c.access.groups_claim_name))
              (runtime_error "oidc_authz_groups_claim must be set when OIDC is enabled")
              (raise_if (is_empty (authorized_groups c.access))
                (runtime_error
                  "At least one of oidc_authz_readonly_groups, oidc_authz_user_groups, oidc_authz_admin_groups must include a group when OIDC is enabled")
                (extra_auth_params c >>= λ params. ok tt)))))

  unfoldable pub validate : OidcConfig → Result ConfigFailure (Unit {0})
  validate c =
      if not c.enabled
      then ok tt
      else raise_if (not (is_empty (missing_settings c)))
          (runtime_error (
            followed_by "OIDC is enabled but missing required settings: "
              (join_commas (missing_settings c))))
          (validate_rest c)
