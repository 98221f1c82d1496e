-- ===== src/Auth/Login/Examples.antt =====
-- A provider, a client and a callback for the theorems on the login of cpkit/auth/router.py.
use cpkit.Base.{◌*◌, String, true, none, some, [], ◌∷◌, str_eq, if◌then◌else◌}
use cpkit.Base.Exec.{ok, err}
use cpkit.Base.Exec.Ends.{EndsIn}
use cpkit.Base.Value.{Fields, nil, cons, end, field, text, number, array, object, Dict}
use cpkit.Auth.Config.{Readers, Settings, default_config}
use cpkit.Auth.Sessions.{runtime, Provider}
use cpkit.Auth.ProviderClient.{decoded, World, new_client}
use cpkit.Auth.ProviderClient.Operations.{jwks, update, run_operations}
use cpkit.Auth.Login.{Callback, oidc_callback}
use cpkit.Auth.Login.Admitted.{Admitted, Refused, oidc_callback-Admitted}

abbrev readers : Readers
readers = record {
  lower = λ s. s;
  parse_int = λ s. some 300;
  json_loads = λ s. some (object end);
  repr = λ v. "?";
}

abbrev settings : Settings
settings =
    ("oidc.enabled", "true")
    ∷ ("oidc.issuer_url", "https://id")
    ∷ ("oidc.client_id", "app")
    ∷ ("oidc.client_secret", "s3cret")
    ∷ ("oidc.scopes", "openid")
    ∷ ("oidc.audience", "")
    ∷ ("oidc.extra_auth_params", "{}")
    ∷ ("oidc.redirect_uri", "")
    ∷ ("oidc.login_path", "/api/auth/login")
    ∷ ("oidc.session_max_age_seconds", "300")
    ∷ ("oidc.refresh_leeway_seconds", "300")
    ∷ ("oidc.cookie_secure", "true")
    ∷ ("oidc.cookie_samesite", "lax")
    ∷ ("oidc.cookie_domain", "")
    ∷ ("oidc.verify_audience", "false")
    ∷ ("oidc.ui_username_claim", "sub")
    ∷ ("oidc.authz_readonly_groups", "")
    ∷ ("oidc.authz_user_groups", "devs")
    ∷ ("oidc.authz_admin_groups", "")
    ∷ ("oidc.authz_groups_claim", "groups")
    ∷ ("oidc.cache_ttl_seconds", "300")
    ∷ ("auth.api_key_signature_ttl_seconds", "300")
    ∷ []

abbrev metadata_document : Fields
metadata_document =
    field "jwks_uri" (text "https://id/keys") (field "token_endpoint" (text "https://id/token") end)

abbrev keys : Fields
keys = field "keys" (array (cons (object (field "kid" (text "k1") end)) nil)) end

abbrev tokens : Fields
tokens = field "id_token" (text "t1") end

abbrev claims : Dict
claims =
    ("sub", text "alice")
    ∷ ("groups", array (cons (text "devs") nil))
    ∷ ("nonce", text "n1")
    ∷ ("exp", number 900)
    ∷ []

abbrev world : World String
world = record {
  time = λ k. k * 1000000;
  answer = λ k r.
      if str_eq r.url "https://id/keys"
      then ok (object keys)
      else if str_eq r.url "https://id/token"
      then ok (object tokens)
      else ok (object metadata_document);
  stored = λ k. ok settings;
  urlencode = λ ps. "";
  unverified_kid = λ token. ok (some "k1");
  from_dict = λ d. ok "key";
  decode = λ d. decoded claims;
  readers = readers;
}

abbrev provider : Provider
provider = record {
  now = 5;
  database_now = 5;
  refresh_leeway_seconds = 60;
  session_max_age_seconds = 600;
  decrypt_secret = λ s. ok s;
  encrypt_secret = λ s. ok s;
  refresh_tokens = λ t. err runtime;
  validate_jwt = λ t. ok claims;
  from_timestamp = λ v. some 900;
  call_fault = λ c. none;
}

abbrev callback : Callback
callback = record {
  code = some "c1";
  state = some "s1";
  error = none;
  error_description = none;
  state_cookie = some "s1";
  nonce_cookie = some "n1";
  next_cookie = some "/jobs";
  callback_url = "https://app/api/auth/callback";
}

oidc_callback-Admitted_example :
    EndsIn
      (Admitted world provider true none none "id1" callback [])
      (Refused world provider true none none "id1" callback [])
      (oidc_callback world provider true none none "id1" callback (record {
        client =
            run_operations world
              (jwks ∷ update default_config true ∷ [])
              (new_client default_config);
        sessions = [];
      }))
oidc_callback-Admitted_example =
    oidc_callback-Admitted world provider true none none "id1" callback [] default_config
      (jwks ∷ update default_config true ∷ []) (tt, (tt, tt))
