-- ===== src/Auth/ProviderClient.antt =====
-- OIDCProviderClient of cpkit/auth/oidc.py: the provider's documents and how they are cached. Clock readings, HTTP answers and reads of the stored settings are numbered in the
-- order they happen and enter as functions of their number; PyJWT and urlencode are parameters.
pub mod Tokens
pub mod Requests
pub mod Loading
pub mod Operations
pub mod Cached
pub mod Listed
pub mod Validated
pub mod Rotation
mod Examples
use cpkit.Base.{
  ℕ, suc, ◌+◌, String, Bool, true, false, not, ◌&&◌, ◌||◌, Option, none, some, List, [], ◌∷◌, ◌++◌,
  str_eq, ltb, ◌==◌, if◌then◌else◌,
}
use cpkit.Base.Exec.{Result, ok, err, Exec, pure, raise, lift, gets, ◌>>=◌, ◌>>◌}
use cpkit.Base.Value.{
  Value, null, text, array, object, Items, nil, cons, end, Dict, get, put, is_nonempty, truthy,
}
use cpkit.Base.Texts.{followed_by, join_commas, contains}
use cpkit.Jobs.Types.{seconds}
use cpkit.Auth.Claims.{entries, str_of}
use cpkit.Auth.Access.{AccessConfig}
use cpkit.Auth.Config.{
  OidcConfig, ConfigFailure, Settings, Readers, default_config, from_settings, extra_auth_params,
}
use cpkit.Auth.Sessions.{AuthFailure, oidc, runtime}

abbrev pub Params : Type 0
Params = List (String × String)

pub record HttpRequest : Type 0 where
  pub url : String
  pub method : String
  pub payload : Option String
  pub req_headers : Params

-- The arguments of `jwt.decode`: the options say whether the audience is verified.
pub record Decoding (Key : Type 0) : Type 0 where
  pub token : String
  pub key : Key
  pub issuer : String
  pub audience : Option String
  pub verify_aud : Bool

-- what `jwt.decode` does: `invalid` is a PyJWTError
pub data Decoded : Type 0 where
  decoded : (claims : Dict) → Decoded
  invalid : (message : String) → Decoded
  failed : Decoded

-- `time k`, `answer k` and `stored k` are what the k-th question to the outside gets: a clock
-- reading, the JSON value of an HTTP response, the stored settings. `unverified_kid` is the key id
-- of the token's header, a text if it is there.
pub record World (Key : Type 0) : Type 0 where
  pub time : ℕ → ℕ
  pub answer : ℕ → HttpRequest → Result AuthFailure Value
  pub stored : ℕ → Result AuthFailure Settings
  pub urlencode : Params → String
  pub unverified_kid : String → Result AuthFailure (Option String)
  pub from_dict : Dict → Result AuthFailure Key
  pub decode : Decoding Key → Decoded
  pub readers : Readers

-- The attributes of the client and of the manager, and the number of the next question.
pub record Client : Type 0 where
  pub config : OidcConfig
  pub metadata : Option Dict
  pub jwks : Option Dict
  pub meta_loaded_at : ℕ
  pub jwks_loaded_at : ℕ
  pub cache_ttl_seconds : ℕ
  pub config_loaded_at : ℕ
  pub asked : ℕ

abbrev pub new_client : OidcConfig → Client
new_client c = record {
  config = c;
  metadata = none;
  jwks = none;
  meta_loaded_at = 0;
  jwks_loaded_at = 0;
  cache_ttl_seconds = c.cache_ttl_seconds;
  config_loaded_at = 0;
  asked = 0;
}

abbrev pub Calls : Type 0 → Type 0
Calls A = Exec AuthFailure Client A

abbrev pub cleared : Client → Client
cleared s = record s { metadata = none; jwks = none; meta_loaded_at = 0; jwks_loaded_at = 0 }

unfoldable pub clear_provider_cache : Calls (Unit {0})
clear_provider_cache s = (ok tt, cleared s)

unfoldable pub store_metadata : Dict → ℕ → Calls (Unit {0})
store_metadata d t s = (ok tt, record s { metadata = some d; meta_loaded_at = t })

unfoldable pub store_jwks : Dict → ℕ → Calls (Unit {0})
store_jwks d t s = (ok tt, record s { jwks = some d; jwks_loaded_at = t })

unfoldable pub forget_jwks : Calls (Unit {0})
forget_jwks s = (ok tt, record s { jwks = none })

abbrev pub metadata_url : String → String
metadata_url issuer_url = followed_by issuer_url "/.well-known/openid-configuration"

abbrev headers_of : Option Params → Params
headers_of none = ("Accept", "application/json") ∷ []
headers_of (some d) =
    ("Accept", "application/json") ∷ ("Content-Type", "application/x-www-form-urlencoded") ∷ []

abbrev encoded : (Params → String) → Option Params → Option String
encoded urlencode none = none
encoded urlencode (some d) = some (urlencode d)

abbrev pub is_empty_dict : Dict → Bool
is_empty_dict [] = true
is_empty_dict (e ∷ d) = false

abbrev object_only : Value → Result AuthFailure Dict
object_only (object fs) = ok (entries fs)
object_only v = err runtime

abbrev pub of_config : {A : Type 0} → Result ConfigFailure A → Result AuthFailure A
of_config (ok a) = ok a
of_config (err e) = err runtime

module _ {Key : Type 0} (w : World Key) where
  -- `time.time()`
  unfoldable pub read_clock : Calls ℕ
  read_clock s = (ok (w.time s.asked), record s { asked = suc s.asked })

  unfoldable pub ask : HttpRequest → Calls Value
  ask r s = (w.answer s.asked r, record s { asked = suc s.asked })

  abbrev pub request : String → String → Option Params → HttpRequest
  request method url form = record {
    url = url;
    method = method;
    payload = encoded w.urlencode form;
    req_headers = headers_of form;
  }

  unfoldable pub http_json : HttpRequest → Calls Dict
  http_json r = ask r >>= λ parsed. lift (object_only parsed)

  -- `self._metadata and (time.time() - self._meta_loaded_at) < self._cache_ttl_seconds`
  abbrev pub is_fresh : Option Dict → ℕ → Client → Calls Bool
  is_fresh none loaded_at s = pure false
  is_fresh (some d) loaded_at s =
      if is_empty_dict d
      then pure false
      else do now ← read_clock; pure (ltb now (loaded_at + seconds s.cache_ttl_seconds))

  unfoldable pub load_metadata : String → Calls Dict
  load_metadata issuer_url = do
    d ← http_json (request "GET" (metadata_url issuer_url) none)
    t ← read_clock
    store_metadata d t
    pure d

  abbrev pub or_empty : Option Dict → Dict
  or_empty none = []
  or_empty (some d) = d

  unfoldable pub get_metadata : Calls Dict
  get_metadata = do
    s ← gets (λ s. s)
    hit ← is_fresh s.metadata s.meta_loaded_at s
    if hit then pure (or_empty s.metadata) else load_metadata s.config.issuer_url

  -- `str(value or "")`
  abbrev pub text_or_empty : Option Value → String
  text_or_empty none = ""
  text_or_empty (some v) = if truthy v then str_of w.readers.repr v else ""

  abbrev pub endpoint : String → Dict → Result AuthFailure String
  endpoint name metadata =
      let uri = text_or_empty (get name metadata) in if is_nonempty uri then ok uri else err runtime

  unfoldable pub load_jwks : Calls Dict
  load_jwks = do
    metadata ← get_metadata
    jwks_uri ← lift (endpoint "jwks_uri" metadata)
    d ← http_json (request "GET" jwks_uri none)
    t ← read_clock
    store_jwks d t
    pure d

  unfoldable pub get_jwks : Calls Dict
  get_jwks = do
    s ← gets (λ s. s)
    hit ← is_fresh s.jwks s.jwks_loaded_at s
    if hit then pure (or_empty s.jwks) else load_jwks
