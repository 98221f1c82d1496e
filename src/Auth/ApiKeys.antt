-- ===== src/Auth/ApiKeys.antt =====
-- cpkit/auth/api_keys.py: requests signed with an API key. Bytes are texts. The standard library's
-- HMAC and its parsing of times enter as parameters, as does the cipher of the stored secret.
pub mod Accepted
pub mod Roles
use Prim.Native.Char.{code}
use cpkit.Base.{
  ℕ, ◌+◌, ◌-◌, String, Bool, true, false, not, ◌&&◌, Option, none, some, List, [], ◌∷◌, map, ltb,
  leb, str_eq, if◌then◌else◌,
}
use cpkit.Base.Exec.{Result, ok, err}
use cpkit.Base.Value.{Value, text, object, Fields, end, field, Dict}
use cpkit.Base.Texts.{strip, followed_by}
use cpkit.Jobs.Types.{seconds}
use cpkit.Auth.Claims.{as_array, is_nonempty}

-- ApiKeyRecord; a role is the text of its value, in the order that the set of them has
pub record ApiKey : Type 0 where
  pub access_key : String
  pub encrypted_secret_access_key : String
  pub owner : String
  pub valid_until : ℕ
  pub roles : List String

-- What the signature covers of a request, its method in upper case.
pub record Request : Type 0 where
  pub upper_method : String
  pub raw_path : Option String
  pub url_path : String
  pub query_string : Option String
  pub body : String

abbrev nonempty_or : Option String → String → String
nonempty_or none d = d
nonempty_or (some s) d = if is_nonempty s then s else d

abbrev with_query : String → Option String → String
with_query path none = path
with_query path (some q) = if is_nonempty q then followed_by path (followed_by "?" q) else path

unfoldable pub request_target_bytes : Request → String
request_target_bytes r = with_query (nonempty_or r.raw_path r.url_path) r.query_string

abbrev line : String → String → String
line s t = followed_by s (followed_by "\n" t)

unfoldable pub build_api_key_signature_payload : Request → String → String → String
unfolding request_target_bytes
build_api_key_signature_payload r timestamp body =
    line r.upper_method (line (request_target_bytes r) (line (strip timestamp) body))

-- `now` is the clock at the test of the key's expiry and `checked_at` at that of the timestamp.
-- `number_time` is a UTC time from a decimal number of seconds, `iso_time` from an ISO-8601 text;
-- `decrypt_secret` raises by `none`.
pub record Signing : Type 0 where
  pub now : ℕ
  pub checked_at : ℕ
  pub number_time : String → Option ℕ
  pub iso_time : String → Option ℕ
  pub lower : String → String
  pub hmac_sha256 : String → String → String
  pub decrypt_secret : String → Option String

pub data KeyFailure : Type 0 where
  refused : (detail : String) → KeyFailure
  crypto type_error : KeyFailure

unfoldable pub is_ascii : String → Bool
is_ascii String.[] = true
is_ascii (String.◌∷◌ c s) = let rest = is_ascii s in ltb (code c) 128 && rest

-- the texts that an ISO time with the suffix Z is, `s[:-1] + "+00:00"`
unfoldable pub without_z : String → String
without_z String.[] = ""
without_z (String.◌∷◌ c s) =
    let rest = without_z s in
    if str_eq s "" && str_eq (String.◌∷◌ c s) "Z" then "+00:00" else String.◌∷◌ c rest

abbrev or_iso : Signing → String → Option ℕ → Option ℕ
or_iso g raw (some t) = some t
or_iso g raw none = g.iso_time (without_z raw)

-- parse_api_key_timestamp: `none` is a ValueError
unfoldable pub parse_api_key_timestamp : Signing → String → Option ℕ
unfolding without_z
parse_api_key_timestamp g timestamp =
    let raw = strip timestamp in if str_eq raw "" then none else or_iso g raw (g.number_time raw)

-- |a - b|
abbrev pub distance : ℕ → ℕ → ℕ
distance a b = (a - b) + (b - a)

unfoldable pub api_key_signature : Signing → String → Request → String → String → String
unfolding build_api_key_signature_payload
api_key_signature g secret r timestamp body =
    g.hmac_sha256 secret (build_api_key_signature_payload r timestamp body)

abbrev pub role_entries : List String → Fields
role_entries [] = end
role_entries (r ∷ rs) = field r (as_array (r ∷ [])) (role_entries rs)

-- the claims of an authenticated key
unfoldable pub key_claims : ApiKey → Dict
key_claims k =
    ("sub", text k.owner)
    ∷ ("access_key", text k.access_key)
    ∷ ("groups", as_array k.roles)
    ∷ ("_groups_claim_name", text "groups")
    ∷ ("_role_groups", object (role_entries k.roles))
    ∷ ("auth_type", text "api_key")
    ∷ []

module _ (g : Signing) (r : Request) (signature timestamp : String) (max_age_seconds : ℕ) where
  abbrev pub signed_by : ApiKey → Option String → Result KeyFailure Dict
  signed_by k none = err crypto
  -- compare_digest takes only ASCII texts
  signed_by k (some secret) =
      if not (is_ascii (g.lower (strip signature)))
      then err type_error
      else if not
          (str_eq (api_key_signature g secret r timestamp r.body) (g.lower (strip signature)))
      then err (refused "Invalid API key signature.")
      else ok (key_claims k)

  abbrev pub signed_at : ApiKey → Option ℕ → Result KeyFailure Dict
  signed_at k none = err (refused "Invalid X-Timestamp header.")
  signed_at k (some t) =
      if ltb (seconds max_age_seconds) (distance g.checked_at t)
      then err (refused "API request timestamp is expired.")
      else signed_by k (g.decrypt_secret k.encrypted_secret_access_key)

  -- APIKeyAuthenticator.authenticate_request, from what the repository finds for the access key
  unfoldable pub authenticate_request : Option ApiKey → Result KeyFailure Dict
  unfolding parse_api_key_timestamp
  authenticate_request none = err (refused "Invalid API key.")
  authenticate_request (some k) =
      if leb k.valid_until g.now
      then err (refused "API key is expired.")
      else signed_at k (parse_api_key_timestamp g timestamp)
