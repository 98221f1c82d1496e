-- ===== src/Auth/KeyService/Examples.antt =====
-- A key that is created, and a request that it signs.
use cpkit.Base.{false, none, some, [], ◌∷◌, ◌≡◌, refl, arith, first_row, true}
use cpkit.Base.Exec.{ok, ◌>>=◌}
use cpkit.Base.Texts.{strip}
use cpkit.Auth.ApiKeys.{
  ApiKey, Request, Signing, is_ascii, parse_api_key_timestamp, api_key_signature, key_claims,
  authenticate_request,
}
use cpkit.Auth.KeyService.{
  aware, ApiKeyCreateRequest, ApiKeyCreateResponse, KeysEnv, has_access_key, guarded, insert_key,
  insert_api_key, encrypted_row, create_api_key,
}
use cpkit.Auth.KeyService.Created.{create_api_key-authenticate_request}

abbrev env : KeysEnv
env = record {
  fault = λ c. none;
  now = 5;
  secret_text = "s3cret";
  key_text = "k1";
  encrypt_secret = λ s. ok s;
  isoformat = λ t. "";
  created_hook = none;
  deleted_hook = none;
}

abbrev creation : ApiKeyCreateRequest
creation = record { valid_until = aware 900; roles = "CP_USER" ∷ [] }

abbrev signing : Signing
signing = record {
  now = 6;
  checked_at = 6;
  number_time = λ s. some 6;
  iso_time = λ s. none;
  lower = λ s. s;
  hmac_sha256 = λ secret payload. "ab12";
  decrypt_secret = λ s. some s;
}

abbrev request : Request
request = record {
  upper_method = "GET";
  raw_path = none;
  url_path = "/jobs";
  query_string = none;
  body = "";
}

abbrev stored : ApiKey
stored = record {
  access_key = "cp-k1";
  encrypted_secret_access_key = "s3cret";
  owner = "alice";
  valid_until = 900;
  roles = "CP_USER" ∷ [];
}

abbrev answer : ApiKeyCreateResponse
answer = record {
  access_key = "cp-k1";
  owner = "alice";
  valid_until = 900;
  roles = "CP_USER" ∷ [];
  secret_access_key = "s3cret";
}

created : create_api_key env false "alice" creation [] ≡ (ok answer, stored ∷ [])
unfolding create_api_key guarded encrypted_row insert_api_key insert_key ◌>>=◌
created = refl

timestamp : parse_api_key_timestamp signing "6" ≡ some 6
unfolding parse_api_key_timestamp strip
timestamp = refl

ascii : is_ascii (signing.lower (strip "ab12")) ≡ true
unfolding is_ascii strip
ascii = refl

signed : api_key_signature signing "s3cret" request "6" "" ≡ signing.lower (strip "ab12")
unfolding api_key_signature strip
signed = refl

create_api_key-authenticate_request_example :
    (k : ApiKey) × (k.owner ≡ "alice")
    × (k.roles ≡ "CP_USER" ∷ [])
    × (authenticate_request signing request "ab12" "6" 300
          (first_row (has_access_key "cp-k1") (stored ∷ []))
        ≡ ok (key_claims k))
create_api_key-authenticate_request_example =
    create_api_key-authenticate_request env "alice" creation false [] (stored ∷ []) answer created
      signing (λ s e q. cc q) request "ab12" "6" 300 6 (omega arith) timestamp (omega arith) ascii
      signed
