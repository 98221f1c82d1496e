-- ===== src/Auth/ProviderClient/Examples.antt =====
-- A provider and a client for the theorems on the provider client of cpkit/auth/oidc.py, and a
-- configuration for those on cpkit/auth/config.py.
use cpkit.Base.{
  ℕ, zero, suc, ◌≤◌, ◌*◌, String, true, false, none, some, List, [], ◌∷◌, ◌≡◌, ◌↔◌, refl, sym,
  subst, arith, str_eq, if◌then◌else◌,
}
use cpkit.Base.Exec.{ok, err, ◌>>=◌}
use cpkit.Base.Exec.Ends.{EndsIn}
use cpkit.Base.Value.{Fields, nil, cons, end, field, text, array, object, Dict}
use cpkit.Auth.Claims.{entries}
use cpkit.Auth.Config.{OidcConfig, Readers, default_config, validate as validate_config}
use cpkit.Auth.Config.Usable.{IsUsable, validate_iff}
use cpkit.Auth.Sessions.{runtime}
use cpkit.Auth.ProviderClient.{
  decoded, World, Client, new_client, get_jwks, load_jwks, get_metadata, load_metadata, http_json,
  ask, read_clock, store_metadata, store_jwks,
}
use cpkit.Auth.ProviderClient.Tokens.{select_jwk_key, validate_jwt}
use cpkit.Auth.ProviderClient.Operations.{
  Operation, jwks, validate, load, update, KeepIssuer, run, run_operations,
}
use cpkit.Auth.ProviderClient.Cached.{IsCached, Kept}
use cpkit.Auth.ProviderClient.Cached.Freshness.{ServedKeys}
use cpkit.Auth.ProviderClient.Cached.Invariant.{run_operations-IsCached, get_jwks-ServedKeys}
use cpkit.Auth.ProviderClient.Listed.{here, there, Lists}
use cpkit.Auth.ProviderClient.Validated.{Validated, validate_jwt-Validated}
use cpkit.Auth.ProviderClient.Rotation.Lookup.{IsKeyDocument}
use cpkit.Auth.ProviderClient.Rotation.Answering.{Publishes, Never}
use cpkit.Auth.ProviderClient.Rotation.{IsRead, select_jwk_key-IsRead}

abbrev readers : Readers
readers = record {
  lower = λ s. s;
  parse_int = λ s. some 300;
  json_loads = λ s. some (object end);
  repr = λ v. "?";
}

abbrev config : OidcConfig
config = record default_config {
  enabled = true;
  issuer_url = "https://id";
  client_id = "app";
  client_secret = "s3cret";
  access = record {
    groups_claim_name = "groups";
    ui_username_claim = "preferred_username";
    readonly_groups_raw = "";
    user_groups_raw = "devs";
    admin_groups_raw = "";
  };
}

abbrev jwk : String → Fields
jwk kid = field "kid" (text kid) (field "kty" (text "RSA") end)

abbrev metadata_document : Fields
metadata_document =
    field "issuer" (text "https://id") (field "jwks_uri" (text "https://id/keys") end)

-- the keys change after the third question
abbrev key_document : ℕ → Fields
key_document zero = field "keys" (array (cons (object (jwk "old")) nil)) end
key_document (suc zero) = field "keys" (array (cons (object (jwk "old")) nil)) end
key_document (suc (suc zero)) = field "keys" (array (cons (object (jwk "old")) nil)) end
key_document (suc (suc (suc k))) =
    field "keys" (array (cons (object (jwk "old")) (cons (object (jwk "new")) nil))) end

abbrev world : World String
world = record {
  time = λ k. k * 1000000;
  answer = λ k r.
      if str_eq r.url "https://id/keys"
      then ok (object (key_document k))
      else ok (object metadata_document);
  stored = λ k. err runtime;
  urlencode = λ ps. "";
  unverified_kid = λ token. ok (some token);
  from_dict = λ d. ok "key";
  decode = λ d. decoded (("sub", text "alice") ∷ ("nonce", text "n1") ∷ []);
  readers = readers;
}

-- an update that keeps the issuer, and one that changes it and clears the cache
abbrev calls : List Operation
calls =
    update (record config { client_id = "other" }) false
    ∷ jwks
    ∷ update (record config { issuer_url = "https://other" }) true
    ∷ validate "old" none false
    ∷ load true
    ∷ []

abbrev calls-KeepIssuer : KeepIssuer world calls (new_client config)
calls-KeepIssuer = (refl, (tt, (tt, (tt, (tt, tt)))))

run_operations-IsCached_example : IsCached world (run_operations world calls (new_client config))
run_operations-IsCached_example = run_operations-IsCached world config calls calls-KeepIssuer

get_jwks-ServedKeys_example :
    let s = run_operations world calls (new_client config) in
    EndsIn
      (ServedKeys world s.config s.cache_ttl_seconds s.asked)
      (λ e. Kept world s.config s.cache_ttl_seconds s.asked)
      (get_jwks world s)
get_jwks-ServedKeys_example = get_jwks-ServedKeys world config calls calls-KeepIssuer

validate_jwt-Validated_example :
    let s = run_operations world calls (new_client config) in
    EndsIn
      (Validated world s.config s.cache_ttl_seconds s.asked "new" (some "n1") true)
      (λ e. Kept world s.config s.cache_ttl_seconds s.asked)
      (validate_jwt world "new" (some "n1") true s)
validate_jwt-Validated_example =
    validate_jwt-Validated world config calls "new" (some "n1") true calls-KeepIssuer

are_keys : (k : ℕ) → IsKeyDocument (entries (key_document k))
are_keys zero = record { keys = cons (object (jwk "old")) nil; listed = refl; objects = tt }
are_keys (suc zero) = record { keys = cons (object (jwk "old")) nil; listed = refl; objects = tt }
are_keys (suc (suc zero)) = record {
  keys = cons (object (jwk "old")) nil;
  listed = refl;
  objects = tt;
}
are_keys (suc (suc (suc k))) = record {
  keys = cons (object (jwk "old")) (cons (object (jwk "new")) nil);
  listed = refl;
  objects = tt;
}

new_key : (k : ℕ) → 3 ≤ k → (d : Dict) × Lists (entries (key_document k)) "new" d
new_key zero h = absurd (omega arith)
new_key (suc zero) h = absurd (omega arith)
new_key (suc (suc zero)) h = absurd (omega arith)
new_key (suc (suc (suc k))) h = (
  entries (jwk "new"),
  record {
    keys = cons (object (jwk "old")) (cons (object (jwk "new")) nil);
    listed = refl;
    member = there _ _ (here _ _ refl);
    has_kid = refl;
  },
)

publishes : (n : ℕ) → 3 ≤ n → Publishes world "https://id" "new" n
publishes n h = record {
  metadata = metadata_document;
  uri = "https://id/keys";
  metadata_answers = λ k. refl;
  names = refl;
  documents = key_document;
  answers = λ k. refl;
  are_keys = are_keys;
  readable = λ k d l. ("key", refl);
  published = λ k le. new_key k (omega arith);
}

-- The keys are cached before the provider adds the new one.
abbrev cached : Client
cached = run_operations world (jwks ∷ []) (new_client config)

cached_issuer : cached.config.issuer_url ≡ "https://id"
unfolding run_operations run get_jwks load_jwks get_metadata load_metadata http_json ask read_clock
    store_metadata store_jwks ◌>>=◌
cached_issuer = refl

cached_asked : cached.asked ≡ 4
unfolding run_operations run get_jwks load_jwks get_metadata load_metadata http_json ask read_clock
    store_metadata store_jwks ◌>>=◌
cached_asked = refl

abbrev cached_publishes : Publishes world cached.config.issuer_url "new" cached.asked
cached_publishes =
    subst (λ i. Publishes world i "new" cached.asked) (sym cached_issuer)
      (publishes cached.asked (omega (arith, cached_asked)))

select_jwk_key-IsRead_example :
    EndsIn
      (IsRead world cached.config cached.cache_ttl_seconds cached.asked "new" cached_publishes)
      Never
      (select_jwk_key world "new" cached)
select_jwk_key-IsRead_example =
    select_jwk_key-IsRead world config (jwks ∷ []) "new" "new" (tt, tt) refl refl cached_publishes

validate_iff_example : (validate_config readers config ≡ ok tt) ↔ IsUsable readers config
validate_iff_example = validate_iff readers config refl
