-- ===== src/Auth/ProviderClient/Operations.antt =====
-- The calls on OIDCManager of cpkit/auth/oidc.py, as a client makes them one after another.
use cpkit.Base.{String, Bool, Option, List, [], ◌∷◌, ◌≡◌, false}
use cpkit.Base.Exec.{pure, ◌>>=◌}
use cpkit.Auth.Config.{OidcConfig}
use cpkit.Auth.ProviderClient.{World, Client, Calls, get_metadata, get_jwks, clear_provider_cache}
use cpkit.Auth.ProviderClient.Tokens.{validate_jwt}
use cpkit.Auth.ProviderClient.Requests.{build_authorization_url, exchange_code, refresh_tokens}
use cpkit.Auth.ProviderClient.Loading.{load_config, update_provider_config}

-- the calls on a client
pub data Operation : Type 0 where
  metadata jwks clear : Operation
  authorization_url : (redirect_uri state nonce : String) → Operation
  code : (code redirect_uri : String) → Operation
  refresh : (refresh_token : String) → Operation
  validate : (token : String) → (expected_nonce : Option String) → (strict : Bool) → Operation
  load : (force : Bool) → Operation
  update : (config : OidcConfig) → (clear_cache : Bool) → Operation

-- An update that does not clear the cache keeps the issuer: the documents in it are the issuer's.
abbrev pub KeepsIssuer : Operation → Client → Type 0
KeepsIssuer (update c false) s = s.config.issuer_url ≡ c.issuer_url
KeepsIssuer _ s = Unit

module _ {Key : Type 0} (w : World Key) where
  unfoldable pub run : Operation → Calls (Unit {0})
  run metadata = get_metadata w >>= λ d. pure tt
  run jwks = get_jwks w >>= λ d. pure tt
  run clear = clear_provider_cache
  run (authorization_url u s n) = build_authorization_url w u s n >>= λ url. pure tt
  run (code c u) = exchange_code w c u >>= λ d. pure tt
  run (refresh t) = refresh_tokens w t >>= λ d. pure tt
  run (validate t n b) = validate_jwt w t n b >>= λ d. pure tt
  run (load force) = load_config w force
  run (update c clear_cache) = update_provider_config c clear_cache

  -- the state after the calls, whether they raised or not
  unfoldable pub run_operations : List Operation → Client → Client
  run_operations [] s = s
  run_operations (o ∷ os) s = run_operations os (run o s).1

  -- each update among the calls keeps the issuer or clears the cache
  abbrev pub KeepIssuer : List Operation → Client → Type 0
  KeepIssuer [] s = Unit
  KeepIssuer (o ∷ os) s = KeepsIssuer o s × KeepIssuer os (run o s).1
