-- ===== src/Auth/ProviderClient/Tokens.antt =====
-- The signing keys and the validation of tokens, in OIDCProviderClient of cpkit/auth/oidc.py.
use cpkit.Base.{String, Bool, true, false, ◌||◌, Option, none, some, str_eq, if◌then◌else◌}
use cpkit.Base.Exec.{Result, ok, err, raise, lift, gets, ◌>>=◌}
use cpkit.Base.Value.{Value, text, array, object, Items, nil, cons, end, Dict, get, is_nonempty}
use cpkit.Base.Texts.{followed_by}
use cpkit.Auth.Claims.{entries}
use cpkit.Auth.Config.{OidcConfig}
use cpkit.Auth.Sessions.{AuthFailure, oidc, runtime}
use cpkit.Auth.ProviderClient.{
  Decoding, Decoded, decoded, invalid, failed, World, Calls, forget_jwks, get_jwks,
}

-- `jwk.get("kid") == kid`
abbrev pub is_text : String → Option Value → Bool
is_text t (some (text s)) = str_eq s t
is_text t _ = false

-- the first key with the id; what is no dictionary has no `get`
unfoldable pub find_item : String → Items → Result AuthFailure (Option Dict)
find_item kid nil = ok none
find_item kid (cons (object fs) vs) =
    let rest = find_item kid vs in
    if is_text kid (get "kid" (entries fs)) then ok (some (entries fs)) else rest
find_item kid (cons v vs) = err runtime

-- the loop over `get_jwks().get("keys", [])`
abbrev pub find_jwk : String → Option Value → Result AuthFailure (Option Dict)
find_jwk kid none = ok none
find_jwk kid (some (array vs)) = find_item kid vs
find_jwk kid (some (text s)) = if is_nonempty s then err runtime else ok none
find_jwk kid (some (object end)) = ok none
find_jwk kid (some v) = err runtime

module _ {Key : Type 0} (w : World Key) where
  -- the provider's key with the id, as its document has it now
  unfoldable pub published_jwk : String → Calls (Option Dict)
  published_jwk kid = get_jwks w >>= λ jwks. lift (find_jwk kid (get "keys" jwks))

  abbrev pub no_key : AuthFailure
  no_key = oidc "Unable to find a matching JWKS key for token"

  abbrev pub second_search : Option Dict → Calls Key
  second_search none = raise no_key
  second_search (some jwk) = lift (w.from_dict jwk)

  unfoldable pub search_again : String → Calls Key
  search_again kid = forget_jwks >>= λ _. published_jwk kid >>= second_search

  abbrev pub first_search : String → Option Dict → Calls Key
  first_search kid none = search_again kid
  first_search kid (some jwk) = lift (w.from_dict jwk)

  unfoldable pub key_with_id : String → Calls Key
  key_with_id kid = published_jwk kid >>= first_search kid

  abbrev pub with_kid : Option String → Calls Key
  with_kid none = raise (oidc "Token header is missing 'kid'")
  with_kid (some kid) =
      if is_nonempty kid then key_with_id kid else raise (oidc "Token header is missing 'kid'")

  unfoldable pub select_jwk_key : String → Calls Key
  select_jwk_key token = lift (w.unverified_kid token) >>= with_kid

  abbrev pub audience_of : Bool → OidcConfig → Option String
  audience_of strict c =
      if strict then some c.client_id else if is_nonempty c.audience then some c.audience else none

  abbrev pub decoding : String → Key → Bool → OidcConfig → Decoding Key
  decoding token key strict c = record {
    token = token;
    key = key;
    issuer = c.issuer_url;
    audience = audience_of strict c;
    verify_aud = strict || c.verify_audience || is_nonempty c.audience;
  }

  abbrev claims_or_error : Decoded → Result AuthFailure Dict
  claims_or_error (decoded claims) = ok claims
  claims_or_error (invalid m) = err (oidc (followed_by "Invalid token: " m))
  claims_or_error failed = err runtime

  abbrev pub has_nonce : Option String → Dict → Bool
  has_nonce none claims = true
  has_nonce (some nonce) claims = is_text nonce (get "nonce" claims)

  unfoldable pub checked_claims : Option String → Decoded → Result AuthFailure Dict
  checked_claims expected_nonce (decoded claims) =
      if has_nonce expected_nonce claims then ok claims else err (oidc "Invalid token nonce")
  checked_claims expected_nonce other = claims_or_error other

  unfoldable pub validate_jwt : String → Option String → Bool → Calls Dict
  validate_jwt token expected_nonce strict_client_audience = do
    key ← select_jwk_key token
    c ← gets (λ s. s.config)
    lift (checked_claims expected_nonce (w.decode (decoding token key strict_client_audience c)))
