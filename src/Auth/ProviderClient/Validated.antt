-- ===== src/Auth/ProviderClient/Validated.antt =====
-- Which tokens validate_jwt of cpkit/auth/oidc.py accepts, and with which key.
use cpkit.Base.{
  ℕ, String, Bool, true, false, Option, none, some, List, ◌≡◌, refl, subst, if◌then◌else◌,
}
use cpkit.Base.Exec.{ok, err, raise, lift, ◌>>=◌}
use cpkit.Base.Exec.Ends.{EndsIn, Ends, Ends-lift, Ends-gets, Ends-if, Ends-weaken, Ends-bind}
use cpkit.Base.Value.{Dict, get}
use cpkit.Auth.Config.{OidcConfig}
use cpkit.Auth.Sessions.{oidc}
use cpkit.Auth.ProviderClient.{
  Decoded, decoded, invalid, failed, World, Client, new_client, forget_jwks,
}
use cpkit.Auth.ProviderClient.Tokens.{
  find_jwk, published_jwk, search_again, key_with_id, select_jwk_key, validate_jwt, second_search,
  first_search, with_kid, decoding, has_nonce, checked_claims,
}
use cpkit.Auth.ProviderClient.Operations.{Operation, KeepIssuer, run_operations}
use cpkit.Auth.ProviderClient.Cached.{Kept}
use cpkit.Auth.ProviderClient.Cached.Freshness.{ServedKeys, Ends-get_jwks}
use cpkit.Auth.ProviderClient.Cached.Invariant.{IsCached-Kept, run_operations-IsCached}
use cpkit.Auth.ProviderClient.Listed.{Lists, find_jwk-Lists}

module _ {Key : Type 0} (w : World Key) where
  -- A key made of an entry that a served document of the provider lists under the id.
  pub record Selected (c : OidcConfig) (ttl n : ℕ) (kid : String) (key : Key) (s : Client)
      : Type 0 where
    pub document : Dict
    pub jwk : Dict
    pub served : ServedKeys w c ttl n document s
    pub lists : Lists document kid jwk
    pub made : w.from_dict jwk ≡ ok key

  -- What an accepted token's claims went through.
  pub record Validated (c : OidcConfig) (ttl n : ℕ) (token : String) (nonce : Option String)
      (strict : Bool) (claims : Dict) (s : Client) : Type 0 where
    pub kid : String
    pub key : Key
    pub header : w.unverified_kid token ≡ ok (some kid)
    pub selected : Selected c ttl n kid key s
    pub verified : w.decode (decoding w token key strict c) ≡ decoded claims
    pub nonce_matches : has_nonce w nonce claims ≡ true

  checked_claims-verified :
      (nonce : Option String) (claims : Dict) (x : Decoded)
      → checked_claims w nonce x ≡ ok claims
      → (x ≡ decoded claims) × (has_nonce w nonce claims ≡ true)
  unfolding checked_claims
  checked_claims-verified expected claims (decoded d) e = matched (has_nonce w expected d) refl e
    where
      matched :
          (b : Bool)
          → has_nonce w expected d ≡ b
          → (if b then ok d else err (oidc "Invalid token nonce")) ≡ ok claims
          → (decoded d ≡ decoded claims) × (has_nonce w expected claims ≡ true)
      matched true b e = (cc e, subst (λ x. has_nonce w expected x ≡ true) (cc e) b)
      matched false b e = absurd (cc e)
  checked_claims-verified expected claims (invalid m) e = absurd (cc e)
  checked_claims-verified expected claims failed e = absurd (cc e)

  module _ (c : OidcConfig) (ttl n : ℕ) where
    -- the key that was searched, if the document lists it
    record Searched (kid : String) (o : Option Dict) (s : Client) : Type 0 where
      document : Dict
      served : ServedKeys w c ttl n document s
      found : find_jwk kid (get "keys" document) ≡ ok o

    Ends-published_jwk :
        (kid : String)
        → Ends (Kept w c ttl n) (Searched kid) (λ e. Kept w c ttl n) (published_jwk w kid)
    unfolding published_jwk
    Ends-published_jwk kid = Ends-bind _ _ (Ends-get_jwks w c ttl n) λ d.
        Ends-lift _ (λ o s e k. record { document = d; served = k; found = e }) λ e s r k. k.kept

    Ends-made :
        (kid : String) (jwk : Dict)
        → Ends
            (Searched kid (some jwk))
            (Selected c ttl n kid)
            (λ e. Kept w c ttl n)
            (lift (w.from_dict jwk))
    Ends-made kid jwk =
        Ends-lift _
          (λ key s e k. record {
            document = k.document;
            jwk = jwk;
            served = k.served;
            lists = find_jwk-Lists kid k.document jwk k.found;
            made = e;
          })
          λ e s r k. k.served.kept

    Ends-second_search :
        (kid : String) (o : Option Dict)
        → Ends (Searched kid o) (Selected c ttl n kid) (λ e. Kept w c ttl n) (second_search w o)
    unfolding raise
    Ends-second_search kid none = record { at = λ s k. k.served.kept }
    Ends-second_search kid (some jwk) = Ends-made kid jwk

    pub forgotten-Kept : (s : Client) → Kept w c ttl n s → Kept w c ttl n (record s { jwks = none })
    forgotten-Kept s k = record {
      cached = record {
        metadata_loaded = k.cached.metadata_loaded;
        jwks_loaded = λ d e. absurd (cc e);
      };
      same_config = k.same_config;
      same_ttl = k.same_ttl;
      later = k.later;
    }

    Ends-search_again :
        (kid : String)
        → Ends (Kept w c ttl n) (Selected c ttl n kid) (λ e. Kept w c ttl n) (search_again w kid)
    unfolding search_again forget_jwks
    Ends-search_again kid =
        Ends-bind {Q = λ u. Kept w c ttl n} _ _ (record { at = λ s k. forgotten-Kept s k })
          λ u. Ends-bind _ _ (Ends-published_jwk kid) (Ends-second_search kid)

    Ends-first_search :
        (kid : String) (o : Option Dict)
        → Ends (Searched kid o) (Selected c ttl n kid) (λ e. Kept w c ttl n) (first_search w kid o)
    Ends-first_search kid none =
        Ends-weaken _ (Ends-search_again kid) (λ s k. k.served.kept) (λ a s k. k) λ e s k. k
    Ends-first_search kid (some jwk) = Ends-made kid jwk

    abbrev HasKid : String → Key → Client → Type 0
    HasKid token key s =
        (kid : String) × (w.unverified_kid token ≡ ok (some kid)) × Selected c ttl n kid key s

    Ends-select_jwk_key :
        (token : String)
        → Ends (Kept w c ttl n) (HasKid token) (λ e. Kept w c ttl n) (select_jwk_key w token)
    unfolding select_jwk_key key_with_id raise
    Ends-select_jwk_key token =
        Ends-bind {Q = λ o s. (w.unverified_kid token ≡ ok o) × Kept w c ttl n s} _ _
          (Ends-lift _ (λ o s e k. (e, k)) λ e s r k. k) with_header
      where
        with_header :
            (o : Option String)
            → Ends
                (λ s. (w.unverified_kid token ≡ ok o) × Kept w c ttl n s)
                (HasKid token)
                (λ e. Kept w c ttl n)
                (with_kid w o)
        with_header none = record { at = λ s (e, k). k }
        with_header (some kid) =
            Ends-if _ (key_with_id w kid) (raise (oidc "Token header is missing 'kid'"))
              (λ b. record {
                at = λ s (e, k).
                    (Ends-weaken {P' = Kept w c ttl n} (published_jwk w kid >>= first_search w kid)
                        (Ends-bind _ _ (Ends-published_jwk kid) (Ends-first_search kid)) (λ s k. k)
                        (λ key s q. (kid, e, q)) λ x s k. k).at
                      s k;
              })
              λ b. record { at = λ s (e, k). k }

    pub Ends-validate_jwt :
        (token : String) (nonce : Option String) (strict : Bool)
        → Ends
            (Kept w c ttl n)
            (Validated c ttl n token nonce strict)
            (λ e. Kept w c ttl n)
            (validate_jwt w token nonce strict)
    unfolding validate_jwt checked_claims
    Ends-validate_jwt token nonce strict = Ends-bind _ _ (Ends-select_jwk_key token) λ key.
        Ends-bind {Q = λ x s. HasKid token key s × (x ≡ c)} _ _
          (Ends-gets _ λ s (kid, e, q). ((kid, e, q), q.served.kept.same_config))
          λ x.
            Ends-lift _
              (λ claims s e (k, same). accepted token nonce strict key s k claims (
                subst
                  (λ x.
                    checked_claims w nonce (w.decode (decoding w token key strict x)) ≡ ok claims)
                  same e))
              λ e s r ((kid, h, q), same). q.served.kept
      where
        accepted :
            (token : String) (nonce : Option String) (strict : Bool) (key : Key) (s : Client)
            → HasKid token key s
            → (claims : Dict)
            → checked_claims w nonce (w.decode (decoding w token key strict c)) ≡ ok claims
            → Validated c ttl n token nonce strict claims s
        accepted token nonce strict key s (kid, h, q) claims e =
            let (v, m) = checked_claims-verified nonce claims _ e in
            record {
              kid = kid;
              key = key;
              header = h;
              selected = q;
              verified = v;
              nonce_matches = m;
            }

  -- After any calls on a new client, provided each call of update_provider_config among them clears
  -- the cache or keeps the issuer, the claims that validate_jwt returns are those that jwt.decode
  -- accepted for the token, the configured issuer and the audience that the configuration or a strict
  -- check asks for; the key was made of an entry with the token's key id, which a document that
  -- get_jwks served lists; and the claims have the expected nonce, where there is one.
  pub validate_jwt-Validated :
      (c : OidcConfig) (os : List Operation) (token : String) (nonce : Option String)
      (strict : Bool)
      → KeepIssuer w os (new_client c)
      → let s = run_operations w os (new_client c) in
        EndsIn
          (Validated s.config s.cache_ttl_seconds s.asked token nonce strict)
          (λ e. Kept w s.config s.cache_ttl_seconds s.asked)
          (validate_jwt w token nonce strict s)
  validate_jwt-Validated c os token nonce strict kept =
      let s = run_operations w os (new_client c) in
      (Ends-validate_jwt s.config s.cache_ttl_seconds s.asked token nonce strict).at s
        (IsCached-Kept w s (run_operations-IsCached w c os kept))
