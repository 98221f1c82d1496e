-- ===== src/Auth/ApiKeys/Accepted.antt =====
-- Which signed requests are let in.
use cpkit.Base.{ℕ, ◌<◌, ◌≤◌, String, ◌≡◌, ◌≢◌, refl, ◌↔◌, true, Option, none, some, arith, eq_iff}
use cpkit.Base.Exec.{Result, ok}
use cpkit.Base.Value.{Dict}
use cpkit.Base.Texts.{strip}
use cpkit.Jobs.Types.{seconds}
use cpkit.Auth.ApiKeys.{
  ApiKey, Request, Signing, KeyFailure, is_ascii, parse_api_key_timestamp, distance,
  api_key_signature, key_claims, signed_by, signed_at, authenticate_request,
}

module _ (g : Signing) (r : Request) (signature timestamp : String) (max_age_seconds : ℕ)
    (k : ApiKey) where
  -- The key has not expired, the timestamp is at most the given age away, and the signature, trimmed
  -- and in lower case, is the HMAC of the request under the key's secret.
  pub record Accepted : Type 0 where
    pub time : ℕ
    pub secret : String
    pub unexpired : g.now < k.valid_until
    pub parses : parse_api_key_timestamp g timestamp ≡ some time
    pub fresh : distance g.checked_at time ≤ seconds max_age_seconds
    pub decrypts : g.decrypt_secret k.encrypted_secret_access_key ≡ some secret
    pub ascii : is_ascii (g.lower (strip signature)) ≡ true
    pub signed : api_key_signature g secret r timestamp r.body ≡ g.lower (strip signature)

  abbrev answer : Option ApiKey → Result KeyFailure Dict
  answer o = authenticate_request g r signature timestamp max_age_seconds o

  accepts : Accepted → answer (some k) ≡ ok (key_claims k)
  unfolding authenticate_request
  accepts a =
      rw (a.parses, a.decrypts)
        (ground (
          arith,
          a.unexpired,
          a.fresh,
          a.ascii,
          eq_iff (api_key_signature g a.secret r timestamp r.body) (g.lower (strip signature)),
          a.signed,
        ))

  accepted_signed :
      (t : ℕ) (o : Option String)
      → g.now < k.valid_until
      → parse_api_key_timestamp g timestamp ≡ some t
      → distance g.checked_at t ≤ seconds max_age_seconds
      → g.decrypt_secret k.encrypted_secret_access_key ≡ o
      → signed_by g r signature timestamp max_age_seconds k o ≡ ok (key_claims k)
      → Accepted
  accepted_signed t none u q f d e = cc e
  accepted_signed t (some secret) u q f d e = record {
    time = t;
    secret = secret;
    unexpired = u;
    parses = q;
    fresh = f;
    decrypts = d;
    ascii = ground (arith, e);
    signed = ground (
      arith,
      e,
      eq_iff (api_key_signature g secret r timestamp r.body) (g.lower (strip signature)),
    );
  }

  accepted_at :
      (o : Option ℕ)
      → g.now < k.valid_until
      → parse_api_key_timestamp g timestamp ≡ o
      → signed_at g r signature timestamp max_age_seconds k o ≡ ok (key_claims k)
      → Accepted
  accepted_at none u q e = cc e
  accepted_at (some t) u q e =
      accepted_signed t (g.decrypt_secret k.encrypted_secret_access_key) u q (ground (arith, e))
        refl (ground (arith, e))

  -- no other claims are given
  pub authenticated_claims : {c : Dict} → answer (some k) ≡ ok c → c ≡ key_claims k
  unfolding authenticate_request
  authenticated_claims e = ground (arith, e)

  -- For every clock, cipher and HMAC: a request is authenticated for a stored key, with that key's
  -- claims, exactly when the key has not expired, the timestamp is one and at most the maximal age
  -- away, the secret decrypts, and the signature is ASCII and the HMAC of the request; with no
  -- stored key it is never authenticated.
  pub authenticate_request-Accepted :
      ((answer (some k) ≡ ok (key_claims k)) ↔ Accepted) × ((c : Dict) → answer none ≢ ok c)
  unfolding authenticate_request
  authenticate_request-Accepted = (
    (
      λ e.
          accepted_at (parse_api_key_timestamp g timestamp) (ground (arith, e)) refl
            (ground (arith, e)),
      accepts,
    ),
    λ c e. cc e,
  )
