-- ===== src/Auth/ProviderClient/Rotation/Answering.antt =====
-- A provider that answers, and the documents that the client of cpkit/auth/oidc.py gets from it.
use cpkit.Base.{ℕ, ◌≤◌, String, ◌≡◌, sym, subst, if◌then◌else◌}
use cpkit.Base.Exec.{Result, ok, err, pure, lift, ◌>>=◌, continue}
use cpkit.Base.Exec.Ends.{EndsIn, Ends, Ends-lift, Ends-bind}
use cpkit.Base.Value.{Fields, object, Dict}
use cpkit.Auth.Claims.{entries}
use cpkit.Auth.Config.{OidcConfig}
use cpkit.Auth.Sessions.{AuthFailure}
use cpkit.Auth.ProviderClient.{
  HttpRequest, World, Client, Calls, get_metadata, get_jwks, load_jwks, endpoint, http_json,
  read_clock, load_metadata, object_only, ask, or_empty, store_jwks, store_metadata,
}
use cpkit.Auth.ProviderClient.Cached.{Answered, Kept, IsJwksUri, metadata_request, jwks_request}
use cpkit.Auth.ProviderClient.Cached.Answers.{advanced, advanced-Kept, is_fresh-cases}
use cpkit.Auth.ProviderClient.Cached.Freshness.{Ends-get_metadata}
use cpkit.Auth.ProviderClient.Listed.{Lists}
use cpkit.Auth.ProviderClient.Rotation.Lookup.{IsKeyDocument}

abbrev pub Never : AuthFailure → Client → Type 0
Never e s = ⊥

-- an action that ends in a way and never raises
pub returned :
    {A : Type 0} {P : Client → Type 0} {Q : A → Client → Type 0} {X : AuthFailure → Client → Type 0}
    (m : Calls A)
    → Ends P Q X m
    → Ends P (λ a s. Unit) Never m
    → Ends P Q Never m
returned {A = A} {Q = Q} {X = X} m q never = record {
  at = λ s h. both (m s).0 (m s).1 (q.at s h) (never.at s h);
}
  where
    both :
        (r : Result AuthFailure A) (s : Client)
        → EndsIn Q X (r, s)
        → EndsIn {0, 0} (λ a s. Unit) Never (r, s)
        → EndsIn Q Never (r, s)
    both (ok a) s q n = q
    both (err e) s q n = n

module _ {Key : Type 0} (w : World Key) where
  -- A provider that always answers: with one metadata document, that names the address of the keys,
  -- and there with documents of keys that PyJWT can read. From question `n` on they list the key id.
  pub record Publishes (issuer_url kid : String) (n : ℕ) : Type 0 where
    pub metadata : Fields
    pub uri : String
    pub metadata_answers :
        (k : ℕ) → w.answer k (metadata_request w issuer_url) ≡ ok (object metadata)
    pub names : endpoint w "jwks_uri" (entries metadata) ≡ ok uri
    pub documents : ℕ → Fields
    pub answers : (k : ℕ) → w.answer k (jwks_request w uri) ≡ ok (object (documents k))
    pub are_keys : (k : ℕ) → IsKeyDocument (entries (documents k))
    pub readable :
        (k : ℕ) (jwk : Dict)
        → Lists (entries (documents k)) kid jwk
        → (key : Key) × (w.from_dict jwk ≡ ok key)
    pub published : (k : ℕ) → n ≤ k → (jwk : Dict) × Lists (entries (documents k)) kid jwk

  module _ (c : OidcConfig) (ttl n : ℕ) (kid : String) (p : Publishes c.issuer_url kid n) where
    pub metadata_at :
        (k : ℕ) (d : Dict)
        → Answered w k (metadata_request w c.issuer_url) d
        → d ≡ entries p.metadata
    metadata_at k d (fs, a, e) = cc (a, e, p.metadata_answers k)

    pub IsJwksUri-uri : (m : ℕ) (uri : String) → IsJwksUri w c.issuer_url m uri → uri ≡ p.uri
    IsJwksUri-uri m uri j =
        let e = metadata_at j.asked_at j.metadata j.answered in cc (e, j.names, p.names)

    pub document_at :
        (k : ℕ) (uri : String) (d : Dict)
        → uri ≡ p.uri
        → Answered w k (jwks_request w uri) d
        → d ≡ entries (p.documents k)
    document_at k uri d u (fs, a, e) = cc (e, a, u, p.answers k)

    pub Never-http_json :
        (r : HttpRequest)
        → ((k : ℕ) → (fs : Fields) × (w.answer k r ≡ ok (object fs)))
        → Ends (λ s. Unit {0}) (λ d s. Unit) Never (http_json w r)
    unfolding http_json ask ◌>>=◌
    Never-http_json r answers = record {
      at = λ s u.
          let (fs, e) = answers s.asked in
          subst
            (λ x. EndsIn (λ d s. Unit) Never (continue x (λ v. lift (object_only v)) (advanced s)))
            (sym e) tt;
    }

    pub Never-load_metadata :
        Ends (λ s. Unit {0}) (λ d s. Unit) Never (load_metadata w c.issuer_url)
    unfolding load_metadata ◌>>=◌ read_clock store_metadata
    Never-load_metadata =
        Ends-bind _ _
          (Never-http_json (metadata_request w c.issuer_url)
            λ k. (p.metadata, p.metadata_answers k))
          λ d. record { at = λ s u. tt }

    pub Never-get_metadata : Ends (Kept w c ttl n) (λ d s. Unit) Never (get_metadata w)
    unfolding get_metadata ◌>>=◌
    Never-get_metadata = record {
      at = λ s h.
          let load =
            subst (λ x. Ends (λ s. Unit {0}) (λ d s. Unit) Never (load_metadata w x.issuer_url))
              (sym h.same_config) Never-load_metadata in
          is_fresh-cases w
            (λ r.
              EndsIn {0, 0} (λ d s. Unit) Never
                (continue r.0
                  (λ b.
                    if b then pure (or_empty w s.metadata) else load_metadata w s.config.issuer_url)
                  r.1))
            s.metadata s.meta_loaded_at s (load.at s tt) (load.at (advanced s) tt) λ d e young. tt;
    }

    pub Never-load_jwks : Ends (Kept w c ttl n) (λ d s. Unit) Never (load_jwks w)
    unfolding load_jwks ◌>>=◌ read_clock store_jwks
    Never-load_jwks =
        Ends-bind _ _ (returned _ (Ends-get_metadata w c ttl n) Never-get_metadata) λ metadata.
          Ends-bind {Q = λ uri s. uri ≡ p.uri} _ _
            (Ends-lift _
              (λ uri s e (v, h).
                let m = metadata_at v.question metadata v.answered in cc (m, e, p.names))
              λ x s r (v, h).
                let m = metadata_at v.question metadata v.answered in absurd (cc (m, r, p.names)))
            λ uri. record {
              at = λ s u.
                  (Ends-bind {P = λ s. Unit} _
                      (λ d. read_clock w >>= λ t. store_jwks d t >>= λ _. pure d)
                      (Never-http_json (jwks_request w uri) λ k. (
                        p.documents k,
                        subst (λ x. w.answer k (jwks_request w x) ≡ ok (object (p.documents k)))
                            (sym u) (p.answers k),
                      ))
                      λ d. record { at = λ s u. tt }).at
                    s tt;
            }

    pub Never-get_jwks : Ends (Kept w c ttl n) (λ d s. Unit) Never (get_jwks w)
    unfolding get_jwks ◌>>=◌
    Never-get_jwks = record {
      at = λ s h.
          is_fresh-cases w
            (λ r.
              EndsIn {0, 0} (λ d s. Unit) Never
                (continue r.0 (λ b. if b then pure (or_empty w s.jwks) else load_jwks w) r.1))
            s.jwks s.jwks_loaded_at s (Never-load_jwks.at s h)
            (Never-load_jwks.at (advanced s) (advanced-Kept w h)) λ d e young. tt;
    }
