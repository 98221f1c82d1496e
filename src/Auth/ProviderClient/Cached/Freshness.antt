-- ===== src/Auth/ProviderClient/Cached/Freshness.antt =====
-- The age of the documents that get_metadata and get_jwks of cpkit/auth/oidc.py return.
use cpkit.Base.{
  ℕ, ◌+◌, ◌≤◌, ◌<◌, String, Option, some, ◌≡◌, refl, sym, subst, inl, inr, if◌then◌else◌, arith,
}
use cpkit.Base.Exec.{ok, pure, ◌>>=◌, continue}
use cpkit.Base.Exec.Ends.{EndsIn, Ends, Ends-pure, Ends-lift, Ends-weaken, Ends-bind}
use cpkit.Base.Value.{Dict}
use cpkit.Jobs.Types.{seconds}
use cpkit.Auth.Config.{OidcConfig}
use cpkit.Auth.ProviderClient.{
  HttpRequest, World, Client, Calls, read_clock, http_json, is_fresh, load_metadata, get_metadata,
  endpoint, load_jwks, get_jwks, store_jwks, or_empty,
}
use cpkit.Auth.ProviderClient.Cached.{
  Answered, LoadedFrom, metadata_request, jwks_request, IsJwksUri, JwksFrom, Served, Kept,
  IsJwksUri-later,
}
use cpkit.Auth.ProviderClient.Cached.Answers.{
  advanced, advanced-Kept, is_fresh-cases, Stamped, Ends-http_json, Ends-read_clock, Stamped-Served,
  Stamped-LoadedFrom, Ends-load_metadata,
}

module _ {Key : Type 0} (w : World Key) where
  module _ (c : OidcConfig) (ttl n : ℕ) where
    -- a document that is cached and young, or else loaded
    EndsIn-is_fresh :
        (Q : Dict → Client → Type 0) (o : Option Dict) (loaded_at : ℕ) (s : Client) (m : Calls Dict)
        → Kept w c ttl n s
        → Ends (Kept w c ttl n) Q (λ e. Kept w c ttl n) m
        → ((d : Dict)
            → o ≡ some d
            → w.time s.asked < loaded_at + seconds s.cache_ttl_seconds
            → Q d (advanced s))
        → EndsIn Q
            (λ e. Kept w c ttl n)
            ((is_fresh w o loaded_at s >>= λ hit. if hit then pure (or_empty w o) else m) s)
    unfolding ◌>>=◌
    EndsIn-is_fresh Q o loaded_at s m h km hit =
        is_fresh-cases w
          (λ r.
            EndsIn Q (λ e. Kept w c ttl n)
              (continue r.0 (λ b. if b then pure (or_empty w o) else m) r.1))
          o loaded_at s (km.at s h) (km.at (advanced s) (advanced-Kept w h))
          λ d e young. subst (λ x. Q (or_empty w x) (advanced s)) (sym e) (hit d e young)

    young-Served :
        {r : HttpRequest} {loaded_at : ℕ} {d : Dict} (s : Client)
        → Kept w c ttl n s
        → LoadedFrom w r s.asked loaded_at d
        → w.time s.asked < loaded_at + seconds s.cache_ttl_seconds
        → Served w r n ttl d (advanced s)
    young-Served {loaded_at = loaded_at} s h l young = record {
      question = l.question;
      answered = l.answered;
      earlier = omega arith;
      recent = inr (
        s.asked,
        h.later,
        omega arith,
        subst (λ x. w.time s.asked < x + seconds ttl) l.stamped
            (subst (λ x. w.time s.asked < loaded_at + seconds x) h.same_ttl young),
      );
    }

    pub Ends-get_metadata :
        Ends
          (Kept w c ttl n)
          (λ d s. Served w (metadata_request w c.issuer_url) n ttl d s × Kept w c ttl n s)
          (λ e. Kept w c ttl n)
          (get_metadata w)
    unfolding get_metadata ◌>>=◌
    Ends-get_metadata = record {
      at = λ s h.
          EndsIn-is_fresh
            (λ d s. Served w (metadata_request w c.issuer_url) n ttl d s × Kept w c ttl n s)
            s.metadata s.meta_loaded_at s (load_metadata w s.config.issuer_url) h
            (subst
              (λ x.
                Ends (Kept w c ttl n)
                  (λ d s. Served w (metadata_request w c.issuer_url) n ttl d s × Kept w c ttl n s)
                  (λ e. Kept w c ttl n) (load_metadata w x.issuer_url))
              (sym h.same_config) (Ends-load_metadata w c ttl n))
            λ d e young. (
              young-Served s h
                  (subst
                    (λ x. LoadedFrom w (metadata_request w x.issuer_url) s.asked s.meta_loaded_at d)
                    h.same_config (h.cached.metadata_loaded d e))
                  young,
              advanced-Kept w h,
            );
    }

    -- What get_jwks serves: keys from an address that the issuer's metadata named.
    pub record ServedKeys (d : Dict) (s : Client) : Type 0 where
      pub uri : String
      pub uri_named : IsJwksUri w c.issuer_url s.asked uri
      pub served : Served w (jwks_request w uri) n ttl d s
      pub kept : Kept w c ttl n s

    -- keys that were asked for from question `n` on
    abbrev pub NewKeys : Dict → Client → Type 0
    NewKeys d s =
        ServedKeys d s
        × ((q : ℕ) × (uri : String) × (n ≤ q)
            × IsJwksUri w c.issuer_url s.asked uri
            × Answered w q (jwks_request w uri) d)

    ServedKeys-uri :
        {metadata : Dict} {uri : String} (s : Client)
        → Served w (metadata_request w c.issuer_url) n ttl metadata s
        → endpoint w "jwks_uri" metadata ≡ ok uri
        → IsJwksUri w c.issuer_url s.asked uri
    ServedKeys-uri {metadata = metadata} s v e = record {
      metadata = metadata;
      asked_at = v.question;
      answered = v.answered;
      earlier = v.earlier;
      names = e;
    }

    store_jwks-ServedKeys :
        (uri : String) (d : Dict) (t : ℕ) (s : Client)
        → IsJwksUri w c.issuer_url n uri
        → Stamped w c ttl n (jwks_request w uri) d t s
        → Kept w c ttl n s
        → ServedKeys d (record s { jwks = some d; jwks_loaded_at = t })
    store_jwks-ServedKeys uri d t s j st h = record {
      uri = uri;
      uri_named = IsJwksUri-later w h.later j;
      served = Stamped-Served w c ttl n s _ refl st;
      kept = record {
        cached = record {
          metadata_loaded = h.cached.metadata_loaded;
          jwks_loaded = λ d' e.
              subst (λ x. JwksFrom w s.config.issuer_url s.asked t x) (cc e)
                (record {
                  uri = uri;
                  uri_named =
                      subst (λ x. IsJwksUri w x.issuer_url s.asked uri) (sym h.same_config)
                        (IsJwksUri-later w h.later j);
                  loaded = Stamped-LoadedFrom w c ttl n st;
                });
        };
        same_config = h.same_config;
        same_ttl = h.same_ttl;
        later = h.later;
      };
    }

    abbrev fetch_jwks : String → Calls Dict
    fetch_jwks uri = http_json w (jwks_request w uri) >>= λ d.
        read_clock w >>= λ t. store_jwks d t >>= λ _. pure d

    Ends-fetch_jwks :
        (uri : String)
        → IsJwksUri w c.issuer_url n uri
        → Ends (Kept w c ttl n) NewKeys (λ e. Kept w c ttl n) (fetch_jwks uri)
    unfolding store_jwks
    Ends-fetch_jwks uri j = Ends-bind _ _ (Ends-http_json w c ttl n (jwks_request w uri)) λ d.
        Ends-bind _ _ (Ends-read_clock w c ttl n (jwks_request w uri) d) λ t.
          Ends-bind {Q = λ u. NewKeys d} _ _
            (record {
              at = λ s (st, h). (
                store_jwks-ServedKeys uri d t s j st h,
                (st.question, uri, st.new, IsJwksUri-later w h.later j, st.answered),
              );
            })
            λ u. Ends-pure d (λ s h. h)

  module _ (c : OidcConfig) (ttl n : ℕ) where
    Kept-lower : (m : ℕ) (s : Client) → n ≤ m → Kept w c ttl m s → Kept w c ttl n s
    Kept-lower m s le h = record {
      cached = h.cached;
      same_config = h.same_config;
      same_ttl = h.same_ttl;
      later = omega arith;
    }

    Served-lower :
        (m : ℕ) (r : HttpRequest) (d : Dict) (s : Client)
        → n ≤ m
        → Served w r m ttl d s
        → Served w r n ttl d s
    Served-lower m r d s le v = record {
      question = v.question;
      answered = v.answered;
      earlier = v.earlier;
      recent = elim v.recent [
        | inl l ↦ inl (omega arith)
        | inr (t, l, x, y) ↦ inr (t, omega arith, x, y)
      ];
    }

    ServedKeys-lower :
        (m : ℕ) (d : Dict) (s : Client) → n ≤ m → ServedKeys c ttl m d s → ServedKeys c ttl n d s
    ServedKeys-lower m d s le k = record {
      uri = k.uri;
      uri_named = k.uri_named;
      served = Served-lower m _ d s le k.served;
      kept = Kept-lower m s le k.kept;
    }

    Kept-now : (s : Client) → Kept w c ttl n s → Kept w c ttl s.asked s
    Kept-now s h = record {
      cached = h.cached;
      same_config = h.same_config;
      same_ttl = h.same_ttl;
      later = omega arith;
    }

    pub Ends-load_jwks : Ends (Kept w c ttl n) (NewKeys c ttl n) (λ e. Kept w c ttl n) (load_jwks w)
    unfolding load_jwks
    Ends-load_jwks = Ends-bind _ _ (Ends-get_metadata c ttl n) λ metadata.
        Ends-bind {Q = λ uri s. IsJwksUri w c.issuer_url s.asked uri × Kept w c ttl n s} _ _
          (Ends-lift _ (λ uri s e (v, h). (ServedKeys-uri c ttl n s v e, h)) λ e s r (v, h). h)
          λ uri. record {
            at = λ s (j, h).
                (Ends-weaken {P' = Kept w c ttl s.asked} (fetch_jwks c ttl n uri)
                    (Ends-fetch_jwks c ttl s.asked uri j) (λ s' k. k)
                    (λ d s' (k, (q, uri, new, j, a)).
                      (ServedKeys-lower s.asked d s' h.later k, (q, uri, omega arith, j, a)))
                    (λ e s' k. Kept-lower s.asked s' h.later k)).at
                  s (Kept-now s h);
          }

    pub Ends-get_jwks :
        Ends (Kept w c ttl n) (ServedKeys c ttl n) (λ e. Kept w c ttl n) (get_jwks w)
    unfolding get_jwks ◌>>=◌
    Ends-get_jwks = record {
      at = λ s h.
          EndsIn-is_fresh c ttl n (ServedKeys c ttl n) s.jwks s.jwks_loaded_at s (load_jwks w) h
            (Ends-weaken _ Ends-load_jwks (λ s k. k) (λ d s k. k.0) λ e s k. k)
            λ d e young. young-ServedKeys s h (h.cached.jwks_loaded d e) young;
    }
      where
        young-ServedKeys :
            {d : Dict} (s : Client)
            → Kept w c ttl n s
            → JwksFrom w s.config.issuer_url s.asked s.jwks_loaded_at d
            → w.time s.asked < s.jwks_loaded_at + seconds s.cache_ttl_seconds
            → ServedKeys c ttl n d (advanced s)
        young-ServedKeys s h j young = record {
          uri = j.uri;
          uri_named =
              IsJwksUri-later w {n = s.asked} (omega arith)
                (subst (λ x. IsJwksUri w x.issuer_url s.asked j.uri) h.same_config j.uri_named);
          served = young-Served c ttl n s h j.loaded young;
          kept = advanced-Kept w h;
        }
