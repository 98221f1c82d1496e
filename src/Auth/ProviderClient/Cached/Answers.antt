-- ===== src/Auth/ProviderClient/Cached/Answers.antt =====
-- The clock readings and HTTP answers of OIDCProviderClient in cpkit/auth/oidc.py, and what stays
-- cached when a document is loaded.
use cpkit.Base.{
  ℕ, suc, ◌+◌, ◌≤◌, ◌<◌, Bool, true, false, Option, none, some, [], ◌∷◌, ◌≡◌, refl, sym, ap, subst,
  inl, ltb, ltb→lt, arith,
}
use cpkit.Base.Exec.{Result, ok, err, lift, ◌>>=◌, continue}
use cpkit.Base.Exec.Ends.{EndsIn, Ends, Ends-pure, Ends-bind}
use cpkit.Base.Value.{Value, object, Dict}
use cpkit.Jobs.Types.{seconds}
use cpkit.Auth.Config.{OidcConfig}
use cpkit.Auth.Sessions.{AuthFailure}
use cpkit.Auth.ProviderClient.{
  HttpRequest, World, Client, read_clock, ask, http_json, is_fresh, object_only, load_metadata,
  store_metadata,
}
use cpkit.Auth.ProviderClient.Cached.{
  Answered, LoadedFrom, metadata_request, IsCached, Served, Kept, LoadedFrom-later, IsJwksUri-later,
}

abbrev pub advanced : Client → Client
advanced s = record s { asked = suc s.asked }

module _ {Key : Type 0} (w : World Key) where
  pub advanced-IsCached : {s : Client} → IsCached w s → IsCached w (advanced s)
  advanced-IsCached h = record {
    metadata_loaded = λ d e. LoadedFrom-later w (omega arith) (h.metadata_loaded d e);
    jwks_loaded = λ d e.
        let j = h.jwks_loaded d e in
        record {
          uri = j.uri;
          uri_named = IsJwksUri-later w (omega arith) j.uri_named;
          loaded = LoadedFrom-later w (omega arith) j.loaded;
        };
  }

  pub advanced-Kept :
      {c : OidcConfig} {ttl n : ℕ} {s : Client} → Kept w c ttl n s → Kept w c ttl n (advanced s)
  advanced-Kept h = record {
    cached = advanced-IsCached h.cached;
    same_config = h.same_config;
    same_ttl = h.same_ttl;
    later = omega arith;
  }

  pub is_fresh-cases :
      (Q : Result AuthFailure Bool × Client → Type 0) (o : Option Dict) (loaded_at : ℕ) (s : Client)
      → Q (ok false, s)
      → Q (ok false, advanced s)
      → ((d : Dict)
          → o ≡ some d
          → w.time s.asked < loaded_at + seconds s.cache_ttl_seconds
          → Q (ok true, advanced s))
      → Q (is_fresh w o loaded_at s s)
  unfolding ◌>>=◌ read_clock
  is_fresh-cases Q none loaded_at s miss late hit = miss
  is_fresh-cases Q (some []) loaded_at s miss late hit = miss
  is_fresh-cases Q (some (e ∷ d)) loaded_at s miss late hit =
      decided (ltb (w.time s.asked) (loaded_at + seconds s.cache_ttl_seconds)) refl
    where
      decided :
          (b : Bool)
          → ltb (w.time s.asked) (loaded_at + seconds s.cache_ttl_seconds) ≡ b
          → Q (ok b, advanced s)
      decided true p = hit (e ∷ d) refl (ltb→lt _ _ p)
      decided false p = late

  -- the answer to the last question
  pub record Fetched (r : HttpRequest) (n : ℕ) (d : Dict) (s : Client) : Type 0 where
    pub question : ℕ
    pub answered : Answered w question r d
    pub new : n ≤ question
    pub next : s.asked ≡ suc question

  module _ (c : OidcConfig) (ttl n : ℕ) where
    pub Ends-http_json :
        (r : HttpRequest)
        → Ends
            (Kept w c ttl n)
            (λ d s. Fetched r n d s × Kept w c ttl n s)
            (λ e. Kept w c ttl n)
            (http_json w r)
    unfolding http_json ask ◌>>=◌
    Ends-http_json r = record { at = λ s h. answer s h (w.answer s.asked r) refl }
      where
        answer :
            (s : Client)
            → Kept w c ttl n s
            → (a : Result AuthFailure Value) → w.answer s.asked r ≡ a
            → EndsIn
                (λ d s. Fetched r n d s × Kept w c ttl n s)
                (λ e. Kept w c ttl n)
                (continue a (λ v. lift (object_only v)) (advanced s))
        answer s h (ok (object fs)) e = (
          record { question = s.asked; answered = (fs, e, refl); new = h.later; next = refl },
          advanced-Kept h,
        )
        answer s h (ok Value.null) e = advanced-Kept h
        answer s h (ok (Value.boolean b)) e = advanced-Kept h
        answer s h (ok (Value.number k)) e = advanced-Kept h
        answer s h (ok (Value.text t)) e = advanced-Kept h
        answer s h (ok (Value.array vs)) e = advanced-Kept h
        answer s h (err x) e = advanced-Kept h

    -- the answer to the last question but one, and the clock read after it
    pub record Stamped (r : HttpRequest) (d : Dict) (t : ℕ) (s : Client) : Type 0 where
      pub question : ℕ
      pub answered : Answered w question r d
      pub new : n ≤ question
      pub next : s.asked ≡ suc (suc question)
      pub stamp : t ≡ w.time (suc question)

    pub Ends-read_clock :
        (r : HttpRequest) (d : Dict)
        → Ends
            (λ s. Fetched r n d s × Kept w c ttl n s)
            (λ t s. Stamped r d t s × Kept w c ttl n s)
            (λ e. Kept w c ttl n)
            (read_clock w)
    unfolding read_clock
    Ends-read_clock r d = record {
      at = λ s (f, h). (
        record {
          question = f.question;
          answered = f.answered;
          new = f.new;
          next = ap suc f.next;
          stamp = ap w.time f.next;
        },
        advanced-Kept h,
      );
    }

    -- An answer stored with its stamp is served.
    pub Stamped-Served :
        {r : HttpRequest} {d : Dict} {t : ℕ} (s s' : Client)
        → s.asked ≡ s'.asked
        → Stamped r d t s
        → Served w r n ttl d s'
    Stamped-Served s s' same st = record {
      question = st.question;
      answered = st.answered;
      earlier = omega arith;
      recent = inl st.new;
    }

    pub Stamped-LoadedFrom :
        {r : HttpRequest} {d : Dict} {t : ℕ} {s : Client}
        → Stamped r d t s
        → LoadedFrom w r s.asked t d
    Stamped-LoadedFrom st = record {
      question = st.question;
      answered = st.answered;
      earlier = omega arith;
      stamped = st.stamp;
    }

    pub store_metadata-Kept :
        (d : Dict) (t : ℕ) (s : Client)
        → Stamped (metadata_request w c.issuer_url) d t s
        → Kept w c ttl n s
        → Kept w c ttl n (record s { metadata = some d; meta_loaded_at = t })
    store_metadata-Kept d t s st h = record {
      cached = record {
        metadata_loaded = λ d' e.
            subst (λ x. LoadedFrom w (metadata_request w s.config.issuer_url) s.asked t x) (cc e)
              (subst (λ x. LoadedFrom w (metadata_request w x.issuer_url) s.asked t d)
                (sym h.same_config) (Stamped-LoadedFrom st));
        jwks_loaded = h.cached.jwks_loaded;
      };
      same_config = h.same_config;
      same_ttl = h.same_ttl;
      later = h.later;
    }

    pub Ends-load_metadata :
        Ends
          (Kept w c ttl n)
          (λ d s. Served w (metadata_request w c.issuer_url) n ttl d s × Kept w c ttl n s)
          (λ e. Kept w c ttl n)
          (load_metadata w c.issuer_url)
    unfolding load_metadata store_metadata
    Ends-load_metadata = Ends-bind _ _ (Ends-http_json (metadata_request w c.issuer_url)) λ d.
        Ends-bind _ _ (Ends-read_clock (metadata_request w c.issuer_url) d) λ t.
          Ends-bind
            {Q = λ u s. Served w (metadata_request w c.issuer_url) n ttl d s × Kept w c ttl n s} _ _
            (record {
              at = λ s (st, h). (Stamped-Served s _ refl st, store_metadata-Kept d t s st h);
            })
            λ u. Ends-pure d (λ s h. h)
