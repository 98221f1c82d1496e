-- ===== src/Auth/ProviderClient/Cached.antt =====
-- The cached documents of OIDCProviderClient in cpkit/auth/oidc.py: where they come from and how old
-- they are when they are used.
pub mod Answers
pub mod Freshness
pub mod Invariant
use cpkit.Base.{
  ℕ, suc, ◌+◌, ◌≤◌, ◌<◌, String, Bool, true, false, Option, none, some, List, [], ◌∷◌, ◌≡◌, refl,
  ◌⊎◌, inl, inr, ltb, ltb→lt, if◌then◌else◌, arith,
}
use cpkit.Base.Exec.{Result, ok, err, Exec, pure, lift, gets, ◌>>=◌, ◌>>◌}
use cpkit.Base.Exec.Ends.{
  EndsIn, Ends, Ends-pure, Ends-lift, Ends-gets, Ends-if, Ends-weaken, Ends-bind,
}
use cpkit.Base.Value.{Value, Fields, object, Dict, get}
use cpkit.Jobs.Types.{seconds}
use cpkit.Auth.Claims.{entries}
use cpkit.Auth.Config.{OidcConfig}
use cpkit.Auth.Sessions.{AuthFailure}
use cpkit.Auth.ProviderClient.{
  HttpRequest, World, Client, Calls, read_clock, ask, http_json, request, metadata_url, is_fresh,
  is_empty_dict, object_only, load_metadata, get_metadata, endpoint, load_jwks, get_jwks,
  store_metadata, store_jwks, or_empty,
}

module _ {Key : Type 0} (w : World Key) where
  -- the k-th answer to the request is the object `d`
  abbrev pub Answered : ℕ → HttpRequest → Dict → Type 0
  Answered k r d = (fs : Fields) × (w.answer k r ≡ ok (object fs)) × (d ≡ entries fs)

  -- Before question `n`, the document was an answer to the request and `loaded_at` was read next.
  pub record LoadedFrom (r : HttpRequest) (n loaded_at : ℕ) (d : Dict) : Type 0 where
    pub question : ℕ
    pub answered : Answered question r d
    pub earlier : suc question < n
    pub stamped : loaded_at ≡ w.time (suc question)

  abbrev pub metadata_request : String → HttpRequest
  metadata_request issuer_url = request w "GET" (metadata_url issuer_url) none

  abbrev pub jwks_request : String → HttpRequest
  jwks_request uri = request w "GET" uri none

  -- the issuer's metadata named the address of the keys
  pub record IsJwksUri (issuer_url : String) (n : ℕ) (uri : String) : Type 0 where
    pub metadata : Dict
    pub asked_at : ℕ
    pub answered : Answered asked_at (metadata_request issuer_url) metadata
    pub earlier : asked_at < n
    pub names : endpoint w "jwks_uri" metadata ≡ ok uri

  pub record JwksFrom (issuer_url : String) (n loaded_at : ℕ) (d : Dict) : Type 0 where
    pub uri : String
    pub uri_named : IsJwksUri issuer_url n uri
    pub loaded : LoadedFrom (jwks_request uri) n loaded_at d

  -- The cached documents are answers of the configured issuer, stamped when they came.
  pub record IsCached (s : Client) : Type 0 where
    pub metadata_loaded :
        (d : Dict)
        → s.metadata ≡ some d
        → LoadedFrom (metadata_request s.config.issuer_url) s.asked s.meta_loaded_at d
    pub jwks_loaded :
        (d : Dict) → s.jwks ≡ some d → JwksFrom s.config.issuer_url s.asked s.jwks_loaded_at d

  -- an answer that came from question `n` on, or that a clock reading from `n` on found in its time
  pub record Served (r : HttpRequest) (n ttl : ℕ) (d : Dict) (s : Client) : Type 0 where
    pub question : ℕ
    pub answered : Answered question r d
    pub earlier : question < s.asked
    pub recent :
        (n ≤ question)
        ⊎ ((t : ℕ) × (n ≤ t) × (t < s.asked) × (w.time t < w.time (suc question) + seconds ttl))

  -- The documents stay cached under one configuration, from question `n` on.
  pub record Kept (c : OidcConfig) (ttl n : ℕ) (s : Client) : Type 0 where
    pub cached : IsCached s
    pub same_config : s.config ≡ c
    pub same_ttl : s.cache_ttl_seconds ≡ ttl
    pub later : n ≤ s.asked

  pub LoadedFrom-later :
      {r : HttpRequest} {n m t : ℕ} {d : Dict} → n ≤ m → LoadedFrom r n t d → LoadedFrom r m t d
  LoadedFrom-later le l = record {
    question = l.question;
    answered = l.answered;
    earlier = omega arith;
    stamped = l.stamped;
  }

  pub IsJwksUri-later :
      {i : String} {n m : ℕ} {u : String} → n ≤ m → IsJwksUri i n u → IsJwksUri i m u
  IsJwksUri-later le j = record {
    metadata = j.metadata;
    asked_at = j.asked_at;
    answered = j.answered;
    earlier = omega arith;
    names = j.names;
  }
