-- ===== src/Auth/Login/Admitted.antt =====
-- Who gets a session from the callback of cpkit/auth/router.py.
use cpkit.Base.{
  ℕ, String, Bool, true, false, Option, none, some, List, [], ◌∷◌, ◌++◌, ◌≡◌, refl, sym, ap, subst,
  any, if_split,
}
use cpkit.Base.Exec.{Result, ok, err, pure, raise, ◌>>=◌}
use cpkit.Base.Exec.Ends.{
  EndsIn, Ends, Ends-pure, Ends-lift, Ends-gets, Ends-if, Ends-weaken, Ends-bind, Ends-catch,
}
use cpkit.Base.Exec.Keeps.{Keeps}
use cpkit.Base.Value.{Dict}
use cpkit.Errors.{RepositoryError, HttpException}
use cpkit.Auth.Access.{ensure_authorized}
use cpkit.Auth.Config.{OidcConfig}
use cpkit.Auth.Sessions.{Session, AuthFailure, Provider, is_session, build_session_record}
use cpkit.Auth.ProviderClient.{World, Client, Calls, new_client}
use cpkit.Auth.ProviderClient.Requests.{exchange_code}
use cpkit.Auth.ProviderClient.Loading.{load_config}
use cpkit.Auth.ProviderClient.Operations.{Operation, KeepIssuer, run_operations}
use cpkit.Auth.ProviderClient.Cached.{IsCached}
use cpkit.Auth.ProviderClient.Cached.Invariant.{
  IsCached-Kept, Keeps-load_config, Keeps-exchange_code, run_operations-IsCached,
}
use cpkit.Auth.ProviderClient.Validated.{Validated, Ends-validate_jwt}
use cpkit.Auth.Login.{
  App, on_client, on_sessions, Callback, Redirect, validate_jwt_or_401, enabled_config,
  insert_session, create_oidc_session, open_session, oidc_callback, http_error, of_http,
}
use cpkit.Auth.Login.Checked.{IsOwn, IsInApp, safe_next_path-IsInApp, checked_callback-IsOwn}

module _ {Key : Type 0} (w : World Key) (p : Provider) (has_cookie_name : Bool)
    (audit_event_hook : Option (String → String → Dict → Result AuthFailure (Unit {0})))
    (fault : Option RepositoryError) (session_id : String) (cb : Callback)
    (before : List Session) where
  -- the claims of a token that validate_jwt accepted with the nonce and the client as its audience
  pub record Proven (nonce : String) (claims : Dict) (s : Client) : Type 0 where
    pub token : String
    pub ttl : ℕ
    pub question : ℕ
    pub validated : Validated w s.config ttl question token (some nonce) true claims s

  -- What a response of the callback means.
  pub record Admitted (r : Redirect) (s : App) : Type 0 where
    pub code : String
    pub nonce : String
    pub own : IsOwn cb code nonce
    pub claims : Dict
    pub proven : Proven nonce claims s.client
    pub authorized :
        (a : Dict) × (ensure_authorized w.readers.repr s.client.config.access claims ≡ ok a)
    pub session : Session
    pub new_id : session.session_id ≡ session_id
    pub stored : s.sessions ≡ before ++ (session ∷ [])
    pub in_app : IsInApp r.location

  -- After an exception no session is there that was not there before, but for one whose login the
  -- audit hook did not take.
  pub data Refused (e : AuthFailure) (s : App) : Type 0 where
    unchanged : s.sessions ≡ before → Refused e s
    unlogged : (session : Session) → s.sessions ≡ before ++ (session ∷ []) → Refused e s

  abbrev Quiet : App → Type 0
  Quiet s = IsCached w s.client × (s.sessions ≡ before)

  Ends-on_client :
      {A : Type 0} (m : Calls A)
      → Keeps (IsCached w) m
      → Ends Quiet (λ a. Quiet) Refused (on_client m)
  unfolding on_client
  Ends-on_client {A = A} m k = record {
    at = λ s (c, e). kept (m s.client).0 (m s.client).1 (k.at s.client c) s e;
  }
    where
      kept :
          (r : Result AuthFailure A) (c : Client)
          → IsCached w c
          → (s : App) → s.sessions ≡ before
          → EndsIn (λ a. Quiet) Refused (r, record s { client = c })
      kept (ok a) c k s e = (k, e)
      kept (err f) c k s e = unchanged e

  Ends-enabled_config :
      Ends Quiet (λ c. Quiet) Refused (enabled_config w p has_cookie_name audit_event_hook)
  unfolding enabled_config raise
  Ends-enabled_config =
      Ends-bind _ _ (Ends-on_client (load_config w false) (Keeps-load_config w false)) λ u.
        Ends-bind {Q = λ c. Quiet} _ _ (Ends-gets _ λ s q. q) λ c.
          Ends-if c.enabled (pure c) (raise (http_error 404 "OIDC is disabled."))
            (λ b. Ends-pure c λ s q. q) λ b. record { at = λ s (k, e). unchanged e }

  -- claims that the token proves, with no session yet
  abbrev Ready : String → Dict → App → Type 0
  Ready nonce claims s = Proven nonce claims s.client × (s.sessions ≡ before)

  lifted :
      {A : Type 0} (Q : A → Client → Type 0) (r : Result AuthFailure A) (c : Client) (s : App)
      → EndsIn {0, 0} Q (λ e x. Unit) (r, c)
      → s.sessions ≡ before
      → EndsIn (λ a s'. Q a s'.client × (s'.sessions ≡ before)) Refused (r, record s { client = c })
  lifted Q (ok a) c s q e = (q, e)
  lifted Q (err f) c s q e = unchanged e

  proven :
      (token nonce : String) (claims : Dict) (c : OidcConfig) (ttl n : ℕ) (x : Client)
      → Validated w c ttl n token (some nonce) true claims x
      → Proven nonce claims x
  proven token nonce claims c ttl n x v = record {
    token = token;
    ttl = ttl;
    question = n;
    validated =
        subst (λ d. Validated w d ttl n token (some nonce) true claims x)
          (sym v.selected.served.kept.same_config) v;
  }

  Ends-validate :
      (token nonce : String)
      → Ends Quiet (Ready nonce) Refused (
          on_client
            (validate_jwt_or_401 w p has_cookie_name audit_event_hook token (some nonce) true))
  unfolding on_client validate_jwt_or_401 raise
  Ends-validate token nonce = record {
    at = λ s (k, e).
        let c = s.client.config in
        let ttl = s.client.cache_ttl_seconds in
        let n = s.client.asked in
        let m = validate_jwt_or_401 w p has_cookie_name audit_event_hook token (some nonce) true in
        lifted (Proven nonce) (m s.client).0 (m s.client).1 s
          ((Ends-catch {X = λ f x. Unit {0}} {Y = λ f x. Unit {0}} _ _
              (Ends-weaken _ (Ends-validate_jwt w c ttl n token (some nonce) true) (λ x q. q)
                (λ claims x v. proven token nonce claims c ttl n x v) λ f x q. tt)
              λ f. record { at = λ x q. tt }).at
            s.client (IsCached-Kept w s.client k))
          e;
  }

  module _ (nonce code : String) (own : IsOwn cb code nonce) (claims : Dict) where
    -- claims that may have a session
    abbrev Granted : App → Type 0
    Granted s =
        Ready nonce claims s
        × ((a : Dict) × (ensure_authorized w.readers.repr s.client.config.access claims ≡ ok a))

    Ends-build_session_record :
        (q : Provider) (id_token : String) (refresh_token : Option String)
        → Ends Granted
            (λ r s. Granted s × (r.session_id ≡ session_id))
            Refused
            (build_session_record q session_id id_token refresh_token claims)
    unfolding build_session_record
    Ends-build_session_record q id_token refresh_token =
        Ends-bind {Q = λ a. Granted} _ _
          (Ends-lift _ (λ a s e g. g) λ e s r ((v, b), g). unchanged b)
          λ x.
            Ends-bind {Q = λ a. Granted} _ _
              (Ends-lift _ (λ a s e g. g) λ e s r ((v, b), g). unchanged b)
              λ y.
                Ends-bind {Q = λ a. Granted} _ _
                  (Ends-lift _ (λ a s e g. g) λ e s r ((v, b), g). unchanged b)
                  λ z. Ends-pure _ λ s g. (g, refl)

    -- the row is there
    abbrev Stored : Session → App → Type 0
    Stored r s =
        Proven nonce claims s.client
        × ((a : Dict) × (ensure_authorized w.readers.repr s.client.config.access claims ≡ ok a))
        × (s.sessions ≡ before ++ (r ∷ []))

    Ends-create_oidc_session :
        (r : Session)
        → Ends Granted
            (λ u. Stored r)
            Refused
            (on_sessions (create_oidc_session w p has_cookie_name audit_event_hook fault r))
    unfolding on_sessions create_oidc_session insert_session ◌>>=◌
    Ends-create_oidc_session r = record { at = λ s ((v, b), g). faulty fault s v b g }
      where
        faulty :
            (o : Option RepositoryError) (s : App)
            → Proven nonce claims s.client
            → s.sessions ≡ before
            → ((a : Dict) × (ensure_authorized w.readers.repr s.client.config.access claims ≡ ok a))
            → EndsIn
                (λ u. Stored r)
                Refused
                (on_sessions (create_oidc_session w p has_cookie_name audit_event_hook o r) s)
        faulty none s v b g =
            if_split {A = Result AuthFailure (Unit {0}) × List Session}
              (λ x. EndsIn (λ u. Stored r) Refused (x.0, record s { sessions = x.1 }))
              (any (is_session r.session_id) s.sessions) (λ t. unchanged b)
              λ t. (v, g, ap (λ x. x ++ (r ∷ [])) b)
        faulty (some x) s v b g = unchanged b

    Ends-open_session :
        (id_token : String) (refresh_token : Option String)
        → Ends (Ready nonce claims) Admitted Refused (
            open_session w p has_cookie_name audit_event_hook fault cb session_id id_token
              refresh_token claims)
    unfolding open_session
    Ends-open_session id_token refresh_token =
        Ends-bind {Q = λ c s. Ready nonce claims s × (c ≡ s.client.config)} _ _
          (Ends-gets _ λ s q. (q, refl))
          λ c.
            Ends-bind {Q = λ a. Granted} _ _
              (Ends-lift _
                (λ a s e (q, same). (
                  q,
                  allowed (ensure_authorized w.readers.repr c.access claims) s.client.config
                      (ap (λ x. ensure_authorized w.readers.repr x.access claims) same) e,
                ))
                λ e s r (q, same). unchanged q.1)
              λ a. Ends-bind _ _ (Ends-build_session_record _ id_token refresh_token) λ r. record {
                at = λ s (g, id).
                    (Ends-bind _ _ (Ends-create_oidc_session r) λ u.
                        Ends-bind {Q = λ x. Stored r} _ _
                          (Ends-lift _ (λ x s e q. q) λ e s k (v, g, b). unlogged r b)
                          λ x. Ends-pure _ λ s (v, g, b). record {
                            code = code;
                            nonce = nonce;
                            own = own;
                            claims = claims;
                            proven = v;
                            authorized = g;
                            session = r;
                            new_id = id;
                            stored = b;
                            in_app = safe_next_path-IsInApp cb.next_cookie;
                          }).at
                      s g;
              }
      where
        allowed :
            (x : Result HttpException Dict) (d : OidcConfig)
            → x ≡ ensure_authorized w.readers.repr d.access claims
            → {a : Dict} → of_http x ≡ ok a
            → (b : Dict) × (ensure_authorized w.readers.repr d.access claims ≡ ok b)
        allowed (ok b) d q e = (b, sym q)
        allowed (err f) d q e = absurd (cc e)

  -- Whatever calls the client had before, provided each call of update_provider_config among them
  -- clears the cache or keeps the issuer: a callback that answers has a code, the state and a
  -- nonce that are those of the browser's cookies; its claims were accepted by validate_jwt with that
  -- nonce and the client itself as the audience, and belong to an admitted group; one session, with
  -- the new id, is added to those there were; and it redirects to a path of the application. An
  -- exception adds no session, but for one whose login the audit hook did not take.
  pub oidc_callback-Admitted :
      (c : OidcConfig) (os : List Operation)
      → KeepIssuer w os (new_client c)
      → EndsIn Admitted Refused (
          oidc_callback w p has_cookie_name audit_event_hook fault session_id cb
            (record { client = run_operations w os (new_client c); sessions = before }))
  unfolding oidc_callback
  oidc_callback-Admitted c os kept =
      (Ends-bind _ _ Ends-enabled_config λ d.
          Ends-bind {Q = λ checked s. IsOwn cb checked.0 checked.1 × Quiet s} _ _
            (Ends-lift _ (λ checked s e q. (checked_callback-IsOwn cb checked.0 checked.1 e, q))
              λ e s r q. unchanged q.1)
            λ checked. record {
              at = λ s (own, q).
                  (Ends-bind _ _
                      (Ends-on_client (exchange_code w checked.0 _)
                        (Keeps-exchange_code w checked.0 _))
                      λ payload.
                        Ends-bind {Q = λ t. Quiet} _ _
                          (Ends-lift _ (λ t s e q. q) λ e s r q. unchanged q.1)
                          λ id_token. Ends-bind _ _ (Ends-validate id_token checked.1) λ claims.
                            Ends-open_session checked.1 checked.0 own claims id_token _).at
                    s q;
            }).at
        _ (run_operations-IsCached w c os kept, refl)
