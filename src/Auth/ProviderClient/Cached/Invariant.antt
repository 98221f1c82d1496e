-- ===== src/Auth/ProviderClient/Cached/Invariant.antt =====
-- Every call of OIDCProviderClient and the loading of its configuration, in any order, against the
-- cached documents.
use cpkit.Base.{
  ℕ, String, Bool, true, false, not, ◌&&◌, Option, none, some, List, [], ◌∷◌, ◌≡◌, refl, subst,
  eq_iff, arith,
}
use cpkit.Base.Exec.{Result, ok, err, ◌>>=◌}
use cpkit.Base.Exec.Ends.{EndsIn, Ends}
use cpkit.Base.Exec.Keeps.{Keeps, keeps_rules}
use cpkit.Base.Value.{Dict}
use cpkit.Auth.Config.{OidcConfig}
use cpkit.Auth.Sessions.{AuthFailure}
use cpkit.Auth.ProviderClient.{
  HttpRequest, World, Client, Calls, new_client, read_clock, http_json, get_metadata, get_jwks,
  cleared, clear_provider_cache, forget_jwks,
}
use cpkit.Auth.ProviderClient.Tokens.{
  published_jwk, search_again, key_with_id, select_jwk_key, validate_jwt, second_search,
  first_search, with_kid,
}
use cpkit.Auth.ProviderClient.Requests.{build_authorization_url, exchange_code, refresh_tokens}
use cpkit.Auth.ProviderClient.Loading.{
  same_config, replace_config, set_config, update_provider_config, read_config, set_loaded_at,
  reload_config, load_config,
}
use cpkit.Auth.ProviderClient.Operations.{
  Operation, metadata, jwks, clear, authorization_url, code, refresh, validate, load, update,
  KeepsIssuer, KeepIssuer, run, run_operations,
}
use cpkit.Auth.ProviderClient.Cached.{IsCached, Kept, LoadedFrom, JwksFrom, metadata_request}
use cpkit.Auth.ProviderClient.Cached.Answers.{advanced-IsCached, Ends-http_json}
use cpkit.Auth.ProviderClient.Cached.Freshness.{ServedKeys, Ends-get_metadata, Ends-get_jwks}

same_config-issuer_url : (c d : OidcConfig) → same_config c d ≡ true → c.issuer_url ≡ d.issuer_url
unfolding same_config
same_config-issuer_url c d e = (eq_iff c.issuer_url d.issuer_url).0 (and_left _ _ e)
  where
    and_left : (a b : Bool) → (a && b) ≡ true → a ≡ true
    and_left true b e = refl
    and_left false b e = e

module _ {Key : Type 0} (w : World Key) where
  pub IsCached-Kept : (s : Client) → IsCached w s → Kept w s.config s.cache_ttl_seconds s.asked s
  IsCached-Kept s h = record {
    cached = h;
    same_config = refl;
    same_ttl = refl;
    later = omega arith;
  }

  -- a call that keeps the documents cached under any configuration keeps them cached
  Keeps-Ends :
      {A : Type 0} {Q : OidcConfig → ℕ → ℕ → A → Client → Type 0} (m : Calls A)
      → ((c : OidcConfig) (ttl n : ℕ) → Ends (Kept w c ttl n) (Q c ttl n) (λ e. Kept w c ttl n) m)
      → ((c : OidcConfig) (ttl n : ℕ) (a : A) (s : Client) → Q c ttl n a s → Kept w c ttl n s)
      → Keeps (IsCached w) m
  Keeps-Ends {A = A} {Q = Q} m km kept = record {
    at = λ s h.
        ended s.config s.cache_ttl_seconds s.asked (m s).0 (m s).1
          ((km s.config s.cache_ttl_seconds s.asked).at s (IsCached-Kept s h));
  }
    where
      ended :
          (c : OidcConfig) (ttl n : ℕ) (r : Result AuthFailure A) (s : Client)
          → EndsIn (Q c ttl n) (λ e. Kept w c ttl n) (r, s)
          → IsCached w s
      ended c ttl n (ok a) s q = (kept c ttl n a s q).cached
      ended c ttl n (err e) s k = k.cached

  Keeps-get_metadata : Keeps (IsCached w) (get_metadata w)
  Keeps-get_metadata = Keeps-Ends _ (λ c ttl n. Ends-get_metadata w c ttl n) λ c ttl n d s q. q.1

  Keeps-get_jwks : Keeps (IsCached w) (get_jwks w)
  Keeps-get_jwks = Keeps-Ends _ (λ c ttl n. Ends-get_jwks w c ttl n) λ c ttl n d s q. q.kept

  Keeps-http_json : (r : HttpRequest) → Keeps (IsCached w) (http_json w r)
  Keeps-http_json r = Keeps-Ends _ (λ c ttl n. Ends-http_json w c ttl n r) λ c ttl n d s q. q.1

  Keeps-read_clock : Keeps (IsCached w) (read_clock w)
  unfolding read_clock
  Keeps-read_clock = record { at = λ s h. advanced-IsCached w h }

  Keeps-read_config : Keeps (IsCached w) (read_config w)
  unfolding read_config
  Keeps-read_config = record { at = λ s h. advanced-IsCached w h }

  forgotten-IsCached : (s : Client) → s.metadata ≡ none → s.jwks ≡ none → IsCached w s
  forgotten-IsCached s no_metadata no_jwks = record {
    metadata_loaded = λ d e. absurd (cc (e, no_metadata));
    jwks_loaded = λ d e. absurd (cc (e, no_jwks));
  }

  Keeps-clear_provider_cache : Keeps (IsCached w) clear_provider_cache
  unfolding clear_provider_cache
  Keeps-clear_provider_cache = record { at = λ s h. forgotten-IsCached (cleared s) refl refl }

  Keeps-forget_jwks : Keeps (IsCached w) forget_jwks
  unfolding forget_jwks
  Keeps-forget_jwks = record {
    at = λ s h. record { metadata_loaded = h.metadata_loaded; jwks_loaded = λ d e. absurd (cc e) };
  }

  Keeps-set_loaded_at : (t : ℕ) → Keeps (IsCached w) (set_loaded_at t)
  unfolding set_loaded_at
  Keeps-set_loaded_at t = record {
    at = λ s h. record { metadata_loaded = h.metadata_loaded; jwks_loaded = h.jwks_loaded };
  }

  ruleset client_rules = (
    keeps_rules, Keeps-get_metadata, Keeps-get_jwks, Keeps-http_json, Keeps-read_clock,
    Keeps-read_config, Keeps-clear_provider_cache, Keeps-forget_jwks, Keeps-set_loaded_at,
  )

  Keeps-build_authorization_url :
      (u s n : String) → Keeps (IsCached w) (build_authorization_url w u s n)
  unfolding build_authorization_url
  Keeps-build_authorization_url u s n = search client_rules

  pub Keeps-exchange_code : (c u : String) → Keeps (IsCached w) (exchange_code w c u)
  unfolding exchange_code
  Keeps-exchange_code c u = search client_rules

  Keeps-refresh_tokens : (t : String) → Keeps (IsCached w) (refresh_tokens w t)
  unfolding refresh_tokens
  Keeps-refresh_tokens t = search client_rules

  Keeps-published_jwk : (kid : String) → Keeps (IsCached w) (published_jwk w kid)
  unfolding published_jwk
  Keeps-published_jwk kid = search client_rules

  Keeps-second_search : (o : Option Dict) → Keeps (IsCached w) (second_search w o)
  Keeps-second_search none = search client_rules
  Keeps-second_search (some jwk) = search client_rules

  Keeps-first_search : (kid : String) (o : Option Dict) → Keeps (IsCached w) (first_search w kid o)
  unfolding search_again
  Keeps-first_search kid none = search (client_rules, Keeps-published_jwk, Keeps-second_search)
  Keeps-first_search kid (some jwk) = search client_rules

  Keeps-with_kid : (o : Option String) → Keeps (IsCached w) (with_kid w o)
  unfolding key_with_id
  Keeps-with_kid none = search client_rules
  Keeps-with_kid (some kid) = search (client_rules, Keeps-published_jwk, Keeps-first_search)

  pub Keeps-validate_jwt :
      (t : String) (n : Option String) (b : Bool) → Keeps (IsCached w) (validate_jwt w t n b)
  unfolding validate_jwt select_jwk_key
  Keeps-validate_jwt t n b = search (client_rules, Keeps-with_kid)

  -- With the same issuer the documents stay; where the cache is cleared none is left.
  update-IsCached :
      (c : OidcConfig) (clear_cache : Bool) (s : Client)
      → KeepsIssuer (update c clear_cache) s
      → IsCached w s
      → IsCached w (update_provider_config c clear_cache s).1
  unfolding update_provider_config set_config clear_provider_cache ◌>>=◌
  update-IsCached c false s e h = record {
    metadata_loaded = λ d q.
        subst (λ u. LoadedFrom w (metadata_request w u) s.asked s.meta_loaded_at d) e
          (h.metadata_loaded d q);
    jwks_loaded = λ d q. subst (λ u. JwksFrom w u s.asked s.jwks_loaded_at d) e (h.jwks_loaded d q);
  }
  update-IsCached c true s e h = forgotten-IsCached _ refl refl

  -- replace_config clears the cache unless the configurations are equal
  replaced-KeepsIssuer :
      (c : OidcConfig) (s : Client) (same : Bool)
      → same_config s.config c ≡ same
      → KeepsIssuer (update c (not same)) s
  replaced-KeepsIssuer c s true e = same_config-issuer_url s.config c e
  replaced-KeepsIssuer c s false e = tt

  Keeps-replace_config : (c : OidcConfig) → Keeps (IsCached w) (replace_config c)
  unfolding replace_config ◌>>=◌
  Keeps-replace_config c = record {
    at = λ s h. update-IsCached c _ s (replaced-KeepsIssuer c s _ refl) h;
  }

  Keeps-reload_config : (t : ℕ) → Keeps (IsCached w) (reload_config w t)
  unfolding reload_config
  Keeps-reload_config t = search (client_rules, Keeps-replace_config)

  pub Keeps-load_config : (force : Bool) → Keeps (IsCached w) (load_config w force)
  unfolding load_config
  Keeps-load_config force = search (client_rules, Keeps-reload_config)

  kept-IsCached :
      (m : Calls (Unit {0})) (s : Client) → Keeps (IsCached w) m → IsCached w s → IsCached w (m s).1
  kept-IsCached m s k h = k.at s h

  run-IsCached :
      (o : Operation) (s : Client) → KeepsIssuer o s → IsCached w s → IsCached w (run w o s).1
  unfolding run
  run-IsCached metadata s e = kept-IsCached (run w metadata) s (search client_rules)
  run-IsCached jwks s e = kept-IsCached (run w jwks) s (search client_rules)
  run-IsCached clear s e = kept-IsCached (run w clear) s (search client_rules)
  run-IsCached (authorization_url u t n) s e =
      kept-IsCached (run w (authorization_url u t n)) s
        (search (client_rules, Keeps-build_authorization_url))
  run-IsCached (code c u) s e =
      kept-IsCached (run w (code c u)) s (search (client_rules, Keeps-exchange_code))
  run-IsCached (refresh t) s e =
      kept-IsCached (run w (refresh t)) s (search (client_rules, Keeps-refresh_tokens))
  run-IsCached (validate t n b) s e =
      kept-IsCached (run w (validate t n b)) s (search (client_rules, Keeps-validate_jwt))
  run-IsCached (load force) s e =
      kept-IsCached (run w (load force)) s (search (client_rules, Keeps-load_config))
  run-IsCached (update c b) s e = update-IsCached c b s e

  run_operations-IsCached-from :
      (os : List Operation) (s : Client)
      → KeepIssuer w os s
      → IsCached w s
      → IsCached w (run_operations w os s)
  unfolding run_operations
  run_operations-IsCached-from [] s e h = h
  run_operations-IsCached-from (o ∷ os) s e h =
      run_operations-IsCached-from os (run w o s).1 e.1 (run-IsCached o s e.0 h)

  -- Whatever calls are made on a new client, in any order and whether they raise or not, the clock,
  -- the provider's answers and the stored settings being any, provided each call of
  -- update_provider_config clears the cache or keeps the issuer: a cached document is an answer that the
  -- currently configured issuer gave, the keys an answer from an address that the issuer's metadata
  -- named, and the stamp beside it is the clock reading that followed the answer.
  pub run_operations-IsCached :
      (c : OidcConfig) (os : List Operation)
      → KeepIssuer w os (new_client c)
      → IsCached w (run_operations w os (new_client c))
  run_operations-IsCached c os e =
      run_operations-IsCached-from os (new_client c) e (forgotten-IsCached (new_client c) refl refl)

  -- After any calls on a new client, provided each call of update_provider_config among them clears
  -- the cache or keeps the issuer, the keys that get_jwks returns were answered from an address
  -- that the issuer's metadata named, and either came during this very call, or a clock reading of
  -- this call was less than the cache's time to live after the one that followed their answer.
  pub get_jwks-ServedKeys :
      (c : OidcConfig) (os : List Operation)
      → KeepIssuer w os (new_client c)
      → let s = run_operations w os (new_client c) in
        EndsIn
          (ServedKeys w s.config s.cache_ttl_seconds s.asked)
          (λ e. Kept w s.config s.cache_ttl_seconds s.asked)
          (get_jwks w s)
  get_jwks-ServedKeys c os e =
      let s = run_operations w os (new_client c) in
      (Ends-get_jwks w s.config s.cache_ttl_seconds s.asked).at s
        (IsCached-Kept s (run_operations-IsCached c os e))
