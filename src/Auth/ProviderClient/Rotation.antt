-- ===== src/Auth/ProviderClient/Rotation.antt =====
-- The rotation of the provider's signing keys, in select_jwk_key of cpkit/auth/oidc.py.
pub mod Lookup
pub mod Answering
use cpkit.Base.{
  ℕ, suc, ◌≤◌, ◌<◌, String, Bool, true, false, not, ◌&&◌, Option, none, some, List, [], ◌∷◌, ◌≡◌,
  refl, sym, ap, subst, ◌∙◌, if◌then◌else◌, if_split, eq_iff, str_eq, arith, Bool-cases, ◌⊎◌, inl,
  inr,
}
use cpkit.Base.Exec.{Result, ok, err, Exec, pure, raise, lift, gets, ◌>>=◌, ◌>>◌, continue}
use cpkit.Base.Exec.Ends.{
  EndsIn, Ends, Ends-pure, Ends-lift, Ends-gets, Ends-if, Ends-weaken, Ends-bind,
}
use cpkit.Base.Value.{
  Value, Fields, Items, nil, cons, end, field, text, array, object, Dict, get, is_nonempty,
}
use cpkit.Auth.Claims.{entries}
use cpkit.Auth.Config.{OidcConfig}
use cpkit.Auth.Sessions.{AuthFailure, oidc}
use cpkit.Auth.ProviderClient.{
  HttpRequest, World, Client, Calls, new_client, get_metadata, get_jwks, load_jwks, forget_jwks,
  endpoint, http_json, read_clock, is_fresh, load_metadata, object_only, ask, or_empty, store_jwks,
  store_metadata,
}
use cpkit.Auth.ProviderClient.Tokens.{
  is_text, find_item, find_jwk, published_jwk, search_again, key_with_id, select_jwk_key,
  second_search, first_search, with_kid,
}
use cpkit.Auth.ProviderClient.Operations.{Operation, KeepIssuer, run_operations}
use cpkit.Auth.ProviderClient.Cached.{
  Answered, Kept, IsCached, IsJwksUri, metadata_request, jwks_request, Served,
}
use cpkit.Auth.ProviderClient.Cached.Answers.{advanced, advanced-Kept, is_fresh-cases}
use cpkit.Auth.ProviderClient.Cached.Freshness.{
  ServedKeys, NewKeys, Ends-get_metadata, Ends-get_jwks, Ends-load_jwks,
}
use cpkit.Auth.ProviderClient.Cached.Invariant.{IsCached-Kept, run_operations-IsCached}
use cpkit.Auth.ProviderClient.Listed.{InItems, here, there, Lists, find_jwk-Lists}
use cpkit.Auth.ProviderClient.Validated.{forgotten-Kept}
use cpkit.Auth.ProviderClient.Rotation.Lookup.{
  AreObjects, IsKeyDocument, find_item-AreObjects, find_item-found,
}
use cpkit.Auth.ProviderClient.Rotation.Answering.{
  Publishes, Never, returned, metadata_at, IsJwksUri-uri, document_at, Never-http_json,
  Never-load_metadata, Never-get_metadata, Never-load_jwks, Never-get_jwks,
}

module _ {Key : Type 0} (w : World Key) where
  module _ (c : OidcConfig) (ttl n : ℕ) (kid : String) (p : Publishes w c.issuer_url kid n) where
    key_document :
        (q : ℕ) (uri : String) (m : ℕ) (d : Dict)
        → IsJwksUri w c.issuer_url m uri
        → Answered w q (jwks_request w uri) d
        → d ≡ entries (p.documents q)
    key_document q uri m d j a =
        (document_at w c ttl n kid p) q uri d ((IsJwksUri-uri w c ttl n kid p) m uri j) a

    -- after forget_jwks the keys are asked for
    Ends-new_jwks :
        Ends (λ s. Kept w c ttl n s × (s.jwks ≡ none)) (NewKeys w c ttl n) Never (get_jwks w)
    unfolding get_jwks ◌>>=◌
    Ends-new_jwks = record {
      at = λ s (h, e).
          subst
            (λ o. EndsIn (NewKeys w c ttl n) Never (
              (is_fresh w o s.jwks_loaded_at s >>= λ hit.
              if hit then pure (or_empty w o) else load_jwks w)
                s))
            (sym e)
            ((returned _ (Ends-load_jwks w c ttl n) (Never-load_jwks w c ttl n kid p)).at s h);
    }

    -- the first search: a key that is listed can be read
    abbrev Listed : Option Dict → Client → Type 0
    Listed o s =
        ((jwk : Dict) → o ≡ some jwk → (k : ℕ) × Lists (entries (p.documents k)) kid jwk)
        × Kept w c ttl n s

    keys_total :
        (k : ℕ) → (o : Option Dict) × (find_jwk kid (get "keys" (entries (p.documents k))) ≡ ok o)
    keys_total k =
        let d = p.are_keys k in
        subst (λ x. (o : Option Dict) × (find_jwk kid x ≡ ok o)) (sym d.listed)
          (find_item-AreObjects kid d.keys d.objects)

    Ends-published : Ends (Kept w c ttl n) Listed Never (published_jwk w kid)
    unfolding published_jwk
    Ends-published =
        Ends-bind _ _ (returned _ (Ends-get_jwks w c ttl n) (Never-get_jwks w c ttl n kid p)) λ d.
          Ends-lift _
            (λ o s e k.
              let same =
                key_document k.served.question k.uri s.asked d k.uri_named k.served.answered in
              (
                λ jwk q. (
                  k.served.question,
                  find_jwk-Lists kid (entries (p.documents k.served.question)) jwk
                      (cc (e, q, same)),
                ),
                k.kept,
              ))
            λ e s r k.
              let same =
                key_document k.served.question k.uri s.asked d k.uri_named k.served.answered in
              let (o, t) = keys_total k.served.question in absurd (cc (r, same, t))

    keys_found :
        (k : ℕ)
        → n ≤ k
        → (jwk : Dict) × (find_jwk kid (get "keys" (entries (p.documents k))) ≡ ok (some jwk))
    keys_found k le =
        let d = p.are_keys k in
        let (jwk, l) = p.published k le in
        subst (λ x. (jwk : Dict) × (find_jwk kid x ≡ ok (some jwk))) (sym l.listed)
          (find_item-found kid l.keys jwk
            (subst AreObjects {x = d.keys} {y = l.keys} (cc (d.listed, l.listed)) d.objects)
            l.member l.has_kid)

    abbrev pub IsRead : Key → Client → Type 0
    IsRead key s =
        (k : ℕ) × (jwk : Dict) × Lists (entries (p.documents k)) kid jwk
        × (w.from_dict jwk ≡ ok key)

    Ends-IsRead :
        (k : ℕ) (jwk : Dict)
        → Lists (entries (p.documents k)) kid jwk
        → Ends (λ s. Unit {0}) IsRead Never (lift (w.from_dict jwk))
    Ends-IsRead k jwk l =
        Ends-lift _ (λ key s e u. (k, jwk, l, e))
          λ e s r u. let (key, m) = p.readable k jwk l in absurd (cc (r, m))

    -- the second search: the key is there
    abbrev Found : Option Dict → Client → Type 0
    Found o s = (k : ℕ) × (jwk : Dict) × (o ≡ some jwk) × Lists (entries (p.documents k)) kid jwk

    Ends-republished :
        Ends (λ s. Kept w c ttl n s × (s.jwks ≡ none)) Found Never (published_jwk w kid)
    unfolding published_jwk
    Ends-republished = Ends-bind _ _ Ends-new_jwks λ d.
        Ends-lift _
          (λ o s e (k, (q, uri, le, j, a)).
            let same = key_document q uri s.asked d j a in
            let (jwk, f) = keys_found q le in
            (q, jwk, cc (e, same, f), find_jwk-Lists kid (entries (p.documents q)) jwk f))
          λ e s r (k, (q, uri, le, j, a)).
            let same = key_document q uri s.asked d j a in
            let (jwk, f) = keys_found q le in absurd (cc (r, same, f))

    Ends-second_search : (o : Option Dict) → Ends (Found o) IsRead Never (second_search w o)
    Ends-second_search none = record { at = λ s (k, jwk, e, l). absurd (cc e) }
    Ends-second_search (some jwk) = record {
      at = λ s (k, j, e, l).
          (Ends-IsRead k jwk (subst (Lists (entries (p.documents k)) kid) (cc e) l)).at s tt;
    }

    Ends-search_again : Ends (Kept w c ttl n) IsRead Never (search_again w kid)
    unfolding search_again forget_jwks
    Ends-search_again =
        Ends-bind {Q = λ u s. Kept w c ttl n s × (s.jwks ≡ none)} _ _
          (record { at = λ s k. (forgotten-Kept w c ttl n s k, refl) })
          λ u. Ends-bind _ _ Ends-republished Ends-second_search

    Ends-first_search : (o : Option Dict) → Ends (Listed o) IsRead Never (first_search w kid o)
    Ends-first_search none = Ends-weaken _ Ends-search_again (λ s k. k.1) (λ a s k. k) λ e s k. k
    Ends-first_search (some jwk) = record {
      at = λ s (l, k). let (q, j) = l jwk refl in (Ends-IsRead q jwk j).at s tt;
    }

    Ends-key_with_id : Ends (Kept w c ttl n) IsRead Never (key_with_id w kid)
    unfolding key_with_id
    Ends-key_with_id = Ends-bind _ _ Ends-published Ends-first_search

  -- After any calls on a new client, provided each call of update_provider_config among them clears
  -- the cache or keeps the issuer, whatever keys are cached: when the provider always answers, with
  -- one metadata document and with documents of readable keys that from now on list the key id of the
  -- token, select_jwk_key returns a key made of an entry that one of these documents lists under it.
  pub select_jwk_key-IsRead :
      (c : OidcConfig) (os : List Operation) (token kid : String)
      → KeepIssuer w os (new_client c)
      → w.unverified_kid token ≡ ok (some kid)
      → is_nonempty kid ≡ true
      → (p : Publishes w
          (run_operations w os (new_client c)).config.issuer_url
          kid
          (run_operations w os (new_client c)).asked)
      → let s = run_operations w os (new_client c) in
        EndsIn (IsRead s.config s.cache_ttl_seconds s.asked kid p) Never (select_jwk_key w token s)
  unfolding select_jwk_key ◌>>=◌
  select_jwk_key-IsRead c os token kid kept header some_kid p =
      let s = run_operations w os (new_client c) in
      subst
        (λ r.
          EndsIn (IsRead s.config s.cache_ttl_seconds s.asked kid p) Never
            (continue r (with_kid w) s))
        (sym header)
        (subst
          (λ b.
            EndsIn (IsRead s.config s.cache_ttl_seconds s.asked kid p) Never
              ((if b then key_with_id w kid else raise (oidc "Token header is missing 'kid'")) s))
          (sym some_kid)
          ((Ends-key_with_id s.config s.cache_ttl_seconds s.asked kid p).at s
            (IsCached-Kept w s (run_operations-IsCached w c os kept))))
