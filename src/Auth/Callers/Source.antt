-- ===== src/Auth/Callers/Source.antt =====
-- Where the claims of a request come from.
use cpkit.Base.{
  String, ◌≡◌, refl, ap, subst, ◌∙◌, Bool, true, false, not, ◌&&◌, ◌||◌, Option, none, some, List,
  [], ◌⊎◌, inl, inr, arith, if_split, Bool-cases, delete_rows,
}
use cpkit.Base.Exec.{Result, ok, err, raise}
use cpkit.Base.Exec.Cases.{catch-cases}
use cpkit.Base.Value.{Dict}
use cpkit.Errors.{RepositoryError}
use cpkit.Auth.Claims.{is_nonempty}
use cpkit.Auth.ApiKeys.{ApiKey, Request, KeyFailure, refused, crypto, type_error, key_claims}
use cpkit.Auth.ApiKeys.Accepted.{Accepted, authenticated_claims, authenticate_request-Accepted}
use cpkit.Auth.Sessions.{Session, is_session, claims_from_session}
use cpkit.Auth.Sessions.Outcome.{Granted, Grants, Lost, claims_from_session-Grants}
use cpkit.Auth.Callers.{
  CallerFailure, Credentials, Manager, Callers, given, authorize_claims, of_key, checked_key,
  validate_api_key, by_headers, translated, claims_from_token, by_session, current_claims,
}

abbrev no_key : ApiKey
no_key = record {
  access_key = "";
  encrypted_secret_access_key = "";
  owner = "";
  valid_until = 0;
  roles = [];
}

module _ (m : Manager) (r : Request) where
  -- All three headers are there, the repository has a key for the access key, the request is
  -- accepted for it, and the claims are the key's.
  pub record ByKey (q : Credentials) (c : Dict) : Type 0 where
    pub access_key : String
    pub signature : String
    pub timestamp : String
    pub key : ApiKey
    pub sent :
        (q.access_key ≡ some access_key)
        × (q.signature ≡ some signature)
        × (q.timestamp ≡ some timestamp)
    pub found : m.find_key access_key ≡ ok (some key)
    pub accepted : Accepted m.signing r signature timestamp m.api_key_signature_ttl_seconds key
    pub shown : c ≡ key_claims key

  abbrev pub signs : Credentials → Bool
  signs q = given q.access_key || given q.signature || given q.timestamp

  -- No header is there, authentication is on, and the claims are granted by the cookie's session.
  pub record BySession (q : Credentials) (c : Dict) (ss ss' : List Session) : Type 0 where
    pub id : String
    pub unsigned : signs q ≡ false
    pub enabled : m.enabled ≡ true
    pub sent : q.session_token ≡ some id
    pub granted : Granted m.provider (authorize_claims m) id c ss ss'

  -- Authentication is off and no header is there.
  abbrev pub Disabled : Credentials → Dict → Type 0
  Disabled q c = (signs q ≡ false) × (m.enabled ≡ false) × (c ≡ m.auth_disabled_claims)

  abbrev pub Sourced :
      Credentials → List Session → Result CallerFailure Dict × List Session → Type 0
  Sourced q ss (ok c, ss') =
      (ByKey q c × (ss' ≡ ss)) ⊎ (Disabled q c × (ss' ≡ ss)) ⊎ BySession q c ss ss'
  Sourced q ss (err e, ss') =
      (ss' ≡ ss)
      ⊎ ((id : String) × (signs q ≡ false)
          × (q.session_token ≡ some id)
          × (ss' ≡ delete_rows (is_session id) ss))

  abbrev KeyFor : String → String → Result RepositoryError (Option ApiKey) → Dict → Type 0
  KeyFor s t o c =
      (k : ApiKey) × (o ≡ ok (some k))
      × Accepted m.signing r s t m.api_key_signature_ttl_seconds k
      × (c ≡ key_claims k)

  of_key_ok : (x : Result KeyFailure Dict) {c : Dict} → of_key m x ≡ ok c → x ≡ ok c
  of_key_ok (ok d) e = cc e
  of_key_ok (err (refused d)) e = cc e
  of_key_ok (err crypto) e = cc e
  of_key_ok (err type_error) e = cc e

  checked_key_ok :
      (s t : String) (o : Result RepositoryError (Option ApiKey)) {c : Dict}
      → checked_key m r s t o ≡ ok c
      → KeyFor s t o c
  checked_key_ok s t (err x) e = cc e
  checked_key_ok s t (ok none) e = absurd (
      (authenticate_request-Accepted m.signing r s t m.api_key_signature_ttl_seconds no_key).1 _
        (of_key_ok _ e))
  checked_key_ok s t (ok (some k)) e =
      let answered = of_key_ok _ e in
      let shown = authenticated_claims m.signing r s t m.api_key_signature_ttl_seconds k answered in
      (
        k,
        refl,
        (authenticate_request-Accepted m.signing r s t m.api_key_signature_ttl_seconds k).0.0
            (answered ∙ ap ok shown),
        shown,
      )

  by_headers-ByKey :
      (q : Credentials) (a s t : Option String) {c : Dict}
      → q.access_key ≡ a
      → q.signature ≡ s
      → q.timestamp ≡ t
      → by_headers m r a s t ≡ ok c
      → ByKey q c
  unfolding validate_api_key
  by_headers-ByKey q (some a) (some s) (some t) ea es et e =
      elim (Bool-cases (is_nonempty a && is_nonempty s && is_nonempty t)) [
        | inl full ↦
            let k = checked_key_ok s t (m.find_key a) (rw full at e) in
            record {
              access_key = a;
              signature = s;
              timestamp = t;
              key = k.0;
              sent = (ea, es, et);
              found = k.1;
              accepted = k.2;
              shown = k.3;
            }
        | inr short ↦ cc (rw short at e)
      ]
  by_headers-ByKey q none s t ea es et e = cc e
  by_headers-ByKey q (some a) none t ea es et e = cc e
  by_headers-ByKey q (some a) (some s) none ea es et e = cc e

  by_headers-Sourced :
      (q : Credentials) (ss : List Session) (x : Result CallerFailure Dict)
      → by_headers m r q.access_key q.signature q.timestamp ≡ x
      → Sourced q ss (x, ss)
  by_headers-Sourced q ss (ok c) e =
      inl (by_headers-ByKey q q.access_key q.signature q.timestamp refl refl refl e, refl)
  by_headers-Sourced q ss (err x) e = inl refl

  Lost-Sourced :
      (q : Credentials) (id : String) (ss ss' : List Session) (e : CallerFailure)
      → signs q ≡ false
      → q.session_token ≡ some id
      → Lost m.provider (authorize_claims m) id ss ss'
      → Sourced q ss (err e, ss')
  Lost-Sourced q id ss ss' e unsigned sent (inl kept) = inl kept
  Lost-Sourced q id ss ss' e unsigned sent (inr gone) = inr (id, unsigned, sent, gone)

  claims_from_token-Sourced :
      (q : Credentials) (id : String) (ss : List Session)
      → signs q ≡ false
      → m.enabled ≡ true
      → q.session_token ≡ some id
      → Sourced q ss (claims_from_token m r id ss)
  unfolding claims_from_token raise
  claims_from_token-Sourced q id ss unsigned enabled sent =
      let grants = claims_from_session-Grants m.provider (authorize_claims m) id ss in
      catch-cases (Sourced q ss) (claims_from_session m.provider (authorize_claims m) id) _ ss
        (λ c ss' e. inr (
          inr (record {
            id = id;
            unsigned = unsigned;
            enabled = enabled;
            sent = sent;
            granted = subst (Grants m.provider (authorize_claims m) id ss) e grants;
          })))
        λ x ss' e.
          Lost-Sourced q id ss ss' (translated m r x) unsigned sent
            (subst (Grants m.provider (authorize_claims m) id ss) e grants)

  by_session-Sourced :
      (q : Credentials) (token : Option String) (ss : List Session)
      → signs q ≡ false
      → m.enabled ≡ true
      → q.session_token ≡ token
      → Sourced q ss (by_session m r token ss)
  unfolding raise
  by_session-Sourced q none ss unsigned enabled sent = inl refl
  by_session-Sourced q (some id) ss unsigned enabled sent =
      if_split (λ (a : Callers Dict). Sourced q ss (a ss)) (is_nonempty id)
        (λ _. claims_from_token-Sourced q id ss unsigned enabled sent) (λ _. inl refl)

  -- For every configuration, clock, cipher, provider and database fault: where a request has claims,
  -- it has all three key headers and is accepted for the stored key whose claims these are, or it has
  -- none of them and either authentication is off and the claims are those configured for that, or
  -- it is on and the session of the cookie grants them. Where it has none, the sessions are as they
  -- were, or those of the cookie's id are removed, the latter with no key header only.
  pub current_claims-Sourced :
      (q : Credentials) (ss : List Session) → Sourced q ss (current_claims m r q ss)
  unfolding current_claims
  current_claims-Sourced q ss =
      if_split (Sourced q ss) (signs q) (λ _. by_headers-Sourced q ss _ refl)
        λ unsigned.
          if_split (Sourced q ss) (not m.enabled)
            (λ off. inr (inl ((unsigned, ground (arith, off), refl), refl)))
            λ on. by_session-Sourced q q.session_token ss unsigned (ground (arith, on)) refl
