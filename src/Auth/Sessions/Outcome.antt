-- ===== src/Auth/Sessions/Outcome.antt =====
-- What a session's claims rest on, and what becomes of the session.
use cpkit.Base.{
  ℕ, ◌+◌, ◌<◌, String, ◌≡◌, refl, Option, none, some, List, ◌⊎◌, inl, inr, arith, leb, if_split,
  Option-cases, eq_iff, first_row_passes, sym, ap, ◌∙◌, subst, first_row, update_rows, delete_rows,
}
use cpkit.Base.Exec.{Result, ok, err, pure, lift, ◌>>=◌}
use cpkit.Base.Exec.Cases.{lift-cases, bind-cases, catch-cases}
use cpkit.Base.Value.{Dict, get}
use cpkit.Jobs.Types.{seconds}
use cpkit.Auth.Sessions.{
  Session, AuthFailure, oidc, Provider, Sessions, is_session, with_tokens, some_nonempty,
  nonempty_text, or_token, token_expires_at, is_live, get_oidc_session, remove_row,
  delete_oidc_session, write_tokens, update_oidc_session, sign_in_again, store_tokens,
  with_id_token, exchange, exchanged, id_token_claims, refresh_by, refresh_session, stored_claims,
  session_claims, with_session, claims_of, claims_from_session, get_session, delete_session,
  update_session,
}

module _ (p : Provider) (authorize : Dict → Result AuthFailure Dict) where
  -- The provider gave a new id token, which is valid for `k`; `k` is authorized, and the session's
  -- row holds the token, encrypted, and its expiry.
  pub record Refreshed (s : Session) (k : Dict) (ss ss' : List Session) : Type 0 where
    pub id_token : String
    pub encrypted : String
    pub refresh : String
    pub expires : ℕ
    pub authorized : Dict
    pub valid : p.validate_jwt id_token ≡ ok k
    pub permits : authorize k ≡ ok authorized
    pub encrypts : p.encrypt_secret id_token ≡ ok encrypted
    pub expiry : token_expires_at p k ≡ ok expires
    pub stored :
        ss' ≡ update_rows (is_session s.session_id) (with_tokens encrypted refresh expires) ss

  -- a failure leaves the sessions, or has removed those of the id
  abbrev pub Lost : String → List Session → List Session → Type 0
  Lost id ss ss' = (ss' ≡ ss) ⊎ (ss' ≡ delete_rows (is_session id) ss)

  abbrev AfterRefresh : Session → List Session → Result AuthFailure Dict × List Session → Type 0
  AfterRefresh s ss (ok k, ss') = Refreshed s k ss ss'
  AfterRefresh s ss (err e, ss') = Lost s.session_id ss ss'

  sign_in_again-cases :
      {A : Type 0} (Q : Result AuthFailure A × List Session → Type 0) (id detail : String)
      (ss : List Session)
      → ((e : AuthFailure) (ss' : List Session) → Lost id ss ss' → Q (err e, ss'))
      → Q (sign_in_again p id detail ss)
  unfolding sign_in_again delete_oidc_session remove_row ◌>>=◌
  sign_in_again-cases Q id detail ss h = elim (Option-cases (p.call_fault delete_session)) [
    | inl e ↦ rw e (h (oidc detail) _ (inr refl))
    | inr (x, e) ↦ rw e (h _ ss (inl refl))
  ]

  -- the last step of a refresh
  written :
      (s : Session) (id_token : String) (ss : List Session) (k k' : Dict) (e r : String) (x : ℕ)
      → p.validate_jwt id_token ≡ ok k
      → authorize k ≡ ok k'
      → p.encrypt_secret id_token ≡ ok e
      → token_expires_at p k ≡ ok x
      → AfterRefresh s ss ((update_oidc_session p s.session_id e r x >>= λ _. pure k) ss)
  unfolding update_oidc_session write_tokens ◌>>=◌
  written s id_token ss k k' e r x valid permits encrypts expiry =
      elim (Option-cases (p.call_fault update_session)) [
        | inl n ↦ rw n (record {
          id_token = id_token;
          encrypted = e;
          refresh = r;
          expires = x;
          authorized = k';
          valid = valid;
          permits = permits;
          encrypts = encrypts;
          expiry = expiry;
          stored = refl;
        })
        | inr (f, n) ↦ rw n (inl refl)
      ]

  store_tokens-AfterRefresh :
      (s : Session) (token id_token : String) (next : Option String) (ss : List Session)
      → AfterRefresh s ss (store_tokens p authorize s token id_token next ss)
  unfolding store_tokens
  store_tokens-AfterRefresh s token id_token next ss =
      lift-cases (AfterRefresh s ss) (p.validate_jwt id_token) _ ss
        (λ k valid.
          lift-cases (AfterRefresh s ss) (authorize k) _ ss
            (λ k' permits.
              lift-cases (AfterRefresh s ss) (p.encrypt_secret id_token) _ ss
                (λ e encrypts.
                  lift-cases (AfterRefresh s ss) (p.encrypt_secret (or_token next token)) _ ss
                    (λ r _.
                      lift-cases (AfterRefresh s ss) (token_expires_at p k) _ ss
                        (λ x expiry. written s id_token ss k k' e r x valid permits encrypts expiry)
                        (λ _ _. inl refl))
                    (λ _ _. inl refl))
                (λ _ _. inl refl))
            (λ _ _. inl refl))
        (λ _ _. inl refl)

  with_id_token-AfterRefresh :
      (s : Session) (token : String) (payload : Dict) (o : Option String) (ss : List Session)
      → AfterRefresh s ss (with_id_token p authorize s token payload o ss)
  with_id_token-AfterRefresh s token payload none ss =
      sign_in_again-cases (AfterRefresh s ss) s.session_id _ ss (λ e ss' l. l)
  with_id_token-AfterRefresh s token payload (some id_token) ss =
      store_tokens-AfterRefresh s token id_token _ ss

  -- the exchange of a refresh token reads the sessions only, unless it fails
  abbrev AfterExchange :
      Session → List Session → Result AuthFailure (String × Dict) × List Session → Type 0
  AfterExchange s ss (ok a, ss') = ss' ≡ ss
  AfterExchange s ss (err e, ss') = Lost s.session_id ss ss'

  exchange_reads :
      (encrypted : String) (ss : List Session) → (exchange p authorize encrypted ss).1 ≡ ss
  unfolding exchange ◌>>=◌
  exchange_reads encrypted ss =
      lift-cases (λ x. x.1 ≡ ss) (p.decrypt_secret encrypted) _ ss
        (λ token _.
          lift-cases (λ x. x.1 ≡ ss) (p.refresh_tokens token) _ ss (λ _ _. refl) (λ _ _. refl))
        λ _ _. refl

  exchanged-AfterExchange :
      (s : Session) (encrypted : String) (ss : List Session)
      → AfterExchange s ss (exchanged p authorize s encrypted ss)
  unfolding exchanged
  exchanged-AfterExchange s encrypted ss =
      catch-cases (AfterExchange s ss) _ _ ss
        (λ a ss' e. ap (λ x. x.1) (sym e) ∙ exchange_reads encrypted ss)
        λ x ss' e.
          subst
            (λ z.
              AfterExchange s ss
                (sign_in_again p s.session_id "OIDC refresh failed. Please sign in again." z))
            (sym (ap (λ x. x.1) (sym e) ∙ exchange_reads encrypted ss))
            (sign_in_again-cases (AfterExchange s ss) s.session_id _ ss (λ e ss' l. l))

  refresh_session-AfterRefresh :
      (s : Session) (ss : List Session) → AfterRefresh s ss (refresh_session p authorize s ss)
  unfolding refresh_session
  refresh_session-AfterRefresh s ss = by_token (some_nonempty s.encrypted_refresh_token)
    where
      by_token : (o : Option String) → AfterRefresh s ss (refresh_by p authorize s o ss)
      by_token none = sign_in_again-cases (AfterRefresh s ss) s.session_id _ ss (λ e ss' l. l)
      by_token (some encrypted) =
          bind-cases (AfterRefresh s ss) (exchanged p authorize s encrypted) _ ss
            (λ a ss' e.
              subst
                (λ z.
                  AfterRefresh s ss
                    (with_id_token p authorize s a.0 a.1 (nonempty_text (get "id_token" a.1)) z))
                (sym (subst (AfterExchange s ss) e (exchanged-AfterExchange s encrypted ss)))
                (with_id_token-AfterRefresh s a.0 a.1 _ ss))
            (λ x ss' e. subst (AfterExchange s ss) e (exchanged-AfterExchange s encrypted ss))

  -- what the stored id token gives
  Decoded : String → List Session → Result AuthFailure Dict × List Session → Type 0
  Decoded encrypted ss x =
      (x.1 ≡ ss)
      × ((k : Dict)
          → x.0 ≡ ok k
          → (t : String) × (p.decrypt_secret encrypted ≡ ok t) × (p.validate_jwt t ≡ ok k))

  id_token_claims-Decoded :
      (encrypted : String) (ss : List Session)
      → Decoded encrypted ss (id_token_claims p authorize encrypted ss)
  unfolding id_token_claims ◌>>=◌ Decoded
  id_token_claims-Decoded encrypted ss =
      lift-cases (Decoded encrypted ss) (p.decrypt_secret encrypted) _ ss
        (λ t e. (refl, λ k v. (t, e, v))) λ f e. (refl, λ k v. cc v)

  -- the stored id token is valid for `k`
  pub record Current (s : Session) (k : Dict) (ss ss' : List Session) : Type 0 where
    pub id_token : String
    pub early : p.now + seconds p.refresh_leeway_seconds < s.token_expires_at
    pub decrypts : p.decrypt_secret s.encrypted_id_token ≡ ok id_token
    pub valid : p.validate_jwt id_token ≡ ok k
    pub kept : ss' ≡ ss

  abbrev AfterClaims : Session → List Session → Result AuthFailure Dict × List Session → Type 0
  AfterClaims s ss (ok k, ss') = Current s k ss ss' ⊎ Refreshed s k ss ss'
  AfterClaims s ss (err e, ss') = Lost s.session_id ss ss'

  weaken :
      (s : Session) (ss : List Session) (x : Result AuthFailure Dict × List Session)
      → AfterRefresh s ss x
      → AfterClaims s ss x
  weaken s ss (ok k, ss') h = inr h
  weaken s ss (err e, ss') h = h

  stored_claims-AfterClaims :
      (s : Session) (ss : List Session)
      → p.now + seconds p.refresh_leeway_seconds < s.token_expires_at
      → AfterClaims s ss (stored_claims p authorize s ss)
  unfolding stored_claims Decoded
  stored_claims-AfterClaims s ss early =
      catch-cases (AfterClaims s ss) (id_token_claims p authorize s.encrypted_id_token) _ ss
        (λ k ss' e.
          let d =
            subst (Decoded s.encrypted_id_token ss) e
              (id_token_claims-Decoded s.encrypted_id_token ss) in
          let (t, decrypts, valid) = d.1 k refl in
          inl (record {
            id_token = t;
            early = early;
            decrypts = decrypts;
            valid = valid;
            kept = d.0;
          }))
        λ x ss' e.
          subst (λ z. AfterClaims s ss (refresh_session p authorize s z))
            (sym
              (subst (Decoded s.encrypted_id_token ss) e
                (id_token_claims-Decoded s.encrypted_id_token ss)).0)
            (weaken s ss _ (refresh_session-AfterRefresh s ss))

  session_claims-AfterClaims :
      (s : Session) (ss : List Session) → AfterClaims s ss (session_claims p authorize s ss)
  unfolding session_claims
  session_claims-AfterClaims s ss =
      if_split (λ (m : Sessions Dict). AfterClaims s ss (m ss))
        (leb s.token_expires_at (p.now + seconds p.refresh_leeway_seconds))
        (λ _. weaken s ss _ (refresh_session-AfterRefresh s ss))
        λ e. stored_claims-AfterClaims s ss (ground (arith, e))

  -- The claims `c` of the id: of a session of that id that is live by both clocks, with claims `k`
  -- that its stored id token or a refreshed one is valid for and that are authorized.
  pub record Granted (id : String) (c : Dict) (ss ss' : List Session) : Type 0 where
    pub session : Session
    pub claims : Dict
    pub authorized : Dict
    pub found : first_row (is_live p id) ss ≡ some session
    pub live : p.now < session.session_expires_at
    pub source : Current session claims ss ss' ⊎ Refreshed session claims ss ss'
    pub permits : authorize claims ≡ ok authorized
    pub shown : c ≡ with_session p authorize id authorized

  abbrev pub Grants : String → List Session → Result AuthFailure Dict × List Session → Type 0
  Grants id ss (ok c, ss') = Granted id c ss ss'
  Grants id ss (err e, ss') = Lost id ss ss'

  same_id :
      (id : String) (s : Session) (ss : List Session)
      → first_row (is_live p id) ss ≡ some s
      → s.session_id ≡ id
  same_id id s ss e = ground (arith, eq_iff s.session_id id, first_row_passes (is_live p id) ss e)

  -- the claims are authorized once more
  authorized_again :
      (id : String) (s : Session) (ss : List Session)
      → first_row (is_live p id) ss ≡ some s
      → p.now < s.session_expires_at
      → (k : Dict) (ss' : List Session) → AfterClaims s ss (ok k, ss')
      → Grants id ss ((lift (authorize k) >>= λ c. pure (with_session p authorize id c)) ss')
  unfolding ◌>>=◌
  authorized_again id s ss found live k ss' h =
      lift-cases (Grants id ss) (authorize k) _ ss'
        (λ c permits. record {
          session = s;
          claims = k;
          authorized = c;
          found = found;
          live = live;
          source = h;
          permits = permits;
          shown = refl;
        })
        λ e refused. elim h [
          | inl current ↦ inl current.kept
          | inr refreshed ↦ cc (refreshed.permits, refused)
        ]

  claims_of-Grants :
      (id : String) (o : Option Session) (ss : List Session)
      → first_row (is_live p id) ss ≡ o
      → Grants id ss (claims_of p authorize id o ss)
  unfolding ◌>>=◌
  claims_of-Grants id none ss e = inl refl
  claims_of-Grants id (some s) ss e =
      if_split (λ (m : Sessions Dict). Grants id ss (m ss)) (leb s.session_expires_at p.now)
        (λ _. sign_in_again-cases (Grants id ss) id _ ss (λ f ss' l. l))
        λ late.
          bind-cases (Grants id ss) (session_claims p authorize s) _ ss
            (λ k ss' r.
              authorized_again id s ss e (ground (arith, late)) k ss'
                (subst (AfterClaims s ss) r (session_claims-AfterClaims s ss)))
            λ f ss' r.
              subst (λ i. Lost i ss ss') (same_id id s ss e)
                (subst (AfterClaims s ss) r (session_claims-AfterClaims s ss))

  -- For every provider, cipher, clock and database fault: where the claims of a session id are
  -- given, a session of that id was there, not expired by the database's clock nor by the
  -- process's; the claims are those of its stored id token, before the refresh deadline and with
  -- the sessions unchanged, or of a new id token that the session's row now holds encrypted; the
  -- provider validated them and `authorize` permits them. A failure leaves the sessions as they
  -- were or has removed those of that id.
  pub claims_from_session-Grants :
      (id : String) (ss : List Session) → Grants id ss (claims_from_session p authorize id ss)
  unfolding claims_from_session get_oidc_session ◌>>=◌
  claims_from_session-Grants id ss = elim (Option-cases (p.call_fault get_session)) [
    | inl e ↦ rw e (claims_of-Grants id (first_row (is_live p id) ss) ss refl)
    | inr (f, e) ↦ rw e (inl refl)
  ]
