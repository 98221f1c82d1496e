-- ===== src/Auth/Sessions.antt =====
-- OIDCSessionManager of cpkit/auth/oidc.py and the session repository of cpkit/auth/repositories.py:
-- server-side sessions whose tokens are refreshed when they are about to expire. The provider
-- client, the cipher and the clock enter as parameters; bytes are texts. The columns created_at and
-- updated_at, which nothing reads, are left out.
pub mod Outcome
use cpkit.Base.{
  ℕ, ◌+◌, String, Bool, true, false, not, ◌&&◌, Option, none, some, List, [], ◌∷◌, ltb, leb, str_eq,
  if◌then◌else◌, first_row, update_rows, delete_rows,
}
use cpkit.Base.Exec.{Result, ok, err, Exec, pure, raise, lift, gets, catch, ◌>>=◌, ◌>>◌}
use cpkit.Base.Value.{Value, null, text, Dict, get, put}
use cpkit.Errors.{RepositoryError, HttpException}
use cpkit.Jobs.Types.{seconds}
use cpkit.Auth.Claims.{is_nonempty}

-- OIDCSessionRecord
pub record Session : Type 0 where
  pub session_id : String
  pub encrypted_id_token : String
  pub encrypted_refresh_token : Option String
  pub token_expires_at : ℕ
  pub session_expires_at : ℕ

-- The exceptions: `oidc` is OIDCAuthenticationError, `runtime` any that is not named here.
pub data AuthFailure : Type 0 where
  oidc : (detail : String) → AuthFailure
  http : HttpException → AuthFailure
  repository : RepositoryError → AuthFailure
  runtime : AuthFailure

pub data Call : Type 0 where
  get_session delete_session update_session : Call

-- The provider client, the cipher, the clocks of the process and of the database, and what the
-- database may raise. `decrypt_secret` includes the decoding; `from_timestamp` is what the standard
-- library makes of a number of seconds, if it is one.
pub record Provider : Type 0 where
  pub now : ℕ
  pub database_now : ℕ
  pub refresh_leeway_seconds : ℕ
  pub session_max_age_seconds : ℕ
  pub decrypt_secret : String → Result AuthFailure String
  pub encrypt_secret : String → Result AuthFailure String
  pub refresh_tokens : String → Result AuthFailure Dict
  pub validate_jwt : String → Result AuthFailure Dict
  pub from_timestamp : Value → Option ℕ
  pub call_fault : Call → Option RepositoryError

abbrev pub Sessions : Type 0 → Type 0
Sessions A = Exec AuthFailure (List Session) A

abbrev pub is_session : String → Session → Bool
is_session id s = str_eq s.session_id id

abbrev pub reached : Option RepositoryError → Result AuthFailure (Unit {0})
reached none = ok tt
reached (some e) = err (repository e)

abbrev invalid_exp : Option ℕ → Result AuthFailure ℕ
invalid_exp none = err (oidc "Token has an invalid 'exp' claim.")
invalid_exp (some t) = ok t

abbrev missing_exp : AuthFailure
missing_exp = oidc "Token is missing 'exp'."

abbrev exp_time : (Value → Option ℕ) → Option Value → Result AuthFailure ℕ
exp_time from_timestamp none = err missing_exp
exp_time from_timestamp (some null) = err missing_exp
exp_time from_timestamp (some v) = invalid_exp (from_timestamp v)

-- `payload.get(k)` where it is a text that is not empty
abbrev nonempty_text : Option Value → Option String
nonempty_text (some (text s)) = if is_nonempty s then some s else none
nonempty_text _ = none

abbrev some_nonempty : Option String → Option String
some_nonempty none = none
some_nonempty (some s) = if is_nonempty s then some s else none

abbrev or_token : Option String → String → String
or_token none t = t
or_token (some s) t = s

abbrev pub with_tokens : String → String → ℕ → Session → Session
with_tokens id_token refresh_token expires s = record s {
  encrypted_id_token = id_token;
  encrypted_refresh_token = some refresh_token;
  token_expires_at = expires;
}

module _ (p : Provider) where
  unfoldable pub token_expires_at : Dict → Result AuthFailure ℕ
  token_expires_at claims = exp_time p.from_timestamp (get "exp" claims)

  abbrev pub is_live : String → Session → Bool
  is_live id s = is_session id s && ltb p.database_now s.session_expires_at

  unfoldable pub get_oidc_session : String → Sessions (Option Session)
  get_oidc_session id = do lift (reached (p.call_fault get_session)); gets (first_row (is_live id))

  unfoldable pub remove_row : String → Sessions (Unit {0})
  remove_row id ss = (ok tt, delete_rows (is_session id) ss)

  unfoldable pub delete_oidc_session : String → Sessions (Unit {0})
  delete_oidc_session id = do lift (reached (p.call_fault delete_session)); remove_row id

  unfoldable pub write_tokens : String → String → String → ℕ → Sessions (Unit {0})
  write_tokens id id_token refresh_token expires ss =
      (ok tt, update_rows (is_session id) (with_tokens id_token refresh_token expires) ss)

  unfoldable pub update_oidc_session : String → String → String → ℕ → Sessions (Unit {0})
  update_oidc_session id id_token refresh_token expires = do
    lift (reached (p.call_fault update_session))
    write_tokens id id_token refresh_token expires

  -- the session is removed, and the caller has to sign in
  unfoldable pub sign_in_again : {A : Type 0} → String → String → Sessions A
  sign_in_again id detail = delete_oidc_session id >>= λ _. raise (oidc detail)

  -- the optional encryption of a new session's refresh token
  abbrev encrypt_some : Option String → Result AuthFailure (Option String)
  encrypt_some none = ok none
  encrypt_some (some t) = elim (p.encrypt_secret t) [ ok e ↦ ok (some e) | err f ↦ err f ]

  module _ {S : Type 0} where
    unfoldable pub build_session_record :
        String → String → Option String → Dict → Exec AuthFailure S Session
    build_session_record id id_token refresh_token claims = do
      encrypted_id ← lift (p.encrypt_secret id_token)
      encrypted_refresh ← lift (encrypt_some (some_nonempty refresh_token))
      expires ← lift (token_expires_at claims)
      pure (record {
        session_id = id;
        encrypted_id_token = encrypted_id;
        encrypted_refresh_token = encrypted_refresh;
        token_expires_at = expires;
        session_expires_at = p.now + seconds p.session_max_age_seconds;
      })

  module _ (authorize_claims : Dict → Result AuthFailure Dict) where
    -- refresh_session, from the id token of the provider's answer on
    unfoldable pub store_tokens : Session → String → String → Option String → Sessions Dict
    store_tokens s refresh_token id_token next = do
      claims ← lift (p.validate_jwt id_token)
      lift (authorize_claims claims)
      encrypted_id ← lift (p.encrypt_secret id_token)
      encrypted_refresh ← lift (p.encrypt_secret (or_token next refresh_token))
      expires ← lift (token_expires_at claims)
      update_oidc_session s.session_id encrypted_id encrypted_refresh expires
      pure claims

    abbrev pub with_id_token : Session → String → Dict → Option String → Sessions Dict
    with_id_token s refresh_token payload none =
        sign_in_again s.session_id "OIDC refresh response missing id_token. Please sign in again."
    with_id_token s refresh_token payload (some id_token) =
        store_tokens s refresh_token id_token (nonempty_text (get "refresh_token" payload))

    -- the provider's answer to the refresh token
    unfoldable pub exchange : String → Sessions (String × Dict)
    exchange encrypted = do
      refresh_token ← lift (p.decrypt_secret encrypted)
      payload ← lift (p.refresh_tokens refresh_token)
      pure (refresh_token, payload)

    unfoldable pub exchanged : Session → String → Sessions (String × Dict)
    exchanged s encrypted =
        catch (exchange encrypted)
          λ _. sign_in_again s.session_id "OIDC refresh failed. Please sign in again."

    abbrev pub refresh_by : Session → Option String → Sessions Dict
    refresh_by s none = sign_in_again s.session_id "OIDC session expired."
    refresh_by s (some encrypted) = exchanged s encrypted >>= λ answer.
        with_id_token s answer.0 answer.1 (nonempty_text (get "id_token" answer.1))

    unfoldable pub refresh_session : Session → Sessions Dict
    refresh_session s = refresh_by s (some_nonempty s.encrypted_refresh_token)

    unfoldable pub id_token_claims : String → Sessions Dict
    id_token_claims encrypted = do
      id_token ← lift (p.decrypt_secret encrypted)
      lift (p.validate_jwt id_token)

    -- whatever is wrong with the stored id token, the session is refreshed
    unfoldable pub stored_claims : Session → Sessions Dict
    stored_claims s = catch (id_token_claims s.encrypted_id_token) λ _. refresh_session s

    unfoldable pub session_claims : Session → Sessions Dict
    session_claims s =
        if leb s.token_expires_at (p.now + seconds p.refresh_leeway_seconds)
        then refresh_session s
        else stored_claims s

    abbrev pub with_session : String → Dict → Dict
    with_session id claims = put "auth_type" (text "oidc") (put "_session_id" (text id) claims)

    abbrev pub claims_of : String → Option Session → Sessions Dict
    claims_of id none = raise (oidc "Not authenticated.")
    claims_of id (some s) =
        if leb s.session_expires_at p.now then sign_in_again id "OIDC session expired." else do
          claims ← session_claims s
          authorized ← lift (authorize_claims claims)
          pure (with_session id authorized)

    unfoldable pub claims_from_session : String → Sessions Dict
    claims_from_session id = get_oidc_session id >>= claims_of id
