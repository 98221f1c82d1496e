-- ===== src/Auth/KeyService/Created.antt =====
-- A key that ApiKeysService of cpkit/auth/api_key_service.py creates, when it signs a request.
use cpkit.Base.{
  ℕ, ◌<◌, ◌≤◌, String, Bool, true, false, some, List, [], ◌∷◌, ◌++◌, ◌≡◌, refl, sym, ap, subst,
  arith, eq_iff, any, if◌then◌else◌, first_row, leb,
}
use cpkit.Base.Exec.{ok, err, raise}
use cpkit.Base.Exec.Ends.{EndsIn, Ends, Ends-pure, Ends-lift, Ends-if, Ends-bind, Ends-catch}
use cpkit.Base.Texts.{strip}
use cpkit.Jobs.Types.{seconds}
use cpkit.Auth.ApiKeys.{
  ApiKey, Request, Signing, is_ascii, parse_api_key_timestamp, distance, api_key_signature,
  key_claims, authenticate_request,
}
use cpkit.Auth.ApiKeys.Accepted.{authenticate_request-Accepted}
use cpkit.Auth.KeyService.{
  ApiKeyCreateRequest, ApiKeySummary, ApiKeyCreateResponse, KeysFailure, KeysEnv, has_access_key,
  summary, guarded, normalize_valid_until, insert_key, insert_api_key, encrypted_row,
  create_api_key, new_key_row,
}

-- A stored key as the response tells of it, in rows where it is the one that its access key finds.
pub record IsStored (env : KeysEnv) (actor : String) (request : ApiKeyCreateRequest)
    (r : ApiKeyCreateResponse) (rows : List ApiKey) : Type 0 where
  pub key : ApiKey
  pub found : first_row (has_access_key r.access_key) rows ≡ some key
  pub same_owner : key.owner ≡ actor
  pub same_roles : key.roles ≡ request.roles
  pub same_end : key.valid_until ≡ r.valid_until
  pub encrypted : env.encrypt_secret r.secret_access_key ≡ ok key.encrypted_secret_access_key

first_row-new :
    {A : Type 0} (p : A → Bool) (xs : List A) (x : A)
    → any p xs ≡ false
    → p x ≡ true
    → first_row p (xs ++ (x ∷ [])) ≡ some x
first_row-new p [] x none_there here = ground (arith, here)
first_row-new p (y ∷ xs) x none_there here =
    ground (arith, none_there, first_row-new p xs x (ground (arith, none_there)) here)

module _ (env : KeysEnv) (actor : String) (request : ApiKeyCreateRequest) where
  -- the row whose summary is returned
  record Inserted (s : ApiKeySummary) (rows : List ApiKey) : Type 0 where
    row : String
    found : first_row (has_access_key s.access_key) rows ≡ some (new_key_row env actor request row)
    told : s ≡ summary (new_key_row env actor request row)
    encrypts : env.encrypt_secret env.secret_text ≡ ok row

  abbrev Any : KeysFailure → List ApiKey → Type 0
  Any e rows = Unit

  Ends-insert_key :
      (row : String)
      → env.encrypt_secret env.secret_text ≡ ok row
      → Ends {0, 0} (λ rows. Unit) Inserted Any (insert_key env (new_key_row env actor request row))
  unfolding insert_key
  Ends-insert_key row e = record {
    at = λ rows u.
        inserted _ rows (any (has_access_key (new_key_row env actor request row).access_key) rows)
          refl;
  }
    where
      inserted :
          (x : KeysFailure) (rows : List ApiKey) (b : Bool)
          → any (has_access_key (new_key_row env actor request row).access_key) rows ≡ b
          → EndsIn Inserted Any (
              if b then (err x, rows) else (
                ok (summary (new_key_row env actor request row)),
                rows ++ (new_key_row env actor request row ∷ []),
              ))
      inserted x rows true h = tt
      inserted x rows false h = record {
        row = row;
        found = first_row-new _ rows _ h (
            ground (
              arith,
              eq_iff (new_key_row env actor request row).access_key
                  (new_key_row env actor request row).access_key,
            ));
        told = refl;
        encrypts = e;
      }

  Ends-encrypted_row : Ends {0, 0} (λ rows. Unit) Inserted Any (encrypted_row env actor request)
  unfolding encrypted_row insert_api_key
  Ends-encrypted_row =
      Ends-bind {Q = λ row rows. env.encrypt_secret env.secret_text ≡ ok row} _ _
        (Ends-lift _ (λ row rows e u. e) λ e rows r u. tt)
        λ row.
          Ends-bind {Q = λ u rows. env.encrypt_secret env.secret_text ≡ ok row} _ _
            (Ends-lift _ (λ u rows e k. k) λ e rows r k. tt)
            λ u. record { at = λ rows e. (Ends-insert_key row e).at rows tt }

  Ends-create_api_key :
      (in_transaction : Bool)
      → Ends {0, 0}
          (λ rows. Unit)
          (IsStored env actor request)
          Any
          (create_api_key env in_transaction actor request)
  unfolding create_api_key guarded raise
  Ends-create_api_key in_transaction =
      Ends-if (leb (normalize_valid_until request.valid_until) env.now) _ _
        (λ b. record { at = λ rows u. tt })
        λ b.
          Ends-bind _ _
            (Ends-catch {X = Any} _ _ Ends-encrypted_row λ e. record { at = λ rows u. tt })
            λ s.
              Ends-bind {Q = λ u. Inserted s} _ _ (Ends-lift _ (λ u rows e k. k) λ e rows r k. tt)
                λ u. Ends-pure _ λ rows i. record {
                  key = new_key_row env actor request i.row;
                  found = i.found;
                  same_owner = refl;
                  same_roles = refl;
                  same_end = sym (ap (λ x. x.valid_until) i.told);
                  encrypted = i.encrypts;
                }

  -- A created key lets its owner in: where the cipher gives back what was encrypted, a request that
  -- is signed with the secret of the response, before the response's end and with a timestamp that
  -- is one and young enough, is authenticated by the row that the access key finds after the
  -- creation, with the claims of that row, whose owner is the actor and whose roles are those of the
  -- creation's request.
  pub create_api_key-authenticate_request :
      (in_transaction : Bool) (rows rows' : List ApiKey) (r : ApiKeyCreateResponse)
      → create_api_key env in_transaction actor request rows ≡ (ok r, rows')
      → (g : Signing) → ((s e : String) → env.encrypt_secret s ≡ ok e → g.decrypt_secret e ≡ some s)
      → (req : Request) (signature timestamp : String) (max_age_seconds time : ℕ)
      → g.now < r.valid_until
      → parse_api_key_timestamp g timestamp ≡ some time
      → distance g.checked_at time ≤ seconds max_age_seconds
      → is_ascii (g.lower (strip signature)) ≡ true
      → api_key_signature g r.secret_access_key req timestamp req.body ≡ g.lower (strip signature)
      → (k : ApiKey) × (k.owner ≡ actor)
        × (k.roles ≡ request.roles)
        × (authenticate_request g req signature timestamp max_age_seconds
              (first_row (has_access_key r.access_key) rows')
            ≡ ok (key_claims k))
  create_api_key-authenticate_request in_transaction rows rows' r e g cipher req signature timestamp
        max_age_seconds time unexpired parses fresh ascii signed =
      let i =
        subst (EndsIn {0, 0} (IsStored env actor request) Any) e
          ((Ends-create_api_key in_transaction).at rows tt) in
      (
        i.key,
        i.same_owner,
        i.same_roles,
        subst
            (λ o.
              authenticate_request g req signature timestamp max_age_seconds o
              ≡ ok (key_claims i.key))
            (sym i.found)
            ((authenticate_request-Accepted g req signature timestamp max_age_seconds i.key).0.1
              (record {
                time = time;
                secret = r.secret_access_key;
                unexpired = subst (λ t. g.now < t) (sym i.same_end) unexpired;
                parses = parses;
                fresh = fresh;
                decrypts = cipher r.secret_access_key i.key.encrypted_secret_access_key i.encrypted;
                ascii = ascii;
                signed = signed;
              })),
      )
