-- ===== src/Auth/KeyService.antt =====
-- ApiKeysService of cpkit/auth/api_key_service.py over the table cpkit.api_keys, with its repository
-- in cpkit/auth/repositories.py. The clock, the random texts, the cipher, the format of a time, what
-- the statements raise and the hooks are parameters. A role is the text of its value, and no roles are
-- the empty list; a caller's
-- transaction, where there is one, is what the statements run in, and turns the hooks off.
pub mod Created
mod Examples
use cpkit.Base.{
  ℕ, String, Bool, true, false, not, Option, none, some, List, [], ◌∷◌, ◌++◌, map, leb, str_eq, any,
  if◌then◌else◌, first_row, where_rows, delete_rows, order_by,
}
use cpkit.Base.Exec.{Result, ok, err, Exec, pure, raise, lift, gets, catch, ◌>>=◌, ◌>>◌}
use cpkit.Base.Value.{Value, text, Dict}
use cpkit.Base.Texts.{followed_by, is_before}
use cpkit.Errors.{
  DatabaseError, unique_violation, RepositoryError, ServiceError, ServiceKind, Messages,
  no_messages, service_error, from_repository_error, translate_database_error,
}
use cpkit.Auth.Claims.{as_array}
use cpkit.Auth.ApiKeys.{ApiKey}

-- a time with no zone, which is taken as UTC, or an instant
pub data Moment : Type 0 where
  naive aware : (microseconds : ℕ) → Moment

pub record ApiKeyCreateRequest : Type 0 where
  pub valid_until : Moment
  pub roles : List String

pub record ApiKeySummary : Type 0 where
  pub access_key : String
  pub owner : String
  pub valid_until : ℕ
  pub roles : List String

pub record ApiKeyCreateResponse : Type 0 where
  pub access_key : String
  pub owner : String
  pub valid_until : ℕ
  pub roles : List String
  pub secret_access_key : String

-- `other` is any exception of the cipher or of a hook
pub data KeysFailure : Type 0 where
  repository : RepositoryError → KeysFailure
  service : ServiceError → KeysFailure
  other : KeysFailure

pub data KeysCall : Type 0 where
  get_key list_keys create_key delete_key : KeysCall

abbrev pub KeysHook : Type 0
KeysHook = Option (String → String → Dict → Result KeysFailure (Unit {0}))

pub record KeysEnv : Type 0 where
  pub fault : KeysCall → Option DatabaseError
  pub now : ℕ
  pub secret_text : String
  pub key_text : String
  pub encrypt_secret : String → Result KeysFailure String
  pub isoformat : ℕ → String
  pub created_hook : KeysHook
  pub deleted_hook : KeysHook

abbrev pub Keys : Type 0 → Type 0
Keys A = Exec KeysFailure (List ApiKey) A

abbrev pub has_access_key : String → ApiKey → Bool
has_access_key access_key k = str_eq k.access_key access_key

abbrev pub summary : ApiKey → ApiKeySummary
summary k = record {
  access_key = k.access_key;
  owner = k.owner;
  valid_until = k.valid_until;
  roles = k.roles;
}

abbrev is_listed_before : ApiKey → ApiKey → Bool
is_listed_before a b = is_before a.access_key b.access_key

abbrev failing : Option DatabaseError → String → Result KeysFailure (Unit {0})
failing none operation = ok tt
failing (some e) operation =
    err (repository (translate_database_error (λ _. false) e (some operation)))

abbrev wanted : Option String → List ApiKey → List ApiKey
wanted none ks = ks
wanted (some access_key) ks = where_rows (has_access_key access_key) ks

abbrev translated : Messages → KeysFailure → KeysFailure
translated m (repository e) = service (from_repository_error e m)
translated m f = f

unfoldable pub guarded : {A : Type 0} → Messages → Keys A → Keys A
guarded m action = catch action λ f. raise (translated m f)

abbrev about_key : String → String → String
about_key before access_key = followed_by before (followed_by access_key "'.")

abbrev messages : String → String → Messages
messages unavailable fallback = record no_messages {
  unavailable_message = some unavailable;
  fallback_message = some fallback;
}

abbrev create_messages : Messages
create_messages = record no_messages {
  unavailable_message = some "API keys could not be created right now.";
  conflict_message = some "That API key already exists.";
  validation_message = some "The API key request is invalid.";
  fallback_message = some "Unable to create API key.";
}

abbrev pub normalize_valid_until : Moment → ℕ
normalize_valid_until (naive t) = t
normalize_valid_until (aware t) = t

abbrev invalid : Option String → KeysFailure
invalid m = service (service_error ServiceKind.validation m none)

abbrev run_hook : KeysHook → Bool → String → String → Dict → Result KeysFailure (Unit {0})
run_hook none in_transaction actor action details = ok tt
run_hook (some hook) in_transaction actor action details =
    if in_transaction then ok tt else hook actor action details

module _ (env : KeysEnv) where
  abbrev call : {A : Type 0} → KeysCall → String → Keys A → Keys A
  call c operation q = lift (failing (env.fault c) operation) >>= λ _. q

  unfoldable pub get_api_key : String → Keys (Option ApiKey)
  get_api_key access_key =
      call get_key "api_keys.get" (gets λ ks. first_row (has_access_key access_key) ks)

  unfoldable pub list_rows : Option String → Keys (List ApiKeySummary)
  list_rows access_key =
      call list_keys "api_keys.list"
        (gets λ ks. map summary (order_by is_listed_before (wanted access_key ks)))

  -- the INSERT, with the primary key of the table
  unfoldable pub insert_key : ApiKey → Keys ApiKeySummary
  insert_key k ks =
      if any (has_access_key k.access_key) ks
      then (
        err (
            repository
              (translate_database_error (λ _. false) unique_violation (some "api_keys.create"))),
        ks,
      )
      else (ok (summary k), ks ++ (k ∷ []))

  unfoldable pub insert_api_key : ApiKey → Keys ApiKeySummary
  insert_api_key k = call create_key "api_keys.create" (insert_key k)

  unfoldable pub remove_key : String → Keys (Unit {0})
  remove_key access_key ks = (ok tt, delete_rows (has_access_key access_key) ks)

  unfoldable pub delete_key_row : String → Keys (Unit {0})
  delete_key_row access_key = call delete_key "api_keys.delete" (remove_key access_key)

  unfoldable pub list_api_keys : Option String → Keys (List ApiKeySummary)
  list_api_keys access_key =
      guarded (messages "API keys are temporarily unavailable." "Unable to load API keys.")
        (list_rows access_key)

  abbrev details : ApiKeySummary → List (String × Value) → Dict
  details s owner =
      ("access_key", text s.access_key)
      ∷ (owner
          ++ (("valid_until", text (env.isoformat s.valid_until))
              ∷ ("roles", as_array s.roles)
              ∷ []))

  abbrev pub new_access_key : String
  new_access_key = followed_by "cp-" env.key_text

  abbrev pub new_key_row : String → ApiKeyCreateRequest → String → ApiKey
  new_key_row actor_id request encrypted = record {
    access_key = new_access_key;
    encrypted_secret_access_key = encrypted;
    owner = actor_id;
    valid_until = normalize_valid_until request.valid_until;
    roles = request.roles;
  }

  abbrev pub response : ApiKeySummary → ApiKeyCreateResponse
  response created = record {
    access_key = created.access_key;
    owner = created.owner;
    valid_until = created.valid_until;
    roles = created.roles;
    secret_access_key = env.secret_text;
  }

  unfoldable pub encrypted_row : String → ApiKeyCreateRequest → Keys ApiKeySummary
  encrypted_row actor_id request = lift (env.encrypt_secret env.secret_text) >>= λ encrypted.
      insert_api_key (new_key_row actor_id request encrypted)

  unfoldable pub create_api_key : Bool → String → ApiKeyCreateRequest → Keys ApiKeyCreateResponse
  create_api_key in_transaction actor_id request =
      if leb (normalize_valid_until request.valid_until) env.now
      then raise (invalid (some "valid_until must be in the future."))
      else do
        created ← guarded create_messages (encrypted_row actor_id request)
        lift (
            run_hook env.created_hook in_transaction actor_id "API_KEY_CREATED"
              (details created []))
        pure (response created)

  abbrev key_messages : String → String → Messages
  key_messages fallback access_key =
      messages "API keys could not be updated right now." (about_key fallback access_key)

  abbrev delete_found : Bool → String → String → Option ApiKey → Keys (Unit {0})
  delete_found in_transaction actor_id access_key none =
      raise (service (service_error ServiceKind.not_found (some "API key not found.") none))
  delete_found in_transaction actor_id access_key (some k) = do
    guarded (key_messages "Unable to delete API key '" access_key) (delete_key_row access_key)
    lift (
        run_hook env.deleted_hook in_transaction actor_id "API_KEY_DELETED"
          (details (summary k) (("owner", text k.owner) ∷ [])))

  unfoldable pub delete_api_key : Bool → String → String → Keys (Unit {0})
  delete_api_key in_transaction actor_id access_key =
      guarded (key_messages "Unable to load API key '" access_key) (get_api_key access_key)
      >>= delete_found in_transaction actor_id access_key
