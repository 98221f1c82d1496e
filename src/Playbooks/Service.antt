-- ===== src/Playbooks/Service.antt =====
-- PlaybooksService of cpkit/playbooks/service.py: each operation is a row of statements, with no
-- transaction round them, whose repository errors are translated; any other exception passes.
use cpkit.Base.{String, Option, none, some, List, [], ◌∷◌, map, str_eq, if◌then◌else◌, last_of}
use cpkit.Base.Exec.{Result, ok, err, pure, raise, lift, catch, ◌>>=◌, ◌>>◌}
use cpkit.Base.Texts.{sorted, followed_by, is_before}
use cpkit.Errors.{Messages, no_messages, ServiceKind, service_error, from_repository_error}
use cpkit.Playbooks
use cpkit.Playbooks.{
  Playbook, PlaybookFailure, repository, service, attribute_of_none, undecodable, Env, Query,
  list_playbook_names, get_default_playbook, list_playbook_versions, create_playbook,
  delete_playbook,
}

pub record PlaybookResponse : Type 0 where
  pub name : String
  pub version : String
  pub default_version : String
  pub available_versions : List String
  pub original_content : String
  pub modified_content : String

pub record PlaybookVersionResponse : Type 0 where
  pub playbook_version : String
  pub original_content : String
  pub modified_content : String
  pub available_versions : List String
  pub default_version : String

abbrev translated : Messages → PlaybookFailure → PlaybookFailure
translated m (repository e) = service (from_repository_error e m)
translated m f = f

-- `except RepositoryError as err: raise from_repository_error(err, …)`
unfoldable pub guarded : {A : Type 0} → Messages → Query A → Query A
guarded m action = catch action λ f. raise (translated m f)

abbrev quoted : String → String → String → String
quoted before name after = followed_by before (followed_by name after)

abbrev messages : String → String → Messages
messages unavailable fallback = record no_messages {
  unavailable_message = some unavailable;
  fallback_message = some fallback;
}

abbrev unavailable : String
unavailable = "Playbooks are temporarily unavailable."

abbrev pub load_messages : String → Messages
load_messages name = messages unavailable (quoted "Unable to load playbook '" name "'.")

abbrev pub default_messages : String → Messages
default_messages name =
    messages "Playbook updates are temporarily unavailable."
      (quoted "Unable to set default playbook version for '" name "'.")

abbrev pub delete_messages : String → Messages
delete_messages name =
    messages "Playbook updates are temporarily unavailable."
      (quoted "Unable to delete playbook version for '" name "'.")

abbrev pub save_messages : String → Messages
save_messages name =
    record (messages "Playbook saves are temporarily unavailable."
      (quoted "Unable to save playbook '" name "'.")) {
        conflict_message =
            some (quoted "A conflicting playbook version already exists for '" name "'.");
      }

module _ (env : Env) where
  -- the loop of _find_default_version: the greatest formatted default so far, and its version
  abbrev pub default_step : String × String → Playbook → String × String
  default_step (running, selected) r = elim r.default_version [
    | none ↦ (running, selected)
    | some d ↦
        if is_before running (env.strftime d)
        then (env.strftime d, env.strftime r.version)
        else (running, selected)
  ]

  unfoldable pub default_loop : String × String → List Playbook → String × String
  default_loop acc [] = acc
  default_loop acc (r ∷ rs) = default_loop (default_step acc r) rs

  abbrev pub or_last : String → List Playbook → Result PlaybookFailure String
  or_last selected (r ∷ rs) =
      if str_eq selected "" then ok (env.strftime (last_of r rs).version) else ok selected
  or_last selected [] =
      if str_eq selected ""
      then err
          (service (service_error ServiceKind.not_found (some "No playbook versions found.") none))
      else ok selected

  unfoldable pub find_default_version : List Playbook → Result PlaybookFailure String
  unfolding default_loop
  find_default_version versions = or_last (default_loop ("", "") versions).1 versions

  abbrev decoded : Option String → Result PlaybookFailure String
  decoded none = err undecodable
  decoded (some s) = ok s

  abbrev pub decode_content : Option String → Result PlaybookFailure String
  decode_content none = ok ""
  decode_content (some c) = decoded (env.decompress c)

  unfoldable pub decode_playbook : Option Playbook → Result PlaybookFailure String
  decode_playbook none = err attribute_of_none
  decode_playbook (some r) = decode_content r.content

  -- the versions as texts, in order
  abbrev pub version_strings : List Playbook → List String
  version_strings versions = sorted (map (λ r. env.strftime r.version) versions)

  -- what the hook does, if one is configured
  abbrev pub run_hook : Option (Result PlaybookFailure (Unit {0})) → Query (Unit {0})
  run_hook none = pure tt
  run_hook (some r) = lift r

  unfoldable pub list_playbooks : Query (List String)
  list_playbooks =
      guarded (messages unavailable "Unable to list playbooks.") (list_playbook_names env)

  unfoldable pub get_playbook : String → Query PlaybookResponse
  get_playbook name = do
    versions ← guarded (load_messages name) (list_playbook_versions env name)
    selected ← lift (find_default_version versions)
    playbook ← guarded (load_messages name) (Playbooks.get_playbook env name selected)
    content ← lift (decode_playbook playbook)
    pure (record {
      name = name;
      version = selected;
      default_version = selected;
      available_versions = version_strings versions;
      original_content = content;
      modified_content = content;
    })

  -- the answer for a version
  abbrev pub version_response : String → String → String → List Playbook → PlaybookVersionResponse
  version_response version default content versions = record {
    playbook_version = version;
    original_content = content;
    modified_content = content;
    available_versions = version_strings versions;
    default_version = default;
  }

  abbrev pub load_version : String → String → Query (List Playbook × Option Playbook)
  load_version name version = do
    versions ← list_playbook_versions env name
    playbook ← Playbooks.get_playbook env name version
    pure (versions, playbook)

  unfoldable pub get_playbook_version : String → String → Query PlaybookVersionResponse
  get_playbook_version name version = do
    loaded ← guarded (load_messages name) (load_version name version)
    content ← lift (decode_playbook loaded.1)
    default ← lift (find_default_version loaded.0)
    pure (version_response version default content loaded.0)

  unfoldable pub set_default_playbook : String → String → String → Query (Unit {0})
  set_default_playbook name version updated_by =
      guarded (default_messages name)
        do Playbooks.set_default_playbook env name version updated_by; run_hook env.hook

  abbrev pub formatted_version : Option Playbook → Result PlaybookFailure String
  formatted_version none = err attribute_of_none
  formatted_version (some r) = ok (env.strftime r.version)

  abbrev pub cannot_delete_default : PlaybookFailure
  cannot_delete_default =
      service
        (service_error ServiceKind.validation (some "Cannot delete the default version.") none)

  abbrev pub remove_and_load : String → String → String → Query (List Playbook × String)
  remove_and_load name version default = do
    delete_playbook env name version
    run_hook env.hook
    versions ← list_playbook_versions env name
    playbook ← Playbooks.get_playbook env name default
    content ← lift (decode_playbook playbook)
    pure (versions, content)

  -- delete_playbook_version, from the formatted default version on
  abbrev pub delete_unless_default : String → String → String → Query PlaybookVersionResponse
  delete_unless_default name version default =
      if str_eq version default then raise cannot_delete_default else do
        rest ← guarded (delete_messages name) (remove_and_load name version default)
        pure (version_response default default rest.1 rest.0)

  unfoldable pub delete_playbook_version : String → String → Query PlaybookVersionResponse
  delete_playbook_version name version = do
    playbook ← guarded (delete_messages name) (get_default_playbook env name)
    default ← lift (formatted_version playbook)
    delete_unless_default name version default

  abbrev pub create_and_list : String → String → String → Query (String × List Playbook)
  create_and_list name content created_by = do
    saved ← create_playbook env name (env.compress content) created_by
    run_hook env.hook
    versions ← list_playbook_versions env name
    pure (env.strftime saved.version, versions)

  unfoldable pub save_playbook : String → String → String → Query PlaybookVersionResponse
  save_playbook name content created_by = do
    saved ← guarded (save_messages name) (create_and_list name content created_by)
    default ← lift (find_default_version saved.1)
    pure (version_response saved.0 default content saved.1)
