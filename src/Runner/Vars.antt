-- ===== src/Runner/Vars.antt =====
-- The variables of a playbook's run, in cpkit/playbooks/ansible.py: those that the credential playbooks
-- are given, those that the credential files give, and how these join the playbook's own.
use cpkit.Base.{
  String, Bool, true, false, not, Option, none, some, List, [], ◌∷◌, ◌++◌, if◌then◌else◌, any,
}
use cpkit.Base.Value.{
  Value, null, number, text, array, object, Items, nil, cons, Fields, end, field, Dict, get, put,
  without, update, or_null, is_none, either_value, entries, truthy, is_nonempty,
}
use cpkit.Base.Texts.{strip, followed_by}
use cpkit.Runner.{FilePath, Env}

-- the host that three single variables name
abbrev pub named_host : Dict → Dict
named_host extra =
    (
      "hostname",
      either_value (or_null (get "target_hostname" extra)) (or_null (get "hostname" extra)),
    )
    ∷ (
      "ansible_host",
      either_value (or_null (get "target_ansible_host" extra)) (or_null (get "ansible_host" extra)),
    )
    ∷ (
      "ansible_user",
      either_value (or_null (get "target_ansible_user" extra)) (or_null (get "ansible_user" extra)),
    )
    ∷ []

abbrev pub objects_of : Items → List Dict
objects_of nil = []
objects_of (cons (object fs) vs) = entries fs ∷ objects_of vs
objects_of (cons _ vs) = objects_of vs

abbrev has_a_value : Dict → Bool
has_a_value d = any (λ (k, v). not (is_none v)) d

abbrev hosts_or_named : Option Value → Dict → List Dict
hosts_or_named (some (array vs)) extra = objects_of vs
hosts_or_named _ extra = if has_a_value (named_host extra) then named_host extra ∷ [] else []

unfoldable pub target_hosts_from_extra_vars : Dict → List Dict
target_hosts_from_extra_vars extra = hosts_or_named (get "cpkit_target_hosts" extra) extra

abbrev pub fields_of : Dict → Fields
fields_of [] = end
fields_of ((k, v) ∷ d) = field k v (fields_of d)

abbrev host_items : List Dict → Items
host_items [] = nil
host_items (h ∷ hs) = cons (object (fields_of h)) (host_items hs)

-- `d.setdefault(k, v)` where `v` is a value that is not None
abbrev set_default : String → Value → Dict → Dict
set_default k null d = d
set_default k v d = elim (get k d) [ none ↦ put k v d | some w ↦ d ]

abbrev pub with_hosts : List Dict → Dict → Dict
with_hosts [] d = d
with_hosts (h ∷ hs) d = set_default "target_ansible_user" (or_null (get "ansible_user" h)) (
    set_default "target_ansible_host" (or_null (get "ansible_host" h)) (
      set_default "target_hostname" (or_null (get "hostname" h))
        (put "cpkit_target_hosts" (array (host_items (h ∷ hs))) d)))

-- the arguments that the credential files give
abbrev pub flag : Bool → String → List String
flag true s = s ∷ []
flag false s = []

abbrev joined : List String → String
joined [] = ""
joined (s ∷ []) = s
joined (s ∷ t ∷ ts) = followed_by s (followed_by " " (joined (t ∷ ts)))

abbrev with_common_args : List String → Dict → Dict
with_common_args [] d = d
with_common_args (s ∷ ss) d = put "ansible_ssh_common_args" (text (joined (s ∷ ss))) d

module _ (env : Env) where
  unfoldable pub build_ssh_credential_hook_vars : FilePath → String → String → Dict → Dict
  unfolding target_hosts_from_extra_vars
  build_ssh_credential_hook_vars credential_dir name version extra =
      with_hosts (target_hosts_from_extra_vars extra) (
        update extra (
          ("cpkit_job_id", number env.job_id)
          ∷ ("cpkit_target_playbook_name", text name)
          ∷ ("cpkit_target_playbook_version", text version)
          ∷ ("cpkit_credential_dir", text (env.path_text credential_dir))
          ∷ []))

  abbrev file_in : FilePath → String → FilePath
  file_in dir name = dir ++ name ∷ []

  abbrev pub common_args : FilePath → List String
  common_args dir =
      flag (env.exists (file_in dir "id_key")) "-o IdentitiesOnly=yes"
      ++ flag (env.exists (file_in dir "id_key-cert.pub"))
          (followed_by "-o CertificateFile=" (env.path_text (file_in dir "id_key-cert.pub")))
      ++ flag (env.exists (file_in dir "known_hosts"))
          (followed_by "-o UserKnownHostsFile=" (env.path_text (file_in dir "known_hosts")))
      ++ flag (env.exists (file_in dir "ssh_config"))
          (followed_by "-F " (env.path_text (file_in dir "ssh_config")))

  unfoldable pub build_ssh_vars_from_credential_dir : FilePath → Dict
  build_ssh_vars_from_credential_dir dir = with_common_args (common_args dir) (
      if env.exists (file_in dir "id_key")
      then ("ansible_ssh_private_key_file", text (env.path_text (file_in dir "id_key"))) ∷ []
      else [])

  unfoldable pub credential_artifacts : FilePath → Value
  credential_artifacts dir = object (
      fields_of (
        ("id_key", Value.boolean (env.exists (file_in dir "id_key")))
        ∷ ("id_key_cert_pub", Value.boolean (env.exists (file_in dir "id_key-cert.pub")))
        ∷ ("known_hosts", Value.boolean (env.exists (file_in dir "known_hosts")))
        ∷ ("ssh_config", Value.boolean (env.exists (file_in dir "ssh_config")))
        ∷ []))

  abbrev text_or_str : Value → String
  text_or_str (text s) = s
  text_or_str v = env.str_value v

  -- `str(value or "").strip()`
  abbrev pub existing_args : Option Value → String
  existing_args none = strip ""
  existing_args (some v) = if truthy v then strip (text_or_str v) else strip ""

  abbrev pub both_args : String → String → String
  both_args existing given =
      if is_nonempty existing then followed_by existing (followed_by " " given) else given

  abbrev merged_args : Option Value → Dict → Dict
  merged_args none d = d
  merged_args (some v) d =
      if truthy v
      then put "ansible_ssh_common_args"
          (text (both_args (existing_args (get "ansible_ssh_common_args" d)) (text_or_str v))) d
      else d

  unfoldable pub merge_ssh_credential_vars : Dict → Dict → Dict
  merge_ssh_credential_vars extra ssh =
      merged_args (get "ansible_ssh_common_args" ssh)
        (update extra (without "ansible_ssh_common_args" ssh))
