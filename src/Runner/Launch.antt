-- ===== src/Runner/Launch.antt =====
-- launch_runner and _run_ssh_credential_cleanup of cpkit/playbooks/ansible.py. The statuses are the runner's
-- defaults. The log lines are left out.
use cpkit.Base.{
  ℕ, String, Bool, true, false, not, ◌&&◌, Option, none, some, List, [], ◌∷◌, str_eq, if◌then◌else◌,
}
use cpkit.Base.Exec.{Result, ok, err, pure, lift, gets, catch, ◌>>=◌, ◌>>◌}
use cpkit.Base.Value.{Value, null, boolean, text, object, end, Dict}
use cpkit.Jobs.Types.{Tables}
use cpkit.Jobs.Repository.{set_job_playbook_version}
use cpkit.Runner.{
  FilePath, LoadedPlaybook, RunnerResult, RunFailure, RunnerState, Env, Run, finally, query,
  set_status, record_internal_task,
}
use cpkit.Runner.Vars.{
  fields_of, build_ssh_credential_hook_vars, build_ssh_vars_from_credential_dir,
  credential_artifacts, merge_ssh_credential_vars,
}
use cpkit.Runner.Loaded.{
  remove_tree, when, load_playbook, make_dirs, result_now, result_after_failure, record_failure,
  run_loaded_playbook,
}

module _ (env : Env) where
  abbrev text_or_null : Option String → Value
  text_or_null none = null
  text_or_null (some t) = text t

  abbrev hook_report : String → Option String → String → Value
  hook_report name version status = object (
      fields_of (
        ("enabled", boolean true)
        ∷ ("playbook_name", text name)
        ∷ ("playbook_version", text_or_null version)
        ∷ ("status", text status)
        ∷ []))

  -- _run_ssh_credential_cleanup, from the cleanup playbook on
  unfoldable pub run_cleanup : LoadedPlaybook → FilePath → String → String → Dict → Run (Unit {0})
  run_cleanup cleanup credential_dir name version extra = do
    result ←
        run_loaded_playbook env env.options.ssh_credential_cleanup_playbook cleanup
          (build_ssh_credential_hook_vars env credential_dir name version extra)
          "ssh-credential-cleanup" false
    record_internal_task env "SSH_CREDENTIAL_CLEANUP" (
        hook_report env.options.ssh_credential_cleanup_playbook result.playbook_version
          result.status)

  abbrev pub cleanup_with :
      Result RunFailure LoadedPlaybook → FilePath → String → String → Dict → Run (Unit {0})
  cleanup_with (err e) credential_dir name version extra = pure tt
  cleanup_with (ok cleanup) credential_dir name version extra =
      run_cleanup cleanup credential_dir name version extra

  unfoldable pub run_ssh_credential_cleanup : FilePath → String → String → Dict → Run (Unit {0})
  unfolding load_playbook
  run_ssh_credential_cleanup credential_dir name version extra =
      cleanup_with (load_playbook env env.options.ssh_credential_cleanup_playbook) credential_dir
        name version extra

  abbrev pub credential_dir_of : FilePath
  credential_dir_of = env.options.ssh_credential_dir_root ∷ env.job_text ∷ "ssh" ∷ []

  abbrev pub credential_job_dir : FilePath
  credential_job_dir = env.options.ssh_credential_dir_root ∷ env.job_text ∷ []

  unfoldable pub set_loaded : LoadedPlaybook → Run (Unit {0})
  set_loaded l s = (ok tt, record s { loaded_playbook = some l })

  unfoldable pub set_credential_dir : FilePath → Run (Unit {0})
  set_credential_dir p s = (ok tt, record s { credential_dir = some p })

  unfoldable pub set_target : RunnerResult → Run (Unit {0})
  set_target r s = (ok tt, record s { target_result = some r })

  -- the variables of the target's run, or none where the credentials could not be prepared
  abbrev pub prepared_vars : Dict → RunnerResult → Run (Option Dict)
  prepared_vars extra result =
      if not (str_eq result.status "successful")
      then (set_status env "FAILED" >>= λ _. pure none)
      else (record_internal_task env "SSH_CREDENTIAL_ARTIFACTS"
            (credential_artifacts env credential_dir_of)
          >>= λ _. pure (
              some (
                merge_ssh_credential_vars env extra
                  (build_ssh_vars_from_credential_dir env credential_dir_of))))

  unfoldable pub prepare_credentials : String → LoadedPlaybook → Dict → Run (Option Dict)
  prepare_credentials name loaded extra = do
    make_dirs env credential_dir_of
    set_credential_dir credential_dir_of
    prepare ← lift (load_playbook env env.options.ssh_credential_prepare_playbook)
    result ←
        run_loaded_playbook env env.options.ssh_credential_prepare_playbook prepare
          (build_ssh_credential_hook_vars env credential_dir_of name loaded.version extra)
          "ssh-credential-prepare" false
    record_internal_task env "SSH_CREDENTIAL_PREPARE" (
        hook_report env.options.ssh_credential_prepare_playbook result.playbook_version
          result.status)
    prepared_vars extra result

  abbrev pub vars_of : String → LoadedPlaybook → Dict → Run (Option Dict)
  vars_of name loaded extra =
      if env.options.ssh_credential_hook_enabled
      then prepare_credentials name loaded extra
      else pure (some extra)

  abbrev pub run_target : String → LoadedPlaybook → Option Dict → Run RunnerResult
  run_target name loaded none = result_now "failed" name (some loaded)
  run_target name loaded (some vars) = do
    result ← run_loaded_playbook env name loaded vars "target" true
    set_target result
    pure result

  unfoldable pub launch_body : String → Dict → Run RunnerResult
  launch_body name extra = do
    loaded ← lift (load_playbook env name)
    set_loaded loaded
    query env (set_job_playbook_version env.job_id loaded.version)
    vars ← vars_of name loaded extra
    run_target name loaded vars

  -- the `except Exception` of launch_runner
  unfoldable pub launch_failed : String → RunFailure → Run RunnerResult
  launch_failed name e = do
    set_status env "FAILED"
    record_failure env e
    loaded ← gets λ s. s.loaded_playbook
    result_after_failure name loaded

  abbrev pub retains : Option RunnerResult → Bool
  retains none = false
  retains (some r) =
      env.options.ssh_credential_retain_artifacts_on_failure && not (str_eq r.status "successful")

  abbrev version_or_empty : Option LoadedPlaybook → String
  version_or_empty none = ""
  version_or_empty (some l) = l.version

  unfoldable pub cleanup_credentials : FilePath → String → Dict → Run (Unit {0})
  cleanup_credentials credential_dir name extra = do
    version ← gets λ s. version_or_empty s.loaded_playbook
    run_ssh_credential_cleanup credential_dir name version extra
    retained ← gets λ s. retains s.target_result
    when (not retained) (remove_tree env credential_job_dir)

  abbrev pub cleanup_of : Option FilePath → String → Dict → Run (Unit {0})
  cleanup_of none name extra = pure tt
  cleanup_of (some dir) name extra =
      when env.options.ssh_credential_hook_enabled (cleanup_credentials dir name extra)

  -- the `finally` of launch_runner
  unfoldable pub launch_cleanup : String → Dict → Run (Unit {0})
  launch_cleanup name extra s = cleanup_of s.credential_dir name extra s

  unfoldable pub launch_runner : String → Dict → Run RunnerResult
  launch_runner name extra =
      finally (catch (launch_body name extra) (launch_failed name)) (launch_cleanup name extra)

-- the runner before launch_runner, over some tables and directories
abbrev pub new_runner : ℕ → Tables → List FilePath → RunnerState
new_runner counter tables dirs = record {
  run_data = object end;
  counter = counter;
  tables = tables;
  dirs = dirs;
  statements = 0;
  loaded_playbook = none;
  credential_dir = none;
  target_result = none;
}
