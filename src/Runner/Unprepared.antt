-- ===== src/Runner/Unprepared.antt =====
-- launch_runner where the playbook that prepares the credentials cannot be loaded, and the one that
-- cleans them up can.
use cpkit.Base.{ℕ, String, ◌≡◌, refl, true, false, Option, none, some}
use cpkit.Base.Exec.{ok, err, catch}
use cpkit.Base.Exec.Ends.{EndsIn, Ends, Ends-lift, Ends-bind, Ends-if, Ends-weaken, Ends-catch}
use cpkit.Base.Value.{Dict}
use cpkit.Jobs.Repository.{set_job_playbook_version}
use cpkit.Runner.{RunFailure, RunnerState, LoadedPlaybook, Env, finally, FilePath, query}
use cpkit.Runner.Loaded.{make_dirs, load_playbook}
use cpkit.Runner.Launch.{
  set_loaded, set_credential_dir, credential_dir_of, prepare_credentials, launch_body,
  launch_failed, cleanup_of, launch_cleanup, launch_runner,
}
use cpkit.Runner.Rules.{Ends-when}
use cpkit.Runner.Stuck.{IsTaken, Ends-credentials-IsTaken}
use cpkit.Runner.Uncounted.{HasDir, never, Ends-launch_failed}

module _ (env : Env) where
  module _ (fine : (n : ℕ) → env.fault n ≡ none)
      (on : env.options.ssh_credential_hook_enabled ≡ true)
      (makes : env.makedirs_fails (credential_dir_of env) ≡ false) where
    -- the version is set, as the database raises nothing
    Ends-set_version :
        (version : String)
        → Ends
            (λ _. Unit)
            (λ _ _. Unit)
            (λ _ _. ⊥)
            (query env (set_job_playbook_version env.job_id version))
    unfolding query set_job_playbook_version
    Ends-set_version version = record { at = λ s h. rw (fine s.statements) tt }

    Ends-made : Ends (λ _. Unit) (λ _ _. Unit) (λ _ _. ⊥) (make_dirs env (credential_dir_of env))
    unfolding make_dirs
    Ends-made = record { at = λ s h. rw makes tt }

    module _ (e : RunFailure)
        (unprepared : load_playbook env env.options.ssh_credential_prepare_playbook ≡ err e) where
      Ends-prepare :
          (name : String) (l : LoadedPlaybook) (extra : Dict)
          → Ends (λ _. Unit) (λ _ _. ⊥) (λ _. HasDir env) (prepare_credentials env name l extra)
      unfolding prepare_credentials set_credential_dir
      Ends-prepare name l extra =
          Ends-bind _ _ (Ends-weaken _ Ends-made (λ s h. h) (λ a s h. h) λ e s h. absurd h) λ _.
            Ends-bind _ _ (record { at = λ s h. refl })
              λ _.
                Ends-bind {Q = λ _ _. ⊥} _ _
                  (Ends-lift _ (λ a s r h. absurd (cc (unprepared, r))) λ e s k h. h)
                  λ p. record { at = λ s h. absurd h }

      Ends-launch_body :
          (name : String) (l : LoadedPlaybook) (extra : Dict)
          → load_playbook env name ≡ ok l
          → Ends (λ _. Unit) (λ _ _. ⊥) (λ _. HasDir env) (launch_body env name extra)
      unfolding launch_body set_loaded
      Ends-launch_body name l extra loads =
          Ends-bind _ _
            (Ends-lift {Q = λ _ _. Unit} _ (λ a s r h. tt) λ e s r h. absurd (cc (loads, r)))
            λ l.
              Ends-bind _ _ (record { at = λ s h. tt })
                λ _.
                  Ends-bind _ _
                    (Ends-weaken _ (Ends-set_version l.version) (λ s h. h) (λ a s h. h)
                      λ e s h. absurd h)
                    λ _.
                      Ends-bind _ _
                        (Ends-if env.options.ssh_credential_hook_enabled _ _
                          (λ t. Ends-prepare name l extra) λ f. absurd (cc (on, f)))
                        λ o. record { at = λ s h. absurd h }

      Ends-tried :
          (name : String) (l : LoadedPlaybook) (extra : Dict)
          → load_playbook env name ≡ ok l
          → Ends
              (λ _. Unit)
              (λ _ s. HasDir env s × IsTaken env s)
              (λ _. HasDir env)
              (catch (launch_body env name extra) (launch_failed env name))
      Ends-tried name l extra loads =
          Ends-catch _ _
            (Ends-weaken _ (Ends-launch_body name l extra loads) (λ s h. h) (λ a s h. absurd h)
              λ e s h. h)
            λ e. Ends-launch_failed env name e

      cleanup-IsTaken :
          (o : Option FilePath) (name : String) (extra : Dict) (c : LoadedPlaybook)
          (s : RunnerState)
          → load_playbook env env.options.ssh_credential_cleanup_playbook ≡ ok c
          → o ≡ some (credential_dir_of env)
          → IsTaken env s
          → EndsIn (λ _ _. ⊥) (λ _ _. Unit) (cleanup_of env o name extra s)
      cleanup-IsTaken none name extra c s cleans h t = absurd (cc h)
      cleanup-IsTaken (some dir) name extra c s cleans h t =
          (Ends-when on (
              Ends-weaken _ (Ends-credentials-IsTaken env c cleans dir name extra) (λ s h. h)
                (λ a s h. h) λ e s h. tt)).at
            s t

      -- With the hooks on, a database that raises nothing and a credential directory that can be made:
      -- where the target's playbook and the one that cleans up can be loaded, and the one that prepares
      -- the credentials cannot, launch_runner raises an exception from every state, in place of the
      -- failed result.
      pub launch_runner_raises :
          (name : String) (extra : Dict) (l c : LoadedPlaybook) (s : RunnerState)
          → load_playbook env name ≡ ok l
          → load_playbook env env.options.ssh_credential_cleanup_playbook ≡ ok c
          → (e : RunFailure) × ((launch_runner env name extra s).0 ≡ err e)
      unfolding launch_runner finally launch_cleanup
      launch_runner_raises name extra l c s loads cleans =
          never env _ _ (launch_cleanup env name extra) ((Ends-tried name l extra loads).at s tt)
            λ s h t. cleanup-IsTaken s.credential_dir name extra c s cleans h t
