-- ===== src/Runner/Removed.antt =====
-- The directories that the runner removes.
use cpkit.Base.{
  List, [], ◌∷◌, ◌&&◌, arith, ◌≡◌, ◌≢◌, refl, Bool, true, false, not, Option, none, some, String,
  All, delete_rows_gone,
}
use cpkit.Base.Exec.{pure}
use cpkit.Base.Exec.Ends.{EndsIn, Ends, Ends-gets, Ends-bind, Ends-weaken}
use cpkit.Base.Value.{Dict}
use cpkit.Runner.{FilePath, RunFailure, RunnerState, RunnerResult, Env, is_below}
use cpkit.Runner.Loaded.{remove_tree, when}
use cpkit.Runner.Launch.{
  credential_job_dir, retains, cleanup_of, cleanup_credentials, launch_cleanup, launch_runner,
}
use cpkit.Runner.Rules.{Ends-when, Ensures, Ensures-bind, Ensures-finally}

module _ (env : Env) where
  -- a directory that is left at `p` or below it is one that rmtree cannot remove
  abbrev pub IsGone : FilePath → RunnerState → Type 0
  IsGone p s = All (λ d. is_below p d ≡ true → env.stays d ≡ true) s.dirs

  stay :
      (p : FilePath) (ds : List FilePath)
      → All (λ d. (is_below p d && not (env.stays d)) ≡ false) ds
      → All (λ d. is_below p d ≡ true → env.stays d ≡ true) ds
  stay p [] h = tt
  stay p (d ∷ ds) h = (λ e. ground (arith, h.0, e), stay p ds h.1)

  pub Ensures-remove_tree : (p : FilePath) → Ensures (λ _. IsGone p) (remove_tree env p)
  unfolding remove_tree
  Ensures-remove_tree p = record { at = λ s h. stay p _ (delete_rows_gone _ s.dirs) }

  Ends-unless :
      (p : FilePath) (b : Bool)
      → Ends {E = RunFailure}
          (λ s. b ≡ false)
          (λ _. IsGone p)
          (λ _ _. Unit)
          (when (not b) (remove_tree env p))
  Ends-unless p true = record { at = λ s h. absurd (cc h) }
  Ends-unless p false = Ends-weaken _ (Ensures-remove_tree p) (λ s h. tt) (λ a s h. h) λ e s h. h

  -- what launch_cleanup leaves: where their directory was made, no credentials but those that rmtree
  -- cannot remove
  abbrev pub CredentialsGone : RunnerState → Type 0
  CredentialsGone s = s.credential_dir ≢ none → IsGone (credential_job_dir env) s

  not_retained :
      env.options.ssh_credential_retain_artifacts_on_failure ≡ false
      → (o : Option RunnerResult) → retains env o ≡ false
  not_retained off none = refl
  not_retained off (some r) = rw off refl

  module _ (on : env.options.ssh_credential_hook_enabled ≡ true)
      (off : env.options.ssh_credential_retain_artifacts_on_failure ≡ false) where
    Ensures-cleanup_credentials :
        (dir : FilePath) (name : String) (extra : Dict)
        → Ensures (λ _. IsGone (credential_job_dir env)) (cleanup_credentials env dir name extra)
    unfolding cleanup_credentials
    Ensures-cleanup_credentials dir name extra = Ensures-bind _ _ λ v. Ensures-bind _ _ λ _.
        Ends-bind _ _ (Ends-gets _ λ s h. not_retained off s.target_result)
          (Ends-unless (credential_job_dir env))

    Ensures-cleanup_of :
        (o : Option FilePath) (name : String) (extra : Dict) (s : RunnerState)
        → s.credential_dir ≡ o
        → EndsIn (λ _. CredentialsGone) (λ _ _. Unit) (cleanup_of env o name extra s)
    unfolding pure
    Ensures-cleanup_of none name extra s e = λ k. absurd (k e)
    Ensures-cleanup_of (some dir) name extra s e =
        (Ends-when on (
            Ends-weaken _ (Ensures-cleanup_credentials dir name extra) (λ s h. h) (λ a s h k. h)
              λ e s h. h)).at
          s tt

    Ensures-launch_cleanup :
        (name : String) (extra : Dict)
        → Ensures (λ _. CredentialsGone) (launch_cleanup env name extra)
    unfolding launch_cleanup
    Ensures-launch_cleanup name extra = record {
      at = λ s h. Ensures-cleanup_of s.credential_dir name extra s refl;
    }

    -- With the hooks on and no credentials retained after a failure: where launch_runner returns and
    -- the credential directory was made, each directory that is left at the job's credentials or
    -- below them is one that rmtree cannot remove.
    pub launch_runner-CredentialsGone :
        (name : String) (extra : Dict) (s : RunnerState)
        → EndsIn (λ _. CredentialsGone) (λ _ _. Unit) (launch_runner env name extra s)
    unfolding launch_runner
    launch_runner-CredentialsGone name extra s =
        (Ensures-finally _ _ (Ensures-launch_cleanup name extra)).at s tt
