-- ===== src/Jobs/History.antt =====
-- Any sequence of repository calls and dispatches, by the application, the API and the workers:
-- each runs in a transaction of its own.
pub mod Gone
pub mod Once
use cpkit.Base.{
  ℕ, suc, ◌<◌, ◌≤◌, String, ◌≡◌, refl, Bool, true, false, Option, none, some, List, [], ◌∷◌, ◌++◌,
  ◌⊎◌, inl, inr, arith, ◌==◌, ==_iff, if◌then◌else◌, if_split, not, Bool-cases, any, All, AllPairs,
  All-append, All-first_row, All-delete_rows, All-update_rows, AllPairs-delete_rows,
  AllPairs-update_rows, delete_rows_gone, delete_rows, update_rows,
}
use cpkit.Base.Exec.{ok, err, lift, pure, Result, ◌>>=◌}
use cpkit.Base.Exec.Keeps.{Keeps, Keeps-bind, Keeps-catch, keeps_rules}
use cpkit.Base.Value.{Value, Dict}
use cpkit.Jobs.Types.{QueueMessage, RecurringMessage, Job, Tables, seconds}
use cpkit.Jobs.Recurring.{Configs}
use cpkit.Jobs.Repository.{
  Payload, payload_value, Query, Statement, message_row, insert_row, insert_job, insert_task,
  task_row, insert_unless_there, recurring_row, is_recurring_of, is_twin, run_statement, queued_job,
  enqueue_message, ensure_recurring_message, enqueue_command, update_job, set_job_playbook_version,
  fail_zombie_jobs, create_task,
}
use cpkit.Jobs.Repository.Shape.{
  IsWellFormed, NotTwin, enqueue_message-IsWellFormed, ensure_recurring_message-IsWellFormed,
}
use cpkit.Jobs.Repository.Effects.{
  enqueue_command-IsWellFormed, update_job-IsWellFormed, set_job_playbook_version-IsWellFormed,
  fail_zombie_jobs-IsWellFormed, create_task-IsWellFormed,
}
use cpkit.Jobs.Dispatch.{
  Selection, Env, Callables, Fault, Parsed, Commit, commits, fails, Outcome, nothing, prepared,
  dispatch_error, raised, prepare, leave, left_empty, committed_as, claim_and_prepare_dispatch,
  with_start, next_start,
}
use cpkit.Jobs.Dispatch.Claim.{Post, Takes, TakesPlain, TakesRecurring}
use cpkit.Jobs.Dispatch.Explained.{IsPrepared, AfterPrepare, prepare-Post}

pub data Event (E H P : Type 0) : Type 0 where
  enqueue : ℕ → String → Payload → String → ℕ → Event E H P
  ensure : ℕ → (ℕ → ℕ) → RecurringMessage → Event E H P
  command : (Value → String) → ℕ → String → Payload → String → Event E H P
  status : ℕ → String → Event E H P
  version : ℕ → String → Event E H P
  sweep : ℕ → Event E H P
  task : ℕ → ℕ → ℕ → String → String → Event E H P
  dispatch : Callables E H P → Env → Configs → Selection → Event E H P

module _ {E H P : Type 0} where
  -- the id of a plain message that was handed to a handler
  abbrev pub handed : Outcome E H P → List ℕ
  handed (prepared m h p) = if m.is_recurring then [] else m.msg_id ∷ []
  handed _ = []

  -- The tables after an event, and the plain messages that it hands to a handler.
  pub step : Event E H P → Tables → List ℕ × Tables
  step (enqueue now ty p by start) t = ([], (enqueue_message now ty p by start t).1)
  step (ensure now random m) t = ([], (ensure_recurring_message now random m t).1)
  step (command str now ty p by) t = ([], (enqueue_command str now ty p by t).1)
  step (status id s) t = ([], (update_job id s t).1)
  step (version id v) t = ([], (set_job_playbook_version id v t).1)
  step (sweep now) t = ([], (fail_zombie_jobs now t).1)
  step (task job id at name desc) t = ([], (create_task job id at name desc t).1)
  step (dispatch app env configs sel) t =
      let (o, t') = claim_and_prepare_dispatch app env configs sel t in (handed o, t')

  pub run : List (Event E H P) → Tables → List ℕ × Tables
  run [] t = ([], t)
  run (e ∷ es) t = let (ids, t') = step e t in let (later, t'') = run es t' in (ids ++ later, t'')

  module _ (app : Callables E H P) (env : Env) (configs : Configs) (sel : Selection)
      (t : Tables) where
    -- a dispatch leaves the tables, with nothing handed out, or takes a message
    abbrev pub Moves : Outcome E H P × Tables → Type 0
    Moves (o, t') =
        ((t' ≡ t) × (handed o ≡ []))
        ⊎ ((m : QueueMessage) × Takes env configs sel t m t'
            × ((handed o ≡ []) ⊎ ((m.is_recurring ≡ false) × (handed o ≡ m.msg_id ∷ []))))

    committed_as-Moves :
        (c : Commit) (b : Bool) (t' : Tables) (m : QueueMessage) (h : H) (p : Parsed P)
        → Takes env configs sel t m t'
        → Moves (committed_as c b t t' m h p)
    committed_as-Moves commits false t' m h p k = inr (
      m,
      k,
      if_split (λ (l : List ℕ). (l ≡ []) ⊎ ((m.is_recurring ≡ false) × (l ≡ m.msg_id ∷ [])))
          m.is_recurring (λ _. inl refl) λ e. inr (e, refl),
    )
    committed_as-Moves commits true t' m h p k = inr (m, k, inl refl)
    committed_as-Moves (fails i q true) true t' m h p k = inr (m, k, inl refl)
    committed_as-Moves (fails i q false) true t' m h p k = inl (refl, refl)
    committed_as-Moves (fails i q true) false t' m h p k = inr (m, k, inl refl)
    committed_as-Moves (fails i q false) false t' m h p k = inl (refl, refl)

    leave-Moves :
        (r : Result (Fault E) (Option (QueueMessage × H × Parsed P)) × Tables)
        → Post (AfterPrepare app env configs sel t) r
        → Moves (leave env t r)
    leave-Moves (err f, t') post = inl (refl, refl)
    leave-Moves (ok none, t') post = left env.commit env.cleanup_raises
      where
        left : (c : Commit) (b : Bool) → Moves (left_empty c b t t')
        left commits false = inl (post, refl)
        left commits true = inl (post, refl)
        left (fails i q true) false = inl (post, refl)
        left (fails i q false) false = inl (refl, refl)
        left (fails i q true) true = inl (post, refl)
        left (fails i q false) true = inl (refl, refl)
    leave-Moves (ok (some (m, h, p)), t') post =
        committed_as-Moves env.commit env.cleanup_raises t' m h p post.taken

    pub dispatch-Moves : Moves (claim_and_prepare_dispatch app env configs sel t)
    unfolding claim_and_prepare_dispatch
    dispatch-Moves =
        if_split Moves (not env.connects) (λ _. inl (refl, refl))
          λ _.
            if_split Moves env.is_idle
              (λ _.
                leave-Moves (prepare app env configs sel t) (prepare-Post app env configs sel t))
              λ _. inl (refl, refl)
