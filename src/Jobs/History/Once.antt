-- ===== src/Jobs/History/Once.antt =====
-- Over any history the tables stay well-formed, and a plain message is handed out at most once.
use cpkit.Base.{
  if_split, ℕ, ◌<◌, ◌≡◌, sym, subst, false, List, [], ◌∷◌, ◌++◌, inl, inr, arith, ◌==◌, All,
  AllPairs, All-append, All-first_row, delete_rows_gone,
}
use cpkit.Jobs.Types.{Tables}
use cpkit.Jobs.Recurring.{Configs}
use cpkit.Jobs.Repository.{update_job, set_job_playbook_version, fail_zombie_jobs}
use cpkit.Jobs.Repository.Shape.{
  IsWellFormed, enqueue_message-IsWellFormed, ensure_recurring_message-IsWellFormed,
}
use cpkit.Jobs.Repository.Effects.{
  enqueue_command-IsWellFormed, update_job-IsWellFormed, set_job_playbook_version-IsWellFormed,
  fail_zombie_jobs-IsWellFormed, create_task-IsWellFormed,
}
use cpkit.Jobs.Dispatch.{
  Callables, Outcome, prepared, Selection, Env, is_plain_due, claim_and_prepare_dispatch,
}
use cpkit.Jobs.History.{
  Event, enqueue, ensure, command, status, version, sweep, task, dispatch, step, run, handed, Moves,
  dispatch-Moves,
}
use cpkit.Jobs.History.Gone.{
  Takes-IsWellFormed, IsGone, enqueue_message-IsGone, ensure_recurring_message-IsGone,
  enqueue_command-IsGone, create_task-IsGone, Takes-IsGone,
}

-- A dispatch hands out a message that is in the queue, and that is gone afterwards.
module _ {E H P : Type 0} (app : Callables E H P) (env : Env) (configs : Configs) (sel : Selection)
    (t : Tables) where
  handed_absent :
      (d : ℕ) (x : Outcome E H P × Tables)
      → IsGone d t
      → Moves app env configs sel t x
      → IsGone d x.1 × All (λ i. (d == i) ≡ false) (handed x.0)
  handed_absent d x g (inl (same, nil_eq)) = (subst (IsGone d) (sym same) g, rw nil_eq tt)
  handed_absent d x g (inr (m, k, inl nil_eq)) =
      (Takes-IsGone d env configs sel t m x.1 k g, rw nil_eq tt)
  handed_absent d x g (inr (m, inr k, inr (r, _))) = cc (k.recurs, r)
  handed_absent d x g (inr (m, inl k, inr (r, one))) = (
    Takes-IsGone d env configs sel t m x.1 (inl k) g,
    rw one (
      ground (
        arith,
        All-first_row (λ r. (r.msg_id == d) ≡ false) (is_plain_due env sel) t.mq {a = m} g.absent
            k.first,
      ),
      tt,
    ),
  )

  handed-IsGone :
      (x : Outcome E H P × Tables)
      → IsWellFormed t
      → Moves app env configs sel t x
      → All (λ i. IsGone i x.1) (handed x.0)
  handed-IsGone x w (inl (same, nil_eq)) = rw nil_eq tt
  handed-IsGone x w (inr (m, k, inl nil_eq)) = rw nil_eq tt
  handed-IsGone x w (inr (m, inr k, inr (r, _))) = cc (k.recurs, r)
  handed-IsGone x w (inr (m, inl k, inr (r, one))) = rw one (
    subst (IsGone m.msg_id) (sym k.deleted) (record {
      issued =
          All-first_row (λ r. r.msg_id < t.mq_seq) (is_plain_due env sel) t.mq {a = m} w.issued
            k.first;
      absent = delete_rows_gone (λ r. r.msg_id == m.msg_id) t.mq;
    }),
    tt,
  )

  Moves-IsWellFormed :
      (x : Outcome E H P × Tables)
      → IsWellFormed t
      → Moves app env configs sel t x
      → IsWellFormed x.1
  Moves-IsWellFormed x w (inl (same, nil_eq)) = subst IsWellFormed (sym same) w
  Moves-IsWellFormed x w (inr (m, k, o)) = Takes-IsWellFormed env configs sel t m x.1 k w

-- An event keeps what is gone gone, hands out none of it, and what it hands out is gone after it.
module _ {E H P : Type 0} where
  step-IsGone :
      (d : ℕ) (e : Event E H P) (t : Tables)
      → IsGone d t
      → IsGone d (step e t).1 × All (λ i. (d == i) ≡ false) (step e t).0
  unfolding step update_job set_job_playbook_version fail_zombie_jobs
  step-IsGone d (enqueue now ty p by start) t g =
      ((enqueue_message-IsGone d now ty p by start).at t g, tt)
  step-IsGone d (ensure now random m) t g =
      ((ensure_recurring_message-IsGone d now random m).at t g, tt)
  step-IsGone d (command str now ty p by) t g =
      ((enqueue_command-IsGone d str now ty p by).at t g, tt)
  step-IsGone d (status id s) t g = (record { issued = g.issued; absent = g.absent }, tt)
  step-IsGone d (version id v) t g = (record { issued = g.issued; absent = g.absent }, tt)
  step-IsGone d (sweep now) t g = (record { issued = g.issued; absent = g.absent }, tt)
  step-IsGone d (task job id at name desc) t g =
      ((create_task-IsGone d job id at name desc).at t g, tt)
  step-IsGone d (dispatch app env configs sel) t g =
      handed_absent app env configs sel t d (claim_and_prepare_dispatch app env configs sel t) g
        (dispatch-Moves app env configs sel t)

  step-handed :
      (e : Event E H P) (t : Tables)
      → IsWellFormed t
      → IsWellFormed (step e t).1 × All (λ i. IsGone i (step e t).1) (step e t).0
  unfolding step
  step-handed (enqueue now ty p by start) t w =
      ((enqueue_message-IsWellFormed now ty p by start).at t w, tt)
  step-handed (ensure now random m) t w =
      ((ensure_recurring_message-IsWellFormed now random m).at t w, tt)
  step-handed (command str now ty p by) t w =
      ((enqueue_command-IsWellFormed str now ty p by).at t w, tt)
  step-handed (status id s) t w = ((update_job-IsWellFormed id s).at t w, tt)
  step-handed (version id v) t w = ((set_job_playbook_version-IsWellFormed id v).at t w, tt)
  step-handed (sweep now) t w = ((fail_zombie_jobs-IsWellFormed now).at t w, tt)
  step-handed (task job id at name desc) t w =
      ((create_task-IsWellFormed job id at name desc).at t w, tt)
  step-handed (dispatch app env configs sel) t w =
      let x = claim_and_prepare_dispatch app env configs sel t in
      let moves = dispatch-Moves app env configs sel t in
      (
        Moves-IsWellFormed app env configs sel t x w moves,
        handed-IsGone app env configs sel t x w moves,
      )

  run-IsGone :
      (d : ℕ) (es : List (Event E H P)) (t : Tables)
      → IsGone d t
      → All (λ i. (d == i) ≡ false) (run es t).0
  unfolding run
  run-IsGone d [] t g = tt
  run-IsGone d (e ∷ es) t g =
      All-append _ (step e t).0 (run es (step e t).1).0 (step-IsGone d e t g).1
        (run-IsGone d es (step e t).1 (step-IsGone d e t g).0)

  -- what was handed out earlier is not handed out later
  AllPairs-handed :
      (ids : List ℕ) (es : List (Event E H P)) (t : Tables)
      → AllPairs (λ a b. (a == b) ≡ false) ids
      → All (λ i. IsGone i t) ids
      → AllPairs (λ a b. (a == b) ≡ false) (run es t).0
      → AllPairs (λ a b. (a == b) ≡ false) (ids ++ (run es t).0)
  AllPairs-handed [] es t p g k = k
  AllPairs-handed (i ∷ ids) es t p g k = (
    All-append _ ids (run es t).0 p.0 (run-IsGone i es t g.0),
    AllPairs-handed ids es t p.1 g.1 k,
  )

  step_hands_one : (e : Event E H P) (t : Tables) → AllPairs (λ a b. (a == b) ≡ false) (step e t).0
  unfolding step
  step_hands_one (dispatch app env configs sel) t =
      one (claim_and_prepare_dispatch app env configs sel t).0
    where
      one : (o : Outcome E H P) → AllPairs (λ a b. (a == b) ≡ false) (handed o)
      one (prepared m h p) =
          if_split (AllPairs (λ a b. (a == b) ≡ false)) m.is_recurring (λ _. tt) (λ _. (tt, tt))
      one _ = tt
  step_hands_one _ t = tt

  -- Over any events from well-formed tables the tables stay well-formed, and no plain message is
  -- handed to a handler twice: the ids handed out, in the order of the dispatches, are distinct.
  pub run_at_most_once :
      (es : List (Event E H P)) (t : Tables)
      → IsWellFormed t
      → IsWellFormed (run es t).1 × AllPairs (λ a b. (a == b) ≡ false) (run es t).0
  unfolding run
  run_at_most_once [] t w = (w, tt)
  run_at_most_once (e ∷ es) t w =
      let (w', gone) = step-handed e t w in
      let (w'', once) = run_at_most_once es (step e t).1 w' in
      (w'', AllPairs-handed (step e t).0 es (step e t).1 (step_hands_one e t) gone once)
