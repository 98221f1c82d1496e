-- ===== src/Jobs/History/Gone.antt =====
-- An id that was issued and that no row carries any more: no call brings it back.
use cpkit.Errors.{DatabaseError}
use cpkit.Base.{
  if_split, ℕ, ◌+◌, ◌<◌, String, ◌≡◌, refl, sym, subst, false, Option, List, [], ◌∷◌, inl, inr,
  arith, ◌==◌, Bool-cases, any, All, All-append, All-delete_rows, All-update_rows,
  AllPairs-delete_rows, AllPairs-update_rows,
}
use cpkit.Base.Exec.{Result, ok, err, lift, pure, ◌>>=◌}
use cpkit.Base.Exec.Keeps.{Keeps, Keeps-bind, keeps_rules}
use cpkit.Base.Value.{Value}
use cpkit.Jobs.Types.{QueueMessage, RecurringMessage, Job, Task, Tables, seconds}
use cpkit.Jobs.Recurring.{Configs}
use cpkit.Jobs.Repository.{
  Payload, payload_value, Statement, message_row, insert_row, insert_job, insert_task,
  insert_unless_there, recurring_row, is_recurring_of, is_twin, run_statement, queued_job,
  enqueue_message, ensure_recurring_message, enqueue_command, create_task, is_task,
}
use cpkit.Jobs.Repository.Shape.{IsWellFormed, NotTwin}
use cpkit.Jobs.Dispatch.{Selection, Env, with_start, next_start}
use cpkit.Jobs.Dispatch.Claim.{Takes}

-- A row keeps its id, type and kind when it is rescheduled.
module _ (env : Env) (configs : Configs) (sel : Selection) (t : Tables) (m : QueueMessage) where
  pub Takes-IsWellFormed :
      (t' : Tables) → Takes env configs sel t m t' → IsWellFormed t → IsWellFormed t'
  Takes-IsWellFormed t' (inl k) w = subst IsWellFormed (sym k.deleted) (record {
    issued = All-delete_rows _ (λ r. r.msg_id == m.msg_id) t.mq w.issued;
    rows = AllPairs-delete_rows NotTwin (λ r. r.msg_id == m.msg_id) t.mq w.rows;
    jobs_issued = w.jobs_issued;
    jobs_distinct = w.jobs_distinct;
    tasks_distinct = w.tasks_distinct;
    tasks_owned = w.tasks_owned;
  })
  Takes-IsWellFormed t' (inr k) w = subst IsWellFormed (sym k.rescheduled) (record {
    issued =
        All-update_rows _ (λ r. r.msg_id == k.old.msg_id) (with_start (next_start env k.config))
          t.mq (λ a h. h) w.issued;
    rows =
        AllPairs-update_rows NotTwin (λ r. r.msg_id == k.old.msg_id)
          (with_start (next_start env k.config)) (λ a b h. ground arith) t.mq w.rows;
    jobs_issued = w.jobs_issued;
    jobs_distinct = w.jobs_distinct;
    tasks_distinct = w.tasks_distinct;
    tasks_owned = w.tasks_owned;
  })

-- The id was issued, and no row carries it any more.
pub record IsGone (d : ℕ) (t : Tables) : Type 0 where
  pub issued : d < t.mq_seq
  pub absent : All (λ m. (m.msg_id == d) ≡ false) t.mq

module _ (d : ℕ) where
  insert_row-IsGone :
      (row : ℕ → QueueMessage) → ((n : ℕ) → (row n).msg_id ≡ n) → Keeps (IsGone d) (insert_row row)
  unfolding insert_row
  insert_row-IsGone row numbered = record {
    at = λ t g. elim (Bool-cases (any (λ m. is_twin m (row t.mq_seq)) t.mq)) [
      | inl e ↦ rw e (record { issued = ground (arith, g.issued); absent = g.absent })
      | inr e ↦ rw e (record {
        issued = ground (arith, g.issued);
        absent =
            All-append _ t.mq (row t.mq_seq ∷ []) g.absent
              (ground (arith, numbered t.mq_seq, g.issued), tt);
      })
    ];
  }

  run_statement-IsGone :
      {A : Type 0} (stmt : Statement A) (op : Option String)
      → Keeps (IsGone d) stmt
      → Keeps (IsGone d) (run_statement stmt op)
  unfolding run_statement
  run_statement-IsGone stmt op k = search (keeps_rules, k)

  pub enqueue_message-IsGone :
      (now : ℕ) (ty : String) (p : Payload) (by : String) (start : ℕ)
      → Keeps (IsGone d) (enqueue_message now ty p by start)
  unfolding enqueue_message
  enqueue_message-IsGone now ty p by start =
      Keeps-bind (lift (payload_value p)) _ (search keeps_rules) λ b. run_statement-IsGone _ _ (
        Keeps-bind _ _
          (insert_row-IsGone (message_row ty b by (now + seconds start) now false) (λ n. refl))
          λ _. search keeps_rules)

  pub ensure_recurring_message-IsGone :
      (now : ℕ) (random : ℕ → ℕ) (m : RecurringMessage)
      → Keeps (IsGone d) (ensure_recurring_message now random m)
  unfolding ensure_recurring_message insert_unless_there
  ensure_recurring_message-IsGone now random m = run_statement-IsGone _ _ (record {
    at = λ t g. elim (Bool-cases (any (is_recurring_of m.msg_type) t.mq)) [
      | inl e ↦ rw e g
      | inr e ↦ rw e (inserted.at t g)
    ];
  })
    where
      inserted : Keeps (IsGone d) (insert_row (recurring_row now random m) >>= λ _. pure tt)
      inserted =
          Keeps-bind _ _ (insert_row-IsGone (recurring_row now random m) (λ n. refl))
            λ _. search keeps_rules

  insert_job-IsGone :
      (ms : List QueueMessage) (row : ℕ → Job) (r : Result DatabaseError ℕ) (t : Tables)
      → All (λ m. (m.msg_id == d) ≡ false) ms
      → IsGone d t
      → IsGone d ((lift r >>= λ id. insert_job ms (row id)) t).1
  unfolding ◌>>=◌
  insert_job-IsGone ms row (err e) t old g = g
  insert_job-IsGone ms row (ok id) t old g =
      if_split (λ (x : Result DatabaseError ℕ × Tables). IsGone d x.1)
        (any (λ j. j.job_id == (row id).job_id) t.jobs)
        (λ _. record { issued = g.issued; absent = old })
        λ _. record { issued = g.issued; absent = g.absent }

  pub enqueue_command-IsGone :
      (str : Value → String) (now : ℕ) (ty : String) (p : Payload) (by : String)
      → Keeps (IsGone d) (enqueue_command str now ty p by)
  unfolding enqueue_command ◌>>=◌
  enqueue_command-IsGone str now ty p by =
      Keeps-bind (lift (payload_value p)) _ (search keeps_rules) λ b.
        run_statement-IsGone _ _ (record {
          at = λ t g.
              let row = message_row ty b by now now false in
              insert_job-IsGone t.mq (queued_job str now ty b by) (insert_row row t).0
                (insert_row row t).1 g.absent ((insert_row-IsGone row (λ n. refl)).at t g);
        })

  insert_task-IsGone : (row : Task) → Keeps (IsGone d) (insert_task row)
  unfolding insert_task
  insert_task-IsGone row = record {
    at = λ t g.
        if_split (λ (x : Result DatabaseError (Unit {0}) × Tables). IsGone d x.1)
          (any (is_task row.job_id row.task_id) t.tasks) (λ _. g)
          λ _.
            if_split (λ (x : Result DatabaseError (Unit {0}) × Tables). IsGone d x.1)
              (any (λ j. j.job_id == row.job_id) t.jobs)
              (λ _. record { issued = g.issued; absent = g.absent }) (λ _. g);
  }

  pub create_task-IsGone :
      (job id at : ℕ) (name desc : String) → Keeps (IsGone d) (create_task job id at name desc)
  unfolding create_task
  create_task-IsGone job id at name desc = run_statement-IsGone _ _ (insert_task-IsGone _)

  pub Takes-IsGone :
      (env : Env) (configs : Configs) (sel : Selection) (t : Tables) (m : QueueMessage)
      (t' : Tables)
      → Takes env configs sel t m t'
      → IsGone d t
      → IsGone d t'
  Takes-IsGone env configs sel t m t' (inl k) g = subst (IsGone d) (sym k.deleted) (record {
    issued = g.issued;
    absent = All-delete_rows _ (λ r. r.msg_id == m.msg_id) t.mq g.absent;
  })
  Takes-IsGone env configs sel t m t' (inr k) g = subst (IsGone d) (sym k.rescheduled) (record {
    issued = g.issued;
    absent =
        All-update_rows _ (λ r. r.msg_id == k.old.msg_id) (with_start (next_start env k.config))
          t.mq (λ a h. h) g.absent;
  })
