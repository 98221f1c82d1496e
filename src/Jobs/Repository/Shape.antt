-- ===== src/Jobs/Repository/Shape.antt =====
-- The shape of the queue's tables: ids come from the sequence and are distinct, a recurring type
-- has one row, and a task belongs to a job.
use cpkit.Base.{
  ℕ, suc, ◌+◌, ◌<◌, String, ◌≡◌, refl, Bool, true, false, Option, List, [], ◌∷◌, ◌++◌, inl, inr,
  arith, ◌==◌, Bool-cases, any, All, AllPairs, All-append, AllPairs-concat,
}
use cpkit.Base.Exec.Keeps.{Keeps, Keeps-bind, keeps_rules}
use cpkit.Base.Exec.{lift, pure, ◌>>=◌}
use cpkit.Jobs.Types.{seconds, QueueMessage, RecurringMessage, Job, Task, Tables}
use cpkit.Jobs.Repository.{
  recurring_row, insert_unless_there, Statement, run_statement, message_row, Payload, is_twin,
  is_task, is_recurring_of, insert_row, enqueue_message, ensure_recurring_message, payload_value,
}

-- The row violates no constraint of an earlier one.
abbrev pub NotTwin : QueueMessage → QueueMessage → Type 0
NotTwin a b = is_twin a b ≡ false

abbrev pub NotSameJob : Job → Job → Type 0
NotSameJob a b = (a.job_id == b.job_id) ≡ false

abbrev pub NotSameTask : Task → Task → Type 0
NotSameTask a b = is_task b.job_id b.task_id a ≡ false

abbrev pub has_job : List Job → ℕ → Bool
has_job js id = any (λ j. j.job_id == id) js

pub record IsWellFormed (t : Tables) : Type 0 where
  pub issued : All (λ m. m.msg_id < t.mq_seq) t.mq
  pub rows : AllPairs NotTwin t.mq
  pub jobs_issued : All (λ j. j.job_id < t.mq_seq) t.jobs
  pub jobs_distinct : AllPairs NotSameJob t.jobs
  pub tasks_distinct : AllPairs NotSameTask t.tasks
  pub tasks_owned : All (λ k. has_job t.jobs k.job_id ≡ true) t.tasks

pub any-All {ℓ} :
    {A : Type ℓ} (p : A → Bool) (xs : List A) → any p xs ≡ false → All (λ x. p x ≡ false) xs
any-All p [] h = tt
any-All p (x ∷ xs) h = ground (arith, any-All p xs)

-- the sequence has moved on
issued_suc :
    (n : ℕ) (xs : List QueueMessage) → All (λ m. m.msg_id < n) xs → All (λ m. m.msg_id < suc n) xs
issued_suc n [] h = tt
issued_suc n (x ∷ xs) h = (omega arith, issued_suc n xs h.1)

jobs_issued_suc :
    (n : ℕ) (xs : List Job) → All (λ m. m.job_id < n) xs → All (λ m. m.job_id < suc n) xs
jobs_issued_suc n [] h = tt
jobs_issued_suc n (x ∷ xs) h = (omega arith, jobs_issued_suc n xs h.1)

used : (t : Tables) → IsWellFormed t → IsWellFormed (record t { mq_seq = suc t.mq_seq })
used t w = record {
  issued = issued_suc t.mq_seq t.mq w.issued;
  rows = w.rows;
  jobs_issued = jobs_issued_suc t.mq_seq t.jobs w.jobs_issued;
  jobs_distinct = w.jobs_distinct;
  tasks_distinct = w.tasks_distinct;
  tasks_owned = w.tasks_owned;
}

module _ (row : ℕ → QueueMessage) (numbered : (n : ℕ) → (row n).msg_id ≡ n) where
  pub added :
      (t : Tables)
      → any (λ m. is_twin m (row t.mq_seq)) t.mq ≡ false
      → IsWellFormed t
      → IsWellFormed (record t { mq = t.mq ++ row t.mq_seq ∷ []; mq_seq = suc t.mq_seq })
  added t free w = record {
    issued =
        All-append (λ m. m.msg_id < suc t.mq_seq) t.mq (row t.mq_seq ∷ [])
          (issued_suc t.mq_seq t.mq w.issued) (omega (arith, numbered t.mq_seq), tt);
    rows =
        AllPairs-concat NotTwin t.mq (row t.mq_seq)
          (any-All (λ m. is_twin m (row t.mq_seq)) t.mq free) w.rows;
    jobs_issued = jobs_issued_suc t.mq_seq t.jobs w.jobs_issued;
    jobs_distinct = w.jobs_distinct;
    tasks_distinct = w.tasks_distinct;
    tasks_owned = w.tasks_owned;
  }

  insert_row-IsWellFormed : Keeps IsWellFormed (insert_row row)
  unfolding insert_row
  insert_row-IsWellFormed = record {
    at = λ t w. elim (Bool-cases (any (λ m. is_twin m (row t.mq_seq)) t.mq)) [
      | inl e ↦ rw e (used t w)
      | inr e ↦ rw e (added t e w)
    ];
  }

pub run_statement-IsWellFormed :
    {A : Type 0} (stmt : Statement A) (operation : Option String)
    → Keeps IsWellFormed stmt
    → Keeps IsWellFormed (run_statement stmt operation)
unfolding run_statement
run_statement-IsWellFormed stmt operation k = search (keeps_rules, k)

pub enqueue_message-IsWellFormed :
    (now : ℕ) (msg_type : String) (p : Payload) (created_by : String) (start : ℕ)
    → Keeps IsWellFormed (enqueue_message now msg_type p created_by start)
unfolding enqueue_message
enqueue_message-IsWellFormed now msg_type p created_by start =
    Keeps-bind (lift (payload_value p)) _ (search keeps_rules) λ d. run_statement-IsWellFormed _ _ (
      Keeps-bind _ _
        (insert_row-IsWellFormed (message_row msg_type d created_by (now + seconds start) now false)
          (λ n. refl))
        λ _. search keeps_rules)

pub ensure_recurring_message-IsWellFormed :
    (now : ℕ) (random : ℕ → ℕ) (m : RecurringMessage)
    → Keeps IsWellFormed (ensure_recurring_message now random m)
unfolding ensure_recurring_message insert_unless_there
ensure_recurring_message-IsWellFormed now random m = run_statement-IsWellFormed _ _ (record {
  at = λ t w. elim (Bool-cases (any (is_recurring_of m.msg_type) t.mq)) [
    | inl e ↦ rw e w
    | inr e ↦ rw e (inserted.at t w)
  ];
})
  where
    inserted : Keeps IsWellFormed (insert_row (recurring_row now random m) >>= λ _. pure tt)
    inserted =
        Keeps-bind _ _ (insert_row-IsWellFormed (recurring_row now random m) (λ n. refl))
          λ _. search keeps_rules
