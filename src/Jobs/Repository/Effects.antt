-- ===== src/Jobs/Repository/Effects.antt =====
-- The exact effect of the methods that write jobs, and that they keep the tables well-formed.
use cpkit.Base.{
  ℕ, suc, ◌<◌, String, ◌≡◌, refl, Bool, true, false, List, [], ◌∷◌, ◌++◌, inl, inr, arith, ◌==◌,
  if◌then◌else◌, Bool-cases, any, All, update_rows, All-append, All-update_rows, AllPairs-concat,
  AllPairs-update_rows,
}
use cpkit.Base.Exec.{ok, err, ◌>>=◌}
use cpkit.Base.Exec.Keeps.{Keeps}
use cpkit.Base.Value.{Value, Dict}
use cpkit.Jobs.Types.{QueueMessage, Job, Task, Tables}
use cpkit.Jobs.Repository.{
  Payload, absent, unsupported, model, mapping, payload_value, queued_job, message_row, is_twin,
  is_task, run_statement, insert_row, enqueue_command, update_job, set_job_playbook_version,
  fail_zombie_jobs, create_task, insert_task, payload_type,
}
use cpkit.Jobs.Repository.Shape.{
  IsWellFormed, NotSameJob, NotSameTask, has_job, any-All, added, run_statement-IsWellFormed,
}

-- a job whose id the sequence has not yet issued is no other job
pub fresh_job :
    (n : ℕ) (js : List Job) → All (λ j. j.job_id < n) js → any (λ j. j.job_id == n) js ≡ false
fresh_job n [] h = refl
fresh_job n (j ∷ js) h = ground (arith, fresh_job n js h.1)

has_job-append :
    (js : List Job) (j : Job) (id : ℕ) → has_job js id ≡ true → has_job (js ++ j ∷ []) id ≡ true
has_job-append [] j id h = cc
has_job-append (k ∷ js) j id h = ground (arith, has_job-append js j id)

owned-append :
    (js : List Job) (j : Job) (ks : List Task)
    → All (λ k. has_job js k.job_id ≡ true) ks
    → All (λ k. has_job (js ++ j ∷ []) k.job_id ≡ true) ks
owned-append js j [] h = tt
owned-append js j (k ∷ ks) h = (has_job-append js j k.job_id h.0, owned-append js j ks h.1)

-- no row of the queue has the next id, so a row that does not recur violates nothing
fresh_row :
    (n : ℕ) (row : QueueMessage) (ms : List QueueMessage)
    → row.msg_id ≡ n
    → row.is_recurring ≡ false
    → All (λ m. m.msg_id < n) ms
    → any (λ m. is_twin m row) ms ≡ false
fresh_row n row [] e r h = refl
fresh_row n row (m ∷ ms) e r h = ground (arith, fresh_row n row ms e r h.1)

-- For well-formed tables and a payload that is a mapping, enqueueing a command succeeds: it
-- returns the sequence's next value, appends the message and the job that carry that id, and
-- changes nothing else.
pub enqueue_command_lem :
    (str : Value → String) (now : ℕ) (command_type : String) (d : Dict) (created_by : String)
    (t : Tables)
    → IsWellFormed t
    → enqueue_command str now command_type (mapping d) created_by t ≡ (
      ok t.mq_seq,
      record {
        mq = t.mq ++ message_row command_type d created_by now now false t.mq_seq ∷ [];
        mq_seq = suc t.mq_seq;
        jobs = t.jobs ++ queued_job str now command_type d created_by t.mq_seq ∷ [];
        tasks = t.tasks;
      },
    )
unfolding enqueue_command payload_value ◌>>=◌ run_statement insert_row
enqueue_command_lem str now command_type d created_by t w =
    rw
      (fresh_row t.mq_seq (message_row command_type d created_by now now false t.mq_seq) t.mq refl
        refl w.issued)
      (rw (fresh_job t.mq_seq t.jobs w.jobs_issued))

commanded :
    (str : Value → String) (now : ℕ) (command_type : String) (d : Dict) (created_by : String)
    (t : Tables)
    → IsWellFormed t
    → IsWellFormed (enqueue_command str now command_type (mapping d) created_by t).1
commanded str now command_type d created_by t w =
    rw (enqueue_command_lem str now command_type d created_by t w) (record {
      issued = more.issued;
      rows = more.rows;
      jobs_issued =
          All-append (λ j. j.job_id < suc t.mq_seq) t.jobs (job ∷ []) more.jobs_issued
            (omega arith, tt);
      jobs_distinct =
          AllPairs-concat NotSameJob t.jobs job
            (any-All (λ j. j.job_id == t.mq_seq) t.jobs (fresh_job t.mq_seq t.jobs w.jobs_issued))
            w.jobs_distinct;
      tasks_distinct = w.tasks_distinct;
      tasks_owned = owned-append t.jobs job t.tasks w.tasks_owned;
    })
  where
    row : ℕ → QueueMessage
    row = message_row command_type d created_by now now false

    job : Job
    job = queued_job str now command_type d created_by t.mq_seq

    more : IsWellFormed (record t { mq = t.mq ++ row t.mq_seq ∷ []; mq_seq = suc t.mq_seq })
    more = added row (λ n. refl) t (fresh_row t.mq_seq (row t.mq_seq) t.mq refl refl w.issued) w

module _ (str : Value → String) (now : ℕ) (command_type : String) where
  enqueue_absent :
      (created_by : String)
      → enqueue_command str now command_type absent created_by
        ≡ enqueue_command str now command_type (mapping []) created_by
  unfolding enqueue_command payload_value
  enqueue_absent created_by = refl

  enqueue_model :
      (d : Dict) (created_by : String)
      → enqueue_command str now command_type (model d) created_by
        ≡ enqueue_command str now command_type (mapping d) created_by
  unfolding enqueue_command payload_value
  enqueue_model d created_by = refl

  enqueue_unsupported :
      (created_by : String) (t : Tables)
      → enqueue_command str now command_type unsupported created_by t ≡ (err payload_type, t)
  unfolding enqueue_command payload_value ◌>>=◌
  enqueue_unsupported created_by t = refl

pub enqueue_command-IsWellFormed :
    (str : Value → String) (now : ℕ) (command_type : String) (p : Payload) (created_by : String)
    → Keeps IsWellFormed (enqueue_command str now command_type p created_by)
enqueue_command-IsWellFormed str now command_type absent created_by = record {
  at = λ t w.
      rw (enqueue_absent str now command_type created_by)
        (commanded str now command_type [] created_by t w);
}
enqueue_command-IsWellFormed str now command_type unsupported created_by = record {
  at = λ t w. rw (enqueue_unsupported str now command_type created_by t) w;
}
enqueue_command-IsWellFormed str now command_type (model d) created_by = record {
  at = λ t w.
      rw (enqueue_model str now command_type d created_by)
        (commanded str now command_type d created_by t w);
}
enqueue_command-IsWellFormed str now command_type (mapping d) created_by = record {
  at = λ t w. commanded str now command_type d created_by t w;
}

-- An UPDATE of jobs that leaves their ids alone.
module _ (p : Job → Bool) (f : Job → Job) (same_id : (j : Job) → (f j).job_id ≡ j.job_id) where
  has_job-update_rows : (js : List Job) (id : ℕ) → has_job (update_rows p f js) id ≡ has_job js id
  has_job-update_rows [] id = refl
  has_job-update_rows (j ∷ js) id = ground (arith, same_id j, has_job-update_rows js id)

  owned-update_rows :
      (js : List Job) (ks : List Task)
      → All (λ k. has_job js k.job_id ≡ true) ks
      → All (λ k. has_job (update_rows p f js) k.job_id ≡ true) ks
  owned-update_rows js [] h = tt
  owned-update_rows js (k ∷ ks) h =
      (rw (has_job-update_rows js k.job_id) h.0, owned-update_rows js ks h.1)

  kept_id : (j : Job) → (if p j then f j else j).job_id ≡ j.job_id
  kept_id j = ground (arith, same_id j)

  update_jobs-IsWellFormed :
      (t : Tables) → IsWellFormed t → IsWellFormed (record t { jobs = update_rows p f t.jobs })
  update_jobs-IsWellFormed t w = record {
    issued = w.issued;
    rows = w.rows;
    jobs_issued =
        All-update_rows (λ j. j.job_id < t.mq_seq) p f t.jobs (λ j h. rw (same_id j) h)
          w.jobs_issued;
    jobs_distinct =
        AllPairs-update_rows NotSameJob p f (λ a b h. rw (kept_id a, kept_id b) h) t.jobs
          w.jobs_distinct;
    tasks_distinct = w.tasks_distinct;
    tasks_owned = owned-update_rows t.jobs t.tasks w.tasks_owned;
  }

pub update_job-IsWellFormed : (id : ℕ) (s : String) → Keeps IsWellFormed (update_job id s)
unfolding update_job
update_job-IsWellFormed id s = record { at = λ t w. update_jobs-IsWellFormed _ _ (λ j. refl) t w }

pub set_job_playbook_version-IsWellFormed :
    (id : ℕ) (v : String) → Keeps IsWellFormed (set_job_playbook_version id v)
unfolding set_job_playbook_version
set_job_playbook_version-IsWellFormed id v = record {
  at = λ t w. update_jobs-IsWellFormed _ _ (λ j. refl) t w;
}

pub fail_zombie_jobs-IsWellFormed : (now : ℕ) → Keeps IsWellFormed (fail_zombie_jobs now)
unfolding fail_zombie_jobs
fail_zombie_jobs-IsWellFormed now = record {
  at = λ t w. update_jobs-IsWellFormed _ _ (λ j. refl) t w;
}

insert_task-IsWellFormed : (row : Task) → Keeps IsWellFormed (insert_task row)
unfolding insert_task
insert_task-IsWellFormed row = record {
  at = λ t w. elim (Bool-cases (any (is_task row.job_id row.task_id) t.tasks)) [
    | inl e ↦ rw e w
    | inr e ↦ rw e (elim (Bool-cases (any (λ j. j.job_id == row.job_id) t.jobs)) [
      | inr f ↦ rw f w
      | inl f ↦ rw f (record {
        issued = w.issued;
        rows = w.rows;
        jobs_issued = w.jobs_issued;
        jobs_distinct = w.jobs_distinct;
        tasks_distinct =
            AllPairs-concat NotSameTask t.tasks row
              (any-All (is_task row.job_id row.task_id) t.tasks e) w.tasks_distinct;
        tasks_owned =
            All-append (λ k. has_job t.jobs k.job_id ≡ true) t.tasks (row ∷ []) w.tasks_owned
              (f, tt);
      })
    ])
  ];
}

pub create_task-IsWellFormed :
    (job_id task_id at : ℕ) (name desc : String)
    → Keeps IsWellFormed (create_task job_id task_id at name desc)
unfolding create_task
create_task-IsWellFormed job_id task_id at name desc =
    run_statement-IsWellFormed _ _ (insert_task-IsWellFormed _)
