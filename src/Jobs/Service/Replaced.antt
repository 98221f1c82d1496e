-- ===== src/Jobs/Service/Replaced.antt =====
-- A job that a command queued is rescheduled: what its replacement keeps.
use cpkit.Base.{
  ℕ, suc, String, Bool, ◌≡◌, refl, ap, true, false, none, some, List, [], ◌∷◌, ◌++◌, arith,
  first_row, any, ◌==◌, ==_refl,
}
use cpkit.Base.Exec.{ok}
use cpkit.Base.Value.{Dict, get, without}
use cpkit.Jobs.Types.{Job, Tables}
use cpkit.Jobs.Repository.{mapping, version_text, queued_job, enqueue_command}
use cpkit.Jobs.Repository.Shape.{IsWellFormed}
use cpkit.Jobs.Repository.Effects.{fresh_job, enqueue_command_lem, enqueue_command-IsWellFormed}
use cpkit.Jobs.Service.{JobsService, enqueue_job_reschedule}
use cpkit.Jobs.Service.Rescheduled.{enqueue_job_reschedule_lem}

get-without : (k : String) (d : Dict) → get k (without k d) ≡ none
get-without k [] = refl
get-without k ((j, v) ∷ d) = ground (arith, get-without k d)

without-without : (k : String) (d : Dict) → without k (without k d) ≡ without k d
without-without k [] = refl
without-without k ((j, v) ∷ d) = ground (arith, without-without k d)

first_row-concat :
    (p : Job → Bool) (js : List Job) (j : Job)
    → any p js ≡ false
    → p j ≡ true
    → first_row p (js ++ j ∷ []) ≡ some j
first_row-concat p [] j h e = ground (arith, e)
first_row-concat p (i ∷ js) j h e = ground (arith, h, first_row-concat p js j)

-- the job that is queued last is found under its id
queued_found :
    (n : ℕ) (js : List Job) (j : Job)
    → any (λ i. i.job_id == n) js ≡ false
    → j.job_id ≡ n
    → first_row (λ i. i.job_id == n) (js ++ j ∷ []) ≡ some j
queued_found n js j h e =
    first_row-concat (λ i. i.job_id == n) js j h (ground (arith, e, ==_refl n))

-- For well-formed tables, statements that do not fail, and a type and a description that the
-- application's resolver and parser keep: a command is enqueued and its job rescheduled. The
-- replacement is found under the next id, with the type and the description of the job, and with no
-- playbook version, whatever version the command's payload pinned for the job.
pub replacement_unpinned :
    (svc : JobsService) (job_text : ℕ → String) (command_type created_by requested_by : String)
    (d : Dict) (t : Tables)
    → IsWellFormed t
    → svc.read_fault ≡ none
    → svc.write_fault ≡ none
    → svc.reschedule_type_resolver command_type ≡ ok command_type
    → svc.parse_payload command_type (without "playbook_version" d)
      ≡ ok (mapping (without "playbook_version" d))
    → let t1 = (enqueue_command svc.str svc.now command_type (mapping d) created_by t).1 in
      let t2 = (enqueue_job_reschedule svc job_text t.mq_seq requested_by t1).1 in
      (job : Job) × (replacement : Job) × (first_row (λ j. j.job_id == t.mq_seq) t1.jobs ≡ some job)
      × (first_row (λ j. j.job_id == suc t.mq_seq) t2.jobs ≡ some replacement)
      × (job.playbook_version ≡ version_text svc.str (get "playbook_version" d))
      × (replacement.job_type ≡ job.job_type)
      × (replacement.description ≡ job.description)
      × (replacement.playbook_version ≡ none)
replacement_unpinned svc job_text command_type created_by requested_by d t w r f resolved parsed =
    let job = queued_job svc.str svc.now command_type d created_by t.mq_seq in
    let found = queued_found t.mq_seq t.jobs job (fresh_job t.mq_seq t.jobs w.jobs_issued) refl in
    let w' =
      rw (enqueue_command_lem svc.str svc.now command_type d created_by t w) at (
        (enqueue_command-IsWellFormed svc.str svc.now command_type (mapping d) created_by).at t
          w) in
    rw (enqueue_command_lem svc.str svc.now command_type d created_by t w) (
      rw
        (enqueue_job_reschedule_lem svc job_text t.mq_seq requested_by command_type job
          (without "playbook_version" d) _ w' r f found resolved parsed)
        (
          job,
          queued_job svc.str svc.now command_type (without "playbook_version" d) requested_by
              (suc t.mq_seq),
          found,
          queued_found (suc t.mq_seq) (t.jobs ++ job ∷ []) _ (fresh_job _ _ w'.jobs_issued) refl,
          refl,
          refl,
          without-without "playbook_version" d,
          ap (version_text svc.str) (get-without "playbook_version" d),
        ))
