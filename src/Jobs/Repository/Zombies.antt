-- ===== src/Jobs/Repository/Zombies.antt =====
-- What the maintenance sweep `fail_zombie_jobs` does to a job, and that the heartbeat of a running
-- playbook does not hold it off.
use cpkit.Base.{
  eq_iff, ap, str_eq, ltb, ◌||◌, ◌&&◌, Bool, true, Option, none, ◌⊎◌, inl, inr, ◌↔◌, ℕ, zero, suc,
  ◌+◌, ◌<◌, String, ◌≡◌, refl, false, some, [], arith, ◌==◌, if◌then◌else◌, where_rows-update_rows,
  first_row_passes, ◌∙◌, lt→ltb, first_row, first_row-update_rows,
}
use cpkit.Base.Exec.{Result, ok}
use cpkit.Jobs.Types.{Job, Tables}
use cpkit.Jobs.Repository.{get_job, update_job, fail_zombie_jobs, is_zombie, zombie_age, Raised}

abbrev pub failed : Job → Job
failed j = record j { status = some "FAILED" }

-- the heartbeat of AnsibleRunner._run_loaded_playbook, n times
abbrev pub heartbeats : ℕ → ℕ → Tables → Tables
heartbeats zero id t = t
heartbeats (suc n) id t = heartbeats n id (update_job id "RUNNING" t).1

found :
    (id : ℕ) (t : Tables) (j : Job)
    → (get_job id t).0 ≡ ok (some j)
    → first_row (λ j. j.job_id == id) t.jobs ≡ some j
unfolding get_job
found id t j h = cc

get_job-update_job :
    (id : ℕ) (s : String) (t : Tables) (j : Job)
    → (get_job id t).0 ≡ ok (some j)
    → (get_job id (update_job id s t).1).0 ≡ ok (some (record j { status = some s }))
unfolding get_job update_job
get_job-update_job id s t j h =
    rw
      (first_row-update_rows (λ j. j.job_id == id) (λ j. j.job_id == id)
        (λ j. record j { status = some s }) (λ a. ground arith) t.jobs)
      (rw (found id t j h) (rw (first_row_passes (λ j. j.job_id == id) t.jobs (found id t j h))))

get_job-heartbeats :
    (n id : ℕ) (t : Tables) (j : Job)
    → (get_job id t).0 ≡ ok (some j)
    → (get_job id (heartbeats (suc n) id t)).0 ≡ ok (some (record j { status = some "RUNNING" }))
get_job-heartbeats zero id t j h = get_job-update_job id "RUNNING" t j h
get_job-heartbeats (suc n) id t j h =
    get_job-heartbeats n id (update_job id "RUNNING" t).1 (record j { status = some "RUNNING" })
      (get_job-update_job id "RUNNING" t j h)

swept : (now : ℕ) (j : Job) → is_zombie now (failed j) ≡ false
swept now j = refl

get_job-swept :
    (now id : ℕ) (t : Tables) (j : Job)
    → (get_job id t).0 ≡ ok (some j)
    → (get_job id (fail_zombie_jobs now t).1).0
      ≡ ok (some (if is_zombie now j then failed j else j))
unfolding get_job fail_zombie_jobs
get_job-swept now id t j h =
    rw
      (first_row-update_rows (λ j. j.job_id == id) (is_zombie now) failed (λ a. ground arith)
        t.jobs)
      (rw (found id t j h))

-- a job that should run, and of which nothing was heard for more than 300 seconds of microseconds
abbrev pub IsOverdue : ℕ → Job → Type 0
IsOverdue now j =
    ((j.status ≡ some "RUNNING") ⊎ (j.status ≡ some "QUEUED")) × (j.updated_at + 300000000 < now)

abbrev is_text : String → Option String → Bool
is_text s none = false
is_text s (some t) = str_eq t s

is_zombie_iff : (now : ℕ) (j : Job) → (is_zombie now j ≡ true) ↔ IsOverdue now j
is_zombie_iff now j = at j.status (ltb (j.updated_at + zombie_age) now) refl
  where
    at :
        (o : Option String) (late : Bool)
        → ltb (j.updated_at + zombie_age) now ≡ late
        → (((is_text "RUNNING" o || is_text "QUEUED" o) && late) ≡ true)
          ↔ (((o ≡ some "RUNNING") ⊎ (o ≡ some "QUEUED")) × (j.updated_at + 300000000 < now))
    at none late e =
        (λ h. absurd (cc h), λ h. elim h.0 [ inl x ↦ absurd (cc x) | inr x ↦ absurd (cc x) ])
    at (some s) late e = (
      λ h. (named (str_eq s "RUNNING") (str_eq s "QUEUED") refl refl h, ground (arith, e, h)),
      λ h. elim h.0 [
        | inl x ↦ ground (arith, e, h.1, (eq_iff s "RUNNING").1 (cc x))
        | inr x ↦ ground (arith, e, h.1, (eq_iff s "QUEUED").1 (cc x))
      ],
    )
      where
        named :
            (a b : Bool)
            → str_eq s "RUNNING" ≡ a
            → str_eq s "QUEUED" ≡ b
            → ((a || b) && late) ≡ true
            → (some s ≡ some "RUNNING") ⊎ (some s ≡ some "QUEUED")
        named true b p q h = inl (ap some ((eq_iff s "RUNNING").0 p))
        named false true p q h = inr (ap some ((eq_iff s "QUEUED").0 q))
        named false false p q h = absurd (cc h)

-- After a sweep a job is FAILED and otherwise as it was, if it was RUNNING or QUEUED and its
-- `updated_at` lay more than 300000000 microseconds back; any other job is as it was. Sweeping again at
-- that time returns no job.
pub get_job-fail_zombie_jobs :
    (now id : ℕ) (t : Tables) (j : Job)
    → (get_job id t).0 ≡ ok (some j)
    → (IsOverdue now j → (get_job id (fail_zombie_jobs now t).1).0 ≡ ok (some (failed j)))
      × ((¬ IsOverdue now j) → (get_job id (fail_zombie_jobs now t).1).0 ≡ ok (some j))
      × ((fail_zombie_jobs now (fail_zombie_jobs now t).1).0 ≡ ok [])
unfolding fail_zombie_jobs
get_job-fail_zombie_jobs now id t j h = (
  λ o. get_job-swept now id t j h ∙ rw ((is_zombie_iff now j).1 o) refl,
  λ n. get_job-swept now id t j h ∙ rest (is_zombie now j) refl n,
  rw (where_rows-update_rows (is_zombie now) failed (swept now) t.jobs),
)
  where
    rest :
        (b : Bool)
        → is_zombie now j ≡ b
        → (¬ IsOverdue now j)
        → ◌≡◌ {A = Result Raised (Option Job)} (ok (some (if b then failed j else j))) (ok (some j))
    rest true e n = absurd (n ((is_zombie_iff now j).0 e))
    rest false e n = refl

-- A job whose `updated_at` lies more than 300 seconds back is failed by the sweep however many
-- heartbeats it has had, one at least: a heartbeat writes the status and not `updated_at`.
pub heartbeats-fail_zombie_jobs :
    (n now id : ℕ) (t : Tables) (j : Job)
    → (get_job id t).0 ≡ ok (some j)
    → j.updated_at + zombie_age < now
    → (get_job id (fail_zombie_jobs now (heartbeats (suc n) id t)).1).0 ≡ ok (some (failed j))
heartbeats-fail_zombie_jobs n now id t j h old =
    get_job-swept now id (heartbeats (suc n) id t) (record j { status = some "RUNNING" })
      (get_job-heartbeats n id t j h)
    ∙ rw (lt→ltb _ _ old)
