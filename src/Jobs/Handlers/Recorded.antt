-- ===== src/Jobs/Handlers/Recorded.antt =====
-- How a handler's run ends in cpkit/jobs/worker.py: what its outcome says, what is recorded of a
-- failure, and what becomes of the job id in the logging context.
use cpkit.Base.{
  ℕ, String, Bool, true, false, Option, none, some, List, [], ◌∷◌, ◌≡◌, refl, sym, ap, subst, arith,
  if◌then◌else◌, ◌==◌, All, update_rows, ◌≢◌,
}
use cpkit.Base.Exec.{Result, ok, err, Exec, pure, catch, ◌>>=◌}
use cpkit.Base.Exec.Ends.{EndsIn, Ends, Ends-pure, Ends-bind, Ends-catch, Ends-weaken}
use cpkit.Base.Exec.Keeps.{Keeps}
use cpkit.Jobs.Types.{QueueMessage, Job, Tables}
use cpkit.Jobs.Repository.{update_job}
use cpkit.Jobs.Handlers.{
  Process, HandlerOutcome, Handler, FailureHandler, has_job, with_job_id, set_current_job_id,
  reset_job_id, outcome, run_failure_hook, run_queue_handler, mark_failed, mark_job, then_handle,
  record_failure,
}

-- every row of the job has the status
abbrev pub IsMarked : String → ℕ → Tables → Type 0
IsMarked status job_id t = All (λ j. (j.job_id == job_id) ≡ true → j.status ≡ some status) t.jobs

abbrev pub error_of : {E A : Type 0} → Result E A → Option E
error_of (ok a) = none
error_of (err e) = some e

marked_rows :
    (status : String) (job_id : ℕ) (js : List Job)
    → All
        (λ j. (j.job_id == job_id) ≡ true → j.status ≡ some status)
        (update_rows (λ j. j.job_id == job_id) (λ j. record j { status = some status }) js)
marked_rows status job_id [] = tt
marked_rows status job_id (j ∷ js) =
    (marked (j.job_id == job_id) refl, marked_rows status job_id js)
  where
    marked :
        (b : Bool)
        → (j.job_id == job_id) ≡ b
        → ((if b then record j { status = some status } else j).job_id == job_id) ≡ true
        → (if b then record j { status = some status } else j).status ≡ some status
    marked true e h = refl
    marked false e h = absurd (cc (e, h))

module _ {E P : Type 0} (m : QueueMessage) (handler : Handler E P) (payload : P)
    (mark_fault : Option E) (failed_status : String) (hook : Option (FailureHandler E)) where
  -- What the outcome and the state say once the handler has raised or not.
  pub record Recorded (raised : Option E) (before : Option ℕ) (o : HandlerOutcome E) (s : Process)
      : Type 0 where
    pub says : o.error ≡ raised
    pub hook_only_after : raised ≡ none → o.failure_hook_error ≡ none
    pub marked : raised ≢ none → mark_fault ≡ none → IsMarked failed_status m.msg_id s.tables
    pub context : s.job_id_ctx ≡ before

  record Inner (raised : Option E) (o : HandlerOutcome E) (s : Process) : Type 0 where
    says : o.error ≡ raised
    hook_only_after : raised ≡ none → o.failure_hook_error ≡ none
    marked : raised ≢ none → mark_fault ≡ none → IsMarked failed_status m.msg_id s.tables

  Ends-mark_failed :
      Ends {0, 0}
        (λ s. Unit)
        (λ u s. IsMarked failed_status m.msg_id s.tables)
        (λ e s. mark_fault ≡ some e)
        (mark_failed mark_fault m.msg_id failed_status)
  unfolding mark_failed update_job ◌>>=◌
  Ends-mark_failed = record { at = λ s u. cases mark_fault s }
    where
      cases :
          (o : Option E) (s : Process)
          → EndsIn {0, 0}
              (λ u s. IsMarked failed_status m.msg_id s.tables)
              (λ e s. o ≡ some e)
              (mark_failed o m.msg_id failed_status s)
      cases none s = marked_rows failed_status m.msg_id s.tables.jobs
      cases (some e) s = refl

  abbrev Marked : Process → Type 0
  Marked s = mark_fault ≡ none → IsMarked failed_status m.msg_id s.tables

  abbrev pub Never : E → Process → Type 0
  Never e s = ⊥

  Ends-mark_job :
      {X : E → Process → Type 0}
      → m.is_recurring ≡ false
      → Ends (λ s. Unit {0}) (λ u. Marked) X (mark_job mark_fault failed_status m)
  unfolding mark_job
  Ends-mark_job plain = rw plain (
      Ends-catch _ (λ e. pure tt)
        (Ends-weaken _ Ends-mark_failed (λ s u. u) (λ u s k e. k) λ e s k. k)
        λ e. Ends-pure tt λ s k n. absurd (cc (k, n)))

  Ends-record_failure :
      (e : E)
      → m.is_recurring ≡ false
      → ((e : E) → Keeps (λ s. IsMarked failed_status m.msg_id s.tables) (then_handle hook m e))
      → Ends
          (λ s. Unit {0})
          (λ u. Marked)
          (λ f. Marked)
          (record_failure mark_fault failed_status hook m e)
  unfolding record_failure
  Ends-record_failure e plain keeps = Ends-bind _ _ (Ends-mark_job plain) λ u. record {
    at = λ s k.
        kept ((then_handle hook m e) s).0 ((then_handle hook m e) s).1 λ n. (keeps e).at s (k n);
  }
    where
      kept :
          (r : Result E (Unit {0})) (s : Process)
          → Marked s
          → EndsIn {0, 0} (λ u. Marked) (λ f. Marked) (r, s)
      kept (ok u) s k = k
      kept (err f) s k = k

  Ends-run_failure_hook :
      (e : E)
      → m.is_recurring ≡ false
      → ((e : E) → Keeps (λ s. IsMarked failed_status m.msg_id s.tables) (then_handle hook m e))
      → Ends
          (λ s. Unit {0})
          (Inner (some e))
          Never
          (run_failure_hook m (some (record_failure mark_fault failed_status hook)) e)
  Ends-run_failure_hook e plain keeps =
      Ends-catch {X = λ f. Marked} _ _
        (Ends-bind _ _ (Ends-record_failure e plain keeps) λ u.
          Ends-pure (outcome (some e) none)
            λ s k. record { says = refl; hook_only_after = λ n. refl; marked = λ r. k })
        λ f.
          Ends-pure (outcome (some e) (some f))
            λ s k. record { says = refl; hook_only_after = λ n. absurd (cc n); marked = λ r. k }

  Ends-known :
      {A : Type 0} (q : Exec E Process A) (s : Process)
      → Ends {0, 0} (λ x. x ≡ s) (λ a x. (q s).0 ≡ ok a) (λ e x. (q s).0 ≡ err e) q
  Ends-known {A = A} q s = record {
    at = λ x e.
        subst (λ y. EndsIn {0, 0} (λ a x. (q s).0 ≡ ok a) (λ e x. (q s).0 ≡ err e) (q y)) (sym e)
          (known (q s).0 (q s).1 refl);
  }
    where
      known :
          (r : Result E A) (x : Process)
          → (q s).0 ≡ r
          → EndsIn {0, 0} (λ a x. (q s).0 ≡ ok a) (λ e x. (q s).0 ≡ err e) (r, x)
      known (ok a) x e = e
      known (err f) x e = e

  abbrev entered : Process → Process
  entered s = with_job_id (some m.msg_id) s

  -- what the handler raises when it runs from the state
  abbrev pub raised_by : Process → Option E
  raised_by s = error_of (handler m.msg_id payload m.created_by (entered s)).0

  abbrev inner : Exec E Process (HandlerOutcome E)
  inner =
      catch (handler m.msg_id payload m.created_by >>= λ _. pure (outcome none none))
        (run_failure_hook m (some (record_failure mark_fault failed_status hook)))

  module _ (plain : m.is_recurring ≡ false)
      (keeps : (e : E)
        → Keeps (λ s. IsMarked failed_status m.msg_id s.tables) (then_handle hook m e))
      (s : Process) where
    Ends-inner : Ends (λ x. x ≡ entered s) (Inner (raised_by s)) Never inner
    Ends-inner =
        Ends-catch {X = λ e x. (handler m.msg_id payload m.created_by (entered s)).0 ≡ err e} _ _
          (Ends-bind _ _ (Ends-known (handler m.msg_id payload m.created_by) (entered s)) λ a.
            Ends-pure (outcome none none) λ x k. record {
              says = sym (ap error_of k);
              hook_only_after = λ n. refl;
              marked = λ r. absurd (r (ap error_of k));
            })
          λ e. record {
            at = λ x k.
                subst
                  (λ r.
                    EndsIn (Inner r) Never (
                      run_failure_hook m (some (record_failure mark_fault failed_status hook)) e x))
                  (sym (ap error_of k)) ((Ends-run_failure_hook e plain keeps).at x tt);
          }

    Recorded-reset :
        (token : Option (Option ℕ)) (o : HandlerOutcome E)
        → token ≡ some s.job_id_ctx
        → Ends
            (Inner (raised_by s) o)
            (λ u. Recorded (raised_by s) s.job_id_ctx o)
            Never
            (reset_job_id token)
    Recorded-reset none o e = absurd (cc e)
    Recorded-reset (some before) o e = record {
      at = λ x k. record {
        says = k.says;
        hook_only_after = k.hook_only_after;
        marked = k.marked;
        context = cc e;
      };
    }

    Ends-set_current_job_id :
        has_job m ≡ true
        → Ends
            (λ x. x ≡ s)
            (λ token x. (token ≡ some s.job_id_ctx) × (x ≡ entered s))
            Never
            (set_current_job_id m)
    unfolding set_current_job_id
    Ends-set_current_job_id on = record {
      at = λ x e.
          subst
            (λ b.
              EndsIn (λ token y. (token ≡ some s.job_id_ctx) × (y ≡ entered s)) Never
                (if b then (ok (some x.job_id_ctx), entered x) else (ok none, x)))
            (sym on) (ap (λ y. some y.job_id_ctx) e, ap entered e);
    }

    Recorded-run :
        has_job m ≡ true
        → EndsIn (Recorded (raised_by s) s.job_id_ctx) Never (
            run_queue_handler m handler payload
              (some (record_failure mark_fault failed_status hook))
              s)
    unfolding run_queue_handler
    Recorded-run on =
        (Ends-bind {P = λ x. x ≡ s} _ _ (Ends-set_current_job_id on) λ token. record {
          at = λ x (t, e).
              (Ends-bind {P = λ x. x ≡ entered s} _ (λ o. reset_job_id token >>= λ _. pure o)
                  Ends-inner
                  λ o. Ends-bind _ _ (Recorded-reset token o t) λ u. Ends-pure o λ x k. k).at
                x e;
        }).at
          s refl

  -- For a message that is neither recurring nor a maintenance message, whatever the handler does to
  -- the state: the run never raises; its outcome has the handler's exception, if the handler raised
  -- one, and a failure of the hook only then; the context holds again the job id it held before; and
  -- after a failure every row of the message's job has the failed status, if the repository could
  -- be got and its statement did not raise and the application's failure handler leaves that status
  -- alone.
  pub run_queue_handler-Recorded :
      has_job m ≡ true
      → ((e : E) → Keeps (λ s. IsMarked failed_status m.msg_id s.tables) (then_handle hook m e))
      → (s : Process)
      → EndsIn (Recorded (raised_by s) s.job_id_ctx) Never (
          run_queue_handler m handler payload
            (some (record_failure mark_fault failed_status hook))
            s)
  run_queue_handler-Recorded on keeps s = Recorded-run (ground (arith, on)) keeps s on
