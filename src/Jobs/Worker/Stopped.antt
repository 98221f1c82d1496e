-- ===== src/Jobs/Worker/Stopped.antt =====
-- Stopping is terminal: a worker that was told to stop claims nothing more.
use cpkit.Base.{
  ℕ, ◌≡◌, refl, ◌∙◌, Bool, true, false, Option, none, some, List, [], ◌∷◌, map, arith, ◌==◌,
  if_split, update_rows,
}
use cpkit.Base.Exec.{Result, ok, err}
use cpkit.Jobs.Types.{RecurringMessage}
use cpkit.Jobs.Recurring.{Configs}
use cpkit.Jobs.Dispatch.{Callables, Env, Selection}
use cpkit.Jobs.Worker.{
  Handle, System, Event, Reply, run_started, wait_ended, run_cancelled, one_dispatched,
  stop_requested, handler_returned, drain_finished, integer, boolean, other, ControlError, begin,
  stop_polling, drain_end, run_begun, poll, one_begun, finish, cancelled, step, run_events,
  is_other_loop,
}

-- `s'` is `s` but for its control fields and for handlers that have returned.
pub record Rests {H P : Type 0} (s s' : System H P) : Type 0 where
  pub stopped : s'.stop ≡ true
  pub tables : s'.tables ≡ s.tables
  pub messages : map (λ f. f.message) s'.futures ≡ map (λ f. f.message) s.futures
  pub executor : s.executor ≡ false → s'.executor ≡ false

module _ {H P : Type 0} where
  Rests-refl : (s : System H P) → s.stop ≡ true → Rests s s
  Rests-refl s h = record { stopped = h; tables = refl; messages = refl; executor = λ e. e }

  pub Rests-trans : {a b c : System H P} → Rests a b → Rests b c → Rests a c
  Rests-trans p q = record {
    stopped = q.stopped;
    tables = q.tables ∙ p.tables;
    messages = q.messages ∙ p.messages;
    executor = λ e. q.executor (p.executor e);
  }

  returned-messages :
      (key : ℕ) (fs : List (Handle H P))
      → map (λ f. f.message) (update_rows (λ f. f.key == key) (λ f. record f { done = true }) fs)
        ≡ map (λ f. f.message) fs
  returned-messages key [] = refl
  returned-messages key (f ∷ fs) = ground (arith, returned-messages key fs)

module _ (E : Type 0) {H P : Type 0} (s : System H P) (h : s.stop ≡ true) where
  -- what a reply's system is beside `s`
  abbrev RestsAt : Reply E × System H P → Type 0
  RestsAt x = Rests s x.1

  stop_polling-Rests : (current : ℕ) → RestsAt (stop_polling current s)
  unfolding stop_polling
  stop_polling-Rests current =
      if_split RestsAt (is_other_loop s.loop current) (λ _. Rests-refl s h)
        λ _. record { stopped = refl; tables = refl; messages = refl; executor = λ e. e }

  drain_end-Rests : RestsAt (drain_end s)
  unfolding drain_end
  drain_end-Rests =
      if_split RestsAt s.stop
        (λ _. record { stopped = h; tables = refl; messages = refl; executor = λ e. ground arith })
        λ _. Rests-refl s h

  -- what `begin` hands on is the system but for its control fields
  abbrev Begun : Result (ControlError E) (System H P) → Type 0
  Begun (ok b) = Rests s b
  Begun (err e) = Unit

  begin-Begun : (current : ℕ) → Begun (begin current s)
  unfolding begin
  begin-Begun current =
      if_split Begun (is_other_loop s.loop current) (λ _. tt)
        λ _.
          if_split Begun s.started (λ _. tt)
            λ _. record { stopped = h; tables = refl; messages = refl; executor = λ e. e }

module _ {E H P : Type 0} (app : Callables E H P) (recurring : List RecurringMessage)
    (s : System H P) (h : s.stop ≡ true) where
  run_begun-Rests :
      (r : Result (ControlError E) (System H P))
      → Begun E s h r
      → Rests s (run_begun app recurring r s).1
  run_begun-Rests (err e) k = Rests-refl s h
  run_begun-Rests (ok b) k =
      if_split (RestsAt E s h) b.stop
        (λ _. record {
          stopped = refl;
          tables = k.tables;
          messages = k.messages;
          executor = k.executor;
        })
        λ e. cc (k.stopped, e)

  poll-Rests :
      (o : Option Configs) (env : Env) (r : Bool) → Rests s (poll app recurring o env r s).1
  poll-Rests none env r = Rests-refl s h
  poll-Rests (some configs) env r =
      if_split (RestsAt E s h) s.stop
        (λ _. record { stopped = refl; tables = refl; messages = refl; executor = λ e. e })
        λ e. cc (h, e)

  one_begun-Rests :
      (configs : Configs) (sel : Selection) (env : Env) (raises : Bool)
      (r : Result (ControlError E) (System H P))
      → Begun E s h r
      → Rests s (one_begun app recurring configs sel env raises r s).1
  one_begun-Rests configs sel env raises (err e) k = Rests-refl s h
  one_begun-Rests configs sel env raises (ok b) k =
      if_split (λ (x : Reply E × System H P). Rests s (finish x.1)) b.stop
        (λ _. record {
          stopped = refl;
          tables = k.tables;
          messages = k.messages;
          executor = k.executor;
        })
        λ e. cc (k.stopped, e)

  cancelled-Rests : (o : Option Configs) → Rests s (cancelled {E = E} o s).1
  cancelled-Rests none = Rests-refl s h
  cancelled-Rests (some c) = record {
    stopped = refl;
    tables = refl;
    messages = refl;
    executor = λ e. e;
  }

  step-Rests : (e : Event E) → Rests s (step app recurring e s).1
  unfolding step
  step-Rests (run_started current) = run_begun-Rests (begin current s) (begin-Begun E s h current)
  step-Rests (wait_ended env raises) = poll-Rests s.poller env raises
  step-Rests run_cancelled = cancelled-Rests s.poller
  step-Rests (one_dispatched current (integer id) incl ty actor env raises) =
      one_begun-Rests _ _ env raises (begin current s) (begin-Begun E s h current)
  step-Rests (one_dispatched current boolean incl ty actor env raises) = Rests-refl s h
  step-Rests (one_dispatched current other incl ty actor env raises) = Rests-refl s h
  step-Rests (stop_requested current) = stop_polling-Rests E s h current
  step-Rests (handler_returned key) = record {
    stopped = h;
    tables = refl;
    messages = returned-messages key s.futures;
    executor = λ e. e;
  }
  step-Rests drain_finished = drain_end-Rests E s h

-- Once a worker's stop flag is set, then whatever events follow (further runs, polls, single
-- dispatches, cancellations, drains, returning handlers): the flag stays set, the queue's tables
-- are untouched, no handler is submitted, and a shut-down executor is not created anew.
pub run_events-Rests :
    {E H P : Type 0} (app : Callables E H P) (recurring : List RecurringMessage)
    (es : List (Event E)) (s : System H P)
    → s.stop ≡ true
    → Rests s (run_events app recurring es s)
unfolding run_events
run_events-Rests app recurring [] s h = Rests-refl s h
run_events-Rests app recurring (e ∷ es) s h =
    let first = step-Rests app recurring s h e in
    Rests-trans first (run_events-Rests app recurring es (step app recurring e s).1 first.stopped)
