-- ===== src/Jobs/Worker/Drained.antt =====
-- A worker keeps track of every handler that it has submitted, so a complete drain has joined all.
use cpkit.Base.{
  ℕ, ◌≡◌, refl, Bool, true, false, ◌||◌, Option, none, some, List, [], ◌∷◌, ◌++◌, arith, ◌==◌,
  ==_refl, if_split, update_rows, where_rows, any, All, All-append, All-mono, length,
}
use cpkit.Base.Exec.{Result, ok, err}
use cpkit.Jobs.Types.{RecurringMessage, Tables}
use cpkit.Jobs.Recurring.{Configs}
use cpkit.Jobs.Dispatch.{
  Callables, Env, Selection, Outcome, nothing, prepared, dispatch_error, raised, commit_rejected,
  claim_and_prepare_dispatch,
}
use cpkit.Jobs.Worker.{
  Handle, System, Event, Reply, failed, drained, run_started, wait_ended, run_cancelled,
  one_dispatched, stop_requested, handler_returned, drain_finished, integer, boolean, other,
  ControlError, queue_dispatch, begin, stop_polling, drain_end, dispatch, submitted, after_poll,
  run_begun, poll, one_begun, cancelled, step, run_events, is_other_loop, is_open, new_worker,
}
use cpkit.Jobs.Worker.Stopped.{Rests, run_events-Rests}

abbrev holds : List ℕ → ℕ → Bool
holds ks k = any (λ j. j == k) ks

-- A handler that has not returned is among the pending ones.
abbrev pub IsTracked : {H P : Type 0} → System H P → Type 0
IsTracked s = All (λ f. (f.done || holds s.pending f.key) ≡ true) s.futures

holds-where_rows :
    (p : ℕ → Bool) (ks : List ℕ) (k : ℕ)
    → holds ks k ≡ true
    → p k ≡ true
    → holds (where_rows p ks) k ≡ true
holds-where_rows p [] k h e = cc
holds-where_rows p (j ∷ ks) k h e = ground (arith, holds-where_rows p ks k)

holds-concat : (ks : List ℕ) (j k : ℕ) → holds (ks ++ j ∷ []) k ≡ (holds ks k || (j == k))
holds-concat [] j k = ground arith
holds-concat (i ∷ ks) j k = ground (arith, holds-concat ks j k)

module _ {H P : Type 0} where
  -- a future that is not done is open by its own key
  open_self : (fs : List (Handle H P)) → All (λ f. (f.done || is_open fs f.key) ≡ true) fs
  open_self [] = tt
  open_self (f ∷ fs) = (
    ground (arith, ==_refl f.key),
    All-mono _ (λ g. (g.done || is_open (f ∷ fs) g.key) ≡ true) (λ g h. ground arith) fs
        (open_self fs),
  )

  -- keeping the open keys keeps track of the futures
  kept :
      (ks : List ℕ) (gs fs : List (Handle H P))
      → All (λ f. (f.done || holds ks f.key) ≡ true) fs
      → All (λ f. (f.done || is_open gs f.key) ≡ true) fs
      → All (λ f. (f.done || holds (where_rows (is_open gs) ks) f.key) ≡ true) fs
  kept ks gs [] h o = tt
  kept ks gs (f ∷ fs) h o =
      (ground (arith, holds-where_rows (is_open gs) ks f.key, h.0, o.0), kept ks gs fs h.1 o.1)

  pruned :
      (ks : List ℕ) (fs : List (Handle H P))
      → All (λ f. (f.done || holds ks f.key) ≡ true) fs
      → All (λ f. (f.done || holds (where_rows (is_open fs) ks) f.key) ≡ true) fs
  pruned ks fs h = kept ks fs fs h (open_self fs)

  returned :
      (key : ℕ) (ks : List ℕ) (fs : List (Handle H P))
      → All (λ f. (f.done || holds ks f.key) ≡ true) fs
      → All
          (λ f. (f.done || holds ks f.key) ≡ true)
          (update_rows (λ f. f.key == key) (λ f. record f { done = true }) fs)
  returned key ks [] h = tt
  returned key ks (f ∷ fs) h = (
    if_split (λ (g : Handle H P). (g.done || holds ks g.key) ≡ true) (f.key == key) (λ _. refl)
        (λ _. h.0),
    returned key ks fs h.1,
  )

module _ {E H P : Type 0} where
  abbrev TrackedAt : Reply E × System H P → Type 0
  TrackedAt x = IsTracked x.1

  submitted-IsTracked :
      (raises : Bool) (s : System H P) (o : Outcome E H P)
      → IsTracked s
      → IsTracked (submitted raises s o).1
  submitted-IsTracked raises s nothing h = h
  submitted-IsTracked raises s (raised f) h = h
  submitted-IsTracked raises s (dispatch_error m phase) h = h
  submitted-IsTracked true s (prepared m h' p) h = h
  submitted-IsTracked false s (prepared m h' p) h =
      let new : Handle H P = record {
        key = length s.futures;
        message = m;
        handler = h';
        payload = p;
        done = false;
      } in
      pruned (s.pending ++ length s.futures ∷ []) (s.futures ++ new ∷ []) (
        All-append _ s.futures (new ∷ [])
          (All-mono _ _ (λ f k. ground (arith, holds-concat s.pending (length s.futures) f.key))
            s.futures h)
          (
            ground (
              arith,
              holds-concat s.pending (length s.futures) (length s.futures),
              ==_refl (length s.futures),
            ),
            tt,
          ))

module _ (E : Type 0) {H P : Type 0} (s : System H P) (h : IsTracked s) where
  drain_end-IsTracked : IsTracked (drain_end {E = E} s).1
  unfolding drain_end
  drain_end-IsTracked =
      if_split (TrackedAt {E = E}) s.stop (λ _. pruned s.pending s.futures h) (λ _. h)

  stop_polling-IsTracked : (current : ℕ) → IsTracked (stop_polling {E = E} current s).1
  unfolding stop_polling
  stop_polling-IsTracked current =
      if_split (TrackedAt {E = E}) (is_other_loop s.loop current) (λ _. h) (λ _. h)

  -- the system that `begin` hands on is tracked
  abbrev Begun : Result (ControlError E) (System H P) → Type 0
  Begun (ok b) = IsTracked b
  Begun (err e) = Unit

  begin-Begun : (current : ℕ) → Begun (begin current s)
  unfolding begin
  begin-Begun current =
      if_split Begun (is_other_loop s.loop current) (λ _. tt)
        λ _. if_split Begun s.started (λ _. tt) (λ _. h)

module _ {E H P : Type 0} (app : Callables E H P) (recurring : List RecurringMessage) where
  dispatch-IsTracked :
      (configs : Configs) (sel : Selection) (env : Env) (raises : Bool) (s : System H P)
      → IsTracked s
      → IsTracked (dispatch app recurring configs sel env raises s).1
  unfolding dispatch
  dispatch-IsTracked configs sel env raises s h =
      submitted-IsTracked raises
        (record s { tables = (claim_and_prepare_dispatch app env configs sel s.tables).1 })
        (claim_and_prepare_dispatch app env configs sel s.tables).0 h

  after_poll-IsTracked :
      (r : Reply E) (s : System H P) → IsTracked s → IsTracked (after_poll app recurring (r, s)).1
  after_poll-IsTracked (failed (queue_dispatch m commit_rejected)) s h = h
  after_poll-IsTracked (failed (queue_dispatch m _)) s h = h
  after_poll-IsTracked (failed _) s h = h
  after_poll-IsTracked _ s h = h

  poll-IsTracked :
      (o : Option Configs) (env : Env) (raises : Bool) (s : System H P)
      → IsTracked s
      → IsTracked (poll app recurring o env raises s).1
  poll-IsTracked none env raises s h = h
  poll-IsTracked (some configs) env raises s h =
      if_split (TrackedAt {E = E}) s.stop (λ _. h)
        λ _. after_poll-IsTracked _ _ (dispatch-IsTracked configs _ env raises s h)

  run_begun-IsTracked :
      (r : Result (ControlError E) (System H P)) (s : System H P) (h : IsTracked s)
      → Begun E s h r
      → IsTracked (run_begun app recurring r s).1
  run_begun-IsTracked (err e) s h k = h
  run_begun-IsTracked (ok b) s h k = if_split (TrackedAt {E = E}) b.stop (λ _. k) (λ _. k)

  one_begun-IsTracked :
      (configs : Configs) (sel : Selection) (env : Env) (raises : Bool)
      (r : Result (ControlError E) (System H P)) (s : System H P) (h : IsTracked s)
      → Begun E s h r
      → IsTracked (one_begun app recurring configs sel env raises r s).1
  one_begun-IsTracked configs sel env raises (err e) s h k = h
  one_begun-IsTracked configs sel env raises (ok b) s h k =
      if_split (TrackedAt {E = E}) b.stop (λ _. k)
        λ _. dispatch-IsTracked configs sel env raises b k

  cancelled-IsTracked :
      (o : Option Configs) (s : System H P) → IsTracked s → IsTracked (cancelled {E = E} o s).1
  cancelled-IsTracked none s h = h
  cancelled-IsTracked (some c) s h = h

  step-IsTracked :
      (e : Event E) (s : System H P) → IsTracked s → IsTracked (step app recurring e s).1
  unfolding step
  step-IsTracked (run_started current) s h =
      run_begun-IsTracked (begin current s) s h (begin-Begun E s h current)
  step-IsTracked (wait_ended env raises) s h = poll-IsTracked s.poller env raises s h
  step-IsTracked run_cancelled s h = cancelled-IsTracked s.poller s h
  step-IsTracked (one_dispatched current (integer id) incl ty actor env raises) s h =
      one_begun-IsTracked _ _ env raises (begin current s) s h (begin-Begun E s h current)
  step-IsTracked (one_dispatched current boolean incl ty actor env raises) s h = h
  step-IsTracked (one_dispatched current other incl ty actor env raises) s h = h
  step-IsTracked (stop_requested current) s h = stop_polling-IsTracked E s h current
  step-IsTracked (handler_returned key) s h = returned key s.pending s.futures h
  step-IsTracked drain_finished s h = drain_end-IsTracked E s h

  run_events-IsTracked :
      (es : List (Event E)) (s : System H P)
      → IsTracked s
      → IsTracked (run_events app recurring es s)
  unfolding run_events
  run_events-IsTracked [] s h = h
  run_events-IsTracked (e ∷ es) s h =
      run_events-IsTracked es (step app recurring e s).1 (step-IsTracked e s h)

holds_nothing :
    (p : ℕ → Bool) (ks : List ℕ) (k : ℕ) → where_rows p ks ≡ [] → p k ≡ true → holds ks k ≡ false
holds_nothing p [] k n e = refl
holds_nothing p (j ∷ ks) k n e = ground (arith, holds_nothing p ks k)

-- with no handler active every submitted one has returned
every_returned :
    {H P : Type 0} (ks : List ℕ) (gs fs : List (Handle H P))
    → where_rows (is_open gs) ks ≡ []
    → All (λ f. (f.done || holds ks f.key) ≡ true) fs
    → All (λ f. (f.done || is_open gs f.key) ≡ true) fs
    → All (λ f. f.done ≡ true) fs
every_returned ks gs [] n h o = tt
every_returned ks gs (f ∷ fs) n h o = (
  ground (arith, holds_nothing (is_open gs) ks f.key, h.0, o.0),
  every_returned ks gs fs n h.1 o.1,
)

-- what a drain that reports nothing left leaves behind
drain_end_settled :
    (E : Type 0) {H P : Type 0} (s : System H P)
    → IsTracked s
    → (drain_end {E = E} s).0 ≡ drained true []
    → All (λ f. f.done ≡ true) (drain_end {E = E} s).1.futures
      × ((drain_end {E = E} s).1.executor ≡ false)
      × ((drain_end {E = E} s).1.stop ≡ true)
unfolding drain_end
drain_end_settled E {H = H} {P = P} s h =
    if_split
      (λ (x : Reply E × System H P).
        x.0 ≡ drained true []
        → All (λ f. f.done ≡ true) x.1.futures × (x.1.executor ≡ false) × (x.1.stop ≡ true))
      s.stop
      (λ e d. (
        every_returned s.pending s.futures s.futures (cc d) h (open_self s.futures),
        ground (arith, d),
        e,
      ))
      λ e d. cc d

-- After any events of a new worker, if a drain reports polling stopped and no handler unresolved,
-- then every handler that was ever submitted has returned and the executor is shut down; and
-- whatever events follow, the queue is untouched, no handler is submitted and no executor made.
pub complete_drain :
    {E H P : Type 0} (app : Callables E H P) (recurring : List RecurringMessage) (t : Tables)
    (es later : List (Event E))
    → let s = run_events app recurring es (new_worker t) in
      let s' = (step app recurring drain_finished s).1 in
      (step app recurring drain_finished s).0 ≡ drained true []
      → All (λ f. f.done ≡ true) s'.futures
        × (s'.executor ≡ false)
        × Rests s' (run_events app recurring later s')
        × ((run_events app recurring later s').executor ≡ false)
unfolding step
complete_drain {E = E} app recurring t es later h =
    let s = run_events app recurring es (new_worker t) in
    let d = drain_end_settled E s (run_events-IsTracked app recurring es (new_worker t) tt) h in
    let r = run_events-Rests app recurring later (drain_end {E = E} s).1 d.2 in
    (d.0, d.1, r, r.executor d.1)
