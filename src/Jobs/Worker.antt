-- ===== src/Jobs/Worker.antt =====
-- The class QueueWorker of cpkit/jobs/worker.py. Its coroutines run on one event loop, so an event
-- is what happens between two awaits; the handlers' futures are shared objects, kept in `futures`.
pub mod Stopped
pub mod Drained
use cpkit.Base.{
  ℕ, suc, String, Bool, true, false, not, ◌&&◌, Option, none, some, List, [], ◌∷◌, ◌++◌, ◌==◌,
  if◌then◌else◌, length, any, where_rows, update_rows,
}
use cpkit.Base.Exec.{Result, ok, err}
use cpkit.Jobs.Types.{QueueMessage, RecurringMessage, Tables}
use cpkit.Jobs.Recurring.{Configs, recurring_message_map}
use cpkit.Jobs.Dispatch.{
  Selection, any_message, Env, Callables, Fault, Parsed, Outcome, nothing, prepared, dispatch_error,
  raised, Phase, commit_rejected, commit_unknown, committed_cleanup, submission,
  claim_and_prepare_dispatch,
}

-- HandlerCompletion: `key` is its identity, `done` that of its future
pub record Handle (H P : Type 0) : Type 0 where
  pub key : ℕ
  pub message : QueueMessage
  pub handler : H
  pub payload : Parsed P
  pub done : Bool

-- A worker with the tables that it works on. `poller` holds the configuration of a `run` that
-- waits for its next poll.
pub record System (H P : Type 0) : Type 0 where
  pub stop : Bool
  pub polling_stopped : Bool
  pub started : Bool
  pub executor : Bool
  pub loop : Option ℕ
  pub poller : Option Configs
  pub pending : List ℕ
  pub futures : List (Handle H P)
  pub tables : Tables

pub data ControlError (E : Type 0) : Type 0 where
  other_loop already_run : ControlError E
  message_id_type : ControlError E
  queue_dispatch : QueueMessage → Phase → ControlError E
  fault : Fault E → ControlError E

-- The `message_id` that a caller passes: a bool is refused, though Python counts it as an int.
pub data MessageId : Type 0 where
  integer : ℕ → MessageId
  boolean other : MessageId

pub data Event (E : Type 0) : Type 0 where
  run_started : (current : ℕ) → Event E
  wait_ended : Env → (submit_raises : Bool) → Event E
  run_cancelled : Event E
  one_dispatched :
      (current : ℕ)
      → MessageId
      → (include_recurring : Bool) → (expected_type : Option String)
      → (expected_actor : Option String) → Env
      → (submit_raises : Bool) → Event E
  stop_requested : (current : ℕ) → Event E
  handler_returned : (key : ℕ) → Event E
  drain_finished : Event E

-- _bind_loop refuses a second event loop
abbrev pub is_other_loop : Option ℕ → ℕ → Bool
is_other_loop none current = false
is_other_loop (some l) current = not (l == current)

abbrev pub is_nil : List ℕ → Bool
is_nil [] = true
is_nil (k ∷ ks) = false

-- What an event returns to its caller, where it does.
pub data Reply (E : Type 0) : Type 0 where
  quiet : Reply E
  handle : ℕ → Reply E
  failed : ControlError E → Reply E
  drained : (polling_stopped : Bool) → (unresolved : List ℕ) → Reply E

module _ {H P : Type 0} where
  -- QueueWorker.__init__
  abbrev pub new_worker : Tables → System H P
  new_worker t = record {
    stop = false;
    polling_stopped = true;
    started = false;
    executor = false;
    loop = none;
    poller = none;
    pending = [];
    futures = [];
    tables = t;
  }

  abbrev pub is_open : List (Handle H P) → ℕ → Bool
  is_open fs k = any (λ f. (f.key == k) && not f.done) fs

  -- The handles that are still to return.
  abbrev pub active_handlers : System H P → List ℕ
  active_handlers s = where_rows (is_open s.futures) s.pending

  abbrev pub finish : System H P → System H P
  finish s = record s { stop = true; polling_stopped = true; poller = none }

module _ {E H P : Type 0} where
  unfoldable pub stop_polling : ℕ → System H P → Reply E × System H P
  stop_polling current s =
      if is_other_loop s.loop current
      then (failed other_loop, s)
      else (quiet, record s { loop = some current; stop = true })

  -- _begin: the system that goes on, or the error
  unfoldable pub begin : ℕ → System H P → Result (ControlError E) (System H P)
  begin current s =
      if is_other_loop s.loop current
      then err other_loop
      else if s.started
      then err already_run
      else ok (record s { loop = some current; started = true; polling_stopped = false })

  -- the poller is cancelled while it waits
  abbrev pub cancelled : Option Configs → System H P → Reply E × System H P
  cancelled none s = (quiet, s)
  cancelled (some configs) s = (quiet, finish s)

  -- the part of _dispatch after the claim
  abbrev pub submitted : Bool → System H P → Outcome E H P → Reply E × System H P
  submitted submit_raises s nothing = (quiet, s)
  submitted submit_raises s (raised f) = (failed (fault f), s)
  submitted submit_raises s (dispatch_error m phase) = (failed (queue_dispatch m phase), s)
  submitted true s (prepared m h p) =
      (failed (queue_dispatch m submission), record s { executor = true })
  submitted false s (prepared m h p) =
      let key = length s.futures in
      let futures =
        s.futures
        ++ (record { key = key; message = m; handler = h; payload = p; done = false }) ∷ [] in
      (
        handle key,
        record s {
          executor = true;
          futures = futures;
          pending = where_rows (is_open futures) (s.pending ++ key ∷ []);
        },
      )

  -- `drain` begins by `stop_polling`; this is what follows its wait, however that ends. With
  -- polling not told to stop no drain is under way.
  unfoldable pub drain_end : System H P → Reply E × System H P
  drain_end s =
      let unresolved = active_handlers s in
      if s.stop
      then (
        drained s.polling_stopped unresolved,
        record s {
          pending = unresolved;
          executor = if s.polling_stopped && is_nil unresolved then false else s.executor;
        },
      )
      else (quiet, s)

  module _ (app : Callables E H P) (recurring : List RecurringMessage) where
    unfoldable pub dispatch : Configs → Selection → Env → Bool → System H P → Reply E × System H P
    dispatch configs sel env submit_raises s =
        let (o, t) = claim_and_prepare_dispatch app env configs sel s.tables in
        submitted submit_raises (record s { tables = t }) o

    -- The poller goes on after what a poll may log, and ends by any other dispatch error.
    abbrev pub after_poll : Reply E × System H P → Reply E × System H P
    after_poll (failed (queue_dispatch m commit_rejected), s) = (quiet, s)
    after_poll (failed (queue_dispatch m commit_unknown), s) =
        (failed (queue_dispatch m commit_unknown), finish s)
    after_poll (failed (queue_dispatch m committed_cleanup), s) =
        (failed (queue_dispatch m committed_cleanup), finish s)
    after_poll (failed (queue_dispatch m submission), s) =
        (failed (queue_dispatch m submission), finish s)
    after_poll (r, s) = (quiet, s)

    -- `run` up to its first await
    abbrev pub run_begun : Result (ControlError E) (System H P) → System H P → Reply E × System H P
    run_begun (err e) s = (failed e, s)
    run_begun (ok b) s =
        if b.stop
        then (quiet, finish b)
        else (quiet, record b { poller = some (recurring_message_map recurring) })

    -- the loop's test and, if it goes on, its body
    abbrev pub poll : Option Configs → Env → Bool → System H P → Reply E × System H P
    poll none env submit_raises s = (quiet, s)
    poll (some configs) env submit_raises s =
        if s.stop
        then (quiet, finish s)
        else after_poll (dispatch configs any_message env submit_raises s)

    abbrev finished : Reply E × System H P → Reply E × System H P
    finished (r, s) = (r, finish s)

    abbrev pub one_begun :
        Configs
        → Selection
        → Env
        → Bool
        → Result (ControlError E) (System H P)
        → System H P
        → Reply E × System H P
    one_begun configs sel env submit_raises (err e) s = (failed e, s)
    one_begun configs sel env submit_raises (ok b) s =
        finished (if b.stop then (quiet, b) else dispatch configs sel env submit_raises b)

    abbrev pub dispatch_one :
        ℕ
        → MessageId
        → Bool
        → Option String
        → Option String
        → Env
        → Bool
        → System H P
        → Reply E × System H P
    dispatch_one current (integer id) include_recurring ty actor env submit_raises s =
        one_begun (if include_recurring then recurring_message_map recurring else [])
          (record { message_id = some id; expected_type = ty; expected_actor = actor }) env
          submit_raises (begin current s) s
    dispatch_one current boolean include_recurring ty actor env submit_raises s =
        (failed message_id_type, s)
    dispatch_one current other include_recurring ty actor env submit_raises s =
        (failed message_id_type, s)

    unfoldable pub step : Event E → System H P → Reply E × System H P
    unfolding stop_polling begin dispatch drain_end
    step (run_started current) s = run_begun (begin current s) s
    step (wait_ended env submit_raises) s = poll s.poller env submit_raises s
    step run_cancelled s = cancelled s.poller s
    step (one_dispatched current id include_recurring ty actor env submit_raises) s =
        dispatch_one current id include_recurring ty actor env submit_raises s
    step (stop_requested current) s = stop_polling current s
    step (handler_returned key) s = (
      quiet,
      record s {
        futures = update_rows (λ f. f.key == key) (λ f. record f { done = true }) s.futures;
      },
    )
    step drain_finished s = drain_end s

    unfoldable pub run_events : List (Event E) → System H P → System H P
    run_events [] s = s
    run_events (e ∷ es) s = run_events es (step e s).1
