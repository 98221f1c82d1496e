-- ===== src/Jobs/Dispatch/Claim.antt =====
-- What a dispatch claims, and that it takes the message out of the queue only when it says so.
use cpkit.Base.{
  ◌≡◌, refl, Bool, true, false, Option, none, some, List, [], ◌∷◌, ◌⊎◌, inl, inr, arith,
  first_row_passes, ◌==◌, Bool-cases, first_row, where_rows, update_rows, delete_rows,
}
use cpkit.Base.Exec.{Result, ok, err, ◌>>=◌, continue}
use cpkit.Base.Value.{get}
use cpkit.Errors.{DatabaseError}
use cpkit.Jobs.Types.{QueueMessage, RecurringMessage, Tables}
use cpkit.Jobs.Recurring.{Configs}
use cpkit.Jobs.Dispatch.{
  Selection, Env, Callables, Fault, Step, is_plain_due, is_recurring_due, earliest, with_start,
  next_start, faulty, claim_due_message, reschedule_as, reschedule_found,
  claim_due_recurring_message, set_start_after, or_due, resolve_handler, parse_payload, select_due,
  select_recurring, reschedule, is_empty,
}

-- What holds of the value and the tables of a step that returns.
abbrev pub Post {ℓ} : {E A : Type 0} → (A → Tables → Type ℓ) → Result (Fault E) A × Tables → Type ℓ
Post Q (ok a, t) = Q a t
Post Q (err e, t) = Unit

module _ {ℓ κ} {E A B : Type 0} (Q : A → Tables → Type ℓ) (R : B → Tables → Type κ) where
  Post-continue :
      (r : Result (Fault E) A) (t : Tables) (f : A → Step E B)
      → Post Q (r, t)
      → ((a : A) (t' : Tables) → Q a t' → Post R (f a t'))
      → Post R (continue r f t)
  Post-continue (ok a) t f q k = k a t q
  Post-continue (err e) t f q k = tt

  pub Post-bind :
      (m : Step E A) (f : A → Step E B) (t : Tables)
      → Post Q (m t)
      → ((a : A) (t' : Tables) → Q a t' → Post R (f a t'))
      → Post R ((m >>= f) t)
  unfolding ◌>>=◌
  Post-bind m f t q k = Post-continue (m t).0 (m t).1 f q k

-- The two ways to take a message: a plain one is deleted, a recurring one gets a later start.
pub record TakesPlain (env : Env) (sel : Selection) (t : Tables) (m : QueueMessage) (t' : Tables)
    : Type 0 where
  pub plain : m.is_recurring ≡ false
  pub first : first_row (is_plain_due env sel) t.mq ≡ some m
  pub deleted : t' ≡ record t { mq = delete_rows (λ k. k.msg_id == m.msg_id) t.mq }

pub record TakesRecurring (env : Env) (configs : Configs) (sel : Selection) (t : Tables)
    (m : QueueMessage) (t' : Tables) : Type 0 where
  pub recurs : m.is_recurring ≡ true
  pub old : QueueMessage
  pub config : RecurringMessage
  pub first : earliest (where_rows (is_recurring_due env configs sel) t.mq) ≡ some old
  pub configured : get old.msg_type configs ≡ some config
  pub moved : m ≡ with_start (next_start env config) old
  pub rescheduled : t' ≡ record t {
    mq = update_rows (λ k. k.msg_id == old.msg_id) (with_start (next_start env config)) t.mq;
  }

abbrev pub Takes : Env → Configs → Selection → Tables → QueueMessage → Tables → Type 0
Takes env configs sel t m t' = TakesPlain env sel t m t' ⊎ TakesRecurring env configs sel t m t'

-- what a recurring claim leaves
abbrev pub AfterRecurring :
    Env → Configs → Selection → Tables → Option QueueMessage → Tables → Type 0
AfterRecurring env configs sel t none t' = t' ≡ t
AfterRecurring env configs sel t (some m) t' =
    (m.is_recurring ≡ true) × TakesRecurring env configs sel t m t'

-- what either claim leaves: a plain message is not yet deleted
abbrev pub AfterClaim : Env → Configs → Selection → Tables → Option QueueMessage → Tables → Type 0
AfterClaim env configs sel t none t' = t' ≡ t
AfterClaim env configs sel t (some m) t' =
    ((m.is_recurring ≡ true) × TakesRecurring env configs sel t m t')
    ⊎ ((m.is_recurring ≡ false) × (first_row (is_plain_due env sel) t.mq ≡ some m) × (t' ≡ t))

pub faulty-Post :
    (E : Type 0) (f : Option DatabaseError) (t : Tables)
    → Post (λ _ t'. t' ≡ t) (faulty {E = E} f t)
unfolding ◌>>=◌
faulty-Post E none t = refl
faulty-Post E (some e) t = tt

earliest_passes :
    (p : QueueMessage → Bool) (ms : List QueueMessage) {m : QueueMessage}
    → earliest (where_rows p ms) ≡ some m
    → p m ≡ true
unfolding earliest
earliest_passes p [] e = cc
earliest_passes p (k ∷ ms) {m} e = ground (arith, earliest_passes p ms {m = m})

module _ (E : Type 0) (env : Env) (configs : Configs) (sel : Selection) (t : Tables) where
  reschedule_as-Post :
      (m : QueueMessage) (c : Option RecurringMessage)
      → get m.msg_type configs ≡ c
      → m.is_recurring ≡ true
      → earliest (where_rows (is_recurring_due env configs sel) t.mq) ≡ some m
      → Post (AfterRecurring env configs sel t) (reschedule_as {E = E} env m c t)
  unfolding ◌>>=◌ set_start_after
  reschedule_as-Post m none e r f = tt
  reschedule_as-Post m (some c) e r f =
      Post-bind (λ _ t'. t' ≡ t) (AfterRecurring env configs sel t)
        (faulty (env.statement_fault reschedule)) _ t
        (faulty-Post E (env.statement_fault reschedule) t)
        λ _ t' q. rw q (
          r,
          record {
            recurs = r;
            old = m;
            config = c;
            first = f;
            configured = e;
            moved = refl;
            rescheduled = refl;
          },
        )

  reschedule_found-Post :
      (o : Option QueueMessage)
      → earliest (where_rows (is_recurring_due env configs sel) t.mq) ≡ o
      → Post (AfterRecurring env configs sel t) (reschedule_found {E = E} env configs o t)
  unfolding ◌>>=◌
  reschedule_found-Post none e = refl
  reschedule_found-Post (some m) e =
      reschedule_as-Post m (get m.msg_type configs) refl
        (ground (arith, earliest_passes (is_recurring_due env configs sel) t.mq {m = m})) e

  pub claim_due_recurring_message-Post :
      Post
        (AfterRecurring env configs sel t)
        (claim_due_recurring_message {E = E} env configs sel t)
  unfolding claim_due_recurring_message ◌>>=◌
  claim_due_recurring_message-Post = elim (Bool-cases (is_empty configs)) [
    | inl e ↦ rw e refl
    | inr e ↦ rw e (
        Post-bind (λ _ t'. t' ≡ t) (AfterRecurring env configs sel t)
          (faulty (env.statement_fault select_recurring)) _ t
          (faulty-Post E (env.statement_fault select_recurring) t)
          λ _ t' q. rw q (reschedule_found-Post _ refl))
  ]

  plain_found :
      (o : Option QueueMessage)
      → first_row (is_plain_due env sel) t.mq ≡ o
      → AfterClaim env configs sel t o t
  plain_found none e = refl
  plain_found (some m) e =
      inr (ground (arith, first_row_passes (is_plain_due env sel) t.mq {a = m}), e, refl)

  claim_due_message-Post : Post (AfterClaim env configs sel t) (claim_due_message {E = E} env sel t)
  unfolding claim_due_message ◌>>=◌
  claim_due_message-Post =
      Post-bind (λ _ t'. t' ≡ t) (AfterClaim env configs sel t)
        (faulty (env.statement_fault select_due)) _ t
        (faulty-Post E (env.statement_fault select_due) t) λ _ t' q. rw q (plain_found _ refl)

  pub or_due-Post :
      (o : Option QueueMessage) (t' : Tables)
      → AfterRecurring env configs sel t o t'
      → Post (AfterClaim env configs sel t) (or_due {E = E} env sel o t')
  unfolding ◌>>=◌
  or_due-Post none t' h = rw h claim_due_message-Post
  or_due-Post (some m) t' h = inl h

-- A handler and a payload are found by reading: the tables stay, and do not matter.
module _ {E H P : Type 0} (app : Callables E H P) (m : QueueMessage) where
  pub resolve_handler_reads :
      (t s : Tables)
      → ((resolve_handler app m t).1 ≡ t)
        × ((resolve_handler app m t).0 ≡ (resolve_handler app m s).0)
  unfolding resolve_handler ◌>>=◌
  resolve_handler_reads t s = ground arith

  pub parse_payload_reads :
      (t s : Tables)
      → ((parse_payload app m t).1 ≡ t) × ((parse_payload app m t).0 ≡ (parse_payload app m s).0)
  unfolding parse_payload ◌>>=◌
  parse_payload_reads t s = ground arith
