-- ===== src/Jobs/Dispatch/Explained.antt =====
-- The outcome of a dispatch tells what became of the queue.
use cpkit.Base.{
  ◌≡◌, refl, Bool, true, false, ◌||◌, Option, none, some, ◌⊎◌, inl, inr, arith, if◌then◌else◌,
  Bool-cases, if_split, not, ◌∙◌,
}
use cpkit.Base.Exec.{Result, ok, err, ◌>>=◌}
use cpkit.Jobs.Types.{QueueMessage, Tables}
use cpkit.Jobs.Recurring.{Configs}
use cpkit.Jobs.Dispatch.{
  Selection, Env, Callables, Fault, Step, Parsed, Commit, commits, fails, Outcome, nothing,
  prepared, dispatch_error, raised, commit_rejected, commit_unknown, committed_cleanup, submission,
  is_rejected, faulty, delete_row, delete_unless_recurring, delete_claimed, or_due, resolve_handler,
  parse_payload, prepare_found, prepare, leave, committed_as, left_empty,
  claim_and_prepare_dispatch, claim_due_recurring_message, committed_as, left_empty,
}
use cpkit.Jobs.Dispatch.Claim.{
  Post, Post-bind, Takes, AfterRecurring, AfterClaim, faulty-Post, claim_due_recurring_message-Post,
  or_due-Post, resolve_handler_reads, parse_payload_reads,
}

Post-split {ℓ} :
    {E A : Type 0} (Q : A → Tables → Type ℓ) (r : Result (Fault E) A × Tables)
    → ((a : A) → r.0 ≡ ok a → Q a r.1)
    → Post Q r
Post-split Q (ok a, t) k = k a refl
Post-split Q (err e, t) k = tt

module _ {E H P : Type 0} (app : Callables E H P) (env : Env) (configs : Configs) (sel : Selection)
    (t : Tables) where
  -- The claimed message was taken from the queue, and the handler and the payload are those that
  -- the application's callables give for it.
  pub record IsPrepared (m : QueueMessage) (h : H) (p : Parsed P) (t' : Tables) : Type 0 where
    pub taken : Takes env configs sel t m t'
    pub handler : (resolve_handler app m t).0 ≡ ok h
    pub payload : (parse_payload app m t).0 ≡ ok p

  abbrev pub AfterPrepare : Option (QueueMessage × H × Parsed P) → Tables → Type 0
  AfterPrepare none t' = t' ≡ t
  AfterPrepare (some (m, h, p)) t' = IsPrepared m h p t'

  take_claimed :
      (m : QueueMessage) (t' : Tables)
      → AfterClaim env configs sel t (some m) t'
      → Post (λ _ t''. Takes env configs sel t m t'') (delete_unless_recurring {E = E} env m t')
  unfolding delete_unless_recurring delete_row ◌>>=◌
  take_claimed m t' (inl (r, taken)) = simp r (inr taken)
  take_claimed m t' (inr (r, first, same)) =
      if_split
        (λ (step : Step E (Unit {0})). Post (λ _ t''. Takes env configs sel t m t'') (step t'))
        m.is_recurring (λ e. cc (r, e))
        λ _.
          Post-bind (λ _ s. s ≡ t') (λ _ t''. Takes env configs sel t m t'')
            (faulty (env.statement_fault delete_claimed)) _ t'
            (faulty-Post E (env.statement_fault delete_claimed) t')
            λ _ s q. inl (record { plain = r; first = first; deleted = rw (q, same) })

  prepare_found-Post :
      (o : Option QueueMessage) (t' : Tables)
      → AfterClaim env configs sel t o t'
      → Post AfterPrepare (prepare_found app env o t')
  unfolding ◌>>=◌
  prepare_found-Post none t' h = h
  prepare_found-Post (some m) t' c =
      Post-bind (λ h s. (s ≡ t') × ((resolve_handler app m t').0 ≡ ok h)) AfterPrepare
        (resolve_handler app m) _ t'
        (Post-split _ (resolve_handler app m t')
          (λ h e. ((resolve_handler_reads app m t' t').0, e)))
        λ h s (q, eh).
          Post-bind (λ p s'. (s' ≡ t') × ((parse_payload app m s).0 ≡ ok p)) AfterPrepare
            (parse_payload app m) _ s
            (Post-split _ (parse_payload app m s)
              (λ p e. ((parse_payload_reads app m s s).0 ∙ q, e)))
            λ p s' (q', ep).
              Post-bind (λ _ t''. Takes env configs sel t m t'') AfterPrepare
                (delete_unless_recurring env m) _ s' (rw q' (take_claimed m t' c))
                λ _ t'' taken. record {
                  taken = taken;
                  handler = (resolve_handler_reads app m t t').1 ∙ eh;
                  payload = (parse_payload_reads app m t s).1 ∙ ep;
                }

  pub prepare-Post : Post AfterPrepare (prepare app env configs sel t)
  unfolding prepare
  prepare-Post =
      Post-bind (AfterRecurring env configs sel t) AfterPrepare
        (claim_due_recurring_message env configs sel) _ t
        (claim_due_recurring_message-Post E env configs sel t)
        λ o t' h.
          Post-bind (AfterClaim env configs sel t) AfterPrepare (or_due env sel o) _ t'
            (or_due-Post E env configs sel t o t' h) λ o' t'' h'. prepare_found-Post o' t'' h'

  -- What an outcome and the tables beside it say.
  abbrev pub Explains : Outcome E H P × Tables → Type 0
  Explains (nothing, t') = t' ≡ t
  Explains (raised f, t') = t' ≡ t
  Explains (prepared m h p, t') = IsPrepared m h p t'
  Explains (dispatch_error m commit_rejected, t') = t' ≡ t
  Explains (dispatch_error m commit_unknown, t') = (t' ≡ t) ⊎ Takes env configs sel t m t'
  Explains (dispatch_error m committed_cleanup, t') = Takes env configs sel t m t'
  Explains (dispatch_error m submission, t') = ⊥

  -- A server that reports a rejection has not applied the transaction.
  abbrev pub IsHonest : Commit → Type 0
  IsHonest commits = Unit
  IsHonest (fails integrity sqlstate applied) =
      (integrity || is_rejected sqlstate) ≡ true → applied ≡ false

  committed_as-Explains :
      (c : Commit) (b : Bool) (t' : Tables) (m : QueueMessage) (h : H) (p : Parsed P)
      → IsHonest c
      → IsPrepared m h p t'
      → Explains (committed_as c b t t' m h p)
  committed_as-Explains commits false t' m h p honest i = i
  committed_as-Explains commits true t' m h p honest i = i.taken
  committed_as-Explains (fails integrity sqlstate true) true t' m h p honest i = inr i.taken
  committed_as-Explains (fails integrity sqlstate false) true t' m h p honest i = inl refl
  committed_as-Explains (fails integrity sqlstate applied) false t' m h p honest i =
      elim (Bool-cases (integrity || is_rejected sqlstate)) [
        | inl e ↦ rw (e, honest e) refl
        | inr e ↦ rw e (either applied)
      ]
    where
      either :
          (a : Bool) → ((if a then t' else t) ≡ t) ⊎ Takes env configs sel t m (if a then t' else t)
      either true = inr i.taken
      either false = inl refl

  left_empty-Explains :
      (c : Commit) (b : Bool) (t' : Tables)
      → t' ≡ t
      → Explains (left_empty {E = E} {H = H} {P = P} c b t t')
  left_empty-Explains commits false t' e = e
  left_empty-Explains commits true t' e = e
  left_empty-Explains (fails i q a) false t' e = ground (arith, e)
  left_empty-Explains (fails i q a) true t' e = ground (arith, e)

  leave-Explains :
      (r : Result (Fault E) (Option (QueueMessage × H × Parsed P)) × Tables)
      → IsHonest env.commit
      → Post AfterPrepare r
      → Explains (leave env t r)
  leave-Explains (err f, t') honest post = refl
  leave-Explains (ok none, t') honest post =
      left_empty-Explains env.commit env.cleanup_raises t' post
  leave-Explains (ok (some (m, h, p)), t') honest post =
      committed_as-Explains env.commit env.cleanup_raises t' m h p honest post

  -- For every outcome of the statements, the application's callables, the commit and the cleanup:
  -- without an outcome that names a message the queue is as it was; a prepared message was taken
  -- from the queue (the first due plain one and deleted, or the earliest due recurring one and
  -- rescheduled by its configuration), with the handler and payload that the callables give; a
  -- rejected commit took nothing, a failed cleanup took the message, and an unknown commit took
  -- it or nothing. The hypothesis is that a rejected commit was not applied.
  pub claim_and_prepare_dispatch-Explains :
      IsHonest env.commit → Explains (claim_and_prepare_dispatch app env configs sel t)
  unfolding claim_and_prepare_dispatch
  claim_and_prepare_dispatch-Explains honest =
      if_split Explains (not env.connects) (λ _. refl)
        λ _.
          if_split Explains env.is_idle
            (λ _. leave-Explains (prepare app env configs sel t) honest prepare-Post) (λ _. refl)
