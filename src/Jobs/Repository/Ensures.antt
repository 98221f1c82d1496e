-- ===== src/Jobs/Repository/Ensures.antt =====
-- A recurring message has one row, however often it is ensured.
use cpkit.Base.{
  ℕ, suc, ◌<◌, String, ◌≡◌, refl, Bool, true, false, List, [], ◌∷◌, ◌++◌, inl, inr, arith, str_eq,
  eq_iff, Bool-cases, any, All,
}
use cpkit.Base.Exec.{ok, ◌>>=◌}
use cpkit.Jobs.Types.{QueueMessage, RecurringMessage, Tables}
use cpkit.Jobs.Repository.{
  is_twin, is_recurring_of, insert_row, recurring_row, insert_unless_there, run_statement,
  ensure_recurring_message,
}
use cpkit.Jobs.Repository.Shape.{IsWellFormed}

-- a type with no recurring row can be given one under the next id
fresh_type :
    (n : ℕ) (row : QueueMessage) (ms : List QueueMessage)
    → row.msg_id ≡ n
    → any (is_recurring_of row.msg_type) ms ≡ false
    → All (λ m. m.msg_id < n) ms
    → any (λ m. is_twin m row) ms ≡ false
fresh_type n row [] e r h = refl
fresh_type n row (m ∷ ms) e r h = ground (arith, fresh_type n row ms e, h.1)

any-concat {ℓ} :
    {A : Type ℓ} (p : A → Bool) (xs : List A) (y : A) → p y ≡ true → any p (xs ++ y ∷ []) ≡ true
any-concat p [] y h = ground arith
any-concat p (x ∷ xs) y h = ground (arith, any-concat p xs y h)

str_eq_refl : (s : String) → str_eq s s ≡ true
str_eq_refl s = (eq_iff s s).1 refl

there :
    (now : ℕ) (random : ℕ → ℕ) (m : RecurringMessage) (t : Tables)
    → any (is_recurring_of m.msg_type) t.mq ≡ true
    → ensure_recurring_message now random m t ≡ (ok tt, t)
unfolding ensure_recurring_message insert_unless_there run_statement ◌>>=◌
there now random m t e = rw e

not_there :
    (now : ℕ) (random : ℕ → ℕ) (m : RecurringMessage) (t : Tables)
    → IsWellFormed t
    → any (is_recurring_of m.msg_type) t.mq ≡ false
    → ensure_recurring_message now random m t ≡ (
      ok tt,
      record t { mq = t.mq ++ recurring_row now random m t.mq_seq ∷ []; mq_seq = suc t.mq_seq },
    )
unfolding ensure_recurring_message insert_unless_there run_statement ◌>>=◌ insert_row
not_there now random m t w e =
    rw e (rw (fresh_type t.mq_seq (recurring_row now random m t.mq_seq) t.mq refl e w.issued))

-- On well-formed tables `ensure_recurring_message` returns, a recurring row of the type is there
-- afterwards, and ensuring any message of that type again, at any time, changes nothing.
pub ensure_recurring_message_twice :
    (now later : ℕ) (random random' : ℕ → ℕ) (m m' : RecurringMessage) (t : Tables)
    → IsWellFormed t
    → m'.msg_type ≡ m.msg_type
    → let t' = (ensure_recurring_message now random m t).1 in
      ((ensure_recurring_message now random m t).0 ≡ ok tt)
      × (any (is_recurring_of m.msg_type) t'.mq ≡ true)
      × (ensure_recurring_message later random' m' t' ≡ (ok tt, t'))
ensure_recurring_message_twice now later random random' m m' t w same =
    elim (Bool-cases (any (is_recurring_of m.msg_type) t.mq)) [
      | inl e ↦ rw (there now random m t e) (refl, e, there later random' m' t (rw same e))
      | inr e ↦
          rw (not_there now random m t w e) (refl, added, there later random' m' _ (rw same added))
    ]
  where
    added :
        any (is_recurring_of m.msg_type) (t.mq ++ recurring_row now random m t.mq_seq ∷ []) ≡ true
    added =
        any-concat (is_recurring_of m.msg_type) t.mq (recurring_row now random m t.mq_seq)
          (rw (str_eq_refl m.msg_type))
