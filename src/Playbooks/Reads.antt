-- ===== src/Playbooks/Reads.antt =====
-- The statements that only read the playbooks, and the hook, keep whatever holds of the rows.
use cpkit.Base.{ℕ, String, Option, none, some, List}
use cpkit.Base.Exec.{Result, gets}
use cpkit.Base.Exec.Keeps.{Keeps, keeps_rules}
use cpkit.Errors.{DatabaseError}
use cpkit.Playbooks
use cpkit.Playbooks.{
  Playbook, PlaybookFailure, Env, Query, Call, list_playbook_versions, run_call, statement_or,
  at_time,
}
use cpkit.Playbooks.Service.{run_hook}

module _ (env : Env) (P : List Playbook → Type 0) where
  Keeps-statement_or :
      {A : Type 0} (o : Option DatabaseError) (m : Query A)
      → Keeps P m
      → Keeps P (statement_or env o m)
  Keeps-statement_or none m k = k
  Keeps-statement_or (some e) m k = search keeps_rules

  pub Keeps-run_call :
      {A : Type 0} (call : Call) (m : Query A) → Keeps P m → Keeps P (run_call env call m)
  unfolding run_call
  Keeps-run_call call m k = Keeps-statement_or (env.fault call) m k

  pub Keeps-run_hook : (h : Option (Result PlaybookFailure (Unit {0}))) → Keeps P (run_hook env h)
  Keeps-run_hook none = search keeps_rules
  Keeps-run_hook (some r) = search keeps_rules

  pub Keeps-list_playbook_versions : (name : String) → Keeps P (list_playbook_versions env name)
  unfolding list_playbook_versions
  Keeps-list_playbook_versions name = Keeps-run_call _ _ (search keeps_rules)

  Keeps-at_time :
      (o : Option ℕ) (q : ℕ → List Playbook → Option Playbook)
      → Keeps P (at_time env o λ t. gets (q t))
  Keeps-at_time none q = search keeps_rules
  Keeps-at_time (some t) q = search keeps_rules

  pub Keeps-get_playbook : (name w : String) → Keeps P (Playbooks.get_playbook env name w)
  unfolding Playbooks.get_playbook
  Keeps-get_playbook name w = Keeps-run_call _ _ (Keeps-at_time (env.parse_time w) _)
