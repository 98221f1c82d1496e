-- ===== src/Playbooks/Bypassed.antt =====
-- Which texts pass the test of delete_playbook_version of cpkit/playbooks/service.py.
use cpkit.Base.{
  String, ◌≡◌, ◌≢◌, refl, sym, ap, ◌∙◌, false, none, some, List, arith, str_eq, eq_iff, delete_rows,
}
use cpkit.Base.Exec.{ok, raise, pure, ◌>>=◌}
use cpkit.Base.Exec.Keeps.{Keeps-bind, keeps_rules}
use cpkit.Base.Exec.Cases.{bind-cases, catch-cases}
use cpkit.Errors.{Messages}
use cpkit.Playbooks.{Playbook, Env, Query, Call, delete, is_version, delete_playbook, run_call}
use cpkit.Playbooks.Service.{
  guarded, delete_messages, remove_and_load, delete_unless_default, delete_playbook_version,
}
use cpkit.Playbooks.Reads.{Keeps-run_hook, Keeps-list_playbook_versions, Keeps-get_playbook}
use cpkit.Playbooks.Protected.{DefaultIs, delete_playbook_version-loaded}

module _ (env : Env) (name : String) (c : Playbook) where
  -- what follows a deletion only reads
  module _ (version : String) (rows : List Playbook)
      (deletes : delete_playbook env name version rows
        ≡ (ok tt, delete_rows (is_version name c.version) rows)) where
    left : List Playbook
    left = delete_rows (is_version name c.version) rows

    remove_and_load-left :
        (default : String) → (remove_and_load env name version default rows).1 ≡ left
    unfolding ◌>>=◌ left
    remove_and_load-left default = rw deletes (
        (Keeps-bind _ _ (Keeps-run_hook env (λ s. s ≡ left) env.hook) λ _.
            Keeps-bind _ _ (Keeps-list_playbook_versions env (λ s. s ≡ left) name) λ _.
              Keeps-bind _ _ (Keeps-get_playbook env (λ s. s ≡ left) name default)
                λ _. search keeps_rules).at
          left refl)

    guarded-left :
        {A : Type 0} (m : Messages) (action : Query A)
        → (action rows).1 ≡ left
        → (guarded m action rows).1 ≡ left
    unfolding guarded raise
    guarded-left m action e =
        catch-cases (λ x. x.1 ≡ left) action _ rows (λ a s r. sym (ap (λ x. x.1) r) ∙ e)
          λ f s r. sym (ap (λ x. x.1) r) ∙ e

    delete_unless_default-left :
        (default : String)
        → str_eq version default ≡ false
        → (delete_unless_default env name version default rows).1 ≡ left
    unfolding pure
    delete_unless_default-left default differs = rw differs (
        bind-cases (λ x. x.1 ≡ left)
          (guarded (delete_messages name) (remove_and_load env name version default)) _ rows
          (λ a s r. sym (ap (λ x. x.1) r) ∙ guarded-left _ _ (remove_and_load-left default))
          λ f s r. sym (ap (λ x. x.1) r) ∙ guarded-left _ _ (remove_and_load-left default))

  deletes_read :
      (version : String) (rows : List Playbook)
      → env.fault delete ≡ none
      → env.parse_time version ≡ some c.version
      → delete_playbook env name version rows
        ≡ (ok tt, delete_rows (is_version name c.version) rows)
  unfolding delete_playbook run_call
  deletes_read version rows works reads = rw (works, reads) refl

  -- A text that the server reads as the default version's time and that is not the one that the
  -- service writes for it passes the test: where no statement fails, the default row is deleted.
  pub other_spelling_deletes :
      (version : String) (rows : List Playbook)
      → DefaultIs env name c rows
      → ((call : Call) → env.fault call ≡ none)
      → env.parse_time version ≡ some c.version
      → version ≢ env.strftime c.version
      → (delete_playbook_version env name version rows).1
        ≡ delete_rows (is_version name c.version) rows
  unfolding left
  other_spelling_deletes version rows h works reads differs =
      ap (λ x. x.1) (delete_playbook_version-loaded env name c version rows h)
      ∙ delete_unless_default-left version rows (deletes_read version rows (works delete) reads)
          (env.strftime c.version)
          (ground (arith, eq_iff version (env.strftime c.version), differs))
