-- ===== src/Playbooks/Protected.antt =====
-- Which version delete_playbook_version of cpkit/playbooks/service.py spares.
use mathlib.Core.Option.{some-injective}
use cpkit.Base.{
  ℕ, ◌/◌, ◌*◌, String, ◌≡◌, refl, sym, ap, subst, ◌∙◌, Bool, true, false, Option, none, some, List,
  [], ◌∷◌, arith, str_eq, eq_iff, Bool-cases, where_rows, delete_rows, inl, inr,
}
use cpkit.Base.Exec.{ok, err, raise, gets, ◌>>=◌}
use cpkit.Base.Exec.Keeps.{Keeps, Keeps-if, Keeps-catch, Keeps-bind, keeps_rules}
use cpkit.Errors.{DatabaseError}
use cpkit.Playbooks.{
  Playbook, Env, delete, get_default, is_named, is_version, defaults_first, get_default_playbook,
  delete_playbook, run_call, default_rank, statement_or, remove_version, at_time,
}
use cpkit.Playbooks.Service.{
  guarded, remove_and_load, cannot_delete_default, delete_unless_default, delete_playbook_version,
}
use cpkit.Playbooks.Reads.{
  Keeps-run_call, Keeps-run_hook, Keeps-list_playbook_versions, Keeps-get_playbook,
}
use cpkit.Playbooks.Formats.{Formats}
use cpkit.Playbooks.Ordered.{champion, limit_one-order_by}
use cpkit.Playbooks.Ordered.Champion.{champion-delete_rows}

module _ {A : Type 0} where
  where_rows-delete_rows :
      (p q : A → Bool) (xs : List A)
      → where_rows q (delete_rows p xs) ≡ delete_rows p (where_rows q xs)
  where_rows-delete_rows p q [] = refl
  where_rows-delete_rows p q (x ∷ xs) = ground (arith, where_rows-delete_rows p q xs)

module _ (env : Env) (name : String) (c : Playbook) where
  -- the repository's default row of the playbook is `c`
  abbrev pub DefaultIs : List Playbook → Type 0
  DefaultIs rows = get_default_playbook env name rows ≡ (ok (some c), rows)

  answered :
      (g : List Playbook → Option Playbook) (o : Option DatabaseError) (rows : List Playbook)
      → statement_or env o (gets g) rows ≡ (ok (some c), rows)
      → (o ≡ none) × (g rows ≡ some c)
  unfolding gets raise
  answered g none rows h = (refl, ground (arith, h))
  answered g (some e) rows h = absurd (ground (arith, h))

  DefaultIs-champion :
      (rows : List Playbook)
      → DefaultIs rows
      → (env.fault get_default ≡ none)
        × (champion defaults_first (where_rows (is_named name) rows) ≡ some c)
  unfolding get_default_playbook run_call
  DefaultIs-champion rows h =
      let r = answered _ (env.fault get_default) rows h in
      (r.0, sym (limit_one-order_by defaults_first _) ∙ r.1)

  champion-DefaultIs :
      (rows : List Playbook)
      → env.fault get_default ≡ none
      → champion defaults_first (where_rows (is_named name) rows) ≡ some c
      → DefaultIs rows
  unfolding get_default_playbook run_call gets
  champion-DefaultIs rows loaded e =
      rw loaded (ap (λ o. (ok o, rows)) (limit_one-order_by defaults_first _ ∙ e))

  -- a statement that deletes another version
  remove_version-DefaultIs :
      (t : ℕ) → is_version name t c ≡ false → Keeps DefaultIs (remove_version env name t)
  remove_version-DefaultIs t other = record {
    at = λ rows h.
        let r = DefaultIs-champion rows h in
        champion-DefaultIs (delete_rows (is_version name t) rows) r.0 (
          rw (where_rows-delete_rows (is_version name t) (is_named name) rows) (
            champion-delete_rows default_rank (λ x. x.version) (is_version name t)
              (where_rows (is_named name) rows) r.1 other));
  }

  module _ (version : String)
      (other : (t : ℕ) → env.parse_time version ≡ some t → is_version name t c ≡ false) where
    at_time-DefaultIs :
        (o : Option ℕ)
        → env.parse_time version ≡ o
        → Keeps DefaultIs (at_time env o (remove_version env name))
    at_time-DefaultIs none e = search keeps_rules
    at_time-DefaultIs (some t) e = remove_version-DefaultIs t (other t e)

    delete_playbook-DefaultIs : Keeps DefaultIs (delete_playbook env name version)
    unfolding delete_playbook
    delete_playbook-DefaultIs =
        Keeps-run_call env DefaultIs delete _ (at_time-DefaultIs (env.parse_time version) refl)

    remove_and_load-DefaultIs :
        (default : String) → Keeps DefaultIs (remove_and_load env name version default)
    remove_and_load-DefaultIs default = Keeps-bind _ _ delete_playbook-DefaultIs λ _.
        Keeps-bind _ _ (Keeps-run_hook env DefaultIs env.hook) λ _.
          Keeps-bind _ _ (Keeps-list_playbook_versions env DefaultIs name) λ _.
            Keeps-bind _ _ (Keeps-get_playbook env DefaultIs name default) λ _. search keeps_rules

    delete_other-DefaultIs :
        (default : String) → Keeps DefaultIs (delete_unless_default env name version default)
    unfolding guarded
    delete_other-DefaultIs default = Keeps-if (str_eq version default) _ _ (search keeps_rules) (
        Keeps-bind _ _ (Keeps-catch _ _ (remove_and_load-DefaultIs default) λ _. search keeps_rules)
          λ _. search keeps_rules)

  -- the deletion, once the default row is loaded
  pub delete_playbook_version-loaded :
      (version : String) (rows : List Playbook)
      → DefaultIs rows
      → delete_playbook_version env name version rows
        ≡ delete_unless_default env name version (env.strftime c.version) rows
  unfolding delete_playbook_version guarded ◌>>=◌
  delete_playbook_version-loaded version rows h = rw h refl

  not_default :
      Formats env
      → (v : ℕ) → str_eq (env.strftime v) (env.strftime c.version) ≡ false
      → (t : ℕ) → env.parse_time (env.strftime v) ≡ some t
      → is_version name t c ≡ false
  not_default f v differs t e = elim (Bool-cases (is_version name t c)) [
    | inr other ↦ other
    | inl same ↦
        let at : c.version ≡ t = ground (arith, same) in
        let read : some t ≡ some (v / 1000000 * 1000000) = sym e ∙ f.read_back v in
        let second : v / 1000000 ≡ c.version / 1000000 =
          omega (arith, at, some-injective _ _ read) in
        cc (
          differs,
          (eq_iff (env.strftime v) (env.strftime c.version)).1 (f.shows_seconds v c.version second),
        )
  ]

  delete_playbook_version-refused :
      (version : String) (rows : List Playbook)
      → DefaultIs rows
      → str_eq version (env.strftime c.version) ≡ true
      → delete_playbook_version env name version rows ≡ (err (cannot_delete_default env), rows)
  unfolding raise
  delete_playbook_version-refused version rows h same =
      delete_playbook_version-loaded version rows h ∙ rw same refl

  -- For formats that show seconds, whatever each statement and the hook raise: asked to delete the
  -- version of a text that the service writes for a time, the default row stays the default row;
  -- and where that text is the default version's, the request is refused and no row is changed.
  pub default_row_protected :
      Formats env
      → (v : ℕ) (rows : List Playbook) → DefaultIs rows
      → DefaultIs (delete_playbook_version env name (env.strftime v) rows).1
        × (env.strftime v ≡ env.strftime c.version
            → delete_playbook_version env name (env.strftime v) rows
              ≡ (err (cannot_delete_default env), rows))
  default_row_protected f v rows h = (
    elim (Bool-cases (str_eq (env.strftime v) (env.strftime c.version))) [
      | inl same ↦
          subst (λ x. DefaultIs x.1)
            (sym (delete_playbook_version-refused (env.strftime v) rows h same)) h
      | inr differs ↦
          subst (λ x. DefaultIs x.1) (sym (delete_playbook_version-loaded (env.strftime v) rows h))
            ((delete_other-DefaultIs (env.strftime v) (not_default f v differs)
                (env.strftime c.version)).at
              rows h)
    ],
    λ e.
        delete_playbook_version-refused (env.strftime v) rows h
          ((eq_iff (env.strftime v) (env.strftime c.version)).1 e),
  )
