-- ===== src/Playbooks/Missing.antt =====
-- Requests to PlaybooksService for a version or a playbook that is not there.
use cpkit.Base.{
  ℕ, String, ◌≡◌, refl, Bool, false, none, some, List, [], ◌∷◌, arith, any, first_row, where_rows,
}
use cpkit.Base.Exec.{err, gets, ◌>>=◌}
use cpkit.Playbooks
use cpkit.Playbooks.{
  Playbook, Env, Call, attribute_of_none, get_default, get_version, list_versions, is_named,
  is_version, get_default_playbook, list_playbook_versions, run_call,
}
use cpkit.Playbooks.Service.{
  guarded, decode_playbook, get_playbook_version, delete_playbook_version,
}

module _ {A : Type 0} (p : A → Bool) where
  first_row-none : (xs : List A) → any p xs ≡ false → first_row p xs ≡ none
  first_row-none [] h = refl
  first_row-none (x ∷ xs) h = ground (arith, h, first_row-none xs)

  where_rows-none : (xs : List A) → any p xs ≡ false → where_rows p xs ≡ []
  where_rows-none [] h = refl
  where_rows-none (x ∷ xs) h = ground (arith, h, where_rows-none xs)

-- Where no statement fails: asking for a version at a time at which the playbook has none, and
-- deleting any version of a playbook that has none at all, end in the AttributeError of None, not
-- in a service error, and change no row.
pub missing_playbook :
    (env : Env) (name version : String) (t : ℕ) (rows : List Playbook)
    → ((call : Call) → env.fault call ≡ none)
    → env.parse_time version ≡ some t
    → (any (is_version name t) rows ≡ false
        → get_playbook_version env name version rows ≡ (err attribute_of_none, rows))
      × (any (is_named name) rows ≡ false
          → delete_playbook_version env name version rows ≡ (err attribute_of_none, rows))
unfolding get_playbook_version delete_playbook_version guarded decode_playbook run_call
    list_playbook_versions Playbooks.get_playbook get_default_playbook gets ◌>>=◌
missing_playbook env name version t rows works reads = (
  λ h.
      rw (works list_versions, works get_version, reads, first_row-none (is_version name t) rows h)
        refl,
  λ h. rw (works get_default, where_rows-none (is_named name) rows h) refl,
)
