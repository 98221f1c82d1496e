-- ===== src/Playbooks/Selected.antt =====
-- The repository's default row and the version that the service selects, from the rows of a name.
use cpkit.Base.{
  String, ◌≡◌, refl, ap, Bool, true, false, ℕ, Option, none, some, List, where_rows, order_by,
}
use cpkit.Base.Exec.{ok, lift, gets, ◌>>=◌}
use cpkit.Playbooks.{
  Playbook, Env, Query, list_versions, get_default, is_newer, is_named, defaults_first,
  get_default_playbook, list_playbook_versions, run_call,
}
use cpkit.Playbooks.Service.{find_default_version}
use cpkit.Playbooks.Ordered.{champion, limit_one-order_by}

abbrev pub is_set : Option ℕ → Bool
is_set none = false
is_set (some d) = true

-- the version was made the default at some time
abbrev pub was_default : Playbook → Bool
was_default r = is_set r.default_version

abbrev pub named : String → List Playbook → List Playbook
named name rows = where_rows (is_named name) rows

module _ (env : Env) (name : String) where
  -- the version that the service takes for the default
  abbrev pub selected_version : Query String
  selected_version = list_playbook_versions env name >>= λ vs. lift (find_default_version env vs)

  module _ (rows : List Playbook) where
    pub get_default_playbook-champion :
        env.fault get_default ≡ none
        → get_default_playbook env name rows
          ≡ (ok (champion defaults_first (named name rows)), rows)
    unfolding get_default_playbook run_call gets
    get_default_playbook-champion loaded =
        rw loaded (ap (λ o. (ok o, rows)) (limit_one-order_by defaults_first (named name rows)))

    pub selected_version-find_default_version :
        env.fault list_versions ≡ none
        → selected_version rows
          ≡ (find_default_version env (order_by is_newer (named name rows)), rows)
    unfolding list_playbook_versions run_call ◌>>=◌
    selected_version-find_default_version listed = rw listed refl
