-- ===== src/Playbooks/Saved.antt =====
-- What save_playbook of cpkit/playbooks/service.py leaves, as get_playbook_version shows it.
use cpkit.Base.{
  String, ◌≡◌, refl, ap, ◌∙◌, false, none, some, List, [], ◌∷◌, ◌++◌, ◌⊎◌, inl, inr, arith, str_eq,
  if_split, any, where_rows, order_by, last_of, eq_iff,
}
use cpkit.Base.Exec.{Result, ok, lift, pure, gets, ◌>>=◌}
use cpkit.Playbooks
use cpkit.Playbooks.{
  Playbook, PlaybookFailure, Env, Query, Call, create, list_versions, get_version, is_named,
  is_version, is_newer, whole_second, new_playbook, create_playbook, list_playbook_versions,
  run_call,
}
use cpkit.Playbooks.Service.{
  PlaybookVersionResponse, guarded, run_hook, default_loop, or_last, find_default_version,
  decode_playbook, version_response, save_playbook, get_playbook_version,
}
use cpkit.Playbooks.Formats.{Formats}
use cpkit.Playbooks.Ordered.{order_by_nonempty, In-where_rows_added, first_row_added}

module _ (env : Env) where
  -- a list of versions that is not empty has a default version
  or_last_ok :
      (s : String) (y : Playbook) (ys : List Playbook)
      → (d : String) × (or_last env s (y ∷ ys) ≡ ok d)
  or_last_ok s y ys =
      if_split (λ (r : Result PlaybookFailure String). (d : String) × (r ≡ ok d)) (str_eq s "")
        (λ _. (env.strftime (last_of y ys).version, refl)) (λ _. (s, refl))

  find_default_version_ok :
      (vs : List Playbook) (y : Playbook) (ys : List Playbook)
      → vs ≡ y ∷ ys
      → (d : String) × (find_default_version env vs ≡ ok d)
  unfolding find_default_version
  find_default_version_ok vs y ys e = rw e (or_last_ok (default_loop env ("", "") (y ∷ ys)).1 y ys)

-- the rows after a save
module _ (env : Env) (name content created_by : String) (rows : List Playbook) where
  abbrev new_row : Playbook
  new_row = new_playbook env name (env.compress content) created_by

  abbrev pub saved_rows : List Playbook
  saved_rows = rows ++ new_row ∷ []

module _ (env : Env) (f : Formats env) (works : (call : Call) → env.fault call ≡ none)
    (name content created_by : String) (rows : List Playbook)
    (restores : env.decompress (env.compress content) ≡ some content)
    (hooked : (env.hook ≡ none) ⊎ (env.hook ≡ some (ok tt)))
    (free : any (is_version name (whole_second env.now)) rows ≡ false) where
  abbrev versions : List Playbook
  versions =
      order_by is_newer (where_rows (is_named name) (saved_rows env name content created_by rows))

  creates : create_playbook env name (env.compress content) created_by rows ≡ (
    ok (new_row env name content created_by rows),
    (saved_rows env name content created_by rows),
  )
  unfolding create_playbook run_call
  creates = rw (works create, free) refl

  hook_passes :
      run_hook env env.hook (saved_rows env name content created_by rows)
      ≡ (ok tt, (saved_rows env name content created_by rows))
  unfolding pure lift
  hook_passes = elim hooked [ inl e ↦ rw e refl | inr e ↦ rw e refl ]

  lists :
      list_playbook_versions env name (saved_rows env name content created_by rows)
      ≡ (ok versions, (saved_rows env name content created_by rows))
  unfolding list_playbook_versions run_call gets
  lists = rw (works list_versions) refl

  finds :
      Playbooks.get_playbook env name
        (env.strftime (whole_second env.now))
        (saved_rows env name content created_by rows)
      ≡ (
        ok (some (new_row env name content created_by rows)),
        (saved_rows env name content created_by rows),
      )
  unfolding Playbooks.get_playbook run_call gets
  finds =
      let at : env.parse_time (env.strftime (whole_second env.now)) ≡ some (whole_second env.now) =
        f.read_back (whole_second env.now) ∙ ap some (omega arith) in
      rw (works get_version, at)
        (ap (λ o. (ok o, (saved_rows env name content created_by rows)))
          (first_row_added (is_version name (whole_second env.now)) rows
            (new_row env name content created_by rows) free (ground (arith, eq_iff name name))))

  has_default : (d : String) × (find_default_version env versions ≡ ok d)
  has_default =
      let (y, ys, e) =
        order_by_nonempty is_newer (new_row env name content created_by rows)
          (where_rows (is_named name) (saved_rows env name content created_by rows))
          (In-where_rows_added (is_named name) rows (new_row env name content created_by rows)
            ((eq_iff name name).1 refl)) in
      find_default_version_ok env versions y ys e

  abbrev shown : String → PlaybookVersionResponse
  shown d = version_response env (env.strftime (whole_second env.now)) d content versions

  save_playbook-shown :
      (d : String)
      → find_default_version env versions ≡ ok d
      → save_playbook env name content created_by rows
        ≡ (ok (shown d), (saved_rows env name content created_by rows))
  unfolding save_playbook guarded ◌>>=◌
  save_playbook-shown d e = rw (creates, hook_passes, lists, e) refl

  get_playbook_version-shown :
      (d : String)
      → find_default_version env versions ≡ ok d
      → get_playbook_version env name
          (shown d).playbook_version
          (saved_rows env name content created_by rows)
        ≡ (ok (shown d), (saved_rows env name content created_by rows))
  unfolding get_playbook_version guarded decode_playbook ◌>>=◌
  get_playbook_version-shown d e = rw (lists, finds, restores, e) refl

  -- For formats that show seconds, where no statement nor the hook fails, the compression can be
  -- undone and the playbook has no version in the current second yet: saving appends one row, and
  -- asking for the version that the answer names gives that same answer, with the content saved.
  pub save-get_playbook_version :
      (r : PlaybookVersionResponse) × (save_playbook env name content created_by rows
        ≡ (ok r, (saved_rows env name content created_by rows)))
      × (r.original_content ≡ content)
      × (get_playbook_version env name r.playbook_version
            (saved_rows env name content created_by rows)
          ≡ (ok r, (saved_rows env name content created_by rows)))
  save-get_playbook_version =
      let (d, e) = has_default in
      (shown d, save_playbook-shown d e, refl, get_playbook_version-shown d e)
