-- ===== src/Playbooks/Default.antt =====
-- Two ways to say which version of a playbook is the default: _find_default_version of
-- cpkit/playbooks/service.py, which reads formatted times, and get_default_playbook of
-- cpkit/playbooks/repository.py, which orders by the stored ones.
mod Loop
use cpkit.Base.{
  ℕ, suc, ◌+◌, ◌/◌, ◌*◌, ◌<◌, ◌≤◌, String, ◌≡◌, refl, sym, ap, subst, ◌∙◌, ◌⊎◌, inl, inr, Bool,
  true, false, ◌&&◌, ◌||◌, Option, none, some, List, [], ◌∷◌, arith, ltb, ◌==◌, str_eq,
  if◌then◌else◌, Bool-cases, Option-cases, All, AllPairs, any, if_split, All-mono, eq_iff,
  insert_row_by, order_by, limit_one, last_of, where_rows,
}
use cpkit.Base.Exec.{ok, err, lift, gets, ◌>>=◌}
use cpkit.Base.Texts.{is_before}
use cpkit.Playbooks.{
  Playbook, Env, list_versions, get_default, default_rank, rank_of, is_newer, is_named,
  defaults_first, get_default_playbook, list_playbook_versions, run_call, Query,
}
use cpkit.Playbooks.Service.{default_step, default_loop, or_last, find_default_version}
use cpkit.Playbooks.Ordered.{In, All-In, order_by_All, In-order_by, champion, limit_one-order_by}
use cpkit.Playbooks.Formats.{Formats, strftime_nonempty}
use cpkit.Playbooks.Ordered.Champion.{IsTop, champion-IsTop, by_ranks}
use cpkit.Playbooks.Selected.{
  named, selected_version, get_default_playbook-champion, selected_version-find_default_version,
  is_set, was_default,
}
use Loop.{
  second_of, default_second, second_in, leader, leader_of, texts_in, default_loop-texts_in, Leads,
  leader_of-Leads,
}

-- no two of the rows were made the default in one second
abbrev pub NotTogether : Playbook → Playbook → Type 0
NotTogether a b = default_second a ≡ default_second b → default_second a ≡ 0

same_second :
    (q c : Playbook) (rs : List Playbook)
    → AllPairs NotTogether rs
    → In q rs
    → In c rs
    → default_second q ≡ default_second c
    → 0 < default_second q
    → q ≡ c
same_second q c [] h i j e pos = absurd i
same_second q c (r ∷ rs) h (inl p) (inl s) e pos = p ∙ sym s
same_second q c (r ∷ rs) h (inl p) (inr j) e pos =
    absurd
      (omega (arith, subst (λ x. NotTogether x c) (sym p) (All-In (NotTogether r) c rs h.0 j) e))
same_second q c (r ∷ rs) h (inr i) (inl s) e pos = absurd (
    omega (arith, subst (λ x. NotTogether x q) (sym s) (All-In (NotTogether r) q rs h.0 i) (sym e)))
same_second q c (r ∷ rs) h (inr i) (inr j) e pos = same_second q c rs h.1 i j e pos

second_of_mono : (d e : Option ℕ) → rank_of d ≤ rank_of e → second_of d ≤ second_of e
second_of_mono none e h = omega arith
second_of_mono (some d) none h = omega arith
second_of_mono (some d) (some e) h = omega arith

abbrev version_of : Playbook → ℕ
version_of r = r.version

-- a row that none must stand before has the latest second
defaults_first-second :
    (c r : Playbook)
    → by_ranks default_rank version_of r c ≡ false
    → default_second r ≤ default_second c
defaults_first-second c r h = second_of_mono r.default_version c.default_version (ground (arith, h))

is_set-second : (o : Option ℕ) → is_set o ≡ true → 0 < second_of o
is_set-second none h = cc h
is_set-second (some d) h = omega arith

any_set :
    (n : ℕ) (rs : List Playbook)
    → any was_default rs ≡ true
    → All (λ r. default_second r ≤ n) rs
    → 0 < n
any_set n [] h k = cc h
any_set n (r ∷ rs) h k = elim (Bool-cases (was_default r)) [
  | inl e ↦ omega (arith, is_set-second r.default_version e, k.0)
  | inr e ↦ any_set n rs (ground (arith, e, h)) k.1
]

champion-some :
    (rs : List Playbook)
    → any was_default rs ≡ true
    → (c : Playbook) × (champion defaults_first rs ≡ some c)
champion-some [] h = cc h
champion-some (r ∷ rs) h = (_, refl)

module _ (env : Env) (f : Formats env) where
  or_last-selected :
      (s : String) (rs : List Playbook) → str_eq s "" ≡ false → or_last env s rs ≡ ok s
  or_last-selected s [] h = rw h refl
  or_last-selected s (r ∷ rs) h = rw h refl

  module _ (rs : List Playbook) (set : any was_default rs ≡ true)
      (apart : AllPairs NotTogether rs) where
    latest-champion :
        (c : Playbook)
        → champion defaults_first rs ≡ some c
        → In c rs × All (λ r. default_second r ≤ default_second c) rs
    latest-champion c e =
        let top = champion-IsTop default_rank version_of rs e in
        (top.0, All-mono _ _ (λ r. defaults_first-second c r) rs top.1)

    Leads-champion :
        (c : Playbook) (w : Option Playbook)
        → In c rs
        → All (λ r. default_second r ≤ default_second c) rs
        → Leads none (order_by is_newer rs) w
        → w ≡ some c
    Leads-champion c w there late leads =
        let below = order_by_All (λ r. default_second r ≤ second_in w) is_newer rs leads.latest in
        let pos = any_set (second_in w) rs set below in
        elim leads.from [
          | inl gone ↦ absurd (omega (arith, pos, ap second_in gone))
          | inr (q, is, among) ↦
              let q_there = In-order_by is_newer q rs among in
              let q_late = All-In (λ r. default_second r ≤ default_second c) q rs late q_there in
              let c_late = All-In (λ r. default_second r ≤ second_in w) c rs below there in
              is
              ∙ ap some (
                  same_second q c rs apart q_there there
                    (omega (arith, q_late, c_late, ap second_in is))
                    (omega (arith, pos, ap second_in is)))
        ]

    -- the leader of the ordered rows is the champion
    leader-champion :
        (c : Playbook)
        → champion defaults_first rs ≡ some c
        → leader_of none (order_by is_newer rs) ≡ some c
    leader-champion c e =
        let top = latest-champion c e in
        Leads-champion c (leader_of none (order_by is_newer rs)) top.0 top.1
          (leader_of-Leads none (order_by is_newer rs))

    find_default_version-champion :
        (c : Playbook)
        → champion defaults_first rs ≡ some c
        → find_default_version env (order_by is_newer rs) ≡ ok (env.strftime c.version)
    unfolding find_default_version
    find_default_version-champion c e =
        let loop =
          default_loop-texts_in env f none (order_by is_newer rs)
          ∙ ap (texts_in env f) (leader-champion c e) in
        ap (λ acc. or_last env acc.1 (order_by is_newer rs)) loop
        ∙ or_last-selected (env.strftime c.version) (order_by is_newer rs)
            (strftime_nonempty env f c.version)

  -- For formats that show seconds, and statements that do not fail: where some version of a
  -- playbook was made the default, and no two of its versions in one second, the repository's
  -- default row is there and its version is the one that the service selects.
  pub default_versions_agree :
      (name : String) (rows : List Playbook)
      → env.fault list_versions ≡ none
      → env.fault get_default ≡ none
      → any was_default (named name rows) ≡ true
      → AllPairs NotTogether (named name rows)
      → (c : Playbook) × (get_default_playbook env name rows ≡ (ok (some c), rows))
        × (selected_version env name rows ≡ (ok (env.strftime c.version), rows))
  default_versions_agree name rows listed loaded set apart =
      let (c, e) = champion-some (named name rows) set in
      (
        c,
        get_default_playbook-champion env name rows loaded ∙ ap (λ o. (ok o, rows)) e,
        selected_version-find_default_version env name rows listed
            ∙ ap (λ r. (r, rows)) (find_default_version-champion (named name rows) set apart c e),
      )
