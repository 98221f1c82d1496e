-- ===== src/Playbooks/Undecided.antt =====
-- The default of a playbook no version of which was made the default.
use cpkit.Base.{
  ℕ, ◌≤◌, String, ◌≡◌, refl, inl, inr, sym, ap, subst, ◌∙◌, false, Option, none, some, List, [],
  ◌∷◌, arith, if◌then◌else◌, any, All, order_by, last_of,
}
use cpkit.Base.Exec.{ok}
use cpkit.Base.Texts.{is_before}
use cpkit.Playbooks.{
  Playbook, Env, list_versions, get_default, default_rank, rank_of, is_newer, defaults_first,
  get_default_playbook,
}
use cpkit.Playbooks.Service.{default_loop, find_default_version}
use cpkit.Playbooks.Selected.{
  was_default, is_set, named, selected_version, get_default_playbook-champion,
  selected_version-find_default_version,
}
use cpkit.Playbooks.Ordered.{In, All-In, All-order_by, In-order_by, champion, order_by_nonempty}
use cpkit.Playbooks.Ordered.Champion.{IsTop, champion-IsTop}
use cpkit.Playbooks.Ordered.Last.{last_of-order_by}

abbrev Undecided : List Playbook → Type 0
Undecided rs = All (λ r. was_default r ≡ false) rs

none-Undecided : (rs : List Playbook) → any was_default rs ≡ false → Undecided rs
none-Undecided [] h = tt
none-Undecided (r ∷ rs) h = ground (arith, h, none-Undecided rs)

unset-rank : (o : Option ℕ) → is_set o ≡ false → rank_of o ≡ 0
unset-rank none h = refl
unset-rank (some d) h = cc h

-- the first by rank is the newest
newest-champion :
    (rs : List Playbook) (c : Playbook)
    → Undecided rs
    → In c rs
    → IsTop default_rank (λ x. x.version) c rs
    → All (λ r. r.version ≤ c.version) rs
newest-champion rs c h i top = both rs h top
  where
    unset : default_rank c ≡ 0
    unset = unset-rank c.default_version (All-In (λ r. was_default r ≡ false) c rs h i)

    both :
        (l : List Playbook)
        → Undecided l
        → IsTop default_rank (λ x. x.version) c l
        → All (λ r. r.version ≤ c.version) l
    both [] h t = tt
    both (r ∷ l) h t =
        (ground (arith, unset, unset-rank r.default_version h.0, t.0), both l h.1 t.1)

last_of-In : (y : Playbook) (ys : List Playbook) → In (last_of y ys) (y ∷ ys)
last_of-In y [] = inl refl
last_of-In y (z ∷ zs) = inr (last_of-In z zs)

champion_of_In :
    (rs : List Playbook) (r : Playbook)
    → In r rs
    → (c : Playbook) × (champion defaults_first rs ≡ some c)
champion_of_In [] r i = absurd i
champion_of_In (x ∷ rs) r i = (_, refl)

module _ (env : Env) where
  -- a step over a row that was not made the default, on the parts of the row
  step_unset :
      (d : Option ℕ) (version : String)
      → is_set d ≡ false
      → ◌≡◌ {A = String × String}
          (elim d [
            | none ↦ ("", "")
            | some x ↦ if is_before "" (env.strftime x) then (env.strftime x, version) else ("", "")
          ])
          ("", "")
  step_unset none version h = refl
  step_unset (some x) version h = cc h

  default_loop-Undecided :
      (rs : List Playbook) → Undecided rs → default_loop env ("", "") rs ≡ ("", "")
  unfolding default_loop
  default_loop-Undecided [] h = refl
  default_loop-Undecided (r ∷ rs) h =
      ap (λ acc. default_loop env acc rs)
        (step_unset r.default_version (env.strftime r.version) h.0)
      ∙ default_loop-Undecided rs h.1

  oldest-selected :
      (rs : List Playbook) (y : Playbook) (ys : List Playbook)
      → Undecided rs
      → order_by is_newer rs ≡ y ∷ ys
      → find_default_version env (order_by is_newer rs) ≡ ok (env.strftime (last_of y ys).version)
  unfolding find_default_version
  oldest-selected rs y ys h o =
      rw (default_loop-Undecided (order_by is_newer rs) (All-order_by _ is_newer rs h), o) refl

  -- Where statements do not fail and a playbook has versions none of which was made the default:
  -- the repository's default row is a newest version, and the service selects an oldest one.
  pub undecided_default :
      (name : String) (rows : List Playbook)
      → env.fault list_versions ≡ none
      → env.fault get_default ≡ none
      → any was_default (named name rows) ≡ false
      → (r : Playbook) → In r (named name rows)
      → (newest oldest : Playbook) × In newest (named name rows)
        × In oldest (named name rows)
        × All (λ x. x.version ≤ newest.version) (named name rows)
        × All (λ x. oldest.version ≤ x.version) (named name rows)
        × (get_default_playbook env name rows ≡ (ok (some newest), rows))
        × (selected_version env name rows ≡ (ok (env.strftime oldest.version), rows))
  undecided_default name rows listed loaded unset r i =
      let none_set = none-Undecided (named name rows) unset in
      let (c, e) = champion_of_In (named name rows) r i in
      let top = champion-IsTop default_rank (λ x. x.version) (named name rows) e in
      let (y, ys, o) = order_by_nonempty is_newer r (named name rows) i in
      (
        c,
        last_of y ys,
        top.0,
        In-order_by is_newer (last_of y ys) (named name rows)
            (subst (In (last_of y ys)) (sym o) (last_of-In y ys)),
        newest-champion (named name rows) c none_set top.0 top.1,
        last_of-order_by (λ x. x.version) (named name rows) y ys o,
        get_default_playbook-champion env name rows loaded ∙ ap (λ w. (ok w, rows)) e,
        selected_version-find_default_version env name rows listed
            ∙ ap (λ w. (w, rows)) (oldest-selected (named name rows) y ys none_set o),
      )
