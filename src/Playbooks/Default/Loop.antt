-- ===== src/Playbooks/Default/Loop.antt =====
-- The loop of _find_default_version over formatted times, and its leader by seconds.
use cpkit.Base.{
  ℕ, suc, ◌/◌, ◌≤◌, String, ◌≡◌, refl, sym, ap, ◌∙◌, ◌⊎◌, inl, inr, Bool, true, false, Option, none,
  some, List, [], ◌∷◌, arith, ltb, if◌then◌else◌, Bool-cases, All, if_split,
}
use cpkit.Base.Texts.{is_before}
use cpkit.Playbooks.{Playbook, Env}
use cpkit.Playbooks.Service.{default_step, default_loop}
use cpkit.Playbooks.Ordered.{In}
use cpkit.Playbooks.Formats.{Formats}

-- the second of a default, and 0 for none
abbrev pub second_of : Option ℕ → ℕ
second_of none = 0
second_of (some d) = suc (d / 1000000)

abbrev pub default_second : Playbook → ℕ
default_second r = second_of r.default_version

abbrev pub second_in : Option Playbook → ℕ
second_in none = 0
second_in (some r) = default_second r

-- the loop's leader: of the rows so far, the first with the latest second
abbrev pub leader : Option Playbook → Playbook → Option Playbook
leader o r = if ltb (second_in o) (default_second r) then some r else o

unfoldable pub leader_of : Option Playbook → List Playbook → Option Playbook
leader_of o [] = o
leader_of o (r ∷ rs) = leader_of (leader o r) rs

module _ (env : Env) (f : Formats env) where
  abbrev pub text_at : Option ℕ → String
  text_at none = ""
  text_at (some d) = env.strftime d

  abbrev pub texts_in : Option Playbook → String × String
  texts_in none = ("", "")
  texts_in (some r) = (text_at r.default_version, env.strftime r.version)

  is_before_second :
      (o : Option ℕ) (d : ℕ)
      → is_before (text_at o) (env.strftime d) ≡ ltb (second_of o) (suc (d / 1000000))
  is_before_second none d = f.starts d ∙ ground arith
  is_before_second (some e) d = f.ordered e d ∙ ground arith

  -- a step of the loop on the parts of its rows
  step_at :
      (p d : Option ℕ) (selected version : String)
      → ◌≡◌ {A = String × String}
          (elim d [
            | none ↦ (text_at p, selected)
            | some x ↦
                if is_before (text_at p) (env.strftime x)
                then (env.strftime x, version)
                else (text_at p, selected)
          ])
          (if ltb (second_of p) (second_of d) then (text_at d, version) else (text_at p, selected))
  step_at p none selected version = ground arith
  step_at p (some x) selected version = rw (is_before_second p x) refl

  texts_in-if :
      (b : Bool) (r : Playbook) (o : Option Playbook)
      → texts_in (if b then some r else o) ≡ (if b then texts_in (some r) else texts_in o)
  texts_in-if true r o = refl
  texts_in-if false r o = refl

  default_step-texts_in :
      (o : Option Playbook) (r : Playbook) → default_step env (texts_in o) r ≡ texts_in (leader o r)
  default_step-texts_in none r =
      step_at none r.default_version "" (env.strftime r.version)
      ∙ sym (texts_in-if (ltb 0 (default_second r)) r none)
  default_step-texts_in (some q) r =
      step_at q.default_version r.default_version (env.strftime q.version) (env.strftime r.version)
      ∙ sym (texts_in-if (ltb (default_second q) (default_second r)) r (some q))

  pub default_loop-texts_in :
      (o : Option Playbook) (rs : List Playbook)
      → default_loop env (texts_in o) rs ≡ texts_in (leader_of o rs)
  unfolding default_loop leader_of
  default_loop-texts_in o [] = refl
  default_loop-texts_in o (r ∷ rs) =
      ap (λ acc. default_loop env acc rs) (default_step-texts_in o r)
      ∙ default_loop-texts_in (leader o r) rs

-- The leader of some rows was the leader before or is one of them, and no row has a later second.
pub record Leads (o : Option Playbook) (rs : List Playbook) (w : Option Playbook) : Type 0 where
  pub from : (w ≡ o) ⊎ ((q : Playbook) × (w ≡ some q) × In q rs)
  pub kept : second_in o ≤ second_in w
  pub latest : All (λ r. default_second r ≤ second_in w) rs

leader-grows :
    (o : Option Playbook) (r : Playbook)
    → (second_in o ≤ second_in (leader o r)) × (default_second r ≤ second_in (leader o r))
leader-grows o r = elim (Bool-cases (ltb (second_in o) (default_second r))) [
  | inl e ↦ simp e (ground (arith, e))
  | inr e ↦ simp e (ground (arith, e))
]

leader_from : (o : Option Playbook) (r : Playbook) → (leader o r ≡ o) ⊎ (leader o r ≡ some r)
leader_from o r =
    if_split (λ w. (w ≡ o) ⊎ (w ≡ some r)) (ltb (second_in o) (default_second r)) (λ _. inr refl)
      (λ _. inl refl)

pub leader_of-Leads : (o : Option Playbook) (rs : List Playbook) → Leads o rs (leader_of o rs)
unfolding leader_of
leader_of-Leads o [] = record { from = inl refl; kept = omega arith; latest = tt }
leader_of-Leads o (r ∷ rs) =
    let rest = leader_of-Leads (leader o r) rs in
    let grows = leader-grows o r in
    record {
      from = elim rest.from [
        | inl same ↦ elim (leader_from o r) [
          | inl old ↦ inl (same ∙ old)
          | inr new ↦ inr (r, same ∙ new, inl refl)
        ]
        | inr (q, is, there) ↦ inr (q, is, inr there)
      ];
      kept = omega (arith, rest.kept, grows.0);
      latest = (omega (arith, rest.kept, grows.1), rest.latest);
    }
