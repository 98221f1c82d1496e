-- ===== src/Playbooks/Formats.antt =====
-- What the model takes of the formatting and reading of times, which are not this program's.
use cpkit.Base.{ℕ, ◌/◌, ◌*◌, ◌≡◌, inl, inr, true, false, some, ltb, str_eq, Bool-cases, eq_iff}
use cpkit.Base.Texts.{is_before}
use cpkit.Playbooks.{Env}

-- What the formats of the standard library and of the server give at the times of the table: a
-- text is not empty, depends on the second only, texts compare as the seconds that they show, and
-- the server reads one back.
pub record Formats (env : Env) : Type 0 where
  pub starts : (t : ℕ) → is_before "" (env.strftime t) ≡ true
  pub ordered :
      (s t : ℕ) → is_before (env.strftime s) (env.strftime t) ≡ ltb (s / 1000000) (t / 1000000)
  pub shows_seconds : (s t : ℕ) → s / 1000000 ≡ t / 1000000 → env.strftime s ≡ env.strftime t
  pub read_back : (t : ℕ) → env.parse_time (env.strftime t) ≡ some (t / 1000000 * 1000000)

empty_not_before : is_before "" "" ≡ true → ⊥
empty_not_before h = cc h

module _ (env : Env) (f : Formats env) where
  pub strftime_nonempty : (t : ℕ) → str_eq (env.strftime t) "" ≡ false
  strftime_nonempty t = elim (Bool-cases (str_eq (env.strftime t) "")) [
    | inl e ↦ absurd (empty_not_before (rw ((eq_iff (env.strftime t) "").0 e) at (f.starts t)))
    | inr e ↦ e
  ]
