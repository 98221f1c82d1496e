-- ===== src/Base/Results.antt =====
-- Results in sequence: Python code that may raise and keeps no state.
use cpkit.Base.Exec.{Result, ok, err}
use mathlib.Core.Bool.{Bool, true, false}
use mathlib.Core.Path.{◌≡◌, refl}

module _ {ℓ} {E A B : Type ℓ} where
  infixl 5 ◌>>=◌
  abbrev pub ◌>>=◌ : Result E A → (A → Result E B) → Result E B
  ok a >>= f = f a
  err e >>= f = err e

module _ {ℓ} {E A : Type ℓ} where
  -- `if test: raise e`, and what comes after it
  abbrev pub raise_if : Bool → E → Result E A → Result E A
  raise_if true e r = err e
  raise_if false e r = r

  pub raise_if-returns :
      (b : Bool) (e : E) (r : Result E A) (a : A) → raise_if b e r ≡ ok a → (b ≡ false) × (r ≡ ok a)
  raise_if-returns true e r a h = absurd (cc h)
  raise_if-returns false e r a h = (refl, h)
