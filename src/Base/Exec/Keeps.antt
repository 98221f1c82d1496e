-- ===== src/Base/Exec/Keeps.antt =====
-- Invariants of actions, one rule for each way to build an action.
use cpkit.Base.Tests.{if◌then◌else◌}
use mathlib.Core.Bool.{Bool, true, false}
use cpkit.Base.Exec.{Result, ok, err, Exec, pure, raise, lift, gets, catch, ◌>>=◌}

-- `m` keeps `P`, whether it returns or raises.
pub record Keeps {ℓ κ} {E S A : Type ℓ} (P : S → Type κ) (m : Exec E S A) : Type (ℓ ⊔ κ) where
  pub at : (s : S) → P s → P (m s).1

module _ {ℓ κ} {E S A : Type ℓ} {P : S → Type κ} where
  pub Keeps-pure : (a : A) → Keeps P (pure {E = E} a)
  unfolding pure
  Keeps-pure a = record { at = λ s h. h }

  pub Keeps-raise : (e : E) → Keeps P (raise {A = A} e)
  unfolding raise
  Keeps-raise e = record { at = λ s h. h }

  pub Keeps-lift : (r : Result E A) → Keeps P (lift r)
  unfolding lift
  Keeps-lift r = record { at = λ s h. h }

  pub Keeps-gets : (f : S → A) → Keeps P (gets {E = E} f)
  unfolding gets
  Keeps-gets f = record { at = λ s h. h }

  pub Keeps-if :
      (b : Bool) (m n : Exec E S A) → Keeps P m → Keeps P n → Keeps P (if b then m else n)
  Keeps-if true m n km kn = km
  Keeps-if false m n km kn = kn

module _ {ℓ κ} {E S A B : Type ℓ} {P : S → Type κ} where
  Keeps-continue :
      (r : Result E A) (f : A → Exec E S B) → ((a : A) → Keeps P (f a)) → Keeps P (lift r >>= f)
  unfolding ◌>>=◌
  Keeps-continue (ok a) f kf = kf a
  Keeps-continue (err e) f kf = record { at = λ s h. h }

  pub Keeps-bind :
      (m : Exec E S A) (f : A → Exec E S B)
      → Keeps P m
      → ((a : A) → Keeps P (f a))
      → Keeps P (m >>= f)
  unfolding ◌>>=◌
  Keeps-bind m f km kf = record { at = λ s h. (Keeps-continue (m s).0 f kf).at (m s).1 (km.at s h) }

module _ {ℓ κ} {E F S A : Type ℓ} {P : S → Type κ} where
  Keeps-handled :
      (r : Result E A) (h : E → Exec F S A) → ((e : E) → Keeps P (h e)) → Keeps P (catch (lift r) h)
  unfolding catch lift
  Keeps-handled (ok a) h kh = record { at = λ s p. p }
  Keeps-handled (err e) h kh = kh e

  pub Keeps-catch :
      (m : Exec E S A) (h : E → Exec F S A)
      → Keeps P m
      → ((e : E) → Keeps P (h e))
      → Keeps P (catch m h)
  unfolding catch lift
  Keeps-catch m h km kh = record { at = λ s p. (Keeps-handled (m s).0 h kh).at (m s).1 (km.at s p) }

pub ruleset keeps_rules =
    (Keeps-pure, Keeps-raise, Keeps-lift, Keeps-gets, Keeps-if, Keeps-bind, Keeps-catch)
