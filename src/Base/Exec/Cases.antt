-- ===== src/Base/Exec/Cases.antt =====
-- What is shown of an action that begins with a computed result is shown of each of its cases.
use cpkit.Base.Exec.{Result, ok, err, Exec, lift, ◌>>=◌, catch, continue, handled}
use mathlib.Core.Path.{◌≡◌, refl}

module _ {ℓ} {E S A B : Type ℓ} where
  pub lift-cases {κ} :
      (Q : Result E B × S → Type κ) (r : Result E A) (f : A → Exec E S B) (s : S)
      → ((a : A) → r ≡ ok a → Q (f a s))
      → ((e : E) → r ≡ err e → Q (err e, s))
      → Q ((lift r >>= f) s)
  unfolding ◌>>=◌
  lift-cases Q (ok a) f s k h = k a refl
  lift-cases Q (err e) f s k h = h e refl

  pub bind-cases {κ} :
      (Q : Result E B × S → Type κ) (m : Exec E S A) (f : A → Exec E S B) (s : S)
      → ((a : A) (s' : S) → m s ≡ (ok a, s') → Q (f a s'))
      → ((e : E) (s' : S) → m s ≡ (err e, s') → Q (err e, s'))
      → Q ((m >>= f) s)
  unfolding ◌>>=◌
  bind-cases Q m f s k h = cases (m s).0 (m s).1 refl
    where
      cases : (r : Result E A) (s' : S) → m s ≡ (r, s') → Q (continue r f s')
      cases (ok a) s' e = k a s' e
      cases (err x) s' e = h x s' e

module _ {ℓ} {E F S A : Type ℓ} where
  pub catch-cases {κ} :
      (Q : Result F A × S → Type κ) (m : Exec E S A) (h : E → Exec F S A) (s : S)
      → ((a : A) (s' : S) → m s ≡ (ok a, s') → Q (ok a, s'))
      → ((e : E) (s' : S) → m s ≡ (err e, s') → Q (h e s'))
      → Q (catch m h s)
  unfolding ◌>>=◌
  catch-cases Q m h s k f = cases (m s).0 (m s).1 refl
    where
      cases : (r : Result E A) (s' : S) → m s ≡ (r, s') → Q (handled r h s')
      cases (ok a) s' e = k a s' e
      cases (err x) s' e = f x s' e
