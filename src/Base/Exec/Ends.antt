-- ===== src/Base/Exec/Ends.antt =====
-- What holds where an action ends, one rule for each way to build an action.
use cpkit.Base.Tests.{if◌then◌else◌}
use mathlib.Core.Bool.{Bool, true, false}
use mathlib.Core.Path.{◌≡◌, refl}
use cpkit.Base.Exec.{Result, ok, err, Exec, pure, lift, gets, catch, continue, handled, ◌>>=◌}

-- `Q` of a returned value and the state, `X` of an exception and the state
abbrev pub EndsIn {ℓ κ} :
    {E S A : Type ℓ} → (A → S → Type κ) → (E → S → Type κ) → Result E A × S → Type κ
EndsIn Q X (ok a, s) = Q a s
EndsIn Q X (err e, s) = X e s

-- From a state of `P`, `m` returns with `Q` or raises with `X`.
pub record Ends {ℓ κ} {E S A : Type ℓ} (P : S → Type κ) (Q : A → S → Type κ) (X : E → S → Type κ)
    (m : Exec E S A) : Type (ℓ ⊔ κ) where
  pub at : (s : S) → P s → EndsIn Q X (m s)

module _ {ℓ κ} {E S A : Type ℓ} {P : S → Type κ} {Q : A → S → Type κ} {X : E → S → Type κ} where
  pub Ends-pure : (a : A) → ((s : S) → P s → Q a s) → Ends P Q X (pure a)
  unfolding pure
  Ends-pure a h = record { at = h }

  pub Ends-lift :
      (r : Result E A)
      → ((a : A) (s : S) → r ≡ ok a → P s → Q a s)
      → ((e : E) (s : S) → r ≡ err e → P s → X e s)
      → Ends P Q X (lift r)
  unfolding lift
  Ends-lift (ok a) h k = record { at = λ s. h a s refl }
  Ends-lift (err e) h k = record { at = λ s. k e s refl }

  pub Ends-gets : (f : S → A) → ((s : S) → P s → Q (f s) s) → Ends P Q X (gets f)
  unfolding gets
  Ends-gets f h = record { at = h }

  pub Ends-if :
      (b : Bool) (m n : Exec E S A)
      → (b ≡ true → Ends P Q X m)
      → (b ≡ false → Ends P Q X n)
      → Ends P Q X (if b then m else n)
  Ends-if true m n km kn = km refl
  Ends-if false m n km kn = kn refl

module _ {ℓ κ} {E S A : Type ℓ} {Q Q' : A → S → Type κ} {X X' : E → S → Type κ} where
  weakened :
      (r : Result E A) (s : S)
      → ((a : A) (s : S) → Q a s → Q' a s)
      → ((e : E) (s : S) → X e s → X' e s)
      → EndsIn Q X (r, s)
      → EndsIn Q' X' (r, s)
  weakened (ok a) s q x h = q a s h
  weakened (err e) s q x h = x e s h

  pub Ends-weaken :
      {P P' : S → Type κ} (m : Exec E S A)
      → Ends P Q X m
      → ((s : S) → P' s → P s)
      → ((a : A) (s : S) → Q a s → Q' a s)
      → ((e : E) (s : S) → X e s → X' e s)
      → Ends P' Q' X' m
  Ends-weaken m k p q x = record { at = λ s h. weakened (m s).0 (m s).1 q x (k.at s (p s h)) }

module _ {ℓ κ} {E S A B : Type ℓ} {Q : A → S → Type κ} {R : B → S → Type κ}
    {X : E → S → Type κ} where
  continued :
      (r : Result E A) (s : S) (f : A → Exec E S B)
      → ((a : A) → Ends (Q a) R X (f a))
      → EndsIn Q X (r, s)
      → EndsIn R X (continue r f s)
  continued (ok a) s f kf h = (kf a).at s h
  continued (err e) s f kf h = h

  pub Ends-bind :
      {P : S → Type κ} (m : Exec E S A) (f : A → Exec E S B)
      → Ends P Q X m
      → ((a : A) → Ends (Q a) R X (f a))
      → Ends P R X (m >>= f)
  unfolding ◌>>=◌
  Ends-bind m f km kf = record { at = λ s h. continued (m s).0 (m s).1 f kf (km.at s h) }

module _ {ℓ κ} {E F S A : Type ℓ} {Q : A → S → Type κ} {X : E → S → Type κ}
    {Y : F → S → Type κ} where
  handled-Ends :
      (r : Result E A) (s : S) (h : E → Exec F S A)
      → ((e : E) → Ends (X e) Q Y (h e))
      → EndsIn Q X (r, s)
      → EndsIn Q Y (handled r h s)
  handled-Ends (ok a) s h kh p = p
  handled-Ends (err e) s h kh p = (kh e).at s p

  pub Ends-catch :
      {P : S → Type κ} (m : Exec E S A) (h : E → Exec F S A)
      → Ends P Q X m
      → ((e : E) → Ends (X e) Q Y (h e))
      → Ends P Q Y (catch m h)
  unfolding catch
  Ends-catch m h km kh = record { at = λ s p. handled-Ends (m s).0 (m s).1 h kh (km.at s p) }
