-- ===== src/Base/Exec.antt =====
-- Python calls that may raise: a result, and an action on a state that may raise. What was written
-- before a raise stays written, so the state comes back beside the exception too.
pub mod Keeps
pub mod Cases
pub mod Ends

pub data Result {ℓ κ} (E : Type ℓ) (A : Type κ) : Type (ℓ ⊔ κ) where
  ok : A → Result E A
  err : E → Result E A

-- an action on `S` that raises `E` or returns `A`
abbrev pub Exec {ℓ} : Type ℓ → Type ℓ → Type ℓ → Type ℓ
Exec E S A = S → Result E A × S

module _ {ℓ} {E S A : Type ℓ} where
  unfoldable pub pure : A → Exec E S A
  pure a s = (ok a, s)

  unfoldable pub raise : E → Exec E S A
  raise e s = (err e, s)

  unfoldable pub lift : Result E A → Exec E S A
  lift r s = (r, s)

  unfoldable pub gets : (S → A) → Exec E S A
  gets f s = (ok (f s), s)

-- `try: m except E as e: handle(e)`
module _ {ℓ} {E F S A : Type ℓ} where
  abbrev pub handled : Result E A → (E → Exec F S A) → Exec F S A
  handled (ok a) h s = (ok a, s)
  handled (err e) h s = h e s

  unfoldable pub catch : Exec E S A → (E → Exec F S A) → Exec F S A
  catch m h s = handled (m s).0 h (m s).1

module _ {ℓ} {E S A B : Type ℓ} where
  abbrev pub continue : Result E A → (A → Exec E S B) → Exec E S B
  continue (ok a) f s = f a s
  continue (err e) f s = (err e, s)

  infixl 5 ◌>>=◌ ◌>>◌
  -- opening this opens the other actions too
  unfoldable pub ◌>>=◌ : Exec E S A → (A → Exec E S B) → Exec E S B
  unfolding pure raise lift gets catch
  ◌>>=◌ m f s = continue (m s).0 f (m s).1

  abbrev pub ◌>>◌ : Exec E S A → Exec E S B → Exec E S B
  m >> k = m >>= λ _. k
