-- ===== src/Runner/Rules.antt =====
-- Where the runner's own ways to build an action end.
use cpkit.Base.Exec.{Result, ok, err, ◌>>=◌}
use cpkit.Base.Exec.Ends.{EndsIn, Ends, Ends-bind}
use cpkit.Runner.Loaded.{when}
use cpkit.Base.{◌≡◌, Bool, true, false}
use cpkit.Runner.{RunFailure, RunnerState, Run, finally, unless_raised, attempt}

module _ {A : Type 0} (Q : A → RunnerState → Type 0) (X : RunFailure → RunnerState → Type 0) where
  closed_ok :
      (a : A) (g : Result RunFailure (Unit {0})) (s : RunnerState)
      → EndsIn (λ _. Q a) X (g, s)
      → EndsIn Q X (unless_raised g (ok a), s)
  closed_ok a (ok _) s h = h
  closed_ok a (err e) s h = h

  closed_err :
      (e : RunFailure) (g : Result RunFailure (Unit {0})) (s : RunnerState)
      → EndsIn (λ _. X e) X (g, s)
      → EndsIn Q X (unless_raised g (err e), s)
  closed_err e (ok _) s h = h
  closed_err e (err e') s h = h

  closed :
      (r : Result RunFailure A) (s : RunnerState) (f : Run (Unit {0}))
      → ((a : A) → Ends (Q a) (λ _. Q a) X f)
      → ((e : RunFailure) → Ends (X e) (λ _. X e) X f)
      → EndsIn Q X (r, s)
      → EndsIn Q X (unless_raised (f s).0 r, (f s).1)
  closed (ok a) s f q x h = closed_ok a (f s).0 (f s).1 ((q a).at s h)
  closed (err e) s f q x h = closed_err e (f s).0 (f s).1 ((x e).at s h)

module _ {A : Type 0} {Q : A → RunnerState → Type 0} {X : RunFailure → RunnerState → Type 0} where
  pub Ends-finally :
      {P : RunnerState → Type 0} (m : Run A) (f : Run (Unit {0}))
      → Ends P Q X m
      → ((a : A) → Ends (Q a) (λ _. Q a) X f)
      → ((e : RunFailure) → Ends (X e) (λ _. X e) X f)
      → Ends P Q X (finally m f)
  unfolding finally
  Ends-finally m f k q x = record { at = λ s h. closed _ _ (m s).0 (m s).1 f q x (k.at s h) }

module _ {A B : Type 0} {Q : A → RunnerState → Type 0} {R : B → RunnerState → Type 0}
    {X Y : RunFailure → RunnerState → Type 0} where
  tried :
      (r : Result RunFailure A) (s : RunnerState) (k : Result RunFailure A → Run B)
      → ((a : A) → Ends (Q a) R Y (k (ok a)))
      → ((e : RunFailure) → Ends (X e) R Y (k (err e)))
      → EndsIn Q X (r, s)
      → EndsIn R Y (k r s)
  tried (ok a) s k q x h = (q a).at s h
  tried (err e) s k q x h = (x e).at s h

  pub Ends-attempt :
      {P : RunnerState → Type 0} (m : Run A) (k : Result RunFailure A → Run B)
      → Ends P Q X m
      → ((a : A) → Ends (Q a) R Y (k (ok a)))
      → ((e : RunFailure) → Ends (X e) R Y (k (err e)))
      → Ends P R Y (attempt m >>= k)
  unfolding attempt ◌>>=◌
  Ends-attempt m k e q x = record { at = λ s h. tried (m s).0 (m s).1 k q x (e.at s h) }

-- Two results of one action hold together.
module _ {A : Type 0} (Q Q' : A → RunnerState → Type 0)
    (X X' : RunFailure → RunnerState → Type 0) where
  paired :
      (r : Result RunFailure A) (s : RunnerState)
      → EndsIn Q X (r, s)
      → EndsIn Q' X' (r, s)
      → EndsIn (λ a s. Q a s × Q' a s) (λ e s. X e s × X' e s) (r, s)
  paired (ok a) s h k = (h, k)
  paired (err e) s h k = (h, k)

module _ {A : Type 0} {P P' : RunnerState → Type 0} {Q Q' : A → RunnerState → Type 0}
    {X X' : RunFailure → RunnerState → Type 0} where
  pub Ends-both :
      (m : Run A)
      → Ends P Q X m
      → Ends P' Q' X' m
      → Ends (λ s. P s × P' s) (λ a s. Q a s × Q' a s) (λ e s. X e s × X' e s) m
  Ends-both m h k = record {
    at = λ s p. paired Q Q' X X' (m s).0 (m s).1 (h.at s p.0) (k.at s p.1);
  }

-- An action from any state.
abbrev pub Ensures : {A : Type 0} → (A → RunnerState → Type 0) → Run A → Type 0
Ensures Q m = Ends (λ _. Unit) Q (λ _ _. Unit) m

module _ {A : Type 0} (Q : RunnerState → Type 0) where
  last :
      (r : Result RunFailure A) (g : Result RunFailure (Unit {0})) (s : RunnerState)
      → EndsIn (λ _. Q) (λ _ _. Unit) (g, s)
      → EndsIn (λ _. Q) (λ _ _. Unit) (unless_raised g r, s)
  last (ok a) (ok _) s h = h
  last (err e) (ok _) s h = tt
  last (ok a) (err e') s h = tt
  last (err e) (err e') s h = tt

-- What the last action ensures.
module _ {A : Type 0} {Q : RunnerState → Type 0} where
  pub Ensures-finally :
      (m : Run A) (f : Run (Unit {0})) → Ensures (λ _. Q) f → Ensures (λ _. Q) (finally m f)
  unfolding finally
  Ensures-finally m f k = record {
    at = λ s h. last Q (m s).0 (f (m s).1).0 (f (m s).1).1 (k.at (m s).1 tt);
  }

module _ {A : Type 0} where
  anywhere : (x : Result RunFailure A × RunnerState) → EndsIn {0, 0} (λ _ _. Unit) (λ _ _. Unit) x
  anywhere (ok a, s) = tt
  anywhere (err e, s) = tt

  pub Ensures-nothing : (m : Run A) → Ensures (λ _ _. Unit) m
  Ensures-nothing m = record { at = λ s h. anywhere (m s) }

-- The same of what follows any action.
module _ {A B : Type 0} {Q : B → RunnerState → Type 0} where
  pub Ensures-bind : (m : Run A) (f : A → Run B) → ((a : A) → Ensures Q (f a)) → Ensures Q (m >>= f)
  Ensures-bind m f k = Ends-bind m f (Ensures-nothing m) k

pub Ends-when :
    {P : RunnerState → Type 0} {Q : Unit {0} → RunnerState → Type 0}
    {X : RunFailure → RunnerState → Type 0} {b : Bool} {m : Run (Unit {0})}
    → b ≡ true
    → Ends P Q X m
    → Ends P Q X (when b m)
Ends-when {b = true} e h = h
Ends-when {b = false} e h = absurd (cc e)
