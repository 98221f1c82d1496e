-- ===== src/Playbooks/Ordered/Champion.antt =====
-- The row that an order by two numbers puts first.
use mathlib.Core.Option.{some-injective}
use cpkit.Base.{
  ℕ, ◌≡◌, refl, sym, ap, subst, ◌⊎◌, inl, inr, Bool, true, false, ◌&&◌, ◌||◌, Option, none, some,
  List, [], ◌∷◌, arith, ltb, ◌==◌, if◌then◌else◌, Bool-cases, All, if_split, delete_rows,
}
use cpkit.Playbooks.Ordered.{In, All-In, first_of, champion}

-- An order by two numbers, the greater one first.
module _ {A : Type 0} (major minor : A → ℕ) where
  abbrev pub by_ranks : A → A → Bool
  by_ranks a b = ltb (major b) (major a) || ((major a == major b) && ltb (minor b) (minor a))

  -- no row must stand before `c`
  abbrev pub IsTop : A → List A → Type 0
  IsTop c xs = All (λ r. by_ranks r c ≡ false) xs

  by_ranks-pass : (x y z : A) → by_ranks x y ≡ true → by_ranks z y ≡ false → by_ranks z x ≡ false
  by_ranks-pass x y z h k = ground arith

  IsTop-pass : (x y : A) (xs : List A) → by_ranks x y ≡ true → IsTop y xs → IsTop x xs
  IsTop-pass x y [] h k = tt
  IsTop-pass x y (z ∷ zs) h k = (by_ranks-pass x y z h k.0, IsTop-pass x y zs h k.1)

  by_ranks_irrefl : (x : A) → by_ranks x x ≡ false
  by_ranks_irrefl x = ground arith

  -- one more row in front
  IsTop-cons :
      (x w : A) (xs : List A)
      → In w xs
      → IsTop w xs
      → In (if by_ranks x w then x else w) (x ∷ xs) × IsTop (if by_ranks x w then x else w) (x ∷ xs)
  IsTop-cons x w xs i t =
      if_split (λ c. In c (x ∷ xs) × IsTop c (x ∷ xs)) (by_ranks x w)
        (λ e. (inl refl, (by_ranks_irrefl x, IsTop-pass x w xs e t))) λ e. (inr i, (e, t))

  -- the champion of a list that is not empty is one of its rows and at the top
  champion_cons-IsTop :
      (x : A) (xs : List A)
      → let c = first_of by_ranks x (champion by_ranks xs) in In c (x ∷ xs) × IsTop c (x ∷ xs)
  champion_cons-IsTop x [] = (inl refl, (by_ranks_irrefl x, tt))
  champion_cons-IsTop x (y ∷ ys) =
      let rest = champion_cons-IsTop y ys in
      IsTop-cons x (first_of by_ranks y (champion by_ranks ys)) (y ∷ ys) rest.0 rest.1

  pub champion-IsTop : (xs : List A) {c : A} → champion by_ranks xs ≡ some c → In c xs × IsTop c xs
  champion-IsTop [] e = cc e
  champion-IsTop (x ∷ xs) e =
      subst (λ c. In c (x ∷ xs) × IsTop c (x ∷ xs)) (some-injective _ _ e)
        (champion_cons-IsTop x xs)

  -- deleting other rows leaves the champion
  passes_on : (x y z : A) → by_ranks x y ≡ true → by_ranks z y ≡ false → by_ranks x z ≡ true
  passes_on x y z h k = ground arith

  first_of-IsTop :
      (x y : A) (o : Option A)
      → by_ranks x y ≡ true
      → ((z : A) → o ≡ some z → by_ranks z y ≡ false)
      → first_of by_ranks x o ≡ x
  first_of-IsTop x y none h k = refl
  first_of-IsTop x y (some z) h k = rw (passes_on x y z h (k z refl)) refl

  champion-none : (xs : List A) → champion by_ranks xs ≡ none → xs ≡ []
  champion-none [] e = refl
  champion-none (x ∷ xs) e = cc e

  In-delete_rows : (p : A → Bool) (q : A) (xs : List A) → In q (delete_rows p xs) → In q xs
  In-delete_rows p q [] i = i
  In-delete_rows p q (x ∷ xs) i = elim (Bool-cases (p x)) [
    | inl e ↦ inr (In-delete_rows p q xs (rw e at i))
    | inr e ↦ elim (let i' : (q ≡ x) ⊎ In q (delete_rows p xs) = rw e at i in i') [
      | inl same ↦ inl same
      | inr rest ↦ inr (In-delete_rows p q xs rest)
    ]
  ]

  module _ (p : A → Bool) (x : A) (xs : List A) where
    -- the first row stays and is still the champion
    first_kept :
        (y : A)
        → champion by_ranks xs ≡ some y
        → by_ranks x y ≡ true
        → p x ≡ false
        → champion by_ranks (delete_rows p (x ∷ xs)) ≡ some x
    first_kept y e h out = rw out (
        ap some (
          first_of-IsTop x y (champion by_ranks (delete_rows p xs)) h (λ z ez.
            All-In (λ r. by_ranks r y ≡ false) z xs (champion-IsTop xs e).1
              (In-delete_rows p z xs (champion-IsTop (delete_rows p xs) ez).0))))

    later_kept :
        (y : A)
        → by_ranks x y ≡ false
        → champion by_ranks (delete_rows p xs) ≡ some y
        → champion by_ranks (delete_rows p (x ∷ xs)) ≡ some y
    later_kept y h e = elim (Bool-cases (p x)) [ inl t ↦ rw t e | inr t ↦ rw t (rw (e, h) refl) ]

    champion-delete_cons :
        (o : Option A) (c : A)
        → champion by_ranks xs ≡ o
        → first_of by_ranks x o ≡ c
        → p c ≡ false
        → ((y : A) → o ≡ some y → p y ≡ false → champion by_ranks (delete_rows p xs) ≡ some y)
        → champion by_ranks (delete_rows p (x ∷ xs)) ≡ some c
    champion-delete_cons none c e is out ih = rw (champion-none xs e) (rw is (rw out refl))
    champion-delete_cons (some y) c e is out ih = elim (Bool-cases (by_ranks x y)) [
      | inl h ↦
          let same : x ≡ c = rw h at is in
          subst (λ d. champion by_ranks (delete_rows p (x ∷ xs)) ≡ some d) same
            (first_kept y e h (subst (λ d. p d ≡ false) (sym same) out))
      | inr h ↦
          let same : y ≡ c = rw h at is in
          subst (λ d. champion by_ranks (delete_rows p (x ∷ xs)) ≡ some d) same
            (later_kept y h (ih y refl (subst (λ d. p d ≡ false) (sym same) out)))
    ]

  pub champion-delete_rows :
      (p : A → Bool) (xs : List A) {c : A}
      → champion by_ranks xs ≡ some c
      → p c ≡ false
      → champion by_ranks (delete_rows p xs) ≡ some c
  champion-delete_rows p [] e out = cc e
  champion-delete_rows p (x ∷ xs) {c} e out =
      champion-delete_cons p x xs (champion by_ranks xs) c refl (some-injective _ _ e) out
        λ y ey py. champion-delete_rows p xs ey py
