-- ===== src/Base/Lists.antt =====
-- Lists: a predicate on every element, membership by a Boolean test, and rows found, changed and
-- removed by a test, as the SQL statements do.
use mathlib.Core.Path.{◌≡◌, refl}
use mathlib.Core.Bool.{Bool, true, false, ◌||◌}
use mathlib.Core.List.{List, [], ◌∷◌, ◌++◌}
use mathlib.Core.Option.{Option, none, some}
use native.Mathlib.Omega.{arith}
use Prim.Native.Nat.{ℕ, suc}
use mathlib.Core.Logic.{inl, inr}
use cpkit.Base.Tests.{if◌then◌else◌, Bool-cases}

module _ {ℓ} {A : Type ℓ} where
  abbrev pub length : List A → ℕ
  length [] = 0
  length (x ∷ xs) = suc (length xs)

  abbrev pub All {κ} : (A → Type κ) → List A → Type κ
  All P [] = Unit
  All P (x ∷ xs) = P x × All P xs

  abbrev pub any : (A → Bool) → List A → Bool
  any p [] = false
  any p (x ∷ xs) = p x || any p xs

  -- WHERE p
  abbrev pub where_rows : (A → Bool) → List A → List A
  where_rows p [] = []
  where_rows p (x ∷ xs) = let rest = where_rows p xs in if p x then x ∷ rest else rest

  -- the first row that passes
  abbrev pub first_row : (A → Bool) → List A → Option A
  first_row p [] = none
  first_row p (x ∷ xs) = let rest = first_row p xs in if p x then some x else rest

  -- UPDATE … WHERE p
  abbrev pub update_rows : (A → Bool) → (A → A) → List A → List A
  update_rows p f [] = []
  update_rows p f (x ∷ xs) = (if p x then f x else x) ∷ update_rows p f xs

  -- DELETE … WHERE p
  abbrev pub delete_rows : (A → Bool) → List A → List A
  delete_rows p [] = []
  delete_rows p (x ∷ xs) = let rest = delete_rows p xs in if p x then rest else x ∷ rest

module _ {ℓ κ} {A : Type ℓ} (P : A → Type κ) where
  pub All-append : (xs ys : List A) → All P xs → All P ys → All P (xs ++ ys)
  All-append [] ys hx hy = hy
  All-append (x ∷ xs) ys hx hy = (hx.0, All-append xs ys hx.1 hy)

  pub All-mono {λ'} :
      (Q : A → Type λ') → ((a : A) → P a → Q a) → (xs : List A) → All P xs → All Q xs
  All-mono Q f [] h = tt
  All-mono Q f (x ∷ xs) h = (f x h.0, All-mono Q f xs h.1)

  pub All-delete_rows : (p : A → Bool) (xs : List A) → All P xs → All P (delete_rows p xs)
  All-delete_rows p [] h = tt
  All-delete_rows p (x ∷ xs) h = ground (arith, All-delete_rows p xs h.1)

  pub All-update_rows :
      (p : A → Bool) (f : A → A) (xs : List A)
      → ((a : A) → P a → P (f a))
      → All P xs
      → All P (update_rows p f xs)
  All-update_rows p f [] k h = tt
  All-update_rows p f (x ∷ xs) k h = ground (arith, k x, All-update_rows p f xs k h.1)

  pub All-first_row :
      (p : A → Bool) (xs : List A) {a : A} → All P xs → first_row p xs ≡ some a → P a
  All-first_row p [] h e = cc
  All-first_row p (x ∷ xs) {a} h e = elim (Bool-cases (p x)) [
    | inl t ↦ ground arith
    | inr f ↦ All-first_row p xs h.1 (ground arith)
  ]

module _ {ℓ κ} {A : Type ℓ} (R : A → A → Type κ) where
  -- the relation holds of each row and every later one
  abbrev pub AllPairs : List A → Type κ
  AllPairs [] = Unit
  AllPairs (x ∷ xs) = All (R x) xs × AllPairs xs

  pub AllPairs-concat :
      (xs : List A) (y : A) → All (λ x. R x y) xs → AllPairs xs → AllPairs (xs ++ y ∷ [])
  AllPairs-concat [] y h k = (tt, tt)
  AllPairs-concat (x ∷ xs) y h k =
      (All-append (R x) xs (y ∷ []) k.0 (h.0, tt), AllPairs-concat xs y h.1 k.1)

  pub AllPairs-delete_rows :
      (p : A → Bool) (xs : List A) → AllPairs xs → AllPairs (delete_rows p xs)
  AllPairs-delete_rows p [] h = tt
  AllPairs-delete_rows p (x ∷ xs) h =
      ground (arith, AllPairs-delete_rows p xs h.1, All-delete_rows (R x) p xs h.0)

module _ {ℓ κ} {A : Type ℓ} (R : A → A → Type κ) (p : A → Bool) (f : A → A) where
  All-update_rows_rel :
      (x y : A) (xs : List A)
      → ((b : A) → R x b → R y (if p b then f b else b))
      → All (R x) xs
      → All (R y) (update_rows p f xs)
  All-update_rows_rel x y [] k h = tt
  All-update_rows_rel x y (b ∷ xs) k h = (k b h.0, All-update_rows_rel x y xs k h.1)

  pub AllPairs-update_rows :
      ((a b : A) → R a b → R (if p a then f a else a) (if p b then f b else b))
      → (xs : List A) → AllPairs R xs
      → AllPairs R (update_rows p f xs)
  AllPairs-update_rows k [] h = tt
  AllPairs-update_rows k (x ∷ xs) h =
      (All-update_rows_rel x (if p x then f x else x) xs (k x) h.0, AllPairs-update_rows k xs h.1)

module _ {ℓ} {A : Type ℓ} where
  abbrev pub map_option : (A → A) → Option A → Option A
  map_option f none = none
  map_option f (some a) = some (f a)

  pub first_row-update_rows :
      (p q : A → Bool) (f : A → A)
      → ((a : A) → p (if q a then f a else a) ≡ p a)
      → (xs : List A)
      → first_row p (update_rows q f xs) ≡ map_option (λ a. if q a then f a else a) (first_row p xs)
  first_row-update_rows p q f k [] = refl
  first_row-update_rows p q f k (x ∷ xs) = ground (arith, k x, first_row-update_rows p q f k xs)

  pub first_row_passes : (p : A → Bool) (xs : List A) {a : A} → first_row p xs ≡ some a → p a ≡ true
  first_row_passes p [] h = cc
  first_row_passes p (x ∷ xs) {a} h = elim (Bool-cases (p x)) [
    | inl t ↦ ground arith
    | inr f ↦ first_row_passes p xs (ground arith)
  ]

  -- an update that leaves no row it would change finds none the second time
  pub where_rows-update_rows :
      (p : A → Bool) (f : A → A)
      → ((a : A) → p (f a) ≡ false)
      → (xs : List A) → where_rows p (update_rows p f xs) ≡ []
  where_rows-update_rows p f k [] = refl
  where_rows-update_rows p f k (x ∷ xs) = ground (arith, k x, where_rows-update_rows p f k xs)

module _ {ℓ} {A : Type ℓ} where
  pub delete_rows_gone : (p : A → Bool) (xs : List A) → All (λ x. p x ≡ false) (delete_rows p xs)
  delete_rows_gone p [] = tt
  delete_rows_gone p (x ∷ xs) = ground (arith, delete_rows_gone p xs)

-- Rows in an order, as ORDER BY gives them: `before a b` says that `a` must stand before `b`.
module _ {ℓ} {A : Type ℓ} (before : A → A → Bool) where
  abbrev pub insert_row_by : A → List A → List A
  insert_row_by x [] = x ∷ []
  insert_row_by x (y ∷ ys) =
      let rest = insert_row_by x ys in if before x y then x ∷ y ∷ ys else y ∷ rest

  abbrev pub order_by : List A → List A
  order_by [] = []
  order_by (x ∷ xs) = insert_row_by x (order_by xs)

module _ {ℓ} {A : Type ℓ} where
  -- LIMIT 1
  abbrev pub limit_one : List A → Option A
  limit_one [] = none
  limit_one (x ∷ xs) = some x

  -- `xs[-1]`
  abbrev pub last_of : A → List A → A
  last_of x [] = x
  last_of x (y ∷ ys) = last_of y ys
