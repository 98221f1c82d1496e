-- ===== src/Playbooks/Ordered.antt =====
-- Rows in an order: they are the rows that were given, and the first of them is one that none of
-- the others must stand before.
pub mod Champion
pub mod Last
use mathlib.Core.Option.{some-injective}
use cpkit.Base.{
  where_rows, first_row, any, if_split, ◌++◌, arith, some, ℕ, ◌≤◌, ◌≡◌, refl, sym, ap, subst, ◌∙◌,
  ◌⊎◌, inl, inr, Bool, true, false, ◌&&◌, ◌||◌, Option, none, some, List, [], ◌∷◌, arith, ltb, ◌==◌,
  if◌then◌else◌, Bool-cases, All, if_split, All-mono, insert_row_by, order_by, limit_one, last_of,
  delete_rows,
}

module _ {A : Type 0} where
  -- `q` is one of the rows
  abbrev pub In : A → List A → Type 0
  In q [] = ⊥
  In q (x ∷ xs) = (q ≡ x) ⊎ In q xs

  pub All-In {κ} : (P : A → Type κ) (q : A) (xs : List A) → All P xs → In q xs → P q
  All-In P q [] h i = absurd i
  All-In P q (x ∷ xs) h (inl e) = subst P (sym e) h.0
  All-In P q (x ∷ xs) h (inr i) = All-In P q xs h.1 i

  module _ {κ} (P : A → Type κ) (before : A → A → Bool) where
    pub All-insert_row_by :
        (x : A) (xs : List A) → P x → All P xs → All P (insert_row_by before x xs)
    All-insert_row_by x [] p h = (p, tt)
    All-insert_row_by x (y ∷ ys) p h = elim (Bool-cases (before x y)) [
      | inl e ↦ rw e (p, h)
      | inr e ↦ rw e (h.0, All-insert_row_by x ys p h.1)
    ]

    pub All-order_by : (xs : List A) → All P xs → All P (order_by before xs)
    All-order_by [] h = tt
    All-order_by (x ∷ xs) h = All-insert_row_by x (order_by before xs) h.0 (All-order_by xs h.1)

    All_insert_row_by : (x : A) (xs : List A) → All P (insert_row_by before x xs) → P x × All P xs
    All_insert_row_by x [] h = (h.0, tt)
    All_insert_row_by x (y ∷ ys) h = elim (Bool-cases (before x y)) [
      | inl e ↦ rw e at h
      | inr e ↦ let h' = rw e at h in let r = All_insert_row_by x ys h'.1 in (r.0, (h'.0, r.1))
    ]

    -- what holds of the ordered rows holds of the rows
    pub order_by_All : (xs : List A) → All P (order_by before xs) → All P xs
    order_by_All [] h = tt
    order_by_All (x ∷ xs) h =
        let r = All_insert_row_by x (order_by before xs) h in (r.0, order_by_All xs r.1)

  module _ (before : A → A → Bool) where
    In-insert_row_by :
        (q x : A) (xs : List A) → In q (insert_row_by before x xs) → (q ≡ x) ⊎ In q xs
    In-insert_row_by q x [] i = i
    In-insert_row_by q x (y ∷ ys) i = elim (Bool-cases (before x y)) [
      | inl e ↦ rw e at i
      | inr e ↦ elim (let i' : (q ≡ y) ⊎ In q (insert_row_by before x ys) = rw e at i in i') [
        | inl same ↦ inr (inl same)
        | inr rest ↦ elim (In-insert_row_by q x ys rest) [
          | inl new ↦ inl new
          | inr old ↦ inr (inr old)
        ]
      ]
    ]

    pub In-order_by : (q : A) (xs : List A) → In q (order_by before xs) → In q xs
    In-order_by q [] i = i
    In-order_by q (x ∷ xs) i = elim (In-insert_row_by q x (order_by before xs) i) [
      | inl new ↦ inl new
      | inr old ↦ inr (In-order_by q xs old)
    ]

    -- the row that comes first
    abbrev pub first_of : A → Option A → A
    first_of x none = x
    first_of x (some y) = if before x y then x else y

    abbrev pub champion : List A → Option A
    champion [] = none
    champion (x ∷ xs) = let rest = champion xs in some (first_of x rest)

    limit_one-insert_row_by :
        (x : A) (xs : List A)
        → limit_one (insert_row_by before x xs) ≡ some (first_of x (limit_one xs))
    limit_one-insert_row_by x [] = refl
    limit_one-insert_row_by x (y ∷ ys) = ground arith

    pub limit_one-order_by : (xs : List A) → limit_one (order_by before xs) ≡ champion xs
    limit_one-order_by [] = refl
    limit_one-order_by (x ∷ xs) =
        limit_one-insert_row_by x (order_by before xs)
        ∙ ap (λ o. some (first_of x o)) (limit_one-order_by xs)

module _ {A : Type 0} where
  insert_row_by_nonempty :
      (before : A → A → Bool) (x : A) (xs : List A)
      → (y : A) × (ys : List A) × (insert_row_by before x xs ≡ y ∷ ys)
  insert_row_by_nonempty before x [] = (x, [], refl)
  insert_row_by_nonempty before x (z ∷ zs) =
      if_split (λ (l : List A). (y : A) × (ys : List A) × (l ≡ y ∷ ys)) (before x z)
        (λ _. (x, z ∷ zs, refl)) (λ _. (z, insert_row_by before x zs, refl))

  pub order_by_nonempty :
      (before : A → A → Bool) (x : A) (xs : List A)
      → In x xs
      → (y : A) × (ys : List A) × (order_by before xs ≡ y ∷ ys)
  order_by_nonempty before x [] i = absurd i
  order_by_nonempty before x (z ∷ zs) i = insert_row_by_nonempty before z (order_by before zs)

  -- a row that was added last
  pub In-where_rows_added :
      (p : A → Bool) (xs : List A) (x : A) → p x ≡ true → In x (where_rows p (xs ++ x ∷ []))
  In-where_rows_added p [] x h = rw h (inl refl)
  In-where_rows_added p (z ∷ zs) x h =
      if_split (In x) (p z) (λ _. inr (In-where_rows_added p zs x h))
        (λ _. In-where_rows_added p zs x h)

  pub first_row_added :
      (p : A → Bool) (xs : List A) (x : A)
      → any p xs ≡ false
      → p x ≡ true
      → first_row p (xs ++ x ∷ []) ≡ some x
  first_row_added p [] x none_before h = rw h refl
  first_row_added p (z ∷ zs) x none_before h = ground (arith, none_before, first_row_added p zs x)
