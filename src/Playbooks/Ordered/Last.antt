-- ===== src/Playbooks/Ordered/Last.antt =====
-- The row that an order by a number puts last.
use cpkit.Base.{
  ℕ, ◌≤◌, ◌≡◌, sym, subst, Bool, List, [], ◌∷◌, arith, ltb, All, if_split, All-mono, insert_row_by,
  order_by, last_of,
}
use cpkit.Playbooks.Ordered.{All-insert_row_by, order_by_All}

-- Rows ordered by a number, the greatest first: the last one has the least.
module _ {A : Type 0} (rank : A → ℕ) where
  abbrev pub greater : A → A → Bool
  greater a b = ltb (rank b) (rank a)

  abbrev IsDescending : List A → Type 0
  IsDescending [] = Unit
  IsDescending (x ∷ xs) = All (λ r. rank r ≤ rank x) xs × IsDescending xs

  below_head :
      (x y : A) (xs : List A)
      → rank y ≤ rank x
      → All (λ r. rank r ≤ rank y) xs
      → All (λ r. rank r ≤ rank x) xs
  below_head x y xs h k = All-mono _ _ (λ r b. omega arith) xs k

  insert_row_by-IsDescending :
      (x : A) (xs : List A) → IsDescending xs → IsDescending (insert_row_by greater x xs)
  insert_row_by-IsDescending x [] h = (tt, tt)
  insert_row_by-IsDescending x (y ∷ ys) h =
      if_split IsDescending (greater x y)
        (λ e. ((ground (arith, e), below_head x y ys (ground (arith, e)) h.0), h))
        λ e. (
          All-insert_row_by (λ r. rank r ≤ rank y) greater x ys (ground (arith, e)) h.0,
          insert_row_by-IsDescending x ys h.1,
        )

  order_by-IsDescending : (xs : List A) → IsDescending (order_by greater xs)
  order_by-IsDescending [] = tt
  order_by-IsDescending (x ∷ xs) =
      insert_row_by-IsDescending x (order_by greater xs) (order_by-IsDescending xs)

  last_of-IsDescending :
      (x : A) (xs : List A)
      → IsDescending (x ∷ xs)
      → (rank (last_of x xs) ≤ rank x) × All (λ r. rank (last_of x xs) ≤ rank r) xs
  last_of-IsDescending x [] h = (omega arith, tt)
  last_of-IsDescending x (y ∷ ys) h =
      let rest = last_of-IsDescending y ys h.1 in (omega (arith, rest.0, h.0.0), (rest.0, rest.1))

  -- the last of the ordered rows has the least rank
  pub last_of-order_by :
      (xs : List A) (y : A) (ys : List A)
      → order_by greater xs ≡ y ∷ ys
      → All (λ r. rank (last_of y ys) ≤ rank r) xs
  last_of-order_by xs y ys e =
      let least = last_of-IsDescending y ys (subst IsDescending e (order_by-IsDescending xs)) in
      order_by_All _ greater xs
        (subst (All (λ r. rank (last_of y ys) ≤ rank r)) (sym e) (least.0, least.1))
