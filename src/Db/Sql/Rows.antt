-- ===== src/Db/Sql/Rows.antt =====
-- The rows that a query gives, and the ones that an update or a deletion leaves.
use distri_max.Prelude.{
  ◌+◌, ◌≡◌, Bool, Bool-cases, inl, inr, true, false, List, [], ◌∷◌, ◌++◌, arith, All, length,
}
use distri_max.Db.Sql.Clauses.{
  select_where, update_where, delete_where, count_where, insert_ordered, order_by,
}

module _ {ℓ} {A : Type ℓ} where
  pub select_where-append_one :
      (p : A → Bool) (xs : List A) (y : A)
      → p y ≡ true
      → select_where p (xs ++ y ∷ []) ≡ select_where p xs ++ y ∷ []
  unfolding select_where
  select_where-append_one p [] y h = rw h
  select_where-append_one p (x ∷ xs) y h = ground (arith, select_where-append_one p xs y)

  -- Every selected row passes the test.
  pub select_where-All : (p : A → Bool) (xs : List A) → All (λ x. p x ≡ true) (select_where p xs)
  unfolding select_where
  select_where-All p [] = tt
  select_where-All p (x ∷ xs) = ground (arith, select_where-All p xs)

  -- No row that is left passes the test of a deletion.
  pub delete_where-All : (p : A → Bool) (xs : List A) → All (λ x. p x ≡ false) (delete_where p xs)
  unfolding delete_where
  delete_where-All p [] = tt
  delete_where-All p (x ∷ xs) = ground (arith, delete_where-All p xs)

  -- A deletion removes the rows that it counts.
  pub length-delete :
      (p : A → Bool) (xs : List A) → length (delete_where p xs) + count_where p xs ≡ length xs
  unfolding delete_where count_where
  length-delete p [] = omega arith
  length-delete p (x ∷ xs) = ground (arith, length-delete p xs)

  pub All-select_where {κ} :
      (P : A → Type κ) (p : A → Bool) (xs : List A) → All P xs → All P (select_where p xs)
  unfolding select_where
  All-select_where P p [] h = tt
  All-select_where P p (x ∷ xs) h = ground (arith, All-select_where P p xs h.1)

  pub All-update_where {κ} :
      (P : A → Type κ) (p : A → Bool) (f : A → A) (xs : List A)
      → ((x : A) → P x → P (f x))
      → All P xs
      → All P (update_where p f xs)
  unfolding update_where
  All-update_where P p f [] h a = tt
  All-update_where P p f (x ∷ xs) h a = ground (arith, h x a.0, All-update_where P p f xs h a.1)

  pub All-delete_where {κ} :
      (P : A → Type κ) (p : A → Bool) (xs : List A) → All P xs → All P (delete_where p xs)
  unfolding delete_where
  All-delete_where P p [] h = tt
  All-delete_where P p (x ∷ xs) h = ground (arith, All-delete_where P p xs h.1)

module _ {ℓ κ} {A : Type ℓ} (P : A → Type κ) (le : A → A → Bool) where
  insert_ordered-All : (x : A) (xs : List A) → P x → All P xs → All P (insert_ordered le x xs)
  unfolding insert_ordered
  insert_ordered-All x [] h a = (h, a)
  insert_ordered-All x (y ∷ ys) h a = elim (Bool-cases (le x y)) [
    | inl here ↦ rw here (h, a)
    | inr there ↦ rw there (a.0, insert_ordered-All x ys h a.1)
  ]

  pub order_by-All : (xs : List A) → All P xs → All P (order_by le xs)
  unfolding order_by
  order_by-All [] a = a
  order_by-All (x ∷ xs) a = insert_ordered-All x _ a.0 (order_by-All xs a.1)
