-- ===== src/Db/Sql/Clauses.antt =====
-- The SQL clauses that the queries of internal/db are made of, on a table as a list of rows in
-- insertion order: WHERE is a Boolean test, `SELECT ... LIMIT 1` is `first_where`.
use distri_max.Prelude.{
  ℕ, suc, Bool, true, false, List, [], ◌∷◌, Option, none, some, if◌then◌else◌, Text, ltb, eqb,
}

-- The order of TEXT values: bytes, then length.
unfoldable pub text_le : Text → Text → Bool
text_le [] t = true
text_le (a ∷ s) [] = false
text_le (a ∷ s) (b ∷ t) = if eqb a b then text_le s t else ltb a b

module _ {ℓ} {A : Type ℓ} where
  unfoldable pub select_where : (A → Bool) → List A → List A
  select_where p [] = []
  select_where p (x ∷ xs) = if p x then x ∷ select_where p xs else select_where p xs

  unfoldable pub first_where : (A → Bool) → List A → Option A
  first_where p [] = none
  first_where p (x ∷ xs) = if p x then some x else first_where p xs

  unfoldable pub update_where : (A → Bool) → (A → A) → List A → List A
  update_where p f [] = []
  update_where p f (x ∷ xs) = (if p x then f x else x) ∷ update_where p f xs

  unfoldable pub delete_where : (A → Bool) → List A → List A
  delete_where p [] = []
  delete_where p (x ∷ xs) = if p x then delete_where p xs else x ∷ delete_where p xs

  unfoldable pub count_where : (A → Bool) → List A → ℕ
  count_where p [] = 0
  count_where p (x ∷ xs) = if p x then suc (count_where p xs) else count_where p xs

  -- ORDER BY, by a test that holds of two rows that may stand in this order.
  unfoldable pub insert_ordered : (A → A → Bool) → A → List A → List A
  insert_ordered le x [] = x ∷ []
  insert_ordered le x (y ∷ ys) = if le x y then x ∷ y ∷ ys else y ∷ insert_ordered le x ys

  unfoldable pub order_by : (A → A → Bool) → List A → List A
  unfolding insert_ordered
  order_by le [] = []
  order_by le (x ∷ xs) = insert_ordered le x (order_by le xs)
