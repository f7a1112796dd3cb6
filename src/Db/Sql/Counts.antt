-- ===== src/Db/Sql/Counts.antt =====
-- How many rows pass a test, before and after the other clauses.
use distri_max.Prelude.{
  if◌then◌else◌, ◌+◌, ◌≤◌, ◌≡◌, refl, Bool, true, false, ◌&&◌, List, [], ◌∷◌, ◌++◌, arith, All,
  All-imp,
}
use distri_max.Db.Sql.Clauses.{select_where, update_where, delete_where, count_where}

module _ {ℓ} {A : Type ℓ} where
  -- A weaker test passes at least as often.
  pub count_where_mono :
      (q r : A → Bool) (xs : List A)
      → ((x : A) → q x ≡ true → r x ≡ true)
      → count_where q xs ≤ count_where r xs
  unfolding count_where
  count_where_mono q r [] h = omega arith
  count_where_mono q r (x ∷ xs) h = ground (arith, h x, count_where_mono q r xs h)

  pub count_where-append :
      (p : A → Bool) (xs ys : List A)
      → count_where p (xs ++ ys) ≡ count_where p xs + count_where p ys
  unfolding count_where
  count_where-append p [] ys = omega arith
  count_where-append p (x ∷ xs) ys = ground (arith, count_where-append p xs ys)

  -- An update that decides the test the same way on every row keeps the count.
  pub count_where-update :
      (q p : A → Bool) (f : A → A) (xs : List A)
      → ((x : A) → p x ≡ true → q (f x) ≡ q x)
      → count_where q (update_where p f xs) ≡ count_where q xs
  unfolding count_where update_where
  count_where-update q p f [] h = refl
  count_where-update q p f (x ∷ xs) h = ground (arith, h x, count_where-update q p f xs h)

  -- Nothing that passes the test is added: an updated row fails it.
  pub count_where-update-le :
      (q p : A → Bool) (f : A → A) (xs : List A)
      → ((x : A) → p x ≡ true → q (f x) ≡ true → q x ≡ true)
      → count_where q (update_where p f xs) ≤ count_where q xs
  unfolding count_where update_where
  count_where-update-le q p f [] h = omega arith
  count_where-update-le q p f (x ∷ xs) h = ground (arith, h x, count_where-update-le q p f xs h)

  -- At most the updated rows are added.
  pub count_where-update-le_add :
      (q p : A → Bool) (f : A → A) (xs : List A)
      → count_where q (update_where p f xs) ≤ count_where q xs + count_where p xs
  unfolding count_where update_where
  count_where-update-le_add q p f [] = omega arith
  count_where-update-le_add q p f (x ∷ xs) = ground (arith, count_where-update-le_add q p f xs)

  -- Rows that an update does not reach go on passing.
  pub count_where-update-ge :
      (q p r : A → Bool) (f : A → A) (xs : List A)
      → ((x : A) → r x ≡ true → p x ≡ false)
      → ((x : A) → r x ≡ true → q x ≡ true)
      → count_where r xs ≤ count_where q (update_where p f xs)
  unfolding count_where update_where
  count_where-update-ge q p r f [] h k = omega arith
  count_where-update-ge q p r f (x ∷ xs) h k =
      ground (arith, h x, k x, count_where-update-ge q p r f xs h k)

  -- Rows that go on passing when they are updated.
  pub count_where-update-grows :
      (q p : A → Bool) (f : A → A) (xs : List A)
      → ((x : A) → q x ≡ true → q (f x) ≡ true)
      → count_where q xs ≤ count_where q (update_where p f xs)
  unfolding count_where update_where
  count_where-update-grows q p f [] h = omega arith
  count_where-update-grows q p f (x ∷ xs) h =
      ground (arith, h x, count_where-update-grows q p f xs h)

  -- An update that reaches every row that passes the test, and makes it fail.
  pub count_where-update_zero :
      (q p : A → Bool) (f : A → A) (xs : List A)
      → ((x : A) → p x ≡ true → q (f x) ≡ false)
      → ((x : A) → p x ≡ false → q x ≡ false)
      → count_where q (update_where p f xs) ≡ 0
  unfolding count_where update_where
  count_where-update_zero q p f [] h k = refl
  count_where-update_zero q p f (x ∷ xs) h k =
      ground (arith, h x, k x, count_where-update_zero q p f xs h k)

  pub count_where-delete-le :
      (q p : A → Bool) (xs : List A) → count_where q (delete_where p xs) ≤ count_where q xs
  unfolding count_where delete_where
  count_where-delete-le q p [] = omega arith
  count_where-delete-le q p (x ∷ xs) = ground (arith, count_where-delete-le q p xs)

  -- Two tests of which no row passes both.
  pub count_where-disjoint :
      (p q r : A → Bool) (xs : List A)
      → ((x : A) → p x ≡ true → r x ≡ true)
      → ((x : A) → q x ≡ true → r x ≡ true)
      → ((x : A) → p x ≡ true → q x ≡ false)
      → count_where p xs + count_where q xs ≤ count_where r xs
  unfolding count_where
  count_where-disjoint p q r [] h k d = omega arith
  count_where-disjoint p q r (x ∷ xs) h k d =
      ground (arith, h x, k x, d x, count_where-disjoint p q r xs h k d)

  selected :
      (Q : A → Type 0) (x : A) (xs : List A) (b : Bool)
      → (b ≡ true → Q x)
      → All Q xs
      → All Q (if b then x ∷ xs else xs)
  selected Q x xs true h a = (h refl, a)
  selected Q x xs false h a = a

  -- A row that a query gives is counted by what the query and `r` ask of it, if `r` relates it to itself.
  pub select_where-counted :
      (p : A → Bool) (r : A → A → Bool)
      → ((x : A) → r x x ≡ true)
      → (xs : List A) → All (λ x. 1 ≤ count_where (λ y. r x y && p y) xs) (select_where p xs)
  unfolding count_where select_where
  select_where-counted p r h [] = tt
  select_where-counted p r h (x ∷ xs) =
      selected _ x _ (p x) (λ h'. ground (arith, h x))
        (All-imp _ _ (λ y k. ground arith) (select_where p xs) (select_where-counted p r h xs))
