-- ===== src/Db/Sql/First.antt =====
-- What a query for one row finds, before and after the other clauses.
use mathlib.Core.Option
use distri_max.Prelude.{
  ◌≤◌, ◌≡◌, refl, ◌∙◌, Bool, true, false, ◌&&◌, List, [], ◌∷◌, ◌++◌, none, some, arith,
  if◌then◌else◌, All, Bool-cases, inl, inr, eqb,
}
use distri_max.Db.Sql.Clauses.{select_where, first_where, update_where, delete_where, count_where}

module _ {ℓ} {A : Type ℓ} where
  -- A row that the query returns is in the table and passes the test.
  pub first_where-eq-some :
      (p : A → Bool) (xs : List A) (x : A) → first_where p xs ≡ some x → p x ≡ true
  unfolding first_where
  first_where-eq-some p [] x h = ground arith
  first_where-eq-some p (y ∷ xs) x h = ground (arith, first_where-eq-some p xs x)

  pub first_where-All {κ} :
      (P : A → Type κ) (p : A → Bool) (xs : List A) (x : A)
      → All P xs
      → first_where p xs ≡ some x
      → P x
  unfolding first_where
  first_where-All P p [] x a h = ground arith
  first_where-All P p (y ∷ xs) x a h = ground (arith, first_where-All P p xs x)

  pub first_where-eq-none :
      (p : A → Bool) (xs : List A) → first_where p xs ≡ none → count_where p xs ≡ 0
  unfolding first_where count_where
  first_where-eq-none p [] h = refl
  first_where-eq-none p (y ∷ xs) h = ground (arith, first_where-eq-none p xs)

  pub count_where_of_first :
      (p : A → Bool) (xs : List A) (x : A)
      → first_where p xs ≡ some x
      → eqb (count_where p xs) 0 ≡ false
  unfolding first_where count_where
  count_where_of_first p [] x h = ground arith
  count_where_of_first p (y ∷ xs) x h = ground (arith, count_where_of_first p xs x)

  pub first_where_of_count :
      (p : A → Bool) (xs : List A) → count_where p xs ≡ 0 → first_where p xs ≡ none
  unfolding first_where count_where
  first_where_of_count p [] h = refl
  first_where_of_count p (y ∷ xs) h = ground (arith, first_where_of_count p xs)

  -- An update to rows that the query does not see, by a function that keeps them unseen.
  pub first_where-update :
      (q p : A → Bool) (f : A → A) (xs : List A)
      → ((x : A) → p x ≡ true → q x ≡ false)
      → ((x : A) → p x ≡ true → q (f x) ≡ false)
      → first_where q (update_where p f xs) ≡ first_where q xs
  unfolding first_where update_where
  first_where-update q p f [] h k = refl
  first_where-update q p f (x ∷ xs) h k = ground (arith, h x, k x, first_where-update q p f xs h k)

  pub first_where-delete :
      (q p : A → Bool) (xs : List A)
      → ((x : A) → p x ≡ true → q x ≡ false)
      → first_where q (delete_where p xs) ≡ first_where q xs
  unfolding first_where delete_where
  first_where-delete q p [] h = refl
  first_where-delete q p (x ∷ xs) h = ground (arith, h x, first_where-delete q p xs h)

  -- The first row that passes after an update that reaches the rows of `p` and leaves the others
  -- unseen: the update of the first row that passes `r`.
  pub first_where-update_new :
      (q p r : A → Bool) (f : A → A) (xs : List A)
      → ((x : A) → p x ≡ true → q (f x) ≡ r x)
      → ((x : A) → p x ≡ false → r x ≡ false)
      → count_where q xs ≡ 0
      → first_where q (update_where p f xs) ≡ Option.map f (first_where r xs)
  unfolding first_where update_where count_where
  first_where-update_new q p r f [] h k c = refl
  first_where-update_new q p r f (x ∷ xs) h k c =
      ground (arith, h x, k x, first_where-update_new q p r f xs h k)

  -- A query that an update does not affect finds the same row, updated if the update reaches it.
  pub first_where-update_same :
      (q p : A → Bool) (f : A → A) (xs : List A)
      → ((x : A) → q (f x) ≡ q x)
      → first_where q (update_where p f xs)
        ≡ Option.map (λ x. if p x then f x else x) (first_where q xs)
  unfolding first_where update_where
  first_where-update_same q p f [] h = refl
  first_where-update_same q p f (x ∷ xs) h = ground (arith, h x, first_where-update_same q p f xs h)

  -- A deletion that spares the first row that passes.
  pub first_where-delete_live :
      (q p : A → Bool) (xs : List A) (x : A)
      → first_where q xs ≡ some x
      → p x ≡ false
      → first_where q (delete_where p xs) ≡ some x
  unfolding first_where delete_where
  first_where-delete_live q p [] x e h = ground arith
  first_where-delete_live q p (y ∷ xs) x e h = ground (arith, first_where-delete_live q p xs x)

  -- After a deletion no row passes its test.
  pub first_where-delete_self :
      (p : A → Bool) (xs : List A) → first_where p (delete_where p xs) ≡ none
  unfolding first_where delete_where
  first_where-delete_self p [] = refl
  first_where-delete_self p (x ∷ xs) = ground (arith, first_where-delete_self p xs)

  pub first_where-append :
      (p : A → Bool) (xs ys : List A)
      → first_where p xs ≡ none
      → first_where p (xs ++ ys) ≡ first_where p ys
  unfolding first_where
  first_where-append p [] ys h = refl
  first_where-append p (x ∷ xs) ys h = ground (arith, first_where-append p xs ys)

  -- A row that the query does not see may be appended.
  pub first_where-append_unseen :
      (p : A → Bool) (xs : List A) (y : A)
      → p y ≡ false
      → first_where p (xs ++ y ∷ []) ≡ first_where p xs
  unfolding first_where
  first_where-append_unseen p [] y h = ground arith
  first_where-append_unseen p (x ∷ xs) y h = ground (arith, first_where-append_unseen p xs y)

  -- A query on the result of a query.
  pub first_where-select :
      (p q : A → Bool) (xs : List A)
      → first_where p (select_where q xs) ≡ first_where (λ x. q x && p x) xs
  unfolding first_where select_where
  first_where-select p q [] = refl
  first_where-select p q (x ∷ xs) = ground (arith, first_where-select p q xs)

  first_where_of_All :
      (p : A → Bool) (xs : List A) → All (λ x. p x ≡ false) xs → first_where p xs ≡ none
  unfolding first_where
  first_where_of_All p [] h = refl
  first_where_of_All p (x ∷ xs) h = ground (arith, first_where_of_All p xs h.1)

  -- Nothing is found among rows that all fail the test.
  pub first_where-select_none :
      (p q : A → Bool) (xs : List A)
      → All (λ x. (q x && p x) ≡ false) xs
      → first_where p (select_where q xs) ≡ none
  first_where-select_none p q xs h =
      first_where-select p q xs ∙ first_where_of_All (λ x. q x && p x) xs h

  -- An update that reaches no row that the query sees, and shows it none.
  pub first_where-update_unseen :
      (q p : A → Bool) (f : A → A) (xs : List A)
      → count_where (λ x. p x && q x) xs ≡ 0
      → ((x : A) → p x ≡ true → q (f x) ≡ true → q x ≡ true)
      → first_where q (update_where p f xs) ≡ first_where q xs
  unfolding first_where update_where count_where
  first_where-update_unseen q p f [] h k = refl
  first_where-update_unseen q p f (x ∷ xs) h k =
      ground (arith, k x, first_where-update_unseen q p f xs, k)

  first_where-update_none :
      (q p : A → Bool) (f : A → A) (xs : List A)
      → ((y : A) → p y ≡ true → q (f y) ≡ false)
      → count_where q xs ≡ 0
      → first_where q (update_where p f xs) ≡ none
  unfolding first_where update_where count_where
  first_where-update_none q p f [] k c = refl
  first_where-update_none q p f (y ∷ xs) k c =
      ground (arith, k y, first_where-update_none q p f xs k)

  -- An update that hides the only row that the query sees.
  pub first_where-update_lost :
      (q p : A → Bool) (f : A → A) (xs : List A) (x : A)
      → count_where q xs ≤ 1
      → first_where q xs ≡ some x
      → p x ≡ true
      → ((y : A) → p y ≡ true → q (f y) ≡ false)
      → first_where q (update_where p f xs) ≡ none
  unfolding first_where update_where count_where
  first_where-update_lost q p f [] x c e h k = refl
  first_where-update_lost q p f (y ∷ xs) x c e h k = elim (Bool-cases (q y)) [
    | inl seen ↦ ground (arith, k y, first_where-update_none q p f xs k)
    | inr unseen ↦ ground (arith, k y, first_where-update_lost q p f xs x, k)
  ]
