-- ===== src/Workers/Backup/Newest.antt =====
-- The order of the names of snapshots, and which of them stand before the last ones.
use distri_max.Prelude.{
  ℕ, zero, suc, ◌+◌, ◌-◌, ◌≤◌, ◌<◌, ◌≡◌, refl, sym, ◌∙◌, ap, subst, Bool, true, false, ◌&&◌, ◌||◌,
  inl, inr, Bool-cases, List, [], ◌∷◌, Text, ◌==◌, ==_iff, any_item, ltb, length, take, All,
  All-imp, arith,
}
use distri_max.Db.Sql.{text_le, count_where, insert_ordered, order_by}
use distri_max.Db.Store.{later}
use distri_max.Workers.Backup.{to_delete}

text_le_trans : (s t u : Text) → text_le s t ≡ true → text_le t u ≡ true → text_le s u ≡ true
unfolding text_le
text_le_trans [] t u h k = refl
text_le_trans (a ∷ s) [] u h k = ground arith
text_le_trans (a ∷ s) (b ∷ t) [] h k = ground arith
text_le_trans (a ∷ s) (b ∷ t) (c ∷ u) h k = ground (arith, text_le_trans s t u)

text_le-total : (s t : Text) → text_le s t ≡ false → text_le t s ≡ true
unfolding text_le
text_le-total [] t h = ground arith
text_le-total (a ∷ s) [] h = refl
text_le-total (a ∷ s) (b ∷ t) h = ground (arith, text_le-total s t)

text_le_refl : (s : Text) → text_le s s ≡ true
unfolding text_le
text_le_refl [] = refl
text_le_refl (a ∷ s) = ground (arith, text_le_refl s)

-- Each text stands before all that sort after it.
abbrev IsSorted : List Text → Type 0
IsSorted [] = Unit {0}
IsSorted (x ∷ xs) = All (λ y. text_le x y ≡ true) xs × IsSorted xs

All-insert :
    (P : Text → Type 0) (x : Text) (ys : List Text)
    → P x
    → All P ys
    → All P (insert_ordered text_le x ys)
unfolding insert_ordered
All-insert P x [] p h = (p, tt)
All-insert P x (y ∷ ys) p h = elim (Bool-cases (text_le x y)) [
  | inl first ↦ rw first (p, h)
  | inr later ↦ rw later (h.0, All-insert P x ys p h.1)
]

insert-IsSorted : (x : Text) (ys : List Text) → IsSorted ys → IsSorted (insert_ordered text_le x ys)
unfolding insert_ordered
insert-IsSorted x [] h = (tt, tt)
insert-IsSorted x (y ∷ ys) h = elim (Bool-cases (text_le x y)) [
  | inl first ↦ rw first ((first, All-imp _ _ (λ z. text_le_trans x y z first) ys h.0), h)
  | inr later ↦ rw later (
    All-insert (λ z. text_le y z ≡ true) x ys (text_le-total x y later) h.0,
    insert-IsSorted x ys h.1,
  )
]

order_by-IsSorted : (xs : List Text) → IsSorted (order_by text_le xs)
unfolding order_by
order_by-IsSorted [] = tt
order_by-IsSorted (x ∷ xs) = insert-IsSorted x (order_by text_le xs) (order_by-IsSorted xs)

count_where-All :
    (p : Text → Bool) (xs : List Text) → All (λ y. p y ≡ true) xs → count_where p xs ≡ length xs
unfolding count_where
count_where-All p [] h = refl
count_where-All p (x ∷ xs) h = let e = count_where-All p xs h.1 in rw h.0 (ap suc e)

-- Of a sorted list, more than `keep` texts do not sort before one that stands before the last `keep`.
take-counted :
    (n keep : ℕ) (xs : List Text) (x : Text)
    → IsSorted xs
    → n + keep ≡ length xs
    → any_item (λ y. y == x) (take n xs) ≡ true
    → keep < count_where (text_le x) xs
unfolding any_item count_where
take-counted zero keep xs x sorted e h = ground arith
take-counted (suc n) keep [] x sorted e h = ground arith
take-counted (suc n) keep (y ∷ xs) x sorted e h = elim (Bool-cases (y == x)) [
  | inl same ↦
      let eq : y ≡ x = (==_iff y x).0 same in
      let all : All (λ z. text_le x z ≡ true) xs =
        subst (λ v. All (λ z. text_le v z ≡ true) xs) eq sorted.0 in
      let self : text_le x y ≡ true = subst (λ v. text_le x v ≡ true) (sym eq) (text_le_refl x) in
      let counted = count_where-All (text_le x) xs all in ground arith
  | inr other ↦
      let rest = take-counted n keep xs x sorted.1 (omega arith) (rw other at h) in ground arith
]

text_le-antisym : (s t : Text) → text_le s t ≡ true → text_le t s ≡ true → (s == t) ≡ true
unfolding text_le ◌==◌
text_le-antisym [] [] h k = refl
text_le-antisym [] (b ∷ t) h k = ground arith
text_le-antisym (a ∷ s) [] h k = ground arith
text_le-antisym (a ∷ s) (b ∷ t) h k = ground (arith, text_le-antisym s t)

==-sym : (s t : Text) → (s == t) ≡ true → (t == s) ≡ true
==-sym s t h = (==_iff t s).1 (sym ((==_iff s t).0 h))

count_where-le : (p : Text → Bool) (xs : List Text) → count_where p xs ≤ length xs
unfolding count_where
count_where-le p [] = omega arith
count_where-le p (x ∷ xs) = ground (arith, count_where-le p xs)

All-any :
    (p : Text → Bool) (xs : List Text) (x : Text)
    → All (λ y. p y ≡ true) xs
    → any_item (λ y. y == x) xs ≡ true
    → p x ≡ true
unfolding any_item
All-any p [] x a h = ground arith
All-any p (y ∷ xs) x a h = elim (Bool-cases (y == x)) [
  | inl same ↦ subst (λ v. p v ≡ true) ((==_iff y x).0 same) a.0
  | inr other ↦ All-any p xs x a.1 (rw other at h)
]

-- Conversely, no more than `keep` do if it is one of the last.
left-counted :
    (n keep : ℕ) (xs : List Text) (x : Text)
    → IsSorted xs
    → n + keep ≡ length xs
    → any_item (λ y. y == x) xs ≡ true
    → any_item (λ y. y == x) (take n xs) ≡ false
    → count_where (text_le x) xs ≤ keep
unfolding any_item count_where
left-counted zero keep xs x sorted e h k = let c = count_where-le (text_le x) xs in omega arith
left-counted (suc n) keep [] x sorted e h k = ground arith
left-counted (suc n) keep (y ∷ xs) x sorted e h k = elim (Bool-cases (y == x)) [
  | inl same ↦ absurd (ground arith)
  | inr other ↦
      let here = rw other at h in
      let le = All-any (text_le y) xs x sorted.0 here in
      let anti = text_le-antisym y x le in
      let rest = left-counted n keep xs x sorted.1 (omega arith) here (rw other at k) in
      ground arith
]

any-take :
    (p : Text → Bool) (n : ℕ) (xs : List Text)
    → any_item p xs ≡ false
    → any_item p (take n xs) ≡ false
unfolding any_item
any-take p zero xs h = refl
any-take p (suc n) [] h = refl
any-take p (suc n) (x ∷ xs) h = ground (arith, any-take p n xs)

-- Sorting keeps what is there, and how many of it.
any-insert :
    (p : Text → Bool) (x : Text) (ys : List Text)
    → any_item p (insert_ordered text_le x ys) ≡ (p x || any_item p ys)
unfolding insert_ordered any_item
any-insert p x [] = refl
any-insert p x (y ∷ ys) = ground (arith, any-insert p x ys)

any-order_by : (p : Text → Bool) (xs : List Text) → any_item p (order_by text_le xs) ≡ any_item p xs
unfolding order_by any_item
any-order_by p [] = refl
any-order_by p (x ∷ xs) =
    any-insert p x (order_by text_le xs) ∙ ap (λ b. p x || b) (any-order_by p xs)

count-insert :
    (p : Text → Bool) (x : Text) (ys : List Text)
    → count_where p (insert_ordered text_le x ys) ≡ count_where p (x ∷ ys)
unfolding insert_ordered count_where
count-insert p x [] = refl
count-insert p x (y ∷ ys) = ground (arith, count-insert p x ys)

count-order_by :
    (p : Text → Bool) (xs : List Text) → count_where p (order_by text_le xs) ≡ count_where p xs
unfolding order_by count_where
count-order_by p [] = refl
count-order_by p (x ∷ xs) =
    let h = count-order_by p xs in count-insert p x (order_by text_le xs) ∙ ground arith

length-insert : (x : Text) (ys : List Text) → length (insert_ordered text_le x ys) ≡ suc (length ys)
unfolding insert_ordered
length-insert x [] = refl
length-insert x (y ∷ ys) = ground (arith, length-insert x ys)

taken-eq :
    (n keep : ℕ) (xs : List Text) (x : Text)
    → IsSorted xs
    → n + keep ≡ length xs
    → any_item (λ y. y == x) (take n xs)
      ≡ (any_item (λ y. y == x) xs && ltb keep (count_where (text_le x) xs))
taken-eq n keep xs x sorted e = elim (Bool-cases (any_item (λ y. y == x) (take n xs))) [
  | inl taken ↦
      let counted = take-counted n keep xs x sorted e taken in
      let unless = any-take (λ y. y == x) n xs in ground arith
  | inr left ↦ let counted = left-counted n keep xs x sorted e in ground arith
]

sorted-eq :
    (keep : ℕ) (xs : List Text) (x : Text)
    → IsSorted xs
    → any_item (λ y. y == x) (to_delete keep xs)
      ≡ (any_item (λ y. y == x) xs && ltb keep (count_where (text_le x) xs))
unfolding any_item
sorted-eq keep xs x sorted = elim (Bool-cases (ltb keep (length xs))) [
  | inl many ↦ rw many (taken-eq (length xs - keep) keep xs x sorted (ground arith))
  | inr few ↦ let c = count_where-le (text_le x) xs in rw few (ground arith)
]

pub to_delete-eq :
    (keep : ℕ) (paths : List Text) (x : Text)
    → any_item (λ y. y == x) (to_delete keep (order_by text_le paths))
      ≡ (any_item (λ y. y == x) paths && ltb keep (count_where (text_le x) paths))
to_delete-eq keep paths x =
    sorted-eq keep (order_by text_le paths) x (order_by-IsSorted paths)
    ∙ (ap (λ b. b && ltb keep (count_where (text_le x) (order_by text_le paths)))
          (any-order_by (λ y. y == x) paths)
        ∙ ap (λ n. any_item (λ y. y == x) paths && ltb keep n) (count-order_by (text_le x) paths))
