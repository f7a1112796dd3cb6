-- ===== src/Storage/Paths/Inside.antt =====
-- Cleaned relative paths, and where they lead when they are joined to a root.
use mathlib.Core.List.{append-nil}
use distri_max.Prelude.{
  ◌≡◌, ◌≢◌, refl, sym, ◌∙◌, Bool, true, false, inl, inr, List, [], ◌∷◌, ◌++◌, Text, lit, ◌==◌,
  ==_iff, split, add_head, strip_prefix, is_some, if◌then◌else◌, All, Bool-cases, eqb,
}
use distri_max.Storage.Paths.{
  is_abs, pop_name, push_name, clean_names, join_names, rendered, names_of, clean, join,
}

abbrev slash : Text → List Text
slash s = split b'/' s

-- A text with no slash in it.
abbrev pub IsName : Text → Type 0
IsName n = slash n ≡ n ∷ []

-- A name that leads one step down.
pub record IsPlain (n : Text) : Type 0 where
  pub is_name : IsName n
  pub not_empty : (n == []) ≡ false
  pub not_dot : (n == lit ".") ≡ false
  pub not_up : (n == lit "..") ≡ false

split-cons : (s : Text) → (h : Text) × (t : List Text) × (slash s ≡ h ∷ t)
unfolding split
split-cons [] = ([], [], refl)
split-cons (c ∷ s) =
    let (h, t, e) = split-cons s in
    elim (Bool-cases (eqb c b'/')) [
      | inl sep ↦ ([], slash s, rw sep refl)
      | inr other ↦ (c ∷ h, t, rw (other, e) refl)
    ]

add_head-append :
    (c : _) (xs ys : List Text) (h : Text) (t : List Text)
    → xs ≡ h ∷ t
    → add_head c (xs ++ ys) ≡ add_head c xs ++ ys
add_head-append c xs ys h t e = rw e refl

pub split-append : (s t : Text) → slash (s ++ b'/' ∷ t) ≡ slash s ++ slash t
unfolding split
split-append [] t = refl
split-append (c ∷ s) t =
    let (h, r, e) = split-cons s in
    elim (Bool-cases (eqb c b'/')) [
      | inl sep ↦ rw (sep, split-append s t) refl
      | inr other ↦ rw (other, split-append s t) (add_head-append c (slash s) (slash t) h r e)
    ]

pub split_names : (s : Text) → All IsName (slash s)
unfolding split
split_names [] = (refl, tt)
split_names (c ∷ s) = go (slash s) (split_names s)
  where
    go :
        (xs : List Text)
        → All IsName xs
        → All IsName (if eqb c b'/' then [] ∷ xs else add_head c xs)
    go xs a = elim (Bool-cases (eqb c b'/')) [
      | inl sep ↦ rw sep (refl, a)
      | inr other ↦ rw other (headed xs a other)
    ]
      where
        headed : (xs : List Text) → All IsName xs → eqb c b'/' ≡ false → All IsName (add_head c xs)
        headed [] a o = (rw o refl, tt)
        headed (x ∷ xs) a o = (rw (o, a.0) refl, a.1)

-- Whether a stack starts from a step up.
climbs : List Text → Bool
climbs [] = false
climbs (x ∷ []) = x == lit ".."
climbs (x ∷ y ∷ st) = climbs (y ∷ st)

-- The names of a relative path: plain ones, unless the path starts by going up.
data Shape (st : List Text) : Type 0 where
  down : All IsPlain st → Shape st
  up : climbs st ≡ true → Shape st

push-plain : (n : Text) (st : List Text) → IsPlain n → Shape st → Shape (n ∷ st)
unfolding climbs
push-plain n st p (down a) = down (p, a)
push-plain n [] p (up h) = absurd (cc h)
push-plain n (x ∷ st) p (up h) = up h

pop-Shape : (st : List Text) → Shape st → Shape (pop_name false st)
unfolding climbs ◌==◌
pop-Shape [] s = up refl
pop-Shape (x ∷ st) s = elim (Bool-cases (x == lit "..")) [
  | inl dots ↦ rw dots (go dots s)
  | inr name ↦ rw name (back st name s)
]
  where
    go : (x == lit "..") ≡ true → Shape (x ∷ st) → Shape (lit ".." ∷ x ∷ st)
    go d (up h) = up h
    go d (down a) = absurd (let n = a.0.not_up in cc (d, n))

    back : (ys : List Text) → (x == lit "..") ≡ false → Shape (x ∷ ys) → Shape ys
    back ys n (down a) = down a.1
    back [] n (up h) = absurd (cc (n, h))
    back (y ∷ ys) n (up h) = up h

push-Shape : (n : Text) (st : List Text) → IsName n → Shape st → Shape (push_name false n st)
unfolding push_name
push-Shape n st i s = elim (Bool-cases (n == [])) [
  | inl empty ↦ rw empty s
  | inr filled ↦ elim (Bool-cases (n == lit ".")) [
    | inl dot ↦ rw (filled, dot) s
    | inr other ↦ elim (Bool-cases (n == lit "..")) [
      | inl dots ↦ rw (filled, other, dots) (pop-Shape st s)
      | inr name ↦
          rw (filled, other, name)
            (push-plain n st
              (record { is_name = i; not_empty = filled; not_dot = other; not_up = name }) s)
    ]
  ]
]

clean_names-Shape :
    (st parts : List Text) → All IsName parts → Shape st → Shape (clean_names false st parts)
unfolding clean_names
clean_names-Shape st [] a s = s
clean_names-Shape st (n ∷ parts) a s =
    clean_names-Shape (push_name false n st) parts a.1 (push-Shape n st a.0 s)

climbs-prefix :
    (st : List Text) (s : Text)
    → climbs st ≡ true
    → is_some (strip_prefix (lit "..") (join_names st s)) ≡ true
unfolding climbs join_names strip_prefix
climbs-prefix [] s h = absurd (cc h)
climbs-prefix (x ∷ []) s h = rw ((==_iff x (lit "..")).0 h) refl
climbs-prefix (x ∷ y ∷ st) s h = climbs-prefix (y ∷ st) (b'/' ∷ (x ++ s)) h

relative : (b : Bool) (names : List Text) → is_abs (rendered b names) ≡ false → b ≡ false
unfolding is_abs strip_prefix
relative true names h = cc
relative false names h = refl

Shape-IsPlain :
    (st : List Text)
    → Shape st
    → is_some (strip_prefix (lit "..") (rendered false st)) ≡ false
    → All IsPlain st
unfolding climbs
Shape-IsPlain st (down a) h = a
Shape-IsPlain [] (up c) h = tt
Shape-IsPlain (x ∷ st) (up c) h = absurd (cc (climbs-prefix (x ∷ st) [] c, h))

-- A cleaned path that is relative and does not begin with dots has plain names only.
pub names_of-IsPlain :
    (path : Text)
    → is_abs (clean path) ≡ false
    → is_some (strip_prefix (lit "..") (clean path)) ≡ false
    → (is_abs path ≡ false) × All IsPlain (names_of path)
unfolding clean names_of
names_of-IsPlain path rel safe =
    let e : is_abs path ≡ false = relative (is_abs path) (names_of path) rel in
    (
      e,
      rw e (
          Shape-IsPlain (clean_names false [] (slash path))
            (clean_names-Shape [] (slash path) (split_names path) (down tt)) (rw e at safe)),
    )

pub push_name-plain :
    (rooted : Bool) (n : Text) (st : List Text) → IsPlain n → push_name rooted n st ≡ n ∷ st
unfolding push_name
push_name-plain rooted n st p = rw (p.not_empty, p.not_dot, p.not_up) refl

pub clean_names-append :
    (rooted : Bool) (st xs ys : List Text)
    → clean_names rooted st (xs ++ ys) ≡ clean_names rooted (clean_names rooted st xs) ys
unfolding clean_names
clean_names-append rooted st [] ys = refl
clean_names-append rooted st (x ∷ xs) ys = clean_names-append rooted (push_name rooted x st) xs ys

-- What follows a name in a path, and its names.
data Follows : Text → List Text → Type 0 where
  nothing : {s : Text} {rest : List Text} → s ≡ [] → rest ≡ [] → Follows s rest
  more : {s : Text} {rest : List Text} (t : Text) → s ≡ b'/' ∷ t → rest ≡ slash t → Follows s rest

follow : (n s : Text) (rest : List Text) → IsName n → Follows s rest → slash (n ++ s) ≡ n ∷ rest
follow n s rest i (nothing e f) = rw (e, f, append-nil) i
follow n s rest i (more t e f) = rw (e, f, split-append n t, i) refl

-- Reading a rendered stack of plain names pushes them again.
reread :
    (rooted : Bool) (x : Text) (st base rest : List Text) (s : Text)
    → IsPlain x
    → All IsPlain st
    → Follows s rest
    → clean_names rooted base (slash (join_names (x ∷ st) s))
      ≡ clean_names rooted (x ∷ (st ++ base)) rest
unfolding join_names
reread rooted x [] base rest s p a f =
    rw (follow x s rest p.is_name f)
      (unfold clean_names in rw (push_name-plain rooted x base p) refl)
reread rooted x (y ∷ st) base rest s p a f =
    reread rooted y st base (x ∷ rest) (b'/' ∷ (x ++ s)) a.0 a.1
      (more (x ++ s) refl (sym (follow x s rest p.is_name f)))
    ∙ (unfold clean_names in rw (push_name-plain rooted x (y ∷ (st ++ base)) p) refl)

join_names-ne-nil :
    (x : Text) (st : List Text) (s : Text) → IsPlain x → All IsPlain st → join_names (x ∷ st) s ≢ []
unfolding join_names
join_names-ne-nil [] [] s p a h = let e = p.not_empty in absurd (unfold ◌==◌ in cc e)
join_names-ne-nil (c ∷ x) [] s p a h = cc h
join_names-ne-nil x (y ∷ st) s p a h = join_names-ne-nil y st (b'/' ∷ (x ++ s)) a.0 a.1 h

pub rendered-ne-nil : (st : List Text) → All IsPlain st → rendered false st ≢ []
rendered-ne-nil [] a h = cc h
rendered-ne-nil (x ∷ st) a h = join_names-ne-nil x st [] a.0 a.1 h

pub join-eq : (root c : Text) → root ≢ [] → c ≢ [] → join root c ≡ clean (root ++ b'/' ∷ c)
unfolding join
join-eq [] c h k = absurd (h refl)
join-eq (a ∷ root) [] h k = absurd (k refl)
join-eq (a ∷ root) (d ∷ c) h k = refl

pub is_abs-append : (root s : Text) → root ≢ [] → is_abs (root ++ s) ≡ is_abs root
unfolding is_abs strip_prefix
is_abs-append [] s h = absurd (h refl)
is_abs-append (a ∷ root) s h = elim (Bool-cases (eqb b'/' a)) [
  | inl e ↦ rw e refl
  | inr e ↦ rw e refl
]

pub reread-rendered :
    (rooted : Bool) (st base : List Text)
    → All IsPlain st
    → clean_names rooted base (slash (rendered false st)) ≡ st ++ base
unfolding clean_names
reread-rendered rooted [] base a = unfold push_name split ◌==◌ in refl
reread-rendered rooted (x ∷ st) base a = reread rooted x st base [] [] a.0 a.1 (nothing refl refl)

-- Joined to a root, a path of plain names leads down from the root by just these names.
pub join-clean :
    (root path : Text)
    → root ≢ []
    → is_abs path ≡ false
    → All IsPlain (names_of path)
    → join root (clean path) ≡ rendered (is_abs root) (names_of path ++ names_of root)
unfolding clean names_of
join-clean root path h rel plain =
    go (clean_names false [] (slash path)) (rw rel at plain) (rw rel refl)
  where
    go :
        (st : List Text)
        → All IsPlain st
        → clean_names (is_abs path) [] (slash path) ≡ st
        → join root (rendered (is_abs path) (clean_names (is_abs path) [] (slash path)))
          ≡ rendered (is_abs root) (
              clean_names (is_abs path) [] (slash path)
              ++ clean_names (is_abs root) [] (slash root))
    go st a e =
        rw (rel, rw rel at e)
          (join-eq root (rendered false st) h (rendered-ne-nil st a)
            ∙ rw
                (
                  is_abs-append root (b'/' ∷ rendered false st) h,
                  split-append root (rendered false st),
                  clean_names-append (is_abs root) [] (slash root) (slash (rendered false st)),
                  reread-rendered (is_abs root) st (clean_names (is_abs root) [] (slash root)) a,
                )
                refl)
