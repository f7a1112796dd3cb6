-- ===== src/Storage/Filesystem/Resolved.antt =====
-- Where the paths of artifacts lead on the disk.
use mathlib.Core.List.{append-nil}
use distri_max.Prelude.{
  ℕ, ◌≡◌, ◌≢◌, refl, sym, ◌∙◌, Bool, true, false, inl, inr, List, [], ◌∷◌, ◌++◌, Text, lit, ◌==◌,
  ==_iff, split, contains, is_some, strip_prefix, if◌then◌else◌, All, Bool-cases, arith, eqb,
}
use distri_max.Storage.{done}
use distri_max.Storage.Filesystem.{FilesystemStorage, is_invalid, resolve_safe_path}
use distri_max.Storage.Paths.{
  is_abs, push_name, clean_names, join_names, rendered, names_of, clean, join,
}
use distri_max.Storage.Paths.Inside.{
  IsName, IsPlain, split-append, names_of-IsPlain, join-clean, join-eq, is_abs-append,
  clean_names-append, reread-rendered, rendered-ne-nil,
}

-- If the artifact root is not empty, a path that is accepted leads down from it, by the names of the
-- path and nothing else: each of them is a proper name, so that no path leads out of the root.
pub resolve_safe_path-inside :
    (fs : FilesystemStorage) (path full : Text)
    → fs.artifact_root ≢ []
    → resolve_safe_path fs path ≡ done full
    → (full ≡ rendered (is_abs fs.artifact_root) (names_of path ++ names_of fs.artifact_root))
      × All IsPlain (names_of path)
unfolding resolve_safe_path
resolve_safe_path-inside fs path full h e =
    elim (Bool-cases (is_some (strip_prefix (lit "..") (clean path)))) [
      | inl up ↦ let k = rw up at e in absurd (cc k)
      | inr down ↦ elim (Bool-cases (is_abs (clean path))) [
        | inl abs ↦ let k = rw (down, abs) at e in absurd (cc k)
        | inr rel ↦
            let (r, plain) = names_of-IsPlain path rel down in
            let k : done (join fs.artifact_root (clean path)) ≡ done full = rw (down, rel) at e in
            let same : join fs.artifact_root (clean path) ≡ full = ground arith in
            (sym same ∙ join-clean fs.artifact_root path h r plain, plain)
      ]
    ]

-- An identifier that passes the check, a lone dot apart, is a proper name.
slashless : (s : Text) → contains (lit "/") s ≡ false → IsName s
unfolding contains split strip_prefix
slashless [] h = refl
slashless (c ∷ s) h = elim (Bool-cases (eqb b'/' c)) [
  | inl sep ↦ absurd (let k = rw sep at h in cc k)
  | inr other ↦
      let o : eqb c b'/' ≡ false = ground arith in rw (o, slashless s (rw other at h)) refl
]

dots : contains (lit "..") (lit "..") ≡ true
unfolding contains strip_prefix
dots = refl

-- What a name that has passed the check adds to a path.
abbrev pub add : Text → List Text → List Text
add n st = if n == lit "." then st else n ∷ st

pub record IsValid (n : Text) : Type 0 where
  pub named : IsName n
  pub filled : (n == []) ≡ false
  pub no_up : (n == lit "..") ≡ false
  pub no_dots : contains (lit "..") n ≡ false

pub valid : (n : Text) → is_invalid n ≡ false → IsValid n
unfolding is_invalid
valid n h = record {
  named = slashless n (ground arith);
  filled = ground arith;
  no_up = elim (Bool-cases (n == lit "..")) [
    | inl same ↦
        let e : n ≡ lit ".." = (==_iff n (lit "..")).0 same in
        let k : contains (lit "..") n ≡ false = ground arith in
        absurd (let k' = rw e at k in cc (k', dots))
    | inr other ↦ other
  ];
  no_dots = ground arith;
}

pub push-add :
    (rooted : Bool) (n : Text) (st : List Text) → IsValid n → push_name rooted n st ≡ add n st
unfolding push_name
push-add rooted n st v = elim (Bool-cases (n == lit ".")) [
  | inl dot ↦ rw (dot, push_name, v.filled) refl
  | inr other ↦ rw (other, push_name, v.filled, v.no_up) refl
]

pub add-IsPlain : (n : Text) (st : List Text) → IsValid n → All IsPlain st → All IsPlain (add n st)
add-IsPlain n st v a = elim (Bool-cases (n == lit ".")) [
  | inl dot ↦ rw dot a
  | inr other ↦
      rw other
        (record { is_name = v.named; not_empty = v.filled; not_dot = other; not_up = v.no_up }, a)
]

pub add-append : (n : Text) (st base : List Text) → add n (st ++ base) ≡ add n st ++ base
add-append n st base = elim (Bool-cases (n == lit ".")) [
  | inl dot ↦ rw dot refl
  | inr other ↦ rw other refl
]

pub ne_of_filled : (n : Text) → (n == []) ≡ false → n ≢ []
ne_of_filled n h e = ground (arith, ==_iff n [])

pub first_byte : (c : ℕ) (x : Text) → IsName (c ∷ x) → eqb b'/' c ≡ false
unfolding split
first_byte c x i = elim (Bool-cases (eqb b'/' c)) [
  | inl sep ↦ let e : eqb c b'/' ≡ true = ground arith in absurd (let k = rw e at i in cc k)
  | inr other ↦ other
]

unrooted :
    (x s : Text) (names : List Text)
    → IsPlain x
    → All IsPlain names
    → is_abs (join_names (x ∷ names) s) ≡ false
unfolding is_abs join_names strip_prefix ◌==◌
unrooted [] s [] p a = absurd (cc (p.not_empty))
unrooted (c ∷ x) s [] p a = rw (first_byte c x p.is_name) refl
unrooted x s (y ∷ names) p a = unrooted y (b'/' ∷ (x ++ s)) names a.0 a.1

pub rendered-is_abs :
    (rooted : Bool) (st : List Text) → All IsPlain st → is_abs (rendered rooted st) ≡ rooted
unfolding is_abs strip_prefix
rendered-is_abs true st a = refl
rendered-is_abs false [] a = refl
rendered-is_abs false (x ∷ st) a = unrooted x [] st a.0 a.1

slash_rooted :
    (names : List Text) (base : List Text)
    → clean_names true base (split b'/' (b'/' ∷ join_names names []))
      ≡ clean_names true base (split b'/' (join_names names []))
unfolding clean_names split push_name ◌==◌
slash_rooted names base = refl

pub reread_any :
    (rooted : Bool) (st : List Text)
    → All IsPlain st
    → clean_names rooted [] (split b'/' (rendered rooted st)) ≡ st
reread_any false st a = reread-rendered false st [] a ∙ append-nil st
reread_any true [] a = unfold clean_names split push_name join_names ◌==◌ in refl
reread_any true (x ∷ st) a =
    slash_rooted (x ∷ st) [] ∙ reread-rendered true (x ∷ st) [] a ∙ append-nil (x ∷ st)

-- Joining one more name to a cleaned path.
pub join_name :
    (rooted : Bool) (st : List Text) (n : Text)
    → All IsPlain st
    → IsValid n
    → join (rendered rooted st) n ≡ rendered rooted (add n st)
unfolding clean names_of
join_name rooted st n a v =
    let ne : rendered rooted st ≢ [] = nonempty rooted st a in
    join-eq (rendered rooted st) n ne (ne_of_filled n v.filled)
    ∙ rw
        (
          is_abs-append (rendered rooted st) (b'/' ∷ n) ne,
          rendered-is_abs rooted st a,
          split-append (rendered rooted st) n,
          v.named,
          clean_names-append rooted [] (split b'/' (rendered rooted st)) (n ∷ []),
          reread_any rooted st a,
        )
        (unfold clean_names in rw (push-add rooted n st v) refl)
  where
    nonempty : (rooted : Bool) (st : List Text) → All IsPlain st → rendered rooted st ≢ []
    nonempty true st a h = cc h
    nonempty false st a h = rendered-ne-nil st a h
