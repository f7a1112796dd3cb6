-- ===== src/Api/AuditLogger/Secret.antt =====
-- Which keys of a query are secret.
use distri_max.Api.AuditLogger.{is_sensitive}
use distri_max.Config.{lower, to_lower}
use distri_max.Prelude.{
  ◌+◌, ◌≡◌, refl, sym, ◌∙◌, ap, Bool, true, false, ◌&&◌, ◌||◌, inl, inr, Bool-cases, List, [], ◌∷◌,
  ◌++◌, Option, none, some, Text, lit, arith, eqb, leb, strip_prefix, is_some, contains, any_item,
}

-- The words that mark a key's value as secret.
abbrev pub secret_words : List Text
secret_words = lit "key" ∷ lit "token" ∷ lit "secret" ∷ lit "password" ∷ []

-- The same letters, the first in either case and the second in lower case.
unfoldable pub folds : Text → Text → Bool
folds [] [] = true
folds [] (d ∷ t) = false
folds (c ∷ s) [] = false
folds (c ∷ s) (d ∷ t) = (eqb c d || ((leb 65 c && leb c 90) && eqb (c + 32) d)) && folds s t

to_lower-folds : (s t : Text) → folds s t ≡ true → to_lower s ≡ to_lower t
unfolding folds to_lower
to_lower-folds [] [] h = refl
to_lower-folds [] (d ∷ t) h = absurd (cc h)
to_lower-folds (c ∷ s) [] h = absurd (cc h)
to_lower-folds (c ∷ s) (d ∷ t) h = ground (arith, to_lower-folds s t)

to_lower-append : (s t : Text) → to_lower (s ++ t) ≡ to_lower s ++ to_lower t
unfolding to_lower
to_lower-append [] t = refl
to_lower-append (c ∷ s) t = ap (λ u. lower c ∷ u) (to_lower-append s t)

strip_prefix-append : (s t : Text) → strip_prefix s (s ++ t) ≡ some t
unfolding strip_prefix
strip_prefix-append [] t = refl
strip_prefix-append (c ∷ s) t = ground (arith, strip_prefix-append s t)

contains-prefix : (part s : Text) → is_some (strip_prefix part s) ≡ true → contains part s ≡ true
unfolding contains
contains-prefix part [] h = h
contains-prefix part (c ∷ s) h = rw h refl

contains-append : (before part after : Text) → contains part (before ++ (part ++ after)) ≡ true
unfolding contains
contains-append [] part after =
    contains-prefix part (part ++ after) (ap is_some (strip_prefix-append part after))
contains-append (c ∷ before) part after = let h = contains-append before part after in ground arith

contains-folds :
    (before word after part : Text)
    → to_lower part ≡ part
    → folds word part ≡ true
    → contains part (to_lower (before ++ (word ++ after))) ≡ true
contains-folds before word after part low h =
    let e : to_lower word ≡ part = to_lower-folds word part h ∙ low in
    let k : to_lower (before ++ (word ++ after)) ≡ to_lower before ++ (part ++ to_lower after) =
      to_lower-append before (word ++ after)
      ∙ ap (λ u. to_lower before ++ u)
          (to_lower-append word after ∙ ap (λ u. u ++ to_lower after) e) in
    ap (contains part) k ∙ contains-append (to_lower before) part (to_lower after)

pub secret-is_sensitive :
    (before word after : Text)
    → any_item (folds word) secret_words ≡ true
    → is_sensitive (before ++ (word ++ after)) ≡ true
unfolding is_sensitive any_item to_lower
secret-is_sensitive before word after h = ground (
  arith,
  contains-folds before word after (lit "key") refl,
  contains-folds before word after (lit "token") refl,
  contains-folds before word after (lit "secret") refl,
  contains-folds before word after (lit "password") refl,
)

-- Conversely, what is sensitive has one of the words in it.
record Split (part s : Text) : Type 0 where
  before : Text
  after : Text
  split_at : s ≡ before ++ (part ++ after)

strip_prefix-some : (part s t : Text) → strip_prefix part s ≡ some t → s ≡ part ++ t
unfolding strip_prefix
strip_prefix-some [] s t h = ground arith
strip_prefix-some (p ∷ ps) [] t h = absurd (cc h)
strip_prefix-some (p ∷ ps) (c ∷ s) t h = ground (arith, strip_prefix-some ps s t)

prefix-Split : (part s : Text) → is_some (strip_prefix part s) ≡ true → Split part s
prefix-Split part s h = go (strip_prefix part s) refl h
  where
    go : (o : Option Text) → strip_prefix part s ≡ o → is_some o ≡ true → Split part s
    go none e k = absurd (cc k)
    go (some t) e k = record { before = []; after = t; split_at = strip_prefix-some part s t e }

contains-Split : (part s : Text) → contains part s ≡ true → Split part s
unfolding contains
contains-Split part [] h = prefix-Split part [] h
contains-Split part (c ∷ s) h = elim (Bool-cases (is_some (strip_prefix part (c ∷ s)))) [
  | inl first ↦ prefix-Split part (c ∷ s) first
  | inr later ↦
      let k = contains-Split part s (rw later at h) in
      record { before = c ∷ k.before; after = k.after; split_at = ap (λ u. c ∷ u) k.split_at }
]

record Lowered (s t u : Text) : Type 0 where
  left : Text
  right : Text
  split_at : s ≡ left ++ right
  lowered_left : to_lower left ≡ t
  lowered_right : to_lower right ≡ u

to_lower-split : (s t u : Text) → to_lower s ≡ t ++ u → Lowered s t u
unfolding to_lower
to_lower-split s [] u h = record {
  left = [];
  right = s;
  split_at = refl;
  lowered_left = refl;
  lowered_right = h;
}
to_lower-split [] (d ∷ t) u h = absurd (cc h)
to_lower-split (c ∷ s) (d ∷ t) u h =
    let same : lower c ≡ d = ground arith in
    let rest : to_lower s ≡ t ++ u = ground arith in
    let k = to_lower-split s t u rest in
    record {
      left = c ∷ k.left;
      right = k.right;
      split_at = ap (λ v. c ∷ v) k.split_at;
      lowered_left = ap (λ v. lower c ∷ v) k.lowered_left ∙ ap (λ x. x ∷ t) same;
      lowered_right = k.lowered_right;
    }

folds-lower : (s t : Text) → to_lower s ≡ t → folds s t ≡ true
unfolding to_lower folds
folds-lower [] [] h = refl
folds-lower [] (d ∷ t) h = absurd (cc h)
folds-lower (c ∷ s) [] h = absurd (cc h)
folds-lower (c ∷ s) (d ∷ t) h =
    let same : lower c ≡ d = ground arith in
    let rest : to_lower s ≡ t = ground arith in let k = folds-lower s t rest in ground arith

part-absent :
    (key part : Text)
    → ((before word after : Text) → key ≡ before ++ (word ++ after) → folds word part ≡ false)
    → contains part (to_lower key) ≡ false
part-absent key part h = elim (Bool-cases (contains part (to_lower key))) [
  | inr absent_ ↦ absent_
  | inl there_ ↦
      let w = contains-Split part (to_lower key) there_ in
      let l = to_lower-split key w.before (part ++ w.after) w.split_at in
      let m = to_lower-split l.right part w.after l.lowered_right in
      let no = h l.left m.left m.right (l.split_at ∙ ap (λ u. l.left ++ u) m.split_at) in
      let yes = folds-lower m.left part m.lowered_left in
      absurd (let e : true ≡ false = sym yes ∙ no in cc e)
]

pub unsecret-is_sensitive :
    (key : Text)
    → ((before word after : Text)
        → key ≡ before ++ (word ++ after)
        → any_item (folds word) secret_words ≡ false)
    → is_sensitive key ≡ false
unfolding is_sensitive any_item
unsecret-is_sensitive key h =
    let a = part-absent key (lit "key") (λ b w c e. let k = h b w c e in ground arith) in
    let b = part-absent key (lit "token") (λ b w c e. let k = h b w c e in ground arith) in
    let c = part-absent key (lit "secret") (λ b w c e. let k = h b w c e in ground arith) in
    let d = part-absent key (lit "password") (λ b w c e. let k = h b w c e in ground arith) in
    rw (a, b, c, d) refl
