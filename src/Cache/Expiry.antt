-- ===== src/Cache/Expiry.antt =====
-- What the cache answers after any history of calls.
use distri_max.Prelude.{
  ℕ, ◌+◌, ◌-◌, ◌*◌, ◌≤◌, ◌≡◌, ◌⊎◌, ◌↔◌, refl, ◌∙◌, ap, subst, Bool, true, false, inl, inr,
  Bool-cases, List, [], ◌∷◌, ◌++◌, Option, none, some, Text, ◌==◌, ==-refl, ==_iff, ltb, eqb, All,
  arith, if◌then◌else◌,
}
use distri_max.Db.Schema.{Time}
use distri_max.Cache.{
  ProductManifest, CacheEntry, ManifestCache, new_manifest_cache, fresh, get, set, invalidate,
  invalidate_all,
}

-- A call that changes the cache, with the time at which it is made.
pub data Call : Type 0 where
  sets : Text → ProductManifest → Time → Call
  invalidates : Text → Call
  invalidates_all : Call

pub step : ManifestCache → Call → ManifestCache
step c (sets id m now) = set c id m now
step c (invalidates id) = invalidate c id
step c invalidates_all = invalidate_all c

pub run : ManifestCache → List Call → ManifestCache
run c [] = c
run c (x ∷ xs) = run (step c x) xs

-- The call is about the key.
abbrev pub concerns : Text → Call → Bool
concerns id (sets j m now) = j == id
concerns id (invalidates j) = j == id
concerns id invalidates_all = true

-- The manifest has been stored at that time, and no call since has been about its key.
pub record Stored (id : Text) (m : ProductManifest) (at : Time) (xs : List Call) : Type 0 where
  pub before : List Call
  pub after : List Call
  pub split_at : xs ≡ before ++ sets id m at ∷ after
  pub untouched : All (λ x. concerns id x ≡ false) after

-- The time to live in nanoseconds: a minute if it is given as 0.
abbrev pub time_to_live : ℕ → ℕ
time_to_live ttl = if eqb ttl 0 then 60 * 1000000000 else ttl

run-append : (c : ManifestCache) (xs ys : List Call) → run c (xs ++ ys) ≡ run (run c xs) ys
unfolding run
run-append c [] ys = refl
run-append c (x ∷ xs) ys = run-append (step c x) xs ys

run-ttl : (c : ManifestCache) (xs : List Call) → (run c xs).ttl ≡ c.ttl
unfolding run step set invalidate invalidate_all
run-ttl c [] = refl
run-ttl c (sets j m at ∷ xs) = run-ttl (set c j m at) xs
run-ttl c (invalidates j ∷ xs) = run-ttl (invalidate c j) xs
run-ttl c (invalidates_all ∷ xs) = run-ttl (invalidate_all c) xs

step-untouched :
    (c : ManifestCache) (x : Call) (id : Text)
    → concerns id x ≡ false
    → (step c x).entries id ≡ c.entries id
unfolding step set invalidate
step-untouched c (sets j m at) id h = rw h refl
step-untouched c (invalidates j) id h = rw h refl
step-untouched c invalidates_all id h = absurd (cc h)

run-untouched :
    (c : ManifestCache) (xs : List Call) (id : Text)
    → All (λ x. concerns id x ≡ false) xs
    → (run c xs).entries id ≡ c.entries id
unfolding run
run-untouched c [] id h = refl
run-untouched c (x ∷ xs) id h = run-untouched (step c x) xs id h.1 ∙ step-untouched c x id h.0

-- An entry was there at the start, or it has been stored since.
Origin : Text → CacheEntry → ManifestCache → List Call → Type 0
Origin id e c xs =
    Stored id e.manifest e.cached_at xs
    ⊎ ((c.entries id ≡ some e) × All (λ x. concerns id x ≡ false) xs)

Stored-later :
    (id : Text) (m : ProductManifest) (at : Time) (x : Call) (xs : List Call)
    → Stored id m at xs
    → Stored id m at (x ∷ xs)
Stored-later id m at x xs h = record {
  before = x ∷ h.before;
  after = h.after;
  split_at = ap (λ ys. x ∷ ys) h.split_at;
  untouched = h.untouched;
}

step-Origin :
    (c : ManifestCache) (x : Call) (xs : List Call) (id : Text) (e : CacheEntry)
    → (step c x).entries id ≡ some e
    → All (λ y. concerns id y ≡ false) xs
    → Origin id e c (x ∷ xs)
unfolding step set invalidate invalidate_all Origin
step-Origin c (sets j m at) xs id e h u = elim (Bool-cases (j == id)) [
  | inl same ↦
      let k : some (record { manifest = m; cached_at = at }) ≡ some e = rw same at h in
      let q : record { manifest = m; cached_at = at } ≡ e = ground arith in
      inl (record {
        before = [];
        after = xs;
        split_at =
            ap (λ i. sets i m at ∷ xs) ((==_iff j id).0 same)
            ∙ ap (λ y. sets id y.manifest y.cached_at ∷ xs) q;
        untouched = u;
      })
  | inr other ↦ inr (rw other at h, (other, u))
]
step-Origin c (invalidates j) xs id e h u = elim (Bool-cases (j == id)) [
  | inl same ↦ absurd (let k = rw same at h in cc k)
  | inr other ↦ inr (rw other at h, (other, u))
]
step-Origin c invalidates_all xs id e h u = absurd (cc h)

run-Origin :
    (c : ManifestCache) (xs : List Call) (id : Text) (e : CacheEntry)
    → (run c xs).entries id ≡ some e
    → Origin id e c xs
unfolding run Origin
run-Origin c [] id e h = inr (h, tt)
run-Origin c (x ∷ xs) id e h = elim (run-Origin (step c x) xs id e h) [
  | inl s ↦ inl (Stored-later id e.manifest e.cached_at x xs s)
  | inr (k, u) ↦ step-Origin c x xs id e k u
]

Stored-entries :
    (c : ManifestCache) (xs : List Call) (id : Text) (m : ProductManifest) (at : Time)
    → Stored id m at xs
    → (run c xs).entries id ≡ some (record { manifest = m; cached_at = at })
unfolding run step set
Stored-entries c xs id m at h =
    ap (λ ys. (run c ys).entries id) h.split_at
    ∙ ap (λ d. d.entries id) (run-append c h.before (sets id m at ∷ h.after))
    ∙ run-untouched (set (run c h.before) id m at) h.after id h.untouched
    ∙ rw (==-refl id) refl

fresh-some :
    (ttl : ℕ) (now : Time) (o : Option CacheEntry) (m : ProductManifest)
    → fresh ttl now o ≡ some m
    → (e : CacheEntry) × (o ≡ some e) × (e.manifest ≡ m) × (now ≤ e.cached_at + ttl)
fresh-some ttl now none m h = absurd (cc h)
fresh-some ttl now (some e) m h = elim (Bool-cases (ltb ttl (now - e.cached_at))) [
  | inl late ↦ absurd (let k = rw late at h in cc k)
  | inr early ↦
      let k : some e.manifest ≡ some m = rw early at h in (e, refl, ground arith, ground arith)
]

-- Whatever calls a new cache has had, it has a manifest for a key exactly if some call has stored it
-- under the key, no later call stored or dropped anything under the key, nor dropped everything, and
-- the time since is at most the time to live, which is 60 seconds if it was given as 0.
pub get-run :
    (ttl : ℕ) (xs : List Call) (id : Text) (m : ProductManifest) (now : Time)
    → (get (run (new_manifest_cache ttl) xs) id now ≡ some m)
      ↔ ((at : Time) × Stored id m at xs × (now ≤ at + time_to_live ttl))
unfolding get new_manifest_cache Origin
get-run ttl xs id m now =
    let c = new_manifest_cache ttl in
    let same : (run c xs).ttl ≡ time_to_live ttl = run-ttl c xs in
    (
      λ h.
          let (e, found, named, recent) =
            fresh-some (run c xs).ttl now ((run c xs).entries id) m h in
          elim (run-Origin c xs id e found) [
            | inl s ↦ (
              e.cached_at,
              subst (λ n. Stored id n e.cached_at xs) named s,
              subst (λ t. now ≤ e.cached_at + t) same recent,
            )
            | inr (k, u) ↦ absurd (cc k)
          ],
      λ (at, s, recent).
          ap (fresh (run c xs).ttl now) (Stored-entries c xs id m at s)
          ∙ ap (λ t. fresh t now (some (record { manifest = m; cached_at = at }))) same
          ∙ early m at now (time_to_live ttl) recent,
    )
  where
    early :
        (m : ProductManifest) (at now : Time) (t : ℕ)
        → now ≤ at + t
        → fresh t now (some (record { manifest = m; cached_at = at })) ≡ some m
    early m at now t h = ground arith
