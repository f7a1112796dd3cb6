-- ===== src/Api/Health/Ready.antt =====
-- What the readiness probe tells.
use distri_max.Api.Health.{
  ready, is_stale, age_exceeds, labelled, stale_products, verdict, listed, pinged, readiness,
}
use distri_max.Db.Clock.{day, max_days, days_duration}
use distri_max.Db.Schema.{Time, Product, ProductVersion, Tables}
use distri_max.Db.Sql.{first_where, order_by, insert_ordered, text_le}
use distri_max.Db.Store.{version_not_found, Result, ok, err, Db}
use distri_max.Db.Store.Rules.{query-Keeps, query-eq-ok}
use distri_max.Db.Versions.{found-eq-ok, is_served, list_products, get_current_version}
use distri_max.Prelude.{
  ℕ, ◌+◌, ◌*◌, ◌^◌, ◌≤◌, ◌<◌, ◌≡◌, refl, sym, ◌∙◌, ap, subst, Bool, true, false, inl, inr,
  Bool-cases, List, [], ◌∷◌, some, Text, All, arith, ltb,
}

-- A staleness limit of at most 106751 days is exceeded by an age, of less than 292 years, just if the
-- days have passed since the release.
pub age_exceeds-days :
    (now t : Time) (days : ℕ)
    → days ≤ max_days
    → now < t + 2 ^ 63
    → age_exceeds now t (days_duration days) ≡ ltb (t + days * day) now
unfolding age_exceeds days_duration
age_exceeds-days now t days h l = ground arith

module _ {A : Type 0} (P : A → Type 0) (le : A → A → Bool) where
  All-insert : (x : A) (xs : List A) → All P (insert_ordered le x xs) → P x × All P xs
  unfolding insert_ordered
  All-insert x [] a = (a.0, _)
  All-insert x (y ∷ ys) a = elim (Bool-cases (le x y)) [
    | inl here ↦ rw here at a
    | inr there ↦ let b = rw there at a in let c = All-insert x ys b.1 in (c.0, (b.0, c.1))
  ]

  All-order_by : (xs : List A) → All P (order_by le xs) → All P xs
  unfolding order_by
  All-order_by [] a = _
  All-order_by (x ∷ xs) a = let b = All-insert x (order_by le xs) a in (b.0, All-order_by xs b.1)

-- If the product is enabled, it serves a version that is not stale.
abbrev pub IsFresh : Time → Tables → Product → Type 0
IsFresh now t p =
    p.is_enabled ≡ true
    → (v : ProductVersion) × (first_where (is_served p.id) t.versions ≡ some v)
      × (is_stale now p.staleness_days v ≡ false)

module _ (now : Time) (t : Tables) where
  labelled-IsFresh :
      (p : Product) (db : Db) (r : Result ProductVersion) (names : List Text)
      → db.tables ≡ t
      → (get_current_version p.id db).0 ≡ r
      → labelled now p r names ≡ []
      → IsFresh now t p × (names ≡ [])
  unfolding get_current_version
  labelled-IsFresh p db (err e) names s q h = absurd (cc h)
  labelled-IsFresh p db (ok v) names s q h = elim (Bool-cases (is_stale now p.staleness_days v)) [
    | inl stale ↦ absurd (let k = rw stale at h in cc k)
    | inr fresh ↦ (
      λ _. (
        v,
        subst (λ u. first_where (is_served p.id) u.versions ≡ some v) s
            (found-eq-ok version_not_found _ v (query-eq-ok _ db v q).0),
        fresh,
      ),
      rw fresh at h,
    )
  ]

  stale_products-IsFresh :
      (ps : List Product) (db : Db)
      → db.tables ≡ t
      → (stale_products now ps db).0 ≡ []
      → All (IsFresh now t) ps
  unfolding stale_products
  stale_products-IsFresh [] db s h = _
  stale_products-IsFresh (p ∷ ps) db s h = elim (Bool-cases p.is_enabled) [
    | inl on ↦
        let k : labelled now p (get_current_version p.id db).0
              (stale_products now ps (get_current_version p.id db).1).0
            ≡ [] =
          simp on at h in
        let f = labelled-IsFresh p db _ _ s refl k in
        (
          f.0,
          stale_products-IsFresh ps (get_current_version p.id db).1 (current-same p.id db s) f.1,
        )
    | inr off ↦ (
      λ on. absurd (let k = sym on ∙ off in cc k),
      stale_products-IsFresh ps db s (simp off at h),
    )
  ]
    where
      current-same :
          (id : Text) (db : Db) → db.tables ≡ t → (get_current_version id db).1.tables ≡ t
      current-same id db s = unfold get_current_version in query-Keeps (λ u. u ≡ t) _ db s

  verdict-ready : (names : List Text) → verdict names ≡ ready → names ≡ []
  verdict-ready [] h = refl
  verdict-ready (n ∷ names) h = absurd (cc h)

  listed-IsFresh :
      (r : Result (List Product)) (db : Db)
      → ((ps : List Product) → r ≡ ok ps → All (IsFresh now t) ps → All (IsFresh now t) t.products)
      → db.tables ≡ t
      → (listed now r db).0 ≡ ready
      → All (IsFresh now t) t.products
  listed-IsFresh (err e) db k s h = absurd (cc h)
  listed-IsFresh (ok ps) db k s h =
      k ps refl (stale_products-IsFresh ps db s (verdict-ready (stale_products now ps db).0 h))

  pinged-IsFresh :
      (r : Result (Unit {0})) (db : Db)
      → db.tables ≡ t
      → (pinged now r db).0 ≡ ready
      → All (IsFresh now t) t.products
  unfolding list_products
  pinged-IsFresh (err e) db s h = absurd (cc h)
  pinged-IsFresh (ok _) db s h =
      listed-IsFresh _ _
        (λ ps e a.
          let k = (query-eq-ok _ db ps e).0 in
          let same : ps ≡ order_by _ t.products =
            sym (ok_injective k) ∙ ap (λ u. order_by (λ x y. text_le x.id y.id) u.products) s in
          All-order_by (IsFresh now t) _ t.products (subst (All (IsFresh now t)) same a))
        (query-Keeps (λ u. u ≡ t) _ db s) h
    where
      ok_injective : {x y : List Product} → ok x ≡ ok y → x ≡ y
      ok_injective {x} {y} e = ground arith

-- When the probe answers that the service is ready, whatever the driver has refused, each enabled
-- product serves a version, and none of these is stale.
pub readiness-IsFresh :
    (now : Time) (db : Db)
    → (readiness now db).0 ≡ ready
    → All (IsFresh now db.tables) db.tables.products
unfolding readiness
readiness-IsFresh now db h =
    pinged-IsFresh now db.tables _ _ (query-Keeps (λ u. u ≡ db.tables) _ db refl) h
