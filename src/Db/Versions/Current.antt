-- ===== src/Db/Versions/Current.antt =====
-- Which version a product serves after a publication, a rollback, and what the others keep.
use mathlib.Core.Option
use distri_max.Prelude.{
  Bool, ◌≡◌, refl, ◌∙◌, ap, true, false, List, [], ◌∷◌, ◌++◌, Option, none, some, Text, ==-refl,
  if◌then◌else◌, arith,
}
use distri_max.Db.Schema.{Time, ProductVersion, Tables}
use distri_max.Db.Sql.{
  count_where, first_where, update_where, first_where-update_new, first_where-update_same,
  first_where-append, first_where_of_count, count_where_mono, count_where-update_zero,
}
use distri_max.Db.Store.{Result, ok, Db, query, healthy}
use distri_max.Db.Versions.{
  is_some, has_id, is_current_of, is_served, has_key, has_row_id, demoted, supersede, replaced,
  inserted, row_id, get_current_version,
}

-- The row of a published version: a new one, or the old row of its key, renewed.
abbrev pub published : ProductVersion → Time → Option ProductVersion → ProductVersion
published v now none = inserted v now
published v now (some old) = replaced v old

module _ (p : Text) (now deadline : Time) (xs : List ProductVersion) where
  pub vacated :
      count_where (is_current_of p) (update_where (is_current_of p) (demoted now deadline) xs) ≡ 0
  unfolding is_current_of
  vacated = count_where-update_zero _ _ _ xs (λ x _. ground arith) (λ x h. h)

  pub unserved :
      count_where (is_served p) (update_where (is_current_of p) (demoted now deadline) xs) ≡ 0
  unfolding is_current_of is_served
  unserved = omega (
    arith,
    vacated,
    count_where_mono (is_served p) (is_current_of p)
        (update_where (is_current_of p) (demoted now deadline) xs) (λ x h. ground arith),
  )

pub get_current-eq :
    (p : Text) (t : Tables) (w : ProductVersion)
    → first_where (is_served p) t.versions ≡ some w
    → (get_current_version p (healthy t)).0 ≡ ok w
unfolding get_current_version query
get_current-eq p t w e = rw e

-- The rows that may be published over: those of a product in the catalogue whose row id is free,
-- or that are there already.
pub data Admits (v : ProductVersion) (t : Tables) : Option ProductVersion → Type 0 where
  old :
      {w : ProductVersion}
      → first_where (has_key v.product_id v.version) t.versions ≡ some w
      → Admits v t (some w)
  new :
      first_where (has_key v.product_id v.version) t.versions ≡ none
      → first_where (has_row_id (row_id v.product_id v.version)) t.versions ≡ none
      → is_some (first_where (has_id v.product_id) t.products) ≡ true
      → Admits v t none

module _ (v : ProductVersion) (now deadline : Time) (t : Tables) where
  pub key_kept :
      first_where (has_key v.product_id v.version) (supersede v.product_id now deadline t).versions
      ≡ Option.map
          (λ x. if is_current_of v.product_id x then demoted now deadline x else x)
          (first_where (has_key v.product_id v.version) t.versions)
  unfolding supersede has_key
  key_kept = first_where-update_same _ _ _ t.versions (λ x. refl)

  abbrev pub renewed : Tables
  renewed =
      let s = supersede v.product_id now deadline t in
      record s { versions = update_where (has_key v.product_id v.version) (replaced v) s.versions }

  abbrev pub extended : Tables
  extended =
      let s = supersede v.product_id now deadline t in
      record s { versions = s.versions ++ inserted v now ∷ [] }

  first_inserted :
      first_where (is_served v.product_id) (inserted v now ∷ []) ≡ some (inserted v now)
  unfolding is_served first_where
  first_inserted = rw (==-refl v.product_id)

  -- What a renewal sets covers what the demotion has set before.
  replaced-touched :
      (b : Bool) (w : ProductVersion)
      → replaced v (if b then demoted now deadline w else w) ≡ replaced v w
  replaced-touched true w = refl
  replaced-touched false w = refl

  pub served_old :
      {w : ProductVersion}
      → first_where (has_key v.product_id v.version) t.versions ≡ some w
      → first_where (is_served v.product_id) renewed.versions ≡ some (replaced v w)
  unfolding is_served has_key supersede
  served_old {w} e =
      first_where-update_new _ (has_key v.product_id v.version) (has_key v.product_id v.version)
        (replaced v) (supersede v.product_id now deadline t).versions (λ x h. ground arith)
        (λ x h. h) (unserved v.product_id now deadline t.versions)
      ∙ ap (Option.map (replaced v)) (key_kept ∙ ap (Option.map _) e)
      ∙ ap some (replaced-touched (is_current_of v.product_id w) w)

  pub served_new : first_where (is_served v.product_id) extended.versions ≡ some (inserted v now)
  unfolding supersede
  served_new =
      first_where-append (is_served v.product_id) _ (inserted v now ∷ [])
        (first_where_of_count _ _ (unserved v.product_id now deadline t.versions))
      ∙ first_inserted

pub serves :
    (p : Text) (x : Result (Unit {0}) × Db) (t : Tables) (w : ProductVersion)
    → x ≡ (ok tt, healthy t)
    → first_where (is_served p) t.versions ≡ some w
    → (x.0 ≡ ok tt) × ((get_current_version p x.1).0 ≡ ok w)
serves p x t w e h = (ap (λ y. y.0) e, rw e (get_current-eq p t w h))
