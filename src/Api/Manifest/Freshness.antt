-- ===== src/Api/Manifest/Freshness.antt =====
-- When a manifest speaks of the version that is downloaded.
use distri_max.Prelude.{
  ◌+◌, ◌-◌, ◌<◌, true, refl, ◌∙◌, ap, ltb, arith, Text, ◌≡◌, ◌≢◌, false, [], none, some, ◌==◌,
  ==_iff, Bool-cases, inl, inr,
}
use distri_max.Api.Http.{Request, json_manifest}
use distri_max.Api.Download.{quoted}
use distri_max.Api.Manifest.{manifest_of, manifest_handler, rollback_days, handle_product_rollback}
use distri_max.Cache
use distri_max.Cache.{ProductManifest, CacheEntry, ManifestCache}
use distri_max.Db.Schema.{Time, Product, ProductVersion, Tables}
use distri_max.Db.Sql.{first_where}
use distri_max.Db.Store.{healthy, query}
use distri_max.Db.Versions.{
  has_id, is_served, is_kept, supersede, promote, promoted, deadline_of, get_product,
  get_current_version,
}
use distri_max.Db.Versions.Rollback.{rollback-eq, served_promoted}

module _ (c : ManifestCache) (now : Time) (r : Request) where
  given : r.product ≢ [] → (r.product == []) ≡ false
  given h = elim (Bool-cases (r.product == [])) [
    | inl e ↦ absurd (h ((==_iff _ _).0 e))
    | inr e ↦ e
  ]

  -- With nothing in the cache for it, a product that serves a version is answered with the manifest
  -- of that version, which is then cached, if the driver refuses nothing.
  pub manifest_handler-current :
      (t : Tables) (p : Product) (v : ProductVersion)
      → r.product ≢ []
      → Cache.get c r.product now ≡ none
      → first_where (has_id r.product) t.products ≡ some p
      → first_where (is_served r.product) t.versions ≡ some v
      → (manifest_handler c now r (healthy t)).0 ≡ (
        json_manifest (quoted v.sha256) (manifest_of p v),
        Cache.set c r.product (manifest_of p v) now,
      )
  unfolding manifest_handler get_product get_current_version query
  manifest_handler-current t p v h miss ep ev = rw (given h, miss, ep, ev)

expired :
    (c : ManifestCache) (id : Text) (e : CacheEntry) (now : Time)
    → c.entries id ≡ some e
    → e.cached_at + c.ttl < now
    → Cache.get c id now ≡ none
unfolding Cache.get
expired c id e now found late =
    let old : ltb c.ttl (now - e.cached_at) ≡ true = ground arith in rw (found, old) refl

-- A rollback in the admin interface, to a version that is kept, shows in the manifest at the latest when
-- what was cached for the product has outlived its time: the answer is then the manifest of that
-- version, with its checksum as the entity tag, if the driver refuses nothing.
pub manifest_handler-rolled_back :
    (c : ManifestCache) (at now : Time) (r : Request) (version : Text) (e : CacheEntry) (t : Tables)
    (p : Product) (w : ProductVersion)
    → r.product ≢ []
    → c.entries r.product ≡ some e
    → e.cached_at + c.ttl < now
    → first_where (has_id r.product) t.products ≡ some p
    → first_where (is_kept r.product version) t.versions ≡ some w
    → (manifest_handler c now r (handle_product_rollback r.product version at (healthy t)).1).0.0
      ≡ json_manifest (quoted w.sha256) (manifest_of p w)
unfolding handle_product_rollback promote supersede
manifest_handler-rolled_back c at now r version e t p w h found late known kept =
    let deadline = deadline_of at rollback_days in
    let back = rollback-eq r.product version rollback_days at t w kept in
    ap (λ x. (manifest_handler c now r x.1).0.0) back
    ∙ ap (λ x. x.0)
        (manifest_handler-current c now r
          (promote r.product version (supersede r.product at deadline t)) p (promoted w) h
          (expired c r.product e now found late) known
          (served_promoted r.product version at deadline t w kept))
