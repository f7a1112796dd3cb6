-- ===== src/Program/Fresh.antt =====
-- What the clients read after a synchronisation.
use distri_max.Api.Download.{quoted}
use distri_max.Api.Http.{Request, json_manifest}
use distri_max.Api.Manifest.{manifest_of, manifest_handler}
use distri_max.Api.Manifest.Freshness.{manifest_handler-current}
use distri_max.Cache
use distri_max.Cache.{ManifestCache}
use distri_max.Db.Schema.{Time, Product, ProductVersion}
use distri_max.Db.Sql.{first_where}
use distri_max.Db.Store.{healthy}
use distri_max.Db.Versions.{with_row_id, is_served}
use distri_max.Prelude.{◌≡◌, ◌≢◌, refl, sym, ◌∙◌, ap, subst, [], none, some, Text, ==-refl, arith}
use distri_max.Program.{Callbacks, on_publish}
use distri_max.Syncer.Run.{sync_product, called_back, version_of, version_tag}
use distri_max.Syncer.Run.Endings.{Reached, no_news, news, Published}
use distri_max.Syncer.Run.Safety.{Synced, stops, ends, sync_product-Synced}
use distri_max.Syncer.Run.Served.{serving}
use distri_max.Syncer.State.{
  Libraries, Syncer, Process, Moment, SyncResult, Sync, reached, stopped, success, skipped,
}

module _ {W : Type 0} (lib : Libraries) (s : Syncer W Callbacks) (at : Moment)
    (product_id trigger_type : Text) (wired : s.on_publish ≡ some on_publish) where
  forgotten :
      (c : ManifestCache) (now : Time)
      → Cache.get (Cache.invalidate c product_id) product_id now ≡ none
  unfolding Cache.get Cache.invalidate
  forgotten c now = rw (==-refl product_id) refl

  missed :
      (p p' : Process W Callbacks) (w : Published lib s at product_id trigger_type p.world p'.world)
      (now : Time)
      → Cache.get p'.world.callbacks.manifest_cache product_id now ≡ none
  unfolding on_publish
  missed p p' w now =
      ap (λ c. Cache.get c.manifest_cache product_id now)
        (subst
          (λ f.
            p'.world.callbacks
            ≡ called_back lib s at product_id trigger_type f
                (with_row_id (
                  version_of lib s at product_id trigger_type
                    (version_tag lib s at product_id trigger_type w.meta w.last_modified) w.meta
                    w.content w.sha256 w.backend w.path))
                p.world.callbacks)
          wired w.told)
      ∙ forgotten p.world.callbacks.manifest_cache now

  -- The manifest that is answered speaks of the row that is served, and this of the result.
  abbrev pub Answers : Request → Time → SyncResult → Process W Callbacks → Type 0
  Answers q now r x =
      (product : Product) × (row : ProductVersion) × (first_where (is_served product_id)
          x.world.db.tables.versions
        ≡ some row)
      × (row.version ≡ r.version)
      × (row.sha256 ≡ r.sha256)
      × ((manifest_handler x.world.callbacks.manifest_cache now q (healthy x.world.db.tables)).0.0
          ≡ json_manifest (quoted r.sha256) (manifest_of product row))

  -- After a synchronisation that reports success, the manifest of the product speaks of the version
  -- that was reported, whatever was cached before, if the driver refuses none of the manifest's
  -- queries.
  pub sync_product-manifest :
      (p : Process W Callbacks) (r : SyncResult) (q : Request) (now : Time)
      → q.product ≡ product_id
      → product_id ≢ []
      → (sync_product lib s at product_id trigger_type p).0 ≡ reached r
      → r.status ≡ success
      → Answers q now r (sync_product lib s at product_id trigger_type p).1
  sync_product-manifest p r q now same ne e k =
      go (sync_product lib s at product_id trigger_type p)
        (sync_product-Synced lib s at product_id trigger_type p) e
    where
      told :
          (r' : SyncResult) (x : Process W Callbacks)
          → Reached lib s at product_id trigger_type p.world r' x.world
          → r' ≡ r
          → Answers q now r x
      told r' x (no_news v h _ _ _ _) j =
          absurd (let j : skipped ≡ success = ap (λ y. y.status) (sym h ∙ j) ∙ k in cc j)
      told r' x (news w h) j =
          let v = serving lib s at product_id trigger_type p x w in
          subst (λ y. Answers q now y x) (sym h ∙ j)
            (
              w.product,
              v.row,
              v.served,
              v.version,
              v.sha256,
              ap (λ y. y.0)
                    (manifest_handler-current x.world.callbacks.manifest_cache now q
                      x.world.db.tables w.product v.row (λ n. ne (sym same ∙ n))
                      (ap (λ id. Cache.get x.world.callbacks.manifest_cache id now) same
                        ∙ missed p x w now)
                      (rw (same, w.catalogue) w.known) (rw same v.served))
                  ∙ ap (λ t. json_manifest (quoted t) (manifest_of w.product v.row)) v.sha256,
            )

      go :
          (x : Sync SyncResult × Process W Callbacks)
          → Synced lib s at product_id trigger_type p x
          → x.0 ≡ reached r
          → Answers q now r x.1
      go x (stops e' h _ _ _) j = absurd (let j : stopped e' ≡ reached r = sym h ∙ j in cc j)
      go x (ends r' h i) j =
          let j : reached r' ≡ reached r = sym h ∙ j in told r' x.1 i (ground arith)
