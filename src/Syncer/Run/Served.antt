-- ===== src/Syncer/Run/Served.antt =====
-- Which version is served after a synchronisation.
use distri_max.Db.Schema.{Product, ProductVersion}
use distri_max.Db.Sql.{first_where}
use distri_max.Db.Versions.{has_id, is_served}
use distri_max.Db.Versions.Committed.{publish-ServesNew}
use distri_max.Db.Versions.Current.{published}
use distri_max.Prelude.{
  ℕ, ◌≡◌, refl, sym, ◌∙◌, ap, subst, List, Option, none, some, Text, length, arith,
}
use distri_max.Storage.{done}
use distri_max.Syncer.Archive.{Item, extracted, extract_mmdb_from_tar_gz}
use distri_max.Syncer.Archive.Extracted.{extract_mmdb_from_tar_gz-IsExtracted}
use distri_max.Syncer.Run.{sync_product, result_of, version_of, version_tag}
use distri_max.Syncer.Run.Endings.{Reached, no_news, news, Published}
use distri_max.Syncer.Run.Safety.{Synced, stops, ends, sync_product-Synced}
use distri_max.Syncer.State.{
  Libraries, Syncer, Process, Moment, SyncResult, Sync, reached, stopped, success, skipped,
}

module _ {W C : Type 0} (lib : Libraries) (s : Syncer W C) (at : Moment)
    (product_id trigger_type : Text) where
  checksum :
      (filename : Text) (archive : Option (List Item)) (content sha256 : Text)
      → extract_mmdb_from_tar_gz lib.clean lib.base lib.sha256_hex filename archive
        ≡ extracted content sha256
      → sha256 ≡ lib.sha256_hex content
  unfolding extract_mmdb_from_tar_gz
  checksum filename none content sha256 h = absurd (cc h)
  checksum filename (some items) content sha256 h =
      (extract_mmdb_from_tar_gz-IsExtracted lib.clean lib.base lib.sha256_hex filename items content
        sha256 h).checksum

  -- The version that is served, and the artifact that it stands for.
  pub record Serving (r : SyncResult) (p p' : Process W C) : Type 0 where
    pub row : ProductVersion
    pub served : first_where (is_served product_id) p'.world.db.tables.versions ≡ some row
    pub version : row.version ≡ r.version
    pub sha256 : row.sha256 ≡ r.sha256
    pub size_bytes : row.size_bytes ≡ r.size_bytes
    pub product : Product
    pub known : first_where (has_id product_id) p.world.db.tables.products ≡ some product
    pub content : Text
    pub checked : r.sha256 ≡ lib.sha256_hex content
    pub sized : r.size_bytes ≡ length content
    pub kept :
        s.storage.store_artifact product_id r.version product.artifact_filename content
          (length content)
          p.world.disk
        ≡ (done row.storage_path, p'.world.disk)

  published_sha256 :
      (v : ProductVersion) (now : ℕ) (o : Option ProductVersion)
      → (published v now o).sha256 ≡ v.sha256
  published_sha256 v now none = refl
  published_sha256 v now (some w) = refl

  published_size :
      (v : ProductVersion) (now : ℕ) (o : Option ProductVersion)
      → (published v now o).size_bytes ≡ v.size_bytes
  published_size v now none = refl
  published_size v now (some w) = refl

  published_path :
      (v : ProductVersion) (now : ℕ) (o : Option ProductVersion)
      → (published v now o).storage_path ≡ v.storage_path
  published_path v now none = refl
  published_path v now (some w) = refl

  pub serving :
      (p p' : Process W C) (w : Published lib s at product_id trigger_type p.world p'.world)
      → Serving
          (result_of lib s at product_id trigger_type success
            (version_tag lib s at product_id trigger_type w.meta w.last_modified)
            w.sha256
            (length w.content))
          p
          p'
  serving p p' w =
      let v =
        version_of lib s at product_id trigger_type
          (version_tag lib s at product_id trigger_type w.meta w.last_modified) w.meta w.content
          w.sha256 w.backend w.path in
      let (o, served, named) =
        publish-ServesNew v w.product.retention_days at.now w.before w.after w.committed in
      record {
        row = published v at.now o;
        served = ap (first_where (is_served product_id)) w.visible ∙ served;
        version = named;
        sha256 = published_sha256 v at.now o;
        size_bytes = published_size v at.now o;
        product = w.product;
        known = w.known;
        content = w.content;
        checked =
            checksum w.product.artifact_filename (lib.read_archive w.body) w.content w.sha256
              w.unpacked;
        sized = refl;
        kept = w.kept ∙ ap (λ path. (done path, p'.world.disk)) (sym (published_path v at.now o));
      }

  -- After a synchronisation that reports success, the product serves the version that is reported:
  -- with the reported checksum and size, which are those of bytes that the storage has taken under
  -- the path of the served row.
  pub sync_product-serves :
      (p : Process W C) (r : SyncResult)
      → (sync_product lib s at product_id trigger_type p).0 ≡ reached r
      → r.status ≡ success
      → Serving r p (sync_product lib s at product_id trigger_type p).1
  sync_product-serves p r e k =
      go (sync_product lib s at product_id trigger_type p)
        (sync_product-Synced lib s at product_id trigger_type p) e
    where
      told :
          (r' : SyncResult) (x : Process W C)
          → Reached lib s at product_id trigger_type p.world r' x.world
          → r' ≡ r
          → Serving r p x
      told r' x (no_news v h _ _ _ _) q =
          absurd (let j : skipped ≡ success = ap (λ y. y.status) (sym h ∙ q) ∙ k in cc j)
      told r' x (news w h) q = subst (λ y. Serving y p x) (sym h ∙ q) (serving p x w)

      go :
          (x : Sync SyncResult × Process W C)
          → Synced lib s at product_id trigger_type p x
          → x.0 ≡ reached r
          → Serving r p x.1
      go x (stops e' h _ _ _) q = absurd (let j : stopped e' ≡ reached r = sym h ∙ q in cc j)
      go x (ends r' h i) q =
          let j : reached r' ≡ reached r = sym h ∙ q in told r' x.1 i (ground arith)
