-- ===== src/Syncer/Run/Publishing.antt =====
-- How the publication of a synchronisation ends.
use distri_max.Db.Schema.{Time, Product, ProductVersion}
use distri_max.Db.Settings.{get_setting, read_setting}
use distri_max.Db.Sql.{first_where}
use distri_max.Db.Store.{Result, ok, err, Db}
use distri_max.Db.Store.Rules.{Keeps, exec-Keeps}
use distri_max.Db.Versions.{has_id, with_row_id, supersede, publish_new_version}
use distri_max.Db.Versions.Others.{publish-atomic, publish-Keeps, insert_version-keeps}
use distri_max.Prelude.{
  ℕ, ◌≡◌, refl, sym, ◌∙◌, ap, true, [], subst, Option, some, Text, lit, length,
}
use distri_max.Storage.{Outcome, done, fail}
use distri_max.Syncer.Archive.{extracted, extract_mmdb_from_tar_gz}
use distri_max.Syncer.Maxmind.{downloaded, download_database}
use distri_max.Syncer.Run.{
  record_sync_run, version_tag, since, stored_path, version_of, publication, called_back, notify,
  result_of, publish,
}
use distri_max.Syncer.State.{Libraries, Syncer, World, Moment, success, SyncResult, on_db}
use distri_max.Syncer.Validator.{MmdbMetadata, valid, validate_mmdb}
use distri_max.Syncer.Run.Endings.{
  Ends, continue-Ends, insert_sync_run-versions, Same, Unstored, Reached, news, read-Unstored,
  failing-Ends,
}

module _ {W C : Type 0} (lib : Libraries) (s : Syncer W C) (at : Moment)
    (product_id trigger_type : Text) (start : World W C) where
  abbrev Unchanged : World W C → Type 0
  Unchanged = Same lib s at product_id trigger_type start

  abbrev Untouched : World W C → Type 0
  Untouched = Unstored lib s at product_id trigger_type start

  abbrev Finished : SyncResult → World W C → Type 0
  Finished = Reached lib s at product_id trigger_type start

  module _ (p : Product) (account_id license_key : Text) (current : Option ProductVersion)
      (body : Text) (last_modified : Time) (meta : MmdbMetadata) (content sha256 : Text)
      (known : first_where (has_id product_id) start.db.tables.products ≡ some p)
      (enabled : p.is_enabled ≡ true)
      (received : download_database lib.send lib.path_escape lib.format_http lib.parse_http
          s.maxmind account_id license_key p.edition_id
          (since lib s at product_id trigger_type current)
          at.now
        ≡ downloaded body last_modified)
      (unpacked : extract_mmdb_from_tar_gz lib.clean lib.base lib.sha256_hex p.artifact_filename
          (lib.read_archive body)
        ≡ extracted content sha256)
      (validated : validate_mmdb lib.from_bytes lib.unix content p.edition_id ≡ valid meta) where
    abbrev tag : Text
    tag = version_tag lib s at product_id trigger_type meta last_modified

    abbrev row : Text → Text → ProductVersion
    row backend path =
        version_of lib s at product_id trigger_type tag meta content sha256 backend path

    abbrev Kept : Outcome Text → World W C → Type 0
    Kept r w =
        s.storage.store_artifact product_id tag p.artifact_filename content (length content)
          start.disk
        ≡ (r, w.disk)

    stored_path-Ends :
        (r : Outcome Text) (w : World W C)
        → Unchanged w × Kept r w
        → Ends Unchanged
            (λ path w'. Unchanged w' × Kept (done path) w')
            (stored_path lib s at product_id trigger_type tag r w)
    unfolding Ends
    stored_path-Ends (fail e) w h =
        failing-Ends lib s at product_id trigger_type start
          (λ path w'. Unchanged w' × Kept (done path) w') tag _ w h.0
    stored_path-Ends (done path) w h = h

    -- What the publication leaves: nothing if it has failed.
    abbrev Committed : Text → Text → Result (Unit {0}) → World W C → Type 0
    Committed backend path (err e) w = Unchanged w
    Committed backend path (ok _) w =
        (before : Db) × (before.tables.versions ≡ start.db.tables.versions)
        × (before.tables.products ≡ start.db.tables.products)
        × (publish_new_version (row backend path) p.retention_days at.now before ≡ (ok tt, w.db))
        × (w.callbacks ≡ start.callbacks)
        × Kept (done path) w

    publish-Committed :
        (backend path : Text) (w : World W C)
        → Unchanged w × Kept (done path) w
        → Committed backend path
            (publish_new_version (row backend path) p.retention_days at.now w.db).0
            (on_db (publish_new_version (row backend path) p.retention_days at.now) w).1
    publish-Committed backend path w h =
        go (publish_new_version (row backend path) p.retention_days at.now w.db) refl
      where
        go :
            (x : Result (Unit {0}) × Db)
            → publish_new_version (row backend path) p.retention_days at.now w.db ≡ x
            → Committed backend path x.0 (record w { db = x.1 })
        go (err e, db) q =
            let k =
              publish-atomic (row backend path) p.retention_days at.now w.db e (ap (λ y. y.0) q) in
            let t : db.tables ≡ w.db.tables = ap (λ y. y.1.tables) (sym q) ∙ k in
            record {
              versions = ap (λ t. t.versions) t ∙ h.0.versions;
              products = ap (λ t. t.products) t ∙ h.0.products;
              callbacks = h.0.callbacks;
            }
        go (ok _, db) q = (w.db, h.0.versions, h.0.products, q, h.0.callbacks, h.1)

    publication-Ends :
        (backend path : Text) (r : Result (Unit {0})) (w : World W C)
        → Committed backend path r w
        → Ends Unchanged
            (λ _. Committed backend path (ok tt))
            (publication lib s at product_id trigger_type tag r w)
    unfolding Ends
    publication-Ends backend path (err e) w h =
        failing-Ends lib s at product_id trigger_type start {A = Unit}
          (λ _. Committed backend path (ok tt)) tag _ w h
    publication-Ends backend path (ok _) w h = h

    products-Keeps :
        (v : ProductVersion) (days : ℕ)
        → Keeps (λ t. t.products ≡ start.db.tables.products) (publish_new_version v days at.now)
    unfolding supersede
    products-Keeps v days =
        publish-Keeps (λ t. t.products ≡ start.db.tables.products) v days at.now (λ t h. h)
          (λ t h. insert_version-keeps (λ t. t.products ≡ start.db.tables.products) v at.now t h h)

    told-Ends :
        (backend path : Text) (w : World W C)
        → Committed backend path (ok tt) w
        → Finished
            (result_of lib s at product_id trigger_type success tag sha256 (length content))
            (record_sync_run lib s at product_id trigger_type
              (lit "SUCCESS")
              tag
              []
              (notify lib s at product_id trigger_type (with_row_id (row backend path)) w).1).1
    told-Ends backend path w (before, v, ps, q, c, k) =
        news
          (record {
            product = p;
            account_id = account_id;
            license_key = license_key;
            current = current;
            body = body;
            last_modified = last_modified;
            received = received;
            content = content;
            sha256 = sha256;
            meta = meta;
            backend = backend;
            path = path;
            before = before;
            after = w.db;
            known = known;
            enabled = enabled;
            unpacked = unpacked;
            validated = validated;
            kept = k;
            untouched = v;
            same_products = ps;
            committed = q;
            catalogue =
                exec-Keeps (λ t. t.products ≡ start.db.tables.products) _
                  (λ t h. insert_sync_run-versions _ _ t (λ _ x. x) h) w.db
                  (subst (λ y. y.1.tables.products ≡ start.db.tables.products) q
                    (products-Keeps (row backend path) p.retention_days before ps));
            visible =
                exec-Keeps (λ t. t.versions ≡ w.db.tables.versions) _
                  (λ t h. insert_sync_run-versions _ _ t (λ _ x. x) h) w.db refl;
            told =
                ap
                  (called_back lib s at product_id trigger_type s.on_publish
                    (with_row_id (row backend path)))
                  c;
          })
          refl

    pub published-Ends :
        (w : World W C)
        → Untouched w
        → Ends Unchanged Finished
            (publish lib s at product_id trigger_type p meta tag content sha256 w)
    unfolding get_setting Ends
    published-Ends w h =
        let h1 =
          read-Unstored lib s at product_id trigger_type start
            (read_setting (lit "storage_backend")) w h in
        let k =
          ap
            (λ d.
              s.storage.store_artifact product_id tag p.artifact_filename content (length content)
                d)
            (sym h1.1) in
        continue-Ends Unchanged (λ path w'. Unchanged w' × Kept (done path) w') Finished _ _
          (stored_path-Ends _ _ (
            record {
              versions = h1.0.versions;
              products = h1.0.products;
              callbacks = h1.0.callbacks;
            },
            k,
          ))
          λ path w3 h3.
            continue-Ends Unchanged (λ _. Committed _ path (ok tt)) Finished _ _
              (publication-Ends _ path _ _ (publish-Committed _ path w3 h3))
              λ _ w5 h5. told-Ends _ path w5 h5
