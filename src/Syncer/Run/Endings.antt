-- ===== src/Syncer/Run/Endings.antt =====
-- How a synchronisation ends, whatever the driver refuses and whatever the libraries answer.
use distri_max.Auth.Crypto.{Crypto, result, failure}
use distri_max.Db.Schema.{Time, Product, ProductVersion, SyncRun, Tables}
use distri_max.Db.Sql.{first_where}
use distri_max.Db.Store.{product_not_found, Result, ok, err, Db, query}
use distri_max.Db.Store.Rules.{Holds, exec-Keeps, query-Keeps, query-eq-ok}
use distri_max.Db.Versions.{
  is_some, has_id, found-eq-ok, with_row_id, get_product, publish_new_version,
}
use distri_max.Prelude.{
  ◌≡◌, refl, Bool, true, false, inl, inr, ◌&&◌, [], subst, Option, none, some, Text, lit, ◌==◌, eqb,
  length, if◌then◌else◌, Bool-cases,
}
use distri_max.Storage.{done}
use distri_max.Syncer.Maxmind.{downloaded, download_database}
use distri_max.Syncer.Archive.{extracted, extract_mmdb_from_tar_gz}
use distri_max.Syncer.Run.{
  record_sync_run, failing, loaded, configured, decrypted, license_of, version_of, called_back,
  result_of, skip, since, version_tag,
}
use distri_max.Syncer.State.{
  SyncError, Libraries, Syncer, World, Moment, success, skipped, SyncResult, Sync, reached, stopped,
  insert_sync_run, S, continue, on_db,
}
use distri_max.Syncer.Validator.{MmdbMetadata, valid, validate_mmdb}

module _ {W C : Type 0} (I : World W C → Type 0) where
  -- What holds of the state after a step: `I` if it has stopped, `P` of what it has reached else.
  unfoldable pub Ends : {A : Type 0} → (A → World W C → Type 0) → Sync A × World W C → Type 0
  Ends P (reached a, w) = P a w
  Ends P (stopped e, w) = I w

  pub continue-Ends :
      {A B : Type 0} (P : A → World W C → Type 0) (Q : B → World W C → Type 0)
      (x : Sync A × World W C) (f : A → S W C B)
      → Ends P x
      → ((a : A) (w : World W C) → P a w → Ends Q (f a w))
      → Ends Q (continue x f)
  unfolding Ends
  continue-Ends P Q (reached a, w) f h k = k a w h
  continue-Ends P Q (stopped e, w) f h k = h

  pub if-Ends :
      {A : Type 0} (P : A → World W C → Type 0) (b : Bool) (f g : S W C A) (w : World W C)
      → (b ≡ true → Ends P (f w))
      → (b ≡ false → Ends P (g w))
      → Ends P ((if b then f else g) w)
  unfolding Ends
  if-Ends P true f g w h k = h refl
  if-Ends P false f g w h k = k refl

pub insert_sync_run-versions :
    (P : Tables → Type 0) (r : SyncRun) (t : Tables)
    → ((runs : _) → P t → P (record t { sync_runs = runs }))
    → P t
    → Holds P (insert_sync_run r t)
unfolding insert_sync_run
insert_sync_run-versions P r t h p =
    elim (Bool-cases (is_some (first_where (λ s. s.id == r.id) t.sync_runs))) [
      | inl clash ↦ rw clash tt
      | inr free ↦ elim (Bool-cases (is_some (first_where (has_id r.product_id) t.products))) [
        | inl known ↦ rw (free, known) (h _ p)
        | inr unknown ↦ rw (free, unknown) tt
      ]
    ]

module _ {W C : Type 0} (lib : Libraries) (s : Syncer W C) (at : Moment)
    (product_id trigger_type : Text) (start : World W C) where
  -- What the clients see is as at the start.
  pub record Same (w : World W C) : Type 0 where
    pub versions : w.db.tables.versions ≡ start.db.tables.versions
    pub products : w.db.tables.products ≡ start.db.tables.products
    pub callbacks : w.callbacks ≡ start.callbacks

  abbrev pub Unstored : World W C → Type 0
  Unstored w = Same w × (w.disk ≡ start.disk)

  -- The version that a run has published, and how it has come to it.
  pub record Published (w : World W C) : Type 0 where
    pub product : Product
    -- The answer of upstream, and the time that it names.
    pub account_id : Text
    pub license_key : Text
    pub current : Option ProductVersion
    pub body : Text
    pub last_modified : Time
    pub content : Text
    pub sha256 : Text
    pub meta : MmdbMetadata
    pub backend : Text
    pub path : Text
    pub before : Db
    pub after : Db
    -- The product is in the catalogue, and enabled.
    pub known : first_where (has_id product_id) start.db.tables.products ≡ some product
    pub enabled : product.is_enabled ≡ true
    pub received :
        download_database lib.send lib.path_escape lib.format_http lib.parse_http s.maxmind
          account_id license_key product.edition_id
          (since lib s at product_id trigger_type current)
          at.now
        ≡ downloaded body last_modified
    -- The bytes are those of the archive in the answer, and a valid database of the product's edition.
    pub unpacked :
        extract_mmdb_from_tar_gz lib.clean lib.base lib.sha256_hex product.artifact_filename
          (lib.read_archive body)
        ≡ extracted content sha256
    pub validated : validate_mmdb lib.from_bytes lib.unix content product.edition_id ≡ valid meta
    -- They have been stored, and their version published, with the callback told.
    pub kept :
        s.storage.store_artifact product_id
          (version_tag lib s at product_id trigger_type meta last_modified)
          product.artifact_filename
          content
          (length content)
          start.disk
        ≡ (done path, w.disk)
    pub untouched : before.tables.versions ≡ start.db.tables.versions
    pub same_products : before.tables.products ≡ start.db.tables.products
    pub committed :
        publish_new_version
          (version_of lib s at product_id trigger_type
            (version_tag lib s at product_id trigger_type meta last_modified)
            meta
            content
            sha256
            backend
            path)
          product.retention_days
          at.now
          before
        ≡ (ok tt, after)
    pub catalogue : w.db.tables.products ≡ start.db.tables.products
    pub visible : w.db.tables.versions ≡ after.tables.versions
    pub told :
        w.callbacks
        ≡ called_back lib s at product_id trigger_type s.on_publish
            (with_row_id (
              version_of lib s at product_id trigger_type
                (version_tag lib s at product_id trigger_type meta last_modified)
                meta
                content
                sha256
                backend
                path))
            start.callbacks

  pub recorded-Same :
      (status version message : Text) (w : World W C)
      → Same w
      → Same (record_sync_run lib s at product_id trigger_type status version message w).1
  recorded-Same status version message w h =
      let k =
        exec-Keeps
          (λ t. (t.versions ≡ start.db.tables.versions) × (t.products ≡ start.db.tables.products)) _
          (λ t p. insert_sync_run-versions _ _ t (λ _ q. q) p) w.db (h.versions, h.products) in
      record { versions = k.0; products = k.1; callbacks = h.callbacks }

  -- A statement that only reads.
  pub read-Unstored :
      {A : Type 0} (read : Tables → Result A) (w : World W C)
      → Unstored w
      → Unstored (on_db (query read) w).1
  read-Unstored read w h =
      let k =
        query-Keeps
          (λ t. (t.versions ≡ start.db.tables.versions) × (t.products ≡ start.db.tables.products))
          read w.db (h.0.versions, h.0.products) in
      (record { versions = k.0; products = k.1; callbacks = h.0.callbacks }, h.1)

  abbrev pub Known : Result Product → Type 0
  Known r =
      (p : Product) → r ≡ ok p → first_where (has_id product_id) start.db.tables.products ≡ some p

  -- The query for the product tells which one it is.
  pub get_product-Known : (w : World W C) → Unstored w → Known (get_product product_id w.db).0
  unfolding get_product
  get_product-Known w h p e =
      subst (λ ps. first_where (has_id product_id) ps ≡ some p) h.0.products
        (found-eq-ok product_not_found _ p (query-eq-ok _ w.db p e).0)

  pub loaded-Ends :
      (r : Result Product) (w : World W C)
      → Unstored w × Known r
      → Ends Same
          (λ p w'.
            Unstored w'
            × (first_where (has_id product_id) start.db.tables.products ≡ some p)
            × (p.is_enabled ≡ true))
          (loaded lib s at product_id trigger_type r w)
  unfolding Ends
  loaded-Ends (err e) w h = h.0.0
  loaded-Ends (ok p) w h =
      if-Ends Same _ p.is_enabled _ _ w (λ on. (h.0, h.1 p refl, on)) (λ off. h.0.0)

  pub configured-Ends :
      (e : SyncError) (r : Result (Text × Bool)) (w : World W C)
      → Unstored w
      → Ends Same (λ _. Unstored) (configured lib s at product_id trigger_type e r w)
  unfolding Ends
  configured-Ends e (err e') w h = h.0
  configured-Ends e (ok (val, enc)) w h = if-Ends Same _ (val == []) _ _ w (λ _. h.0) (λ _. h)

  pub decrypted-Ends :
      (r : Crypto Text) (w : World W C)
      → Unstored w
      → Ends Same (λ _. Unstored) (decrypted lib s at product_id trigger_type r w)
  unfolding Ends
  decrypted-Ends (failure e) w h = h.0
  decrypted-Ends (result p) w h = h

  pub license-Ends :
      (license : Text × Bool) (w : World W C)
      → Unstored w
      → Ends Same (λ _. Unstored) (license_of lib s at product_id trigger_type license w)
  unfolding Ends
  license-Ends (val, enc) w h =
      if-Ends Same _ (enc && eqb (length s.encryption_key) 32) _ _ w (λ _. decrypted-Ends _ w h)
        (λ _. h)

  pub failing-Ends :
      {A : Type 0} (Q : A → World W C → Type 0) (tag : Text) (e : SyncError) (w : World W C)
      → Same w
      → Ends Same Q (failing lib s at product_id trigger_type tag e w)
  unfolding Ends
  failing-Ends Q tag e w h = recorded-Same _ tag _ w h

  -- How a run ends that reaches its end: without news, or with a published version.
  pub data Reached : SyncResult → World W C → Type 0 where
    no_news :
        {r : SyncResult} {w : World W C} (v : ProductVersion)
        → r ≡ result_of lib s at product_id trigger_type skipped v.version [] 0
        → w.db.tables.versions ≡ start.db.tables.versions
        → w.db.tables.products ≡ start.db.tables.products
        → w.callbacks ≡ start.callbacks
        → w.disk ≡ start.disk
        → Reached r w
    news :
        {r : SyncResult} {w : World W C} (p : Published w)
        → r
          ≡ result_of lib s at product_id trigger_type success
              (version_tag lib s at product_id trigger_type p.meta p.last_modified)
              p.sha256
              (length p.content)
        → Reached r w

  pub skip-Ends :
      (current : Option ProductVersion) (w : World W C)
      → Unstored w
      → Ends Same Reached (skip lib s at product_id trigger_type current w)
  unfolding Ends
  skip-Ends none w h = h.0
  skip-Ends (some v) w h =
      let k = recorded-Same (lit "SKIPPED") v.version [] w h.0 in
      no_news v refl k.versions k.products k.callbacks h.1
