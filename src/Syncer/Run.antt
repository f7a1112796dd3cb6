-- ===== src/Syncer/Run.antt =====
-- internal/syncer/syncer.go. A run takes the lock of its product without waiting, and gives it back
-- whichever way it ends.
pub mod Endings
pub mod Fetching
pub mod Kept
pub mod Publishing
pub mod Safety
pub mod Served
use distri_max.Auth.Crypto.{Crypto, result, failure, decrypt}
use distri_max.Db.Schema.{Time, Product, ProductVersion, SyncRun}
use distri_max.Db.Settings.{get_setting}
use distri_max.Db.Store.{Result, ok, err, exec}
use distri_max.Db.Versions.{with_row_id, get_product, get_current_version, publish_new_version}
use distri_max.Prelude.{
  ℕ, Bool, true, false, ◌&&◌, [], Option, none, some, Text, lit, ◌==◌, eqb, length, if◌then◌else◌,
}
use distri_max.Storage.{Outcome, done, fail}
use distri_max.Syncer.Archive.{Extraction, extracted, failed, extract_mmdb_from_tar_gz}
use distri_max.Syncer.Maxmind.{Download, refused, unmodified, downloaded, download_database}
use distri_max.Syncer.State.{
  SyncError, sync_in_progress, product_disabled, account_not_configured, license_not_configured,
  license_not_decrypted, nil_dereference, product_not_loaded, not_published, upstream_failed,
  not_extracted, not_valid, not_stored, Libraries, Syncer, World, Process, Moment, Status, success,
  skipped, SyncResult, Sync, reached, stopped, insert_sync_run, S, ◌>>=◌, ◌>>◌, pure, stop, on_db,
}
use distri_max.Syncer.Validator.{MmdbMetadata, Validation, valid, invalid, validate_mmdb}

module _ {W C : Type 0} (lib : Libraries) (s : Syncer W C) (at : Moment)
    (product_id trigger_type : Text) where
  abbrev pub run_of : Text → Text → Text → SyncRun
  run_of status version error_message = record {
    id = at.run_id;
    product_id = product_id;
    status = status;
    trigger_type = trigger_type;
    version_discovered = version;
    duration_ms = at.duration_ms;
    error_message = error_message;
    created_at = at.now;
  }

  -- The error of the statement is ignored.
  abbrev pub record_sync_run : Text → Text → Text → S W C (Unit {0})
  record_sync_run status version error_message w = (
    reached tt,
    record w { db = (exec (insert_sync_run (run_of status version error_message)) w.db).1 },
  )

  abbrev pub failing : {A : Type 0} → Text → SyncError → S W C A
  failing version e = record_sync_run (lit "FAILED") version (lib.message e) >> stop e

  abbrev pub loaded : Result Product → S W C Product
  loaded (err e) = stop (product_not_loaded e)
  loaded (ok p) = if p.is_enabled then pure p else stop product_disabled

  abbrev pub configured : SyncError → Result (Text × Bool) → S W C (Text × Bool)
  configured e (err _) = stop e
  configured e (ok (val, is_encrypted)) = if val == [] then stop e else pure (val, is_encrypted)

  abbrev pub decrypted : Crypto Text → S W C Text
  decrypted (failure e) = stop license_not_decrypted
  decrypted (result plaintext) = pure plaintext

  abbrev pub license_of : Text × Bool → S W C Text
  license_of (val, is_encrypted) =
      if is_encrypted && eqb (length s.encryption_key) 32
      then decrypted (decrypt lib.unbase64 lib.unseal lib.nonce_size val s.encryption_key)
      else pure val

  abbrev pub current_of : Result ProductVersion → Option ProductVersion
  current_of (err e) = none
  current_of (ok v) = some v

  abbrev pub since : Option ProductVersion → Option Time
  since none = none
  since (some v) = some v.released_at

  abbrev pub extraction : Extraction → S W C (Text × Text)
  extraction (failed e) = failing [] (not_extracted e)
  extraction (extracted content sha256) = pure (content, sha256)

  abbrev pub validation : Validation → S W C MmdbMetadata
  validation (invalid e) = failing [] (not_valid e)
  validation (valid meta) = pure meta

  abbrev pub version_tag : MmdbMetadata → Time → Text
  version_tag meta last_modified =
      if lib.format_date meta.build_epoch == []
      then lib.format_date last_modified
      else lib.format_date meta.build_epoch

  -- The setting's value, with its default; an error reads as no value.
  abbrev pub backend_name : Result (Text × Bool) → Text
  backend_name (err e) = lit "filesystem"
  backend_name (ok (val, is_encrypted)) = if val == [] then lit "filesystem" else val

  abbrev pub stored : Text → Product → Text → S W C (Outcome Text)
  stored tag p content w =
      let (r, disk) =
        s.storage.store_artifact product_id tag p.artifact_filename content (length content)
          w.disk in
      (reached r, record w { disk = disk })

  abbrev pub stored_path : Text → Outcome Text → S W C Text
  stored_path tag (fail e) = failing tag (not_stored e)
  stored_path tag (done path) = pure path

  -- The columns that a publication sets itself are left at Go's zero values.
  abbrev pub version_of : Text → MmdbMetadata → Text → Text → Text → Text → ProductVersion
  version_of tag meta content sha256 backend path = record {
    id = [];
    product_id = product_id;
    version = tag;
    released_at = meta.build_epoch;
    sha256 = sha256;
    size_bytes = length content;
    storage_backend = backend;
    storage_path = path;
    is_current = false;
    superseded_at = none;
    cleanup_deadline = none;
    is_deleted = false;
    created_at = 0;
  }

  abbrev pub publication : Text → Result (Unit {0}) → S W C (Unit {0})
  publication tag (err e) = failing tag (not_published e)
  publication tag (ok _) = pure tt

  abbrev pub called_back : Option (ProductVersion → C → C) → ProductVersion → C → C
  called_back none v c = c
  called_back (some f) v c = f v c

  abbrev pub notify : ProductVersion → S W C (Unit {0})
  notify v w = (reached tt, record w { callbacks = called_back s.on_publish v w.callbacks })

  abbrev pub result_of : Status → Text → Text → ℕ → SyncResult
  result_of status tag sha256 size = record {
    product_id = product_id;
    version = tag;
    status = status;
    duration_ms = at.duration_ms;
    sha256 = sha256;
    size_bytes = size;
  }

  -- "Not modified", for which the current version is looked at whether there is one or not.
  abbrev pub skip : Option ProductVersion → S W C SyncResult
  skip none = stop nil_dereference
  skip (some v) =
      record_sync_run (lit "SKIPPED") v.version [] >> pure (result_of skipped v.version [] 0)

  abbrev pub publish : Product → MmdbMetadata → Text → Text → Text → S W C SyncResult
  publish p meta tag content sha256 = do
    setting ← on_db (get_setting (lit "storage_backend"))
    r ← stored tag p content
    path ← stored_path tag r
    p' ← on_db (
        publish_new_version (version_of tag meta content sha256 (backend_name setting) path)
          p.retention_days at.now)
    publication tag p'
    notify (with_row_id (version_of tag meta content sha256 (backend_name setting) path))
    record_sync_run (lit "SUCCESS") tag []
    pure (result_of success tag sha256 (length content))

  abbrev pub install : Product → Text × Text → Time → S W C SyncResult
  install p (content, sha256) last_modified = do
    meta ← validation (validate_mmdb lib.from_bytes lib.unix content p.edition_id)
    publish p meta (version_tag meta last_modified) content sha256

  abbrev pub fetched : Product → Option ProductVersion → Download → S W C SyncResult
  fetched p current (refused e) = failing [] (upstream_failed e)
  fetched p current unmodified = skip current
  fetched p current (downloaded body last_modified) = do
    artifact ← extraction (
        extract_mmdb_from_tar_gz lib.clean lib.base lib.sha256_hex p.artifact_filename
          (lib.read_archive body))
    install p artifact last_modified

  abbrev pub fetch : Product → Text → Text → Result ProductVersion → S W C SyncResult
  fetch p account_id license_key current = fetched p (current_of current) (
      download_database lib.send lib.path_escape lib.format_http lib.parse_http s.maxmind account_id
        license_key p.edition_id (since (current_of current)) at.now)

  unfoldable pub synchronise : S W C SyncResult
  synchronise = do
    r ← on_db (get_product product_id)
    p ← loaded r
    account ← on_db (get_setting (lit "maxmind_account_id"))
    account_id ← configured account_not_configured account
    encrypted ← on_db (get_setting (lit "maxmind_license_key"))
    license ← configured license_not_configured encrypted
    license_key ← license_of license
    current ← on_db (get_current_version product_id)
    fetch p account_id.0 license_key current

  abbrev pub set_lock : Bool → Process W C → Process W C
  set_lock held p = record p { locks = λ id. if id == product_id then held else p.locks id }

  abbrev pub with_lock : Process W C → Sync SyncResult × Process W C
  with_lock p = let (r, w) = synchronise p.world in (r, record p { world = w })

  abbrev pub unlocked : Sync SyncResult × Process W C → Sync SyncResult × Process W C
  unlocked (r, p) = (r, set_lock false p)

  unfoldable pub sync_product : Process W C → Sync SyncResult × Process W C
  sync_product p =
      if p.locks product_id
      then (stopped sync_in_progress, p)
      else unlocked (with_lock (set_lock true p))
