-- ===== src/Syncer/State.antt =====
-- internal/syncer/syncer.go: the state that a synchronisation runs on. That of the process is the
-- database, what the storage keeps (`W`) and what the callback onPublish changes (`C`), with the
-- products whose lock is held.
use distri_max.Db.Schema.{Time, ProductVersion, SyncRun, Tables}
use distri_max.Db.Sql.{first_where}
use distri_max.Db.Store.{Error, constraint_failed, Result, ok, err, Db, M}
use distri_max.Db.Versions.{is_some, has_id}
use distri_max.Prelude.{ℕ, Bool, List, [], ◌∷◌, ◌++◌, Option, Text, ◌==◌, if◌then◌else◌}
use distri_max.Storage.{StorageError, StorageBackend}
use distri_max.Syncer.Archive.{Item, ArchiveError}
use distri_max.Syncer.Maxmind.{MaxMindClient, UpstreamRequest, UpstreamResponse, UpstreamError}
use distri_max.Syncer.Validator.{Metadata, MmdbError}

pub data SyncError : Type 0 where
  sync_in_progress product_disabled account_not_configured license_not_configured : SyncError
  license_not_decrypted nil_dereference : SyncError
  product_not_loaded not_published : Error → SyncError
  upstream_failed : UpstreamError → SyncError
  not_extracted : ArchiveError → SyncError
  not_valid : MmdbError → SyncError
  not_stored : StorageError → SyncError

-- The libraries that a run calls: HTTP, the formats of times, the cipher, the archive's readers,
-- paths, checksums, the database reader, and the text of an error.
pub record Libraries : Type 0 where
  pub send : UpstreamRequest → Option UpstreamResponse
  pub path_escape : Text → Text
  pub format_http : Time → Text
  pub parse_http : Text → Option Time
  pub format_date : Time → Text
  pub unbase64 : Text → Option Text
  pub unseal : Text → Text → Text → Option Text
  pub nonce_size : ℕ
  pub read_archive : Text → Option (List Item)
  pub clean : Text → Text
  pub base : Text → Text
  pub sha256_hex : Text → Text
  pub from_bytes : Text → Option Metadata
  pub unix : ℕ → Time
  pub message : SyncError → Text

pub record Syncer (W C : Type 0) : Type 0 where
  pub storage : StorageBackend W
  pub maxmind : MaxMindClient
  pub encryption_key : Text
  pub on_publish : Option (ProductVersion → C → C)

pub record World (W C : Type 0) : Type 0 where
  pub db : Db
  pub disk : W
  pub callbacks : C

pub record Process (W C : Type 0) : Type 0 where
  pub world : World W C
  pub locks : Text → Bool

-- What one run reads from the clock and draws as its row's id.
pub record Moment : Type 0 where
  pub now : Time
  pub duration_ms : ℕ
  pub run_id : Text

pub data Status : Type 0 where
  success skipped : Status

pub record SyncResult : Type 0 where
  pub product_id : Text
  pub version : Text
  pub status : Status
  pub duration_ms : ℕ
  pub sha256 : Text
  pub size_bytes : ℕ

pub data Sync (A : Type 0) : Type 0 where
  reached : A → Sync A
  stopped : SyncError → Sync A

-- INSERT INTO sync_runs: the id is the primary key, and the product is referred to.
unfoldable pub insert_sync_run : SyncRun → Tables → Result (Unit {0} × Tables)
insert_sync_run r t =
    if is_some (first_where (λ s. s.id == r.id) t.sync_runs)
    then err constraint_failed
    else if is_some (first_where (has_id r.product_id) t.products)
    then ok (tt, record t { sync_runs = t.sync_runs ++ r ∷ [] })
    else err constraint_failed

abbrev pub S : Type 0 → Type 0 → Type 0 → Type 0
S W C A = World W C → Sync A × World W C

module _ {W C : Type 0} where
  abbrev pub continue : {A B : Type 0} → Sync A × World W C → (A → S W C B) → Sync B × World W C
  continue (reached a, w) f = f a w
  continue (stopped e, w) f = (stopped e, w)

  infixl 5 ◌>>=◌ ◌>>◌
  abbrev pub ◌>>=◌ : {A B : Type 0} → S W C A → (A → S W C B) → S W C B
  ◌>>=◌ m f w = continue (m w) f

  abbrev pub ◌>>◌ : {B : Type 0} → S W C (Unit {0}) → S W C B → S W C B
  m >> k = m >>= λ _. k

  abbrev pub pure : {A : Type 0} → A → S W C A
  pure a w = (reached a, w)

  abbrev pub stop : {A : Type 0} → SyncError → S W C A
  stop e w = (stopped e, w)

  -- A call of internal/db, whose error is a value.
  abbrev pub on_db : {A : Type 0} → M A → S W C (Result A)
  on_db m w = (reached (m w.db).0, record w { db = (m w.db).1 })
