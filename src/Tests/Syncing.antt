-- ===== src/Tests/Syncing.antt =====
-- A synchronisation of the sample catalogue, in a program whose storage is the filesystem.
use distri_max.Api.Http.{Request}
use distri_max.Cache.{new_manifest_cache}
use distri_max.Db.Schema.{ProductVersion, Setting}
use distri_max.Db.Settings.{get_setting, has_setting_key}
use distri_max.Db.Sql.{first_where, update_where}
use distri_max.Db.Store.{exec, query, with_tx}
use distri_max.Db.Versions.{
  has_id, has_key, is_served, is_current_of, has_row_id, supersede, insert_version, get_product,
  get_current_version, publish_new_version,
}
use distri_max.Db.Versions.Consistent.{IsConsistent}
use distri_max.Db.Versions.Others.{Serves}
use distri_max.Prelude.{
  ◌≡◌, ◌≢◌, refl, true, false, List, [], ◌∷◌, none, some, Text, lit, ◌==◌, split, strip_prefix,
  contains, any_item, length,
}
use distri_max.Program.{Callbacks, on_publish, filesystem_backend}
use distri_max.Program.Fresh.{Answers, sync_product-manifest}
use distri_max.Program.Published.{sync_product-OnDisk}
use distri_max.Storage.{done}
use distri_max.Storage.Filesystem.{
  Disk, call, is_invalid, resolve_safe_path, staging_dir, staging_file, dest_file, below,
  store_artifact,
}
use distri_max.Storage.Paths.{is_abs, push_name, clean_names, join_names, names_of, clean, join}
use distri_max.Syncer.Archive.{
  Item, entry, traverses, is_expected, read_limited, extract_entries, extract_mmdb_from_tar_gz,
}
use distri_max.Syncer.Maxmind.{new_maxmind_client, trim_slashes, download_database}
use distri_max.Syncer.Run.{synchronise, sync_product, result_of}
use distri_max.Syncer.Run.Kept.{sync_product-IsConsistent, sync_product-Serves_other}
use distri_max.Syncer.Run.Safety.{Synced, sync_product-Synced, sync_product-locks}
use distri_max.Syncer.State.{
  Libraries, Syncer, Process, Moment, SyncResult, Sync, reached, success, insert_sync_run,
}
use distri_max.Syncer.Validator.{validate_mmdb}
use distri_max.Tests.Files.{local, plain}
use distri_max.Tests.Samples.{catalogue, catalogue-IsConsistent, city}

abbrev content : Text
content = lit "a sample database of the city"

abbrev archive : List Item
archive =
    entry (record {
      name = lit "GeoLite2-City.mmdb";
      is_regular = true;
      size = length content;
      content = some content;
    })
    ∷ []

-- The archive's readers and the checksum do nothing, and upstream always has news.
abbrev pub libraries : Libraries
libraries = record {
  send = λ r. some (record { status = 200; last_modified = []; body = lit "tgz" });
  path_escape = λ s. s;
  format_http = λ t. lit "then";
  parse_http = λ s. none;
  format_date = λ t. lit "2024-01-02";
  unbase64 = some;
  unseal = λ key nonce s. some s;
  nonce_size = 12;
  read_archive = λ body. some archive;
  clean = λ s. s;
  base = λ s. s;
  sha256_hex = λ s. s;
  from_bytes = λ s. some (record {
    database_type = lit "GeoLite2-City";
    record_size = 28;
    build_epoch = 40;
    node_count = 1;
    ip_version = 6;
  });
  unix = λ n. n;
  message = λ e. lit "error";
}

abbrev pub engine : Syncer Disk Callbacks
engine = record {
  storage = filesystem_backend local (lit "9");
  maxmind = new_maxmind_client [] 0;
  encryption_key = [];
  on_publish = some on_publish;
}

abbrev setting : Text → Text → Setting
setting key val = record {
  key = key;
  value = val;
  is_encrypted = false;
  updated_at = 0;
  updated_by = [];
}

-- The database refuses the fourth statement, the query for the current version.
abbrev pub process : Process Disk Callbacks
process = record {
  world = record {
    db = record {
      tables = record catalogue {
        settings =
            setting (lit "maxmind_account_id") (lit "1")
            ∷ setting (lit "maxmind_license_key") (lit "k")
            ∷ [];
      };
      faults = false ∷ false ∷ false ∷ true ∷ [];
    };
    disk = record { files = λ x. none; faults = [] };
    callbacks = record { manifest_cache = new_manifest_cache 0; deliveries = [] };
  };
  locks = λ id. false;
}

abbrev pub moment : Moment
moment = record { now = 100; duration_ms = 5; run_id = lit "run" }

abbrev manual : Text
manual = lit "MANUAL"

abbrev id : Text
id = lit "city"

abbrev outcome : Sync SyncResult × Process Disk Callbacks
outcome = sync_product libraries engine moment id manual process

abbrev report : SyncResult
report =
    result_of libraries engine moment id manual success (lit "2024-01-02") content (length content)

succeeds : outcome.0 ≡ reached report
unfolding sync_product synchronise get_product get_setting get_current_version publish_new_version
    exec query with_tx first_where update_where has_id has_key is_served is_current_of has_row_id
    has_setting_key supersede insert_version new_maxmind_client trim_slashes download_database
    extract_mmdb_from_tar_gz extract_entries is_expected read_limited traverses validate_mmdb
    filesystem_backend store_artifact call is_invalid any_item contains strip_prefix split ◌==◌ join
    clean clean_names push_name join_names is_abs names_of insert_sync_run
succeeds = refl

sync_product-Synced_example : Synced libraries engine moment id manual process outcome
sync_product-Synced_example = sync_product-Synced libraries engine moment id manual process

sync_product-locks_example : outcome.1.locks (lit "city") ≡ false
sync_product-locks_example =
    sync_product-locks libraries engine moment id manual process (lit "city")

sync_product-IsConsistent_example : IsConsistent outcome.1.world.db.tables
sync_product-IsConsistent_example =
    sync_product-IsConsistent libraries engine moment id manual process (record {
      one_current = catalogue-IsConsistent.one_current;
      one_row = catalogue-IsConsistent.one_row;
      one_id = catalogue-IsConsistent.one_id;
    })

not_asn : lit "asn" ≢ lit "city"
not_asn h = cc h

no_asn : first_where (is_served (lit "asn")) catalogue.versions ≡ none
unfolding first_where is_served ◌==◌
no_asn = refl

sync_product-Serves_other_example : Serves (lit "asn") none outcome.1.world.db.tables
sync_product-Serves_other_example =
    sync_product-Serves_other libraries engine moment id manual (lit "asn") none not_asn process
      no_asn

known : first_where (has_id id) catalogue.products ≡ some city
unfolding first_where has_id ◌==◌
known = refl

rooted : lit "/data" ≢ []
rooted h = cc h

apart :
    (staging_file local (lit "9") id (lit "2024-01-02") city.artifact_filename
      == dest_file local (lit "9") id (lit "2024-01-02") city.artifact_filename)
    ≡ false
unfolding ◌==◌ join clean clean_names push_name join_names is_abs names_of strip_prefix split
apart = refl

outside :
    below
      (staging_dir local (lit "9") id (lit "2024-01-02") city.artifact_filename)
      (dest_file local (lit "9") id (lit "2024-01-02") city.artifact_filename)
    ≡ false
unfolding ◌==◌ join clean clean_names push_name join_names is_abs names_of strip_prefix split below
outside = refl

sync_product-OnDisk_example :
    (row : ProductVersion) × (stored full : Text) × (first_where
        (is_served id)
        outcome.1.world.db.tables.versions
      ≡ some row)
    × (resolve_safe_path local row.storage_path ≡ done full)
    × (outcome.1.world.disk.files full ≡ some stored)
    × (row.sha256 ≡ stored)
    × (row.size_bytes ≡ length stored)
sync_product-OnDisk_example =
    sync_product-OnDisk libraries engine local (lit "9") moment id manual refl rooted plain process
      report city known apart outside succeeds refl

abbrev request : Request
request = record {
  method = lit "GET";
  product = id;
  filename = [];
  header = λ name. [];
  query = λ name. [];
  remote_addr = lit "10.0.0.1:9";
}

named : id ≢ []
named h = cc h

sync_product-manifest_example :
    Answers libraries engine moment id manual refl request 200 report outcome.1
sync_product-manifest_example =
    sync_product-manifest libraries engine moment id manual refl process report request 200 refl
      named succeeds refl
