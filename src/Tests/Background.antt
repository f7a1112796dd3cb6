-- ===== src/Tests/Background.antt =====
-- The background work of the sample process, a delivery, migrations and the readiness probe.
use distri_max.Api.Health.{readiness, ready, stale_products, is_stale, age_exceeds}
use distri_max.Api.Health.Ready.{IsFresh, readiness-IsFresh}
use distri_max.Db.Clock.{days_duration}
use distri_max.Db.Migrator.{
  File, Schema, migrated, discover, has_suffix, first_part, has_version, apply, migrate,
  migrate_all, run_migrations,
}
use distri_max.Db.Migrator.Again.{healthy, run_migrations-Replayed, run_migrations-again}
use distri_max.Db.Migrator.Replay.{Replayed}
use distri_max.Db.Migrator.Scripts.{IsScript}
use distri_max.Db.Sql.{first_where, order_by, insert_ordered}
use distri_max.Db.Store
use distri_max.Db.Store.{Db, query}
use distri_max.Db.Versions.{is_served, list_products, get_current_version}
use distri_max.Db.Versions.Consistent.{IsConsistent}
use distri_max.Db.Versions.Others.{Serves}
use distri_max.Db.Schema.{Product}
use distri_max.Program.{Callbacks}
use distri_max.Syncer.State.{Process}
use distri_max.Prelude.{
  ℕ, ◌≡◌, refl, false, List, [], ◌∷◌, ◌++◌, Option, none, some, Text, lit, ◌==◌, All, eqb,
  if◌then◌else◌,
}
use distri_max.Storage.Filesystem.{Disk}
use distri_max.Tests.Samples.{catalogue, catalogue-IsConsistent, city}
use distri_max.Tests.Syncing.{libraries, engine, process, moment}
use distri_max.Workers.Cleanup.{parse_digits, positive_atoi}
use distri_max.Workers.Scheduler.{cleanup, sync, run_scheduled_sync, start}
use distri_max.Workers.Scheduler.Disabled.{IsIdle, run_scheduled_sync-disabled}
use distri_max.Workers.Scheduler.Invariant.{start-IsConsistent}

abbrev delete : Text → Disk → Disk
delete path d = (engine.storage.delete_artifact path d).1

start-IsConsistent_example :
    IsConsistent
      (start libraries engine delete 100
        (sync (λ id. moment) ∷ cleanup 200 ∷ [])
        process).world.db.tables
start-IsConsistent_example =
    start-IsConsistent libraries engine delete 100 (sync (λ id. moment) ∷ cleanup 200 ∷ []) process
      (record {
        one_current = catalogue-IsConsistent.one_current;
        one_row = catalogue-IsConsistent.one_row;
        one_id = catalogue-IsConsistent.one_id;
      })

-- A second product, which is disabled.
abbrev asn : Product
asn = record city { id = lit "asn"; is_enabled = false }

abbrev two_products : Process Disk Callbacks
two_products = record process {
  world = record process.world {
    db = record process.world.db {
      tables = record process.world.db.tables { products = city ∷ asn ∷ [] };
    };
  };
}

others : All (IsIdle libraries engine delete (lit "asn") none) (city ∷ asn ∷ [])
others = (λ on e. cc e, (λ on e. cc on, _))

no_asn : Serves (lit "asn") none catalogue
unfolding first_where is_served ◌==◌
no_asn = refl

run_scheduled_sync-disabled_example :
    Serves
      (lit "asn")
      none
      (run_scheduled_sync libraries engine delete (λ id. moment) two_products).1.world.db.tables
run_scheduled_sync-disabled_example =
    run_scheduled_sync-disabled libraries engine delete (lit "asn") none (λ id. moment) two_products
      others no_asn

-- Busy, then unreachable, then taken.
abbrev answers : ℕ → Option ℕ
answers n = if eqb n 1 then some 503 else if eqb n 2 then none else some 200

abbrev execute : Text → Text → Option Text
execute script content = some (content ++ script)

abbrev same : Text → Text
same s = s

abbrev files : List File
files =
    record { name = lit "0002_b.sql"; is_dir = false; content = some (lit "b") }
    ∷ record { name = lit "0001_a.sql"; is_dir = false; content = some (lit "a") }
    ∷ record { name = lit "README"; is_dir = false; content = some (lit "c") }
    ∷ []

-- The first migration has run before.
abbrev schema : Schema Text
schema = record {
  rows = record { version = 1; name = lit "0001_a.sql"; checksum = lit "a" } ∷ [];
  content = lit "a";
  faults = [];
}

run_migrations-Replayed_example :
    Replayed execute
      (IsScript positive_atoi same files)
      schema
      (run_migrations execute positive_atoi same files schema).1
run_migrations-Replayed_example = run_migrations-Replayed execute positive_atoi same files schema

succeeds : (run_migrations execute positive_atoi same files schema).0 ≡ migrated tt
unfolding run_migrations discover has_suffix first_part positive_atoi parse_digits order_by
    insert_ordered migrate_all migrate has_version first_where apply ◌==◌
succeeds = refl

run_migrations-again_example :
    run_migrations execute positive_atoi same files (
      healthy execute positive_atoi same files
        (run_migrations execute positive_atoi same files schema).1)
    ≡ (
      migrated tt,
      healthy execute positive_atoi same files
          (run_migrations execute positive_atoi same files schema).1,
    )
run_migrations-again_example = run_migrations-again execute positive_atoi same files schema succeeds

is_ready : (readiness 40 (Store.healthy catalogue)).0 ≡ ready
unfolding readiness query list_products order_by insert_ordered stale_products get_current_version
    first_where is_served is_stale age_exceeds days_duration ◌==◌
is_ready = refl

readiness-IsFresh_example : All (IsFresh 40 catalogue) catalogue.products
readiness-IsFresh_example = readiness-IsFresh 40 (Store.healthy catalogue) is_ready
