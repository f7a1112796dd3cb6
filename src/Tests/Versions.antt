-- ===== src/Tests/Versions.antt =====
-- Publications, rollbacks and cleanups of the sample catalogue.
use distri_max.Prelude.{◌<◌, ◌≡◌, refl, ◌^◌, true, false, [], ◌∷◌, some, lit, ◌==◌, arith}
use distri_max.Db.Sql.{count_where, first_where}
use distri_max.Db.Store.{ok, err, healthy, Db, version_not_found}
use distri_max.Db.Versions.{
  is_served, is_kept, has_key, is_expired, promoted, get_current_version, publish_new_version,
  rollback_to_version, mark_version_deleted, deadline_of,
}
use distri_max.Db.Versions.Consistent.{
  IsConsistent, publish_new_version-Keeps, rollback_to_version-Keeps,
}
use distri_max.Db.Versions.Others.{Serves}
use distri_max.Db.Versions.Retention.{IsNotDue, publish-IsNotDue, deadline_wraps}
use distri_max.Db.Versions.Rollback.{rollback-get_current}
use distri_max.Tests.Samples.{catalogue, catalogue-IsConsistent, first, second, third}
use distri_max.Workers.Cleanup.{run_cleanup}
use distri_max.Workers.Cleanup.Safety.{run_cleanup-Serves, late_mark-get_current}

-- The driver refuses the second statement.
abbrev failing : Db
failing = record { tables = catalogue; faults = false ∷ true ∷ [] }

publish_new_version-Keeps_example :
    IsConsistent (publish_new_version third 30 100 (healthy catalogue)).1.tables
publish_new_version-Keeps_example =
    publish_new_version-Keeps third 30 100 (healthy catalogue) catalogue-IsConsistent

rollback_to_version-Keeps_example :
    IsConsistent (rollback_to_version (lit "city") (lit "1") 30 100 (healthy catalogue)).1.tables
rollback_to_version-Keeps_example =
    rollback_to_version-Keeps (lit "city") (lit "1") 30 100 (healthy catalogue)
      catalogue-IsConsistent

first-is_kept : first_where (is_kept (lit "city") (lit "1")) catalogue.versions ≡ some first
unfolding first_where is_kept ◌==◌
first-is_kept = refl

rollback-get_current_example :
    ((rollback_to_version (lit "city") (lit "1") 30 100 (healthy catalogue)).0 ≡ ok tt)
    × ((get_current_version
          (lit "city")
          (rollback_to_version (lit "city") (lit "1") 30 100 (healthy catalogue)).1).0
        ≡ ok (promoted first))
rollback-get_current_example =
    rollback-get_current (lit "city") (lit "1") 30 100 catalogue first first-is_kept

second-is_served : Serves (lit "city") (some second) catalogue
unfolding first_where is_served ◌==◌
second-is_served = refl

second-IsNotDue : IsNotDue 1000 (lit "city") (lit "2") catalogue
unfolding count_where is_expired has_key ◌==◌
second-IsNotDue = omega arith

publish-IsNotDue_example :
    IsNotDue 1000
      (lit "city")
      (lit "2")
      (publish_new_version third 30 100 (healthy catalogue)).1.tables
publish-IsNotDue_example =
    publish-IsNotDue third 30 100 1000 (lit "city") (lit "2") (omega arith) (omega arith)
      (healthy catalogue) second-IsNotDue

deadline_wraps_example : deadline_of (2 ^ 63) 200000 < 2 ^ 63
deadline_wraps_example = deadline_wraps (2 ^ 63) 200000 (omega arith) (omega arith) (omega arith)

run_cleanup-Serves_example :
    Serves
      (lit "city")
      (some second)
      (run_cleanup (λ path paths. path ∷ paths) 100 (healthy catalogue) []).1.tables
run_cleanup-Serves_example =
    run_cleanup-Serves (λ path paths. path ∷ paths) (lit "city") (some second) 100
      (healthy catalogue) [] catalogue-IsConsistent second-is_served

late_mark-get_current_example :
    (get_current_version
      (lit "city")
      (mark_version_deleted
        (lit "city:1")
        (rollback_to_version (lit "city") (lit "1") 30 100 (healthy catalogue)).1).1).0
    ≡ err version_not_found
late_mark-get_current_example =
    late_mark-get_current (lit "city") (lit "1") 30 100 catalogue first catalogue-IsConsistent
      first-is_kept
