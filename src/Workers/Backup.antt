-- ===== src/Workers/Backup.antt =====
-- internal/workers/backup.go, with VacuumInto of internal/db/db.go. `vacuum` is SQLite's VACUUM INTO a
-- path, `read_dir` the names of the files that os.ReadDir finds, and `dir_of` filepath.Dir. `W` is
-- what the S3 storage keeps; `store` is its StoreArtifact under the product "backups", by version,
-- file name and bytes, whose error is ignored. A retention count below 1 is 0.
mod Newest
pub mod Rotation
use distri_max.Prelude.{
  ℕ, ◌-◌, Bool, ◌&&◌, List, [], ◌∷◌, ◌++◌, Option, none, some, Text, lit, ◌==◌, strip_prefix,
  is_some, eqb, ltb, length, take, map, if◌then◌else◌,
}
use distri_max.Db.Migrator.{has_suffix}
use distri_max.Db.Sql.{text_le, select_where, order_by}
use distri_max.Storage.{Outcome, done, fail}
use distri_max.Storage.Filesystem.{
  Disk, F, ◌>>=◌, ◌>>◌, pure, call, mkdir_all, remove, open_file, ignoring,
}
use distri_max.Storage.Paths.{join}

unfoldable pub is_snapshot : Text → Bool
is_snapshot name =
    is_some (strip_prefix (lit "distrimax-") name) && has_suffix (lit ".sqlite3") name

abbrev pub snapshots : Text → List Text → List Text
snapshots backup_root names = map (join backup_root) (select_where is_snapshot names)

abbrev pub to_delete : ℕ → List Text → List Text
to_delete keep paths = if ltb keep (length paths) then take (length paths - keep) paths else []

unfoldable pub remove_each : List Text → Disk → Disk
remove_each [] d = d
remove_each (path ∷ paths) d = remove_each paths (remove path d).1

abbrev pub rotate : Text → ℕ → Outcome (List Text) × Disk → Disk
rotate backup_root keep (fail e, d) = d
rotate backup_root keep (done names, d) =
    remove_each (to_delete keep (order_by text_le (snapshots backup_root names))) d

unfoldable pub rotate_local_backups : (Text → F (List Text)) → Text → ℕ → Disk → Disk
unfolding remove_each
rotate_local_backups read_dir backup_root keep d = rotate backup_root keep (read_dir backup_root d)

unfoldable pub vacuum_into : (Text → Text) → (Text → F (Unit {0})) → Text → F (Unit {0})
vacuum_into dir_of vacuum path = do mkdir_all (dir_of path); ignoring (remove path); vacuum path

abbrev pub retention : ℕ → ℕ
retention count = if eqb count 0 then 7 else count

abbrev pub file_name : Text → Text
file_name timestamp = lit "distrimax-" ++ (timestamp ++ lit ".sqlite3")

module _ {W : Type 0} (dir_of : Text → Text) (vacuum : Text → F (Unit {0}))
    (read_dir : Text → F (List Text)) where
  abbrev pub uploaded : (Text → W → W) → Outcome Text × Disk → W → Disk × W
  uploaded store (done content, d) w = (d, store content w)
  uploaded store (fail e, d) w = (d, w)

  abbrev pub upload : Option (Text → Text → Text → W → W) → Text → Text → Text → Disk → W → Disk × W
  upload none timestamp filename local_path d w = (d, w)
  upload (some store) timestamp filename local_path d w =
      uploaded (store timestamp filename) (open_file local_path d) w

  abbrev pub rotated : Text → Text → ℕ → Disk × W → Outcome Text × Disk × W
  rotated backup_root local_path keep (d, w) =
      (done local_path, rotate_local_backups read_dir backup_root keep d, w)

  abbrev pub snapshot_taken :
      Option (Text → Text → Text → W → W)
      → Text
      → ℕ
      → Text
      → Outcome (Unit {0}) × Disk
      → W
      → Outcome Text × Disk × W
  snapshot_taken s3 backup_root keep timestamp (fail e, d) w = (fail e, d, w)
  snapshot_taken s3 backup_root keep timestamp (done _, d) w =
      let path = join backup_root (file_name timestamp) in
      rotated backup_root path keep (upload s3 timestamp (file_name timestamp) path d w)

  unfoldable pub create_backup :
      Option (Text → Text → Text → W → W) → Text → ℕ → Text → Disk → W → Outcome Text × Disk × W
  unfolding rotate_local_backups vacuum_into
  create_backup s3 backup_root count timestamp d w =
      snapshot_taken s3 backup_root (retention count) timestamp
        ((mkdir_all backup_root
            >> vacuum_into dir_of vacuum (join backup_root (file_name timestamp)))
          d)
        w
