-- ===== src/Tests/Snapshots.antt =====
-- A rotation of three snapshots.
use distri_max.Db.Migrator.{has_suffix}
use distri_max.Db.Sql.{count_where, text_le, select_where}
use distri_max.Prelude.{
  ◌≡◌, refl, List, [], ◌∷◌, none, some, Text, lit, ◌==◌, any_item, strip_prefix, split,
}
use distri_max.Storage.{done}
use distri_max.Storage.Filesystem.{Disk, F}
use distri_max.Storage.Paths.{is_abs, push_name, clean_names, join_names, names_of, clean, join}
use distri_max.Workers.Backup.{is_snapshot, rotate_local_backups}
use distri_max.Workers.Backup.Rotation.{is_outdated, rotate_local_backups-files}

abbrev listing : List Text
listing =
    lit "distrimax-3.sqlite3"
    ∷ lit "notes"
    ∷ lit "distrimax-1.sqlite3"
    ∷ lit "distrimax-2.sqlite3"
    ∷ []

abbrev read_dir : Text → F (List Text)
read_dir dir d = (done listing, d)

abbrev disk : Disk
disk = record { files = λ x. some (lit "snapshot"); faults = [] }

abbrev oldest : Text
oldest = lit "/b/distrimax-1.sqlite3"

rotate_local_backups-files_example :
    (rotate_local_backups read_dir (lit "/b") 2 disk).files oldest ≡ none
unfolding is_outdated is_snapshot has_suffix text_le count_where select_where any_item strip_prefix
    ◌==◌ join clean clean_names push_name join_names is_abs names_of split
rotate_local_backups-files_example =
    rotate_local_backups-files read_dir (lit "/b") 2 disk disk listing oldest refl refl
