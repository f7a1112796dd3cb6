-- ===== src/Tests/Tools.antt =====
-- A sample archive and a sample key.
use distri_max.Prelude.{ℕ, ◌≡◌, refl, true, List, [], ◌∷◌, some, Text, lit, ◌==◌, strip_prefix}
use distri_max.Auth.Generate.{GeneratedKey}
use distri_max.Syncer.Archive.{
  Item, entry, broken, extracted, traverses, is_expected, read_limited, extract_entries,
  extract_mmdb_from_tar_gz,
}
use distri_max.Syncer.Archive.Extracted.{IsExtracted, extract_mmdb_from_tar_gz-IsExtracted}

abbrev same : Text → Text
same s = s

-- The file that is looked for comes second, and the archive is cut short behind it.
abbrev archive : List Item
archive =
    entry (record { name = lit "README"; is_regular = true; size = 2; content = some (lit "hi") })
    ∷ entry (record {
      name = lit "City.mmdb";
      is_regular = true;
      size = 4;
      content = some (lit "data");
    })
    ∷ broken
    ∷ []

archive-extracted :
    extract_mmdb_from_tar_gz same same same (lit "City.mmdb") (some archive)
    ≡ extracted (lit "data") (lit "data")
unfolding extract_mmdb_from_tar_gz extract_entries is_expected read_limited traverses strip_prefix
    ◌==◌
archive-extracted = refl

extract_mmdb_from_tar_gz-IsExtracted_example :
    IsExtracted same same same (lit "City.mmdb") archive (lit "data") (lit "data")
extract_mmdb_from_tar_gz-IsExtracted_example =
    extract_mmdb_from_tar_gz-IsExtracted same same same (lit "City.mmdb") archive (lit "data")
      (lit "data") archive-extracted

abbrev bytes : List ℕ
bytes =
    1 ∷ 2 ∷ 3 ∷ 4 ∷ 5 ∷ 6 ∷ 7 ∷ 8 ∷ 9 ∷ 10 ∷ 11 ∷ 12 ∷ 13 ∷ 14 ∷ 15 ∷ 160 ∷ 17 ∷ 18 ∷ 19 ∷ 20 ∷ 21
    ∷ 22 ∷ 23 ∷ 255 ∷ []

abbrev key : GeneratedKey
key = record {
  full_secret = lit "dm_live_0102030405060708090a0b0c0d0e0fa011121314151617ff";
  prefix = lit "dm_live_01020304";
  hash = lit "#";
}
