-- ===== src/Syncer/Archive.antt =====
-- internal/syncer/archive.go. The tar reader gives the entries of the archive one by one until it
-- ends or fails; `clean` and `base` are path.Clean and path.Base, `sha256_hex` the checksum in hex.
pub mod Extracted
use distri_max.Prelude.{
  ℕ, suc, ◌+◌, ◌*◌, Bool, ◌&&◌, ◌||◌, List, [], ◌∷◌, Option, none, some, Text, lit, ◌==◌, ltb,
  length, take, strip_prefix, is_some, if◌then◌else◌,
}

pub record Entry : Type 0 where
  pub name : Text
  pub is_regular : Bool
  pub size : ℕ
  -- none: reading fails.
  pub content : Option Text

pub data Item : Type 0 where
  entry : Entry → Item
  broken : Item

pub data ArchiveError : Type 0 where
  artifact_not_found_in_archive archive_too_large path_traversal : ArchiveError
  gzip_error tar_error read_error : ArchiveError

pub data Extraction : Type 0 where
  extracted : Text → Text → Extraction
  failed : ArchiveError → Extraction

-- 500 MB
abbrev pub max_extracted_size_bytes : ℕ
max_extracted_size_bytes = 500 * 1024 * 1024

-- A cleaned name that leads out of the archive.
unfoldable pub traverses : Text → Bool
traverses name = is_some (strip_prefix (lit "..") name) || is_some (strip_prefix (lit "/") name)

module _ (clean base : Text → Text) (sha256_hex : Text → Text) where
  unfoldable pub is_expected : Text → Entry → Bool
  is_expected filename e = e.is_regular && (base (clean e.name) == filename)

  -- At most one byte over the limit is read.
  unfoldable pub read_limited : Option Text → Extraction
  read_limited none = failed read_error
  read_limited (some content) =
      if ltb max_extracted_size_bytes (length (take (max_extracted_size_bytes + 1) content))
      then failed archive_too_large
      else extracted (take (max_extracted_size_bytes + 1) content)
          (sha256_hex (take (max_extracted_size_bytes + 1) content))

  unfoldable pub extract_entries : Text → List Item → Extraction
  unfolding read_limited is_expected
  extract_entries filename [] = failed artifact_not_found_in_archive
  extract_entries filename (broken ∷ items) = failed tar_error
  extract_entries filename (entry e ∷ items) =
      let rest = extract_entries filename items in
      if traverses (clean e.name)
      then failed path_traversal
      else if is_expected filename e
      then (if ltb max_extracted_size_bytes e.size
          then failed archive_too_large
          else read_limited e.content)
      else rest

  -- The archive as the readers give it, none if it is no gzip stream.
  unfoldable pub extract_mmdb_from_tar_gz : Text → Option (List Item) → Extraction
  unfolding extract_entries
  extract_mmdb_from_tar_gz filename none = failed gzip_error
  extract_mmdb_from_tar_gz filename (some items) = extract_entries filename items
