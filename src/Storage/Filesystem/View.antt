-- ===== src/Storage/Filesystem/View.antt =====
-- The files of artifacts as a map from their paths, on a disk that refuses no call.
use distri_max.Prelude.{
  ℕ, ◌≡◌, ◌≢◌, refl, false, not, ◌&&◌, [], ◌∷◌, none, some, Text, ==-refl, any_item, if◌then◌else◌,
  All, arith, eqb, ltb, length,
}
use distri_max.Db.Store.{refused}
use distri_max.Storage.{not_found, done, fail}
use distri_max.Storage.Filesystem.{
  Files, Disk, call, put, below, FilesystemStorage, is_invalid, resolve_safe_path, staging_dir,
  staging_file, dest_file, rel_path, store_artifact, open_artifact, delete_artifact, ◌>>=◌, ◌>>◌,
}
use distri_max.Storage.Filesystem.Resolved.{valid}
use distri_max.Storage.Filesystem.Roundtrip.{resolved}
use distri_max.Storage.Paths.{names_of}
use distri_max.Storage.Paths.Inside.{IsPlain}

-- A disk that refuses nothing.
abbrev pub healthy : Files → Disk
healthy files = record { files = files; faults = [] }

module _ (fs : FilesystemStorage) (stamp product version filename bytes : Text) (size : ℕ)
    (files : Files) where
  abbrev pub stored_files : Files
  stored_files x =
      if below (staging_dir fs stamp product version filename) x
      then none
      else put (dest_file fs stamp product version filename) (some bytes)
          (put (staging_file fs stamp product version filename) none (
            put (staging_file fs stamp product version filename) (some bytes)
              (put (staging_file fs stamp product version filename) (some []) files)))
          x

  store-healthy :
      any_item is_invalid (product ∷ version ∷ filename ∷ []) ≡ false
      → (ltb 0 size && not (eqb (length bytes) size)) ≡ false
      → store_artifact fs stamp product version filename bytes size (healthy files)
        ≡ (done (rel_path fs stamp product version filename), healthy stored_files)
  unfolding store_artifact call
  store-healthy v s =
      rw (v, refused, s, ==-refl (staging_file fs stamp product version filename)) refl

  module _ (v : any_item is_invalid (product ∷ version ∷ filename ∷ []) ≡ false)
      (s : (ltb 0 size && not (eqb (length bytes) size)) ≡ false) (h : fs.artifact_root ≢ [])
      (plain : All IsPlain (names_of fs.artifact_root))
      (outside : below
          (staging_dir fs stamp product version filename)
          (dest_file fs stamp product version filename)
        ≡ false) where
    resolved_path :
        resolve_safe_path fs (rel_path fs stamp product version filename)
        ≡ done (dest_file fs stamp product version filename)
    unfolding any_item
    resolved_path =
        resolved fs stamp product version filename (valid product (ground arith))
          (valid version (ground arith)) (valid filename (ground arith)) h plain

    opened :
        open_artifact fs (rel_path fs stamp product version filename) (healthy stored_files)
        ≡ (done bytes, healthy stored_files)
    unfolding open_artifact call
    opened =
        rw (resolved_path, refused, outside, ==-refl (dest_file fs stamp product version filename))
          refl

    deleted :
        (delete_artifact fs (rel_path fs stamp product version filename)
            >> open_artifact fs (rel_path fs stamp product version filename))
          (healthy stored_files)
        ≡ (
          fail not_found,
          healthy (put (dest_file fs stamp product version filename) none stored_files),
        )
    unfolding open_artifact delete_artifact call
    deleted =
        rw (resolved_path, refused, outside, ==-refl (dest_file fs stamp product version filename))
          (rw (==-refl (dest_file fs stamp product version filename)) refl)

    -- What has been stored is what the returned path opens, and once it is deleted the path is not
    -- found: on a disk that refuses no call, for valid identifiers, the right size, an artifact root
    -- that does not lead up, and a staging directory that does not hold the artifact's place.
    pub store-open-delete :
        ((store_artifact fs stamp product version filename bytes size >>= open_artifact fs)
            (healthy files)
          ≡ (done bytes, healthy stored_files))
        × ((store_artifact fs stamp product version filename bytes size >>= λ path.
                delete_artifact fs path >> open_artifact fs path)
              (healthy files)
            ≡ (
              fail not_found,
              healthy (put (dest_file fs stamp product version filename) none stored_files),
            ))
    store-open-delete = (rw (store-healthy v s) opened, rw (store-healthy v s) deleted)
