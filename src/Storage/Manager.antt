-- ===== src/Storage/Manager.antt =====
-- internal/storage/manager.go: the storage that the rest of the program uses, a switch between a
-- filesystem backend and an S3 backend. A nil interface is `none`. The mutex makes each method one
-- step, so that none is modelled.
pub mod Switching
use distri_max.Prelude.{
  ℕ, ◌≡◌, Bool, true, false, ◌&&◌, Option, none, some, Text, lit, ◌==◌, if◌then◌else◌, [], ◌∷◌,
}
use distri_max.Storage.{
  StorageError, not_found, no_backend, not_configured, unknown_driver, Outcome, done, fail,
  StorageBackend,
}

pub record StorageManager (W : Type 0) : Type 0 where
  pub active_driver : Text
  pub fs_storage : Option (StorageBackend W)
  pub s3_storage : Option (StorageBackend W)

abbrev pub filesystem : Text
filesystem = lit "filesystem"

abbrev pub s3 : Text
s3 = lit "s3"

module _ {W : Type 0} where
  abbrev pub new_storage_manager : Option (StorageBackend W) → StorageManager W
  new_storage_manager fs = record { active_driver = filesystem; fs_storage = fs; s3_storage = none }

  abbrev pub set_s3_storage : Option (StorageBackend W) → StorageManager W → StorageManager W
  set_s3_storage b m = record m { s3_storage = b }

  abbrev pub is_set : Option (StorageBackend W) → Bool
  is_set none = false
  is_set (some b) = true

  -- An error leaves the driver as it was.
  unfoldable pub set_active_driver :
      Text → StorageManager W → Option StorageError × StorageManager W
  set_active_driver driver m =
      if driver == s3
      then (if is_set m.s3_storage
          then (none, record m { active_driver = s3 })
          else (some not_configured, m))
      else if driver == filesystem
      then (none, record m { active_driver = filesystem })
      else if driver == []
      then (none, record m { active_driver = filesystem })
      else (some unknown_driver, m)

  unfoldable pub driver_name : StorageManager W → Text
  driver_name m = if m.active_driver == [] then filesystem else m.active_driver

  -- The active backend and the fallback.
  unfoldable pub current_backends :
      StorageManager W → Option (StorageBackend W) × Option (StorageBackend W)
  current_backends m =
      if (m.active_driver == s3) && is_set m.s3_storage
      then (m.s3_storage, m.fs_storage)
      else (m.fs_storage, m.s3_storage)

  abbrev pub store_on :
      Option (StorageBackend W) → Text → Text → Text → Text → ℕ → W → Outcome Text × W
  store_on none product version filename bytes size w = (fail no_backend, w)
  store_on (some b) product version filename bytes size w =
      b.store_artifact product version filename bytes size w

  unfoldable pub store_artifact :
      StorageManager W → Text → Text → Text → Text → ℕ → W → Outcome Text × W
  store_artifact m = store_on (current_backends m).0

  -- The fallback is asked only if the artifact is missing on the active backend.
  abbrev pub open_fallback : Option (StorageBackend W) → Text → W → Outcome Text → Outcome Text
  open_fallback (some b) path w (fail not_found) = b.open_artifact path w
  open_fallback none path w (fail not_found) = fail not_found
  open_fallback b path w r = r

  abbrev pub open_on :
      Option (StorageBackend W) × Option (StorageBackend W) → Text → W → Outcome Text
  open_on (none, fallback) path w = fail no_backend
  open_on (some b, fallback) path w = open_fallback fallback path w (b.open_artifact path w)

  unfoldable pub open_artifact : StorageManager W → Text → W → Outcome Text
  open_artifact m = open_on (current_backends m)

  abbrev pub delete_on : Option (StorageBackend W) → Text → W → Option StorageError × W
  delete_on none path w = (none, w)
  delete_on (some b) path w = b.delete_artifact path w

  -- Both backends are asked; the fallback's error is dropped.
  unfoldable pub delete_artifact : StorageManager W → Text → W → Option StorageError × W
  delete_artifact m path w =
      let (e, w') = delete_on (current_backends m).0 path w in
      (e, (delete_on (current_backends m).1 path w').1)

  abbrev pub verify_fallback :
      Option (StorageBackend W) → Text → ℕ → W → Option StorageError → Option StorageError
  verify_fallback (some b) path size w (some not_found) = b.verify_artifact path size w
  verify_fallback none path size w (some not_found) = some not_found
  verify_fallback b path size w r = r

  abbrev pub verify_on :
      Option (StorageBackend W) × Option (StorageBackend W) → Text → ℕ → W → Option StorageError
  verify_on (none, fallback) path size w = some no_backend
  verify_on (some b, fallback) path size w =
      verify_fallback fallback path size w (b.verify_artifact path size w)

  unfoldable pub verify_artifact : StorageManager W → Text → ℕ → W → Option StorageError
  verify_artifact m = verify_on (current_backends m)

  -- CheckCapabilities, where the backend has the method.
  abbrev pub check_on : Option (W → Option StorageError × W) → W → Option StorageError × W
  check_on none w = (none, w)
  check_on (some check) w = check w

  abbrev pub check_set :
      (StorageBackend W → Option (W → Option StorageError × W))
      → Option (StorageBackend W)
      → W
      → Option StorageError × W
  check_set capabilities none w = (some no_backend, w)
  check_set capabilities (some fs) w = check_on (capabilities fs) w

  unfoldable pub check_filesystem :
      (StorageBackend W → Option (W → Option StorageError × W))
      → StorageManager W
      → W
      → Option StorageError × W
  check_filesystem capabilities m = check_set capabilities m.fs_storage

  abbrev pub filesystem_storage : StorageManager W → Option (StorageBackend W)
  filesystem_storage m = m.fs_storage
