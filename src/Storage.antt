-- ===== src/Storage.antt =====
-- internal/storage: what the packages above see of the artifact storage.
pub mod Manager
pub mod Paths
pub mod Filesystem
use distri_max.Prelude.{ℕ, Text, Option}

-- ErrNotFound, ErrSizeMismatch, ErrInvalidPath, the manager's own errors, and whatever else a
-- backend reports.
pub data StorageError : Type 0 where
  not_found size_mismatch invalid_path no_backend not_configured unknown_driver failed :
      StorageError

pub data Outcome (A : Type 0) : Type 0 where
  done : A → Outcome A
  fail : StorageError → Outcome A

-- The interface StorageBackend, over what the backends keep. An artifact is its bytes; opening and
-- verifying only read.
pub record StorageBackend (W : Type 0) : Type 0 where
  pub store_artifact : Text → Text → Text → Text → ℕ → W → Outcome Text × W
  pub open_artifact : Text → W → Outcome Text
  pub delete_artifact : Text → W → Option StorageError × W
  pub verify_artifact : Text → ℕ → W → Option StorageError
