-- ===== src/Syncer/Validator.antt =====
-- internal/syncer/validator.go. `from_bytes` is maxminddb.FromBytes, none on its error; `unix` the
-- instant of a number of seconds since 1970.
use distri_max.Db.Schema.{Time}
use distri_max.Prelude.{
  ℕ, not, ◌&&◌, [], Option, none, some, Text, ◌==◌, ltb, length, if◌then◌else◌,
}

-- The metadata of the library's reader.
pub record Metadata : Type 0 where
  pub database_type : Text
  pub record_size : ℕ
  pub build_epoch : ℕ
  pub node_count : ℕ
  pub ip_version : ℕ

pub record MmdbMetadata : Type 0 where
  pub database_type : Text
  pub record_size : ℕ
  pub build_epoch : Time
  pub node_count : ℕ
  pub ip_version : ℕ

pub data MmdbError : Type 0 where
  invalid_mmdb_header database_type_mismatch : MmdbError

pub data Validation : Type 0 where
  valid : MmdbMetadata → Validation
  invalid : MmdbError → Validation

module _ (from_bytes : Text → Option Metadata) (unix : ℕ → Time) where
  abbrev pub checked_metadata : Text → Option Metadata → Validation
  checked_metadata expected_type none = invalid invalid_mmdb_header
  checked_metadata expected_type (some meta) =
      if meta.database_type == []
      then invalid invalid_mmdb_header
      else if not (expected_type == []) && not (meta.database_type == expected_type)
      then invalid database_type_mismatch
      else valid (record {
        database_type = meta.database_type;
        record_size = meta.record_size;
        build_epoch = unix meta.build_epoch;
        node_count = meta.node_count;
        ip_version = meta.ip_version;
      })

  unfoldable pub validate_mmdb : Text → Text → Validation
  validate_mmdb data_bytes expected_type =
      if ltb (length data_bytes) 16
      then invalid invalid_mmdb_header
      else checked_metadata expected_type (from_bytes data_bytes)
