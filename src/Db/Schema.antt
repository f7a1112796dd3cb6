-- ===== src/Db/Schema.antt =====
-- The rows of internal/db: its structs, whose columns are those of internal/db/migrations.
-- A TIMESTAMP is a number of nanoseconds since Go's zero time, so `IsZero` is "equal to 0"; the
-- drivers' 0 and 1 for a flag are a Bool, and a NULL column or a nil pointer is `none`.
use distri_max.Prelude.{ℕ, Bool, List, Option, Text}

abbrev pub Time : Type 0
Time = ℕ

pub record Product : Type 0 where
  pub id : Text
  pub edition_id : Text
  pub display_name : Text
  pub artifact_filename : Text
  pub is_enabled : Bool
  pub sync_schedule_cron : Text
  pub retention_days : ℕ
  pub staleness_days : ℕ
  pub created_at : Time
  pub updated_at : Time

pub record ProductVersion : Type 0 where
  pub id : Text
  pub product_id : Text
  pub version : Text
  pub released_at : Time
  pub sha256 : Text
  pub size_bytes : ℕ
  pub storage_backend : Text
  pub storage_path : Text
  pub is_current : Bool
  pub superseded_at : Option Time
  pub cleanup_deadline : Option Time
  pub is_deleted : Bool
  pub created_at : Time

pub record User : Type 0 where
  pub id : Text
  pub username : Text
  pub password_hash : Text
  pub is_disabled : Bool
  pub created_at : Time
  pub updated_at : Time

pub record Session : Type 0 where
  pub id : Text
  pub user_id : Text
  pub expires_at : Time
  pub created_at : Time
  pub last_active_at : Time

pub record ApiKey : Type 0 where
  pub id : Text
  pub key_prefix : Text
  pub key_hash : Text
  pub display_name : Text
  pub scopes : Text
  pub allowed_products : Text
  pub rate_limit_per_min : ℕ
  pub is_revoked : Bool
  pub expires_at : Option Time
  pub last_used_at : Option Time
  pub last_used_ip : Option Text
  pub created_at : Time

pub record DownloadToken : Type 0 where
  pub token : Text
  pub product_id : Text
  pub version : Text
  pub created_by : Text
  pub created_at : Time
  pub expires_at : Time
  pub download_count : ℕ
  pub is_revoked : Bool

pub record Setting : Type 0 where
  pub key : Text
  pub value : Text
  pub is_encrypted : Bool
  pub updated_at : Time
  pub updated_by : Text

pub record AuditLog : Type 0 where
  pub id : Text
  pub timestamp : Time
  pub source_ip : Text
  pub method : Text
  pub path : Text
  pub status : ℕ
  pub duration_ms : ℕ
  pub bytes_sent : ℕ
  pub api_key_id : Option Text
  pub product_id : Option Text
  pub version : Option Text
  pub user_agent : Text
  pub failure_reason : Option Text

pub record SyncRun : Type 0 where
  pub id : Text
  pub product_id : Text
  pub status : Text
  pub trigger_type : Text
  pub version_discovered : Text
  pub duration_ms : ℕ
  pub error_message : Text
  pub created_at : Time

pub record WebhookDelivery : Type 0 where
  pub id : Text
  pub event_type : Text
  pub product_id : Text
  pub version : Text
  pub target_url : Text
  pub status_code : ℕ
  pub attempt_count : ℕ
  pub duration_ms : ℕ
  pub error_message : Text
  pub created_at : Time

pub record Tables : Type 0 where
  pub products : List Product
  pub versions : List ProductVersion
  pub users : List User
  pub sessions : List Session
  pub api_keys : List ApiKey
  pub tokens : List DownloadToken
  pub settings : List Setting
  pub audit_logs : List AuditLog
  pub sync_runs : List SyncRun
  pub webhook_deliveries : List WebhookDelivery
