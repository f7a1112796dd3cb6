-- ===== src/Db.antt =====
-- internal/db
pub mod Sql
pub mod Schema
pub mod Clock
pub mod Store
pub mod Migrator
pub mod Versions
pub mod Users
pub mod ApiKeys
pub mod Tokens
pub mod Settings
pub mod Audit
