-- ===== src/Syncer.antt =====
-- internal/syncer: fetching and publishing new versions.
pub mod Archive
pub mod Maxmind
pub mod Run
pub mod State
pub mod Validator
