-- ===== src/Tests.antt =====
-- Sample data, and the theorems at it.
pub mod Samples
mod Versions
mod Access
mod Services
mod Recovery
pub mod Files
mod Snapshots
pub mod Syncing
mod Background
mod Environment
mod Tools
