-- ===== src/Api.antt =====
-- internal/api: the client API.
pub mod Http
pub mod Health
pub mod AuditLogger
pub mod Keys
pub mod DownloadAuth
pub mod Download
pub mod Manifest
pub mod Limiter
pub mod Proxy
pub mod Recover
