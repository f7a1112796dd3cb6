-- ===== src/Workers.antt =====
-- internal/workers
pub mod Backup
pub mod Cleanup
pub mod Scheduler
pub mod Webhook
