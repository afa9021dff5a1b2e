-- ===== src/Audit.antt =====
-- The audit log: its export, the goroutine that writes it, and the retried deletes (common/audit).
pub mod Export
pub mod Order
pub mod Pages
pub mod Limits
pub mod Batches
pub mod Complete
pub mod Writer
pub mod Known
pub mod Flushed
pub mod Retries
pub mod Tried
pub mod Retried
mod Tests
