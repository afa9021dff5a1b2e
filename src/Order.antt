-- ===== src/Order.antt =====
-- The order service, services/order: the entity, the repository with its two background workers,
-- and the HTTP handlers.
pub mod Domain
pub mod Store
pub mod Payment
pub mod Outbox
pub mod Rows
pub mod States
pub mod PayStates
pub mod WorkerStates
pub mod Settling
pub mod Settlement
pub mod History
pub mod Handlers
pub mod Access
pub mod Queries
mod Tests
