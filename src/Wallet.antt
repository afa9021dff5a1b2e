-- ===== src/Wallet.antt =====
-- The wallet service, services/wallet: the entities, the repository over PostgreSQL, and the HTTP
-- and gRPC handlers.
pub mod Domain
pub mod Store
pub mod Change
pub mod Transfer
pub mod Ledger
pub mod Records
pub mod Posting
pub mod Idempotency
pub mod Conservation
pub mod Transfers
pub mod History
pub mod Handlers
pub mod Access
pub mod Queries
mod Tests
