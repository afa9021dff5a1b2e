-- ===== src/Market.antt =====
-- The market of apps (services/market).
pub mod Store
pub mod Boards
pub mod Cache
pub mod Handlers
pub mod Publish
pub mod Coherence
pub mod Writes
pub mod Details
pub mod Owners
pub mod Publishing
pub mod Republishing
pub mod Authors
pub mod Downloads
pub mod Rankings
pub mod RankOrder
pub mod Ranked
mod Tests
