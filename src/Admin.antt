-- ===== src/Admin.antt =====
-- The lists for administrators, over HTTP and gRPC (services/admin).
pub mod Rows
pub mod Filters
pub mod Lists
pub mod Agreement
pub mod Newest
pub mod Coverage
mod Tests
