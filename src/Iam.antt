-- ===== src/Iam.antt =====
-- Accounts, sessions, roles and groups (services/iam, common/middleware/auth.go, common/utils).
pub mod Roles
pub mod RoleLaws
pub mod Groups
pub mod Members
pub mod Ownership
pub mod Sessions
pub mod SessionLaws
pub mod Passwords
pub mod Users
pub mod Logins
pub mod Accounts
mod Tests
