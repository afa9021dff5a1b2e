-- ===== src/Authz.antt =====
-- Authorisation: the Casbin policies, the pool of them that each node keeps, the middleware that asks
-- them, and the handlers that change what they are made of (common/utils, common/middleware/authz.go,
-- common/queue/rocketmq/casbin.go, services/iam/app).
pub mod Policies
pub mod Pool
pub mod Nodes
pub mod Handlers
pub mod Routes
pub mod Links
pub mod Settled
pub mod Others
pub mod Coherence
pub mod Served
pub mod Alike
pub mod Current
mod Tests
