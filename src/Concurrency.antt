-- ===== src/Concurrency.antt =====
-- common/utils/lock: values and locks that several goroutines share.
pub mod RedisLock
pub mod Exclusion
pub mod Versioned
mod Tests
