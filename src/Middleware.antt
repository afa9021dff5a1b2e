-- ===== src/Middleware.antt =====
-- common/middleware: what stands before the handlers.
pub mod Breaker
pub mod SlidingWindow
pub mod WindowTimes
pub mod WindowBound
pub mod Admissions
mod Tests
