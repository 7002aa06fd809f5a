-- ===== src/RateLimit.antt =====
-- The limit on the rate of requests: apps/api/src/common/security/rate-limit.guard.ts.
pub mod Guard
pub mod Bound
mod Examples
