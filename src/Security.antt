-- ===== src/Security.antt =====
-- apps/api/src/common/security and apps/api/src/common/auth: who may call a route, and from where.
pub mod Request
pub mod Origin
pub mod Guards
pub mod Authorized
mod Examples
