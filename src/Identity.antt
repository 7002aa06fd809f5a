-- ===== src/Identity.antt =====
-- Sessions and their refresh tokens: apps/api/src/modules/identity.
pub mod Service
pub mod Rotation
pub mod Accounts
pub mod Entry
mod Examples
