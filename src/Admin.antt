-- ===== src/Admin.antt =====
-- apps/api/src/modules/admin: what an administrator lists and changes.
pub mod Service
pub mod Moderation
mod Examples
