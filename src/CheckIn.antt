-- ===== src/CheckIn.antt =====
-- The check-in of tickets: apps/api/src/modules/check-in.
pub mod Service
pub mod Once
mod Examples
