-- ===== src/Outbox.antt =====
-- The delivery of notifications: apps/api/src/modules/outbox.
pub mod Service
pub mod Delivery
mod Examples
