-- ===== src/Bookings.antt =====
-- Bookings and payments: apps/api/src/modules/bookings.
pub mod Model
pub mod View
pub mod Inventory
pub mod Webhook
pub mod Handler
pub mod Cases
pub mod Balance
pub mod Settlement
pub mod Capture
pub mod Replay
pub mod Fulfillment
pub mod Provider
pub mod Attempts
pub mod Issue
pub mod Sale
pub mod Idempotency
pub mod Initialize
pub mod Checkout
pub mod Create
pub mod Items
pub mod Priced
pub mod Resubmit
pub mod Workers
pub mod Expiry
pub mod Passes
mod Examples
mod Samples
