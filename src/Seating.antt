-- ===== src/Seating.antt =====
-- Seat holds: apps/api/src/modules/seating.
pub mod Redis
pub mod Holds
pub mod Checks
pub mod Owned
pub mod Service
pub mod Change
pub mod Keys
pub mod Scripts
pub mod Exclusion
pub mod Selection
pub mod Ownership
pub mod Checkout
pub mod Replay
pub mod Availability
pub mod Examples
