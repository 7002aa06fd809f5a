-- ===== src/Events.antt =====
-- Events and their sale: apps/api/src/modules/events.
pub mod Lifecycle
pub mod Model
pub mod Service
pub mod Progress
pub mod Runs
pub mod Course
mod Examples
