-- ===== src/Api.antt =====
-- The API types: the kombiner group (PlacementRequest) and the controller's configuration.
pub mod Placement
pub mod Config
pub mod Scheduler
pub mod DeepCopy
mod Tests
