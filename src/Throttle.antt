-- ===== src/Throttle.antt =====
-- rust/core-bridge/src/heartbeat_throttle.rs: throttled heartbeats of asynchronous activities.
pub mod State
pub mod System
pub mod Cases
pub mod Owned
pub mod Preserved
pub mod Latest
pub mod Bounds
mod Tests
