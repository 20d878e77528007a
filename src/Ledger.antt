-- ===== src/Ledger.antt =====
-- rust/core-bridge/src/worker_bridge.rs, `TaskLedger`: the Core tasks owed a completion.
pub mod State
pub mod Workflows
pub mod Activities
pub mod Drain
pub mod Invariant
pub mod Cases
pub mod Calls
pub mod Preserved
pub mod Taken
pub mod Shutdown
pub mod Disposal
pub mod Lifecycle
pub mod Steps
pub mod History
pub mod Finalize
mod Tests
