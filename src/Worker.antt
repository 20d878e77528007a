-- ===== src/Worker.antt =====
-- rust/core-bridge/src/worker_bridge.rs, around the ledger: the ready queues with their readiness
-- signals, the two poll lanes, the handoff to OCaml, the completion handlers and shutdown.
pub mod Core
pub mod Completion
pub mod Completed
pub mod Readiness
pub mod Queue
pub mod Lanes
pub mod Accounting
pub mod ActivityAccounting
pub mod Handoff
pub mod Retirement
pub mod Dispose
pub mod Answers
pub mod Disposed
pub mod Retired
pub mod Handed
pub mod HandedTasks
pub mod Replayed
pub mod Settled
pub mod Drain
pub mod Drained
mod PassTests
mod Tests
