-- ===== src/Replay.antt =====
-- rust/core-bridge/src/replay_bridge.rs: histories for replay, and the replay worker.
mod Histories
mod Admitted
mod Worker
mod Outcome
mod Joined
mod Tests
