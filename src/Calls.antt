-- ===== src/Calls.antt =====
-- rust/core-bridge/src/client_calls.rs: the registry of submitted client calls.
mod State
mod System
mod Registry
mod Consistent
mod Invariant
mod History
mod Runs
mod Await
mod Once
mod Release
mod Owned
mod Mailbox
mod OwnerRelease
mod Isolation
mod Limits
mod Tests
