-- ===== src/Abi.antt =====
-- rust/core-bridge/src/abi.rs: the statuses of failures and the worker configuration.
mod Status
mod WorkerInput
mod Config
mod Configured
mod Prepared
mod Built
mod Tests
pub use Status.*
