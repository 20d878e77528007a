-- ===== src/Protocol.antt =====
-- rust/core-bridge/src/protocol.rs: the JSON control protocol between the bridge and OCaml.
pub mod Json
pub mod Limits
pub mod Preflight
pub mod Measured
pub mod Scanned
pub mod Envelope
pub mod RoundTrip
pub mod Rendering
pub mod Documents
pub mod Stable
mod Tests
mod StableTests
