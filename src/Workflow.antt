-- ===== src/Workflow.antt =====
-- rust/core-bridge/src/workflow_protocol.rs: activations, completions and their validation.
mod Types
mod Validators
mod Activations
mod Structure
mod Commands
mod Completions
mod Responses
mod Accepted
mod Tests
