-- ===== src/Abi/Status.antt =====
-- rust/core-bridge/src/abi.rs: statuses and failures. A failure's message is left out.
use ocaml_temporal.Base.{ℕ, Bytes, Result}

abbrev pub status_panic : ℕ
status_panic = 3

abbrev pub status_internal : ℕ
status_internal = 4

abbrev pub status_invalid_state : ℕ
status_invalid_state = 5

abbrev pub status_configuration : ℕ
status_configuration = 6

abbrev pub status_not_ready : ℕ
status_not_ready = 10

pub record Failure : Type 0 where
  pub status : ℕ

abbrev pub Operation : Type 0
Operation = Result Failure Bytes
