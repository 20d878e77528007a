-- ===== src/Worker/Core.antt =====
-- rust/core-bridge/src/worker_bridge.rs, what passes between the bridge and Core. Core itself is
-- not modelled: its polls and answers are arguments, and what is handed to it is a list.
use ocaml_temporal.Base.{ℕ, Bool, true, false, Option, none, some, Result, Bytes}
use ocaml_temporal.Ledger.State.{AdmitError, CompleteError, ActivityAdmission, unknown_activity}

-- A workflow activation, as far as the lanes read it.
pub record WorkflowActivation : Type 0 where
  pub run_id : Bytes
  pub is_only_eviction : Bool

-- `None` is a task with no variant.
pub record ActivityTask : Type 0 where
  pub task_token : Bytes
  pub variant : Option ActivityAdmission

-- A completion handed to Core. Activities that the bridge retires carry a failure, or a
-- cancellation for a local activity; the two are not told apart.
pub data Sent : Type 0 where
  workflow_completed workflow_empty workflow_failed : Bytes → Sent
  activity_completed activity_retired : Bytes → Sent

pub data PollLaneError : Type 0 where
  core : Bytes → PollLaneError
  admission : AdmitError → PollLaneError
  duplicate_identity invalid_activity_variant : PollLaneError

-- The texts of Core's errors are left out.
pub data WorkerBridgeError : Type 0 where
  completion : CompleteError → WorkerBridgeError
  core_workflow core_activity retryable_activity_completion : WorkerBridgeError
  outstanding_tasks : ℕ → WorkerBridgeError
  lost_poll_lease worker_still_shared completion_stranded core_wait_timed_out : WorkerBridgeError

-- How a wait for Core's answer to a workflow completion ends. An unbounded wait ends by `finished`.
pub data GuardedCompletion : Type 0 where
  finished : Bool → GuardedCompletion
  stranded timed_out : GuardedCompletion

-- The message of a ready queue.
abbrev pub ReadyTask : Type 0 → Type 0
ReadyTask T = Result PollLaneError T

abbrev is_cancel_variant : Option ActivityAdmission → Bool
is_cancel_variant none = false
is_cancel_variant (some ActivityAdmission.start) = false
is_cancel_variant (some ActivityAdmission.cancel) = true

abbrev pub is_cancel_task : ActivityTask → Bool
is_cancel_task task = is_cancel_variant task.variant

unfoldable pub is_stale_activity_cancellation : ActivityTask → CompleteError → Bool
is_stale_activity_cancellation task unknown_activity = is_cancel_task task
is_stale_activity_cancellation task _ = false

-- `complete_workflow_for_dispose` and `complete_workflow_for_shutdown`: an eviction is
-- acknowledged, any other activation is failed.
abbrev pub retirement : Bytes → Bool → Sent
retirement run_id true = workflow_empty run_id
retirement run_id false = workflow_failed run_id
