-- ===== src/Workflow/Commands.antt =====
-- rust/core-bridge/src/workflow_protocol.rs: the commands of a completion.
use ocaml_temporal.Base.{ℕ, Bool, Option, List, Bytes}
use ocaml_temporal.Workflow.Types.{
  Payload, Fields, Timestamp, Duration, RetryPolicy, WorkflowPriority, Failure,
}

pub data ActivityCancellationType : Type 0 where
  try_cancel wait_cancellation_completed abandon : ActivityCancellationType

pub data ChildWorkflowCancellationType : Type 0 where
  child_try_cancel child_wait_cancellation_completed child_abandon : ChildWorkflowCancellationType
  child_wait_cancellation_requested : ChildWorkflowCancellationType

pub data ChildWorkflowParentClosePolicy : Type 0 where
  terminate_child abandon_child request_cancel : ChildWorkflowParentClosePolicy

pub data ChildWorkflowIdReusePolicy : Type 0 where
  allow_duplicate allow_duplicate_failed_only reject_duplicate : ChildWorkflowIdReusePolicy

pub record ScheduleActivity : Type 0 where
  pub seq : ℕ
  pub activity_id : Bytes
  pub activity_type : Bytes
  pub task_queue : Bytes
  pub arguments : List Payload
  pub schedule_to_close_timeout : Option Duration
  pub schedule_to_start_timeout : Option Duration
  pub start_to_close_timeout : Option Duration
  pub heartbeat_timeout : Option Duration
  pub retry_policy : Option RetryPolicy
  pub priority : Option WorkflowPriority
  pub cancellation_type : ActivityCancellationType
  pub do_not_eagerly_execute : Bool

pub record ScheduleLocalActivity : Type 0 where
  pub seq : ℕ
  pub activity_id : Bytes
  pub activity_type : Bytes
  pub attempt : ℕ
  pub original_schedule_time : Option Timestamp
  pub arguments : List Payload
  pub schedule_to_close_timeout : Option Duration
  pub schedule_to_start_timeout : Option Duration
  pub start_to_close_timeout : Option Duration
  pub retry_policy : Option RetryPolicy
  pub local_retry_threshold : Option Duration
  pub cancellation_type : ActivityCancellationType

pub record StartChildWorkflow : Type 0 where
  pub seq : ℕ
  pub task_queue : Option Bytes
  pub parent_close_policy : Option ChildWorkflowParentClosePolicy
  pub workflow_id : Bytes
  pub workflow_type : Bytes
  pub input : List Payload
  pub retry_policy : Option RetryPolicy
  pub cancellation_type : ChildWorkflowCancellationType
  pub execution_timeout : Option Duration
  pub run_timeout : Option Duration
  pub task_timeout : Option Duration
  pub id_reuse_policy : Option ChildWorkflowIdReusePolicy

pub record SignalExternalWorkflow : Type 0 where
  pub seq : ℕ
  pub workflow_id : Bytes
  pub run_id : Bytes
  pub signal_name : Bytes
  pub input : List Payload
  pub child_workflow_only : Bool
  pub headers : Fields

pub data QueryResult : Type 0 where
  query_succeeded : Payload → QueryResult
  query_failed : Failure → QueryResult

pub data UpdateResponseResult : Type 0 where
  update_accepted : UpdateResponseResult
  update_rejected : Failure → UpdateResponseResult
  update_completed : Payload → UpdateResponseResult

-- The fields of a constructor stand in the order of the source.
pub data CompletionCommand : Type 0 where
  schedule_activity : ScheduleActivity → CompletionCommand
  schedule_local_activity : ScheduleLocalActivity → CompletionCommand
  start_child_workflow : StartChildWorkflow → CompletionCommand
  cancel_child_workflow : ℕ → Bytes → CompletionCommand
  signal_external_workflow : SignalExternalWorkflow → CompletionCommand
  request_cancel_external_workflow : ℕ → Bytes → Bytes → Bytes → CompletionCommand
  request_cancel_activity request_cancel_local_activity : ℕ → CompletionCommand
  start_timer : ℕ → Duration → CompletionCommand
  cancel_timer : ℕ → CompletionCommand
  complete_workflow : Option Payload → CompletionCommand
  fail_workflow : Failure → CompletionCommand
  continue_as_new : Bytes → List Payload → CompletionCommand
  cancel_workflow_execution : CompletionCommand
  query_result : Bytes → QueryResult → CompletionCommand
  update_response : Bytes → UpdateResponseResult → CompletionCommand
  set_patch_marker : Bytes → Bool → CompletionCommand
  upsert_search_attributes : Fields → CompletionCommand

pub data CompletionVersioningBehavior : Type 0 where
  pinned auto_upgrade : CompletionVersioningBehavior

pub record Completion : Type 0 where
  pub run_id : Bytes
  pub commands : List CompletionCommand
  pub task_failure : Option Failure
  pub versioning_behavior : Option CompletionVersioningBehavior
