-- ===== src/Workflow/Types.antt =====
-- rust/core-bridge/src/workflow_protocol.rs: the semantic types of an activation. A `BTreeMap` is a
-- list of its entries, machine integers are signed or natural numbers.
use ocaml_temporal.Base.{ℕ, ℤ, Bool, Option, List, Bytes}

-- One constructor for each kind of refusal; its path and text are left out.
pub data SemanticError : Type 0 where
  bad_identifier text_limit bad_nanoseconds negative_duration long_duration : SemanticError
  bad_decimal zero_interval intervals_out_of_order bad_coefficient : SemanticError
  negative_attempts bad_error_type payload_limit bad_metadata_key : SemanticError
  negative_event_id bad_fairness_key zero_timeout : SemanticError
  eviction_not_alone missing_timestamp initialize_not_first queries_mixed : SemanticError
  duplicate_query_id bad_attempt duplicate_update_id bad_update_meta : SemanticError
  versioned_failure commands_with_failure terminal_not_last missing_timeout : SemanticError
  long_task_timeout timeouts_out_of_order bad_reason bad_priority : SemanticError
  mixed_patch_modes bad_update_phase : SemanticError

pub record Payload : Type 0 where
  pub metadata : List (Bytes × Bytes)
  pub body : Bytes

abbrev pub Fields : Type 0
Fields = List (Bytes × Payload)

pub record Timestamp : Type 0 where
  pub seconds : ℤ
  pub nanoseconds : ℤ

pub record Duration : Type 0 where
  pub seconds : ℤ
  pub nanoseconds : ℤ

pub record RetryPolicy : Type 0 where
  pub initial_interval : Duration
  pub backoff_coefficient_bits : Bytes
  pub maximum_interval : Duration
  pub maximum_attempts : ℤ
  pub non_retryable_error_types : List Bytes

pub record WorkflowExecution : Type 0 where
  pub workflow_id : Bytes
  pub run_id : Bytes

pub record NamespacedWorkflowExecution : Type 0 where
  pub namespace : Bytes
  pub workflow_id : Bytes
  pub run_id : Bytes

pub record WorkflowPriority : Type 0 where
  pub priority_key : ℤ
  pub fairness_key : Bytes
  pub fairness_weight_bits : ℕ

pub record UpdateMeta : Type 0 where
  pub identity : Bytes
  pub update_id : Bytes

pub data ContinueAsNewInitiator : Type 0 where
  unspecified_initiator workflow_initiator retry_initiator cron_initiator : ContinueAsNewInitiator

pub data RetryState : Type 0 where
  unspecified_state in_progress non_retryable_failure timeout_state : RetryState
  maximum_attempts_reached retry_policy_not_set internal_server_error : RetryState
  cancel_requested : RetryState

pub data TimeoutType : Type 0 where
  unspecified_timeout start_to_close schedule_to_start schedule_to_close heartbeat : TimeoutType

pub data ApplicationFailureCategory : Type 0 where
  unspecified_category benign : ApplicationFailureCategory

pub data NexusHandlerRetryBehavior : Type 0 where
  unspecified_behavior retryable non_retryable : NexusHandlerRetryBehavior

pub record NexusOperationFailure : Type 0 where
  pub scheduled_event_id : ℤ
  pub endpoint : Bytes
  pub service : Bytes
  pub operation : Bytes
  pub operation_id : Bytes
  pub operation_token : Bytes

-- The fields of a constructor stand in the order of the source.
pub data FailureInfo : Type 0 where
  application :
      Bytes → Bool → List Payload → ApplicationFailureCategory → Option Duration → FailureInfo
  canceled : List Payload → Bytes → FailureInfo
  terminated : Bytes → FailureInfo
  activity_failure : ℤ → ℤ → Bytes → Bytes → Bytes → RetryState → FailureInfo
  child_workflow : Bytes → Bytes → Bytes → Bytes → ℤ → ℤ → RetryState → FailureInfo
  timeout : TimeoutType → List Payload → FailureInfo
  server : Bool → FailureInfo
  reset_workflow : List Payload → FailureInfo
  nexus_operation : NexusOperationFailure → FailureInfo
  nexus_handler : Bytes → NexusHandlerRetryBehavior → FailureInfo
  absent : FailureInfo

-- A failure without its cause.
pub record FailureLayer : Type 0 where
  pub message : Bytes
  pub source : Bytes
  pub stack_trace : Bytes
  pub encoded_attributes : Option Payload
  pub info : FailureInfo

pub data Failure : Type 0 where
  root_failure : FailureLayer → Failure
  caused_by : FailureLayer → Failure → Failure

pub record Continuation : Type 0 where
  pub continued_from_execution_run_id : Bytes
  pub initiator : ContinueAsNewInitiator
  pub continued_failure : Option Failure
  pub last_completion_result : Option (List Payload)

pub record InitializeContext : Type 0 where
  pub headers : Fields
  pub memo : Option Fields
  pub search_attributes : Option Fields
  pub workflow_execution_expiration_time : Option Timestamp
  pub first_workflow_task_backoff : Option Duration
  pub identity : Bytes
  pub parent_workflow : Option NamespacedWorkflowExecution
  pub workflow_execution_timeout : Option Duration
  pub workflow_run_timeout : Option Duration
  pub workflow_task_timeout : Option Duration
  pub first_execution_run_id : Bytes
  pub start_time : Option Timestamp
  pub root_workflow : Option WorkflowExecution
  pub priority : Option WorkflowPriority
  pub retry_policy : Option RetryPolicy
  pub continuation : Option Continuation

pub data ActivityResolution : Type 0 where
  activity_completed : Option Payload → ActivityResolution
  activity_failed activity_cancelled : Failure → ActivityResolution
  activity_backoff : ℕ → Duration → Option Timestamp → ActivityResolution

pub data ChildWorkflowStartFailureCause : Type 0 where
  unspecified_cause workflow_already_exists : ChildWorkflowStartFailureCause

pub data ChildWorkflowStartResolution : Type 0 where
  start_succeeded : Bytes → ChildWorkflowStartResolution
  start_failed : Bytes → Bytes → ChildWorkflowStartFailureCause → ChildWorkflowStartResolution
  start_cancelled : Failure → ChildWorkflowStartResolution

pub data ChildWorkflowResolution : Type 0 where
  child_completed : Option Payload → ChildWorkflowResolution
  child_failed child_cancelled : Failure → ChildWorkflowResolution

pub data ExternalWorkflowResolution : Type 0 where
  external_succeeded : ExternalWorkflowResolution
  external_failed : Failure → ExternalWorkflowResolution

pub data EvictionReason : Type 0 where
  unspecified_reason cache_full cache_miss nondeterminism lang_fail lang_requested : EvictionReason
  task_not_found unhandled_command fatal pagination_or_history_fetch : EvictionReason
  workflow_execution_ending : EvictionReason

pub record Initialization : Type 0 where
  pub workflow_id : Bytes
  pub workflow_type : Bytes
  pub arguments : List Payload
  pub randomness_seed : Bytes
  pub attempt : ℤ
  pub context : Option InitializeContext

pub record Update : Type 0 where
  pub id : Bytes
  pub protocol_instance_id : Bytes
  pub name : Bytes
  pub input : List Payload
  pub headers : Fields
  pub meta : UpdateMeta
  pub run_validator : Bool

pub data ActivationJob : Type 0 where
  initialize_workflow : Initialization → ActivationJob
  resolve_activity : ℕ → ActivityResolution → ActivationJob
  resolve_child_workflow_start : ℕ → ChildWorkflowStartResolution → ActivationJob
  resolve_child_workflow : ℕ → ChildWorkflowResolution → ActivationJob
  resolve_signal_external_workflow : ℕ → ExternalWorkflowResolution → ActivationJob
  resolve_request_cancel_external_workflow : ℕ → ExternalWorkflowResolution → ActivationJob
  signal_workflow : Bytes → List Payload → Bytes → Fields → ActivationJob
  query_workflow : Bytes → Bytes → List Payload → Fields → ActivationJob
  do_update : Update → ActivationJob
  notify_has_patch : Bytes → ActivationJob
  update_random_seed : Bytes → ActivationJob
  fire_timer : ℕ → ActivationJob
  cancel_workflow : Bytes → ActivationJob
  remove_from_cache : Bytes → EvictionReason → ActivationJob

pub record WorkerDeploymentVersion : Type 0 where
  pub deployment_name : Bytes
  pub build_id : Bytes

pub data SuggestContinueAsNewReason : Type 0 where
  unspecified_suggestion history_size_too_large too_many_history_events : SuggestContinueAsNewReason
  too_many_updates : SuggestContinueAsNewReason

pub record ActivationMetadata : Type 0 where
  pub available_internal_flags : List ℕ
  pub history_size_bytes : Bytes
  pub continue_as_new_suggested : Bool
  pub deployment_version_for_current_task : Option WorkerDeploymentVersion
  pub last_sdk_version : Bytes
  pub suggest_continue_as_new_reasons : List SuggestContinueAsNewReason
  pub target_worker_deployment_version_changed : Bool

pub record Activation : Type 0 where
  pub run_id : Bytes
  pub timestamp : Option Timestamp
  pub is_replaying : Bool
  pub history_length : ℕ
  pub jobs : List ActivationJob
  pub metadata : Option ActivationMetadata
