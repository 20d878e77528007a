-- ===== src/Abi/WorkerInput.antt =====
-- rust/core-bridge/src/abi.rs: the worker document as it is read, and what is handed to Core's
-- builder. A 64-bit float is its bits, a duration a number of milliseconds, and `usize` has 64 bits.
use ocaml_temporal.Base.{ℕ, Bool, Option, Bytes}

pub data WorkerVersioningInput : Type 0 where
  unversioned : WorkerVersioningInput
  legacy_build_id : Bytes → WorkerVersioningInput
  deployment_based : Bytes → Bytes → Bool → Option Bytes → WorkerVersioningInput

pub record PollerAutoscalingInput : Type 0 where
  pub minimum : ℕ
  pub maximum : ℕ
  pub initial : ℕ

pub record WorkerTaskTypesInput : Type 0 where
  pub workflows : Bool
  pub activities : Bool

pub record WorkerTuningInput : Type 0 where
  pub workflow_task_poller_autoscaling : Option PollerAutoscalingInput
  pub sticky_queue_schedule_to_start_timeout_ms : Option ℕ
  pub max_heartbeat_throttle_interval_ms : Option ℕ
  pub default_heartbeat_throttle_interval_ms : Option ℕ
  pub max_worker_activities_per_second : Option ℕ
  pub max_task_queue_activities_per_second : Option ℕ

pub record WorkerConfigInput : Type 0 where
  pub namespace : Bytes
  pub task_queue : Bytes
  pub build_id : Bytes
  pub versioning : WorkerVersioningInput
  pub max_cached_workflows : ℕ
  pub max_outstanding_workflow_tasks : ℕ
  pub max_concurrent_workflow_task_polls : ℕ
  pub graceful_shutdown_timeout_ms : ℕ
  pub task_types : WorkerTaskTypesInput
  pub tuning : WorkerTuningInput

pub data VersioningBehavior : Type 0 where
  versioning_auto_upgrade versioning_pinned : VersioningBehavior

pub data WorkerVersioningStrategy : Type 0 where
  no_versioning : Bytes → WorkerVersioningStrategy
  legacy_build_id_based : Bytes → WorkerVersioningStrategy
  worker_deployment_based :
      Bytes → Bytes → Bool → Option VersioningBehavior → WorkerVersioningStrategy

pub data PollerBehavior : Type 0 where
  simple_maximum : ℕ → PollerBehavior
  autoscaling : PollerAutoscalingInput → PollerBehavior

pub record ValidatedTuning : Type 0 where
  pub sticky_queue_schedule_to_start_timeout : ℕ
  pub max_heartbeat_throttle_interval : ℕ
  pub default_heartbeat_throttle_interval : ℕ
  pub max_worker_activities_per_second : Option ℕ
  pub max_task_queue_activities_per_second : Option ℕ

pub record WorkerTaskTypes : Type 0 where
  pub enable_workflows : Bool
  pub enable_local_activities : Bool
  pub enable_remote_activities : Bool
  pub enable_nexus : Bool

-- The arguments of the builder that depend on the document.
pub record BuilderInput : Type 0 where
  pub namespace : Bytes
  pub task_queue : Bytes
  pub max_cached_workflows : ℕ
  pub max_outstanding_workflow_tasks : ℕ
  pub workflow_task_poller_behavior : PollerBehavior
  pub tuning : ValidatedTuning
  pub graceful_shutdown_period : ℕ
  pub versioning_strategy : WorkerVersioningStrategy
  pub task_types : WorkerTaskTypes
