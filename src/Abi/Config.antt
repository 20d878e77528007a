-- ===== src/Abi/Config.antt =====
-- rust/core-bridge/src/abi.rs: the checks of a worker document. Core's builder is a parameter.
use ocaml_temporal.Throttle.State.{HeartbeatIntervals}
use ocaml_temporal.Abi.WorkerInput.{
  WorkerVersioningInput, unversioned, legacy_build_id, deployment_based, PollerAutoscalingInput,
  WorkerTuningInput, WorkerConfigInput, VersioningBehavior, versioning_auto_upgrade,
  versioning_pinned, WorkerVersioningStrategy, no_versioning, legacy_build_id_based,
  worker_deployment_based, PollerBehavior, simple_maximum, autoscaling, ValidatedTuning,
  WorkerTaskTypes, BuilderInput,
}
use ocaml_temporal.Base.Map.{elem}
use ocaml_temporal.Abi.Status.{Failure, status_configuration}
use ocaml_temporal.Base.{
  ℕ, Bool, ◌/◌, ◌%◌, ◌^◌, Bytes, Result, ok, err, fail_if, length, ◌==◌, ltb, leb, true, false, not,
  ◌&&◌, ◌||◌, Option, none, some, is_some, if◌then◌else◌, ◌>>=◌, ◌>>◌, [], ◌∷◌, bytes_eq, min,
  nat_eq, ◌*◌,
}
use Prim.Native.Nat.{max}

abbrev pub configuration_failure : Failure
configuration_failure = record { status = status_configuration }

-- A test of the source that refuses the configuration.
abbrev pub refuse_if : Bool → Result Failure (Unit {0})
refuse_if b = fail_if b configuration_failure

abbrev pub max_transport_string_bytes : ℕ
max_transport_string_bytes = 65536

abbrev pub max_worker_count : ℕ
max_worker_count = 1000000

abbrev pub min_cached_workflow_polls : ℕ
min_cached_workflow_polls = 2

abbrev pub max_graceful_shutdown_ms : ℕ
max_graceful_shutdown_ms = 86400000

abbrev pub max_worker_tuning_duration_ms : ℕ
max_worker_tuning_duration_ms = 86400000

abbrev pub default_sticky_ms : ℕ
default_sticky_ms = 10000

abbrev pub default_max_heartbeat_ms : ℕ
default_max_heartbeat_ms = 60000

abbrev pub default_heartbeat_ms : ℕ
default_heartbeat_ms = 30000

unfoldable pub validate_identifier : Bytes → Result Failure (Unit {0})
validate_identifier value =
    refuse_if (length value == 0)
    >> (refuse_if (ltb max_transport_string_bytes (length value)) >> refuse_if (elem 0 value))

unfoldable pub validate_count : ℕ → Bool → Result Failure (Unit {0})
validate_count value allow_zero =
    refuse_if ((not allow_zero && value == 0) || ltb max_worker_count value)

unfoldable pub tuning_duration : Option ℕ → ℕ → Result Failure ℕ
tuning_duration none default_ms = ok default_ms
tuning_duration (some ms) default_ms =
    if leb 1 ms && leb ms max_worker_tuning_duration_ms then ok ms else err configuration_failure

-- A positive float that is normal: its exponent is neither all zeros nor all ones.
abbrev pub is_positive_normal : ℕ → Bool
is_positive_normal bits =
    let exponent = (bits / 2 ^ 52) % 2 ^ 11 in
    ltb bits (2 ^ 63) && (not (exponent == 0) && not (exponent == 2047))

unfoldable pub tuning_rate : Option ℕ → Result Failure (Option ℕ)
tuning_rate none = ok none
tuning_rate (some rate) =
    if is_positive_normal rate then ok (some rate) else err configuration_failure

-- The bits of 1 / 86400; the bits of positive floats are in the order of the floats.
abbrev pub min_worker_activities_per_second : ℕ
min_worker_activities_per_second = 4532949752942055721

abbrev pub check_worker_rate : Option ℕ → Result Failure (Option ℕ)
check_worker_rate none = ok none
check_worker_rate (some rate) =
    if ltb rate min_worker_activities_per_second then err configuration_failure else ok (some rate)

unfoldable pub worker_rate : Option ℕ → Result Failure (Option ℕ)
worker_rate value = tuning_rate value >>= check_worker_rate

abbrev pub exceeds : Option ℕ → Option ℕ → Bool
exceeds (some default) (some maximum) = ltb maximum default
exceeds _ _ = false

unfoldable pub validated : WorkerTuningInput → Result Failure ValidatedTuning
validated t =
    tuning_duration t.sticky_queue_schedule_to_start_timeout_ms default_sticky_ms >>= λ sticky.
    tuning_duration t.max_heartbeat_throttle_interval_ms default_max_heartbeat_ms
    >>= λ max_heartbeat.
        tuning_duration t.default_heartbeat_throttle_interval_ms default_heartbeat_ms
        >>= λ default_heartbeat.
            refuse_if (
              exceeds t.default_heartbeat_throttle_interval_ms t.max_heartbeat_throttle_interval_ms)
            >> (worker_rate t.max_worker_activities_per_second >>= λ worker.
                tuning_rate t.max_task_queue_activities_per_second >>= λ queue. ok (record {
                  sticky_queue_schedule_to_start_timeout = sticky;
                  max_heartbeat_throttle_interval = max_heartbeat;
                  default_heartbeat_throttle_interval = default_heartbeat;
                  max_worker_activities_per_second = worker;
                  max_task_queue_activities_per_second = queue;
                }))

-- The intervals of the heartbeat throttle, in nanoseconds.
unfoldable pub heartbeat_intervals : WorkerTuningInput → Result Failure HeartbeatIntervals
heartbeat_intervals t = validated t >>= λ tuning. ok (record {
  max_interval = tuning.max_heartbeat_throttle_interval * 1000000;
  default_interval = tuning.default_heartbeat_throttle_interval * 1000000;
})

unfoldable pub workflow_task_poller_behavior :
    Option PollerAutoscalingInput → ℕ → Result Failure PollerBehavior
workflow_task_poller_behavior none polls = ok (simple_maximum polls)
workflow_task_poller_behavior (some a) polls =
    validate_count a.minimum false
    >> (validate_count a.maximum false
        >> (refuse_if (ltb a.maximum a.minimum)
            >> (refuse_if (ltb a.initial a.minimum || ltb a.maximum a.initial)
                >> (refuse_if (not (a.maximum == polls)) >> ok (autoscaling a)))))

abbrev pub word_auto_upgrade : Bytes  -- "auto_upgrade"
word_auto_upgrade = 97 ∷ 117 ∷ 116 ∷ 111 ∷ 95 ∷ 117 ∷ 112 ∷ 103 ∷ 114 ∷ 97 ∷ 100 ∷ 101 ∷ []

abbrev pub word_pinned : Bytes  -- "pinned"
word_pinned = 112 ∷ 105 ∷ 110 ∷ 110 ∷ 101 ∷ 100 ∷ []

abbrev pub default_behavior : Option Bytes → Result Failure (Option VersioningBehavior)
default_behavior none = ok none
default_behavior (some value) =
    if bytes_eq value word_auto_upgrade
    then ok (some versioning_auto_upgrade)
    else if bytes_eq value word_pinned
    then ok (some versioning_pinned)
    else err configuration_failure

unfoldable pub versioning_strategy :
    Bytes → WorkerVersioningInput → Result Failure WorkerVersioningStrategy
versioning_strategy own unversioned = ok (no_versioning own)
versioning_strategy own (legacy_build_id build_id) =
    validate_identifier build_id
    >> (refuse_if (not (bytes_eq build_id own)) >> ok (legacy_build_id_based build_id))
versioning_strategy own (deployment_based name build_id used behavior) =
    validate_identifier name
    >> (validate_identifier build_id
        >> (refuse_if (not (bytes_eq build_id own))
            >> (default_behavior behavior >>= λ b.
                refuse_if (not used && is_some b)
                >> (refuse_if (used && not (is_some b))
                    >> ok (worker_deployment_based name build_id used b)))))

-- `bridge_task_types` of rust/core-bridge/src/worker_bridge.rs.
unfoldable pub bridge_task_types : Bool → Bool → Result Failure WorkerTaskTypes
bridge_task_types workflows activities =
    refuse_if (not workflows && not activities)
    >> ok (record {
      enable_workflows = workflows;
      enable_local_activities = workflows;
      enable_remote_activities = activities;
      enable_nexus = false;
    })

unfoldable pub poll_lanes_for : WorkerTaskTypes → Bool × Bool
poll_lanes_for t = (t.enable_workflows, t.enable_remote_activities || t.enable_local_activities)

abbrev pub workflow_task_slots : ℕ → ℕ → ℕ
workflow_task_slots cached outstanding =
    if cached == 0 then outstanding else min outstanding (max cached 2)

abbrev pub has_few_polls : WorkerConfigInput → Bool
has_few_polls i =
    ltb 0 i.max_cached_workflows
    && (not (is_some i.tuning.workflow_task_poller_autoscaling)
        && ltb i.max_concurrent_workflow_task_polls min_cached_workflow_polls)

-- The tests on the counts of the document.
abbrev pub check_counts : WorkerConfigInput → Result Failure (Unit {0})
check_counts i =
    validate_count i.max_cached_workflows true
    >> (validate_count i.max_outstanding_workflow_tasks false
        >> (validate_count i.max_concurrent_workflow_task_polls false
            >> (refuse_if (has_few_polls i)
                >> refuse_if (ltb max_graceful_shutdown_ms i.graceful_shutdown_timeout_ms))))

abbrev pub builder_input :
    WorkerConfigInput
    → WorkerVersioningStrategy
    → PollerBehavior
    → ValidatedTuning
    → WorkerTaskTypes
    → BuilderInput
builder_input i strategy behavior tuning types = record {
  namespace = i.namespace;
  task_queue = i.task_queue;
  max_cached_workflows = i.max_cached_workflows;
  max_outstanding_workflow_tasks =
      workflow_task_slots i.max_cached_workflows i.max_outstanding_workflow_tasks;
  workflow_task_poller_behavior = behavior;
  tuning = tuning;
  graceful_shutdown_period = i.graceful_shutdown_timeout_ms;
  versioning_strategy = strategy;
  task_types = types;
}

-- `into_core`, up to the call of the builder.
unfoldable pub check_worker : WorkerConfigInput → Result Failure BuilderInput
check_worker i =
    (validate_identifier i.namespace
      >> (validate_identifier i.task_queue >> validate_identifier i.build_id))
    >> (versioning_strategy i.build_id i.versioning >>= λ strategy.
        check_counts i
        >> (workflow_task_poller_behavior i.tuning.workflow_task_poller_autoscaling
              i.max_concurrent_workflow_task_polls
            >>= λ behavior. validated i.tuning >>= λ tuning.
                bridge_task_types i.task_types.workflows i.task_types.activities >>= λ types.
                ok (builder_input i strategy behavior tuning types)))

abbrev pub built : {C : Type 0} → Option C → Result Failure C
built none = err configuration_failure
built (some c) = ok c

unfoldable pub into_core :
    {C : Type 0} → (BuilderInput → Option C) → WorkerConfigInput → Result Failure C
into_core build i = check_worker i >>= λ input. built (build input)
