-- ===== src/Abi/Tests.antt =====
-- Runs of the worker configuration, and an example for its theorem.
use ocaml_temporal.Abi.Configured.{Yields}
use ocaml_temporal.Abi.Prepared.{IsBuilderInput}
use ocaml_temporal.Abi.Built.{into_core-IsBuilderInput}
use ocaml_temporal.Abi.Config.{
  into_core, check_worker, validate_identifier, versioning_strategy, validate_count,
  workflow_task_poller_behavior, validated, tuning_duration, worker_rate, tuning_rate,
  bridge_task_types, word_pinned, word_auto_upgrade, configuration_failure,
}
use ocaml_temporal.Abi.WorkerInput.{
  PollerAutoscalingInput, WorkerTuningInput, WorkerConfigInput, deployment_based, BuilderInput,
}
use ocaml_temporal.Base.Map.{elem}
use ocaml_temporal.Base.{
  ◌≡◌, ℕ, Bytes, [], ◌∷◌, Option, none, some, ok, err, refl, true, false, nat_eq,
}

abbrev sample_name : Bytes
sample_name = 97 ∷ []

abbrev sample_tuning : Option PollerAutoscalingInput → WorkerTuningInput
sample_tuning scaling = record {
  workflow_task_poller_autoscaling = scaling;
  sticky_queue_schedule_to_start_timeout_ms = none;
  max_heartbeat_throttle_interval_ms = some 1000;
  default_heartbeat_throttle_interval_ms = some 500;
  max_worker_activities_per_second = some 4607182418800017408;
  max_task_queue_activities_per_second = none;
}

abbrev sample_worker : ℕ → ℕ → Option PollerAutoscalingInput → Option Bytes → WorkerConfigInput
sample_worker cached polls scaling behavior = record {
  namespace = sample_name;
  task_queue = sample_name;
  build_id = sample_name;
  versioning = deployment_based sample_name sample_name true behavior;
  max_cached_workflows = cached;
  max_outstanding_workflow_tasks = 100;
  max_concurrent_workflow_task_polls = polls;
  graceful_shutdown_timeout_ms = 1000;
  task_types = record { workflows = true; activities = false };
  tuning = sample_tuning scaling;
}

abbrev slots_of : BuilderInput → Option ℕ
slots_of b = some b.max_outstanding_workflow_tasks

-- The slots are cut down to the cache.
test_slots : into_core slots_of (sample_worker 10 5 none (some word_pinned)) ≡ ok 10
unfolding into_core check_worker validate_identifier versioning_strategy validate_count
    workflow_task_poller_behavior validated tuning_duration worker_rate tuning_rate
    bridge_task_types elem
test_slots = refl

test_one_poller :
    into_core slots_of (sample_worker 10 1 none (some word_pinned)) ≡ err configuration_failure
unfolding into_core check_worker validate_identifier versioning_strategy validate_count
    workflow_task_poller_behavior validated tuning_duration worker_rate tuning_rate
    bridge_task_types elem
test_one_poller = refl

test_scaling :
    into_core slots_of (
      sample_worker 10 1
        (some (record { minimum = 1; maximum = 1; initial = 1 }))
        (some word_auto_upgrade))
    ≡ ok 10
unfolding into_core check_worker validate_identifier versioning_strategy validate_count
    workflow_task_poller_behavior validated tuning_duration worker_rate tuning_rate
    bridge_task_types elem
test_scaling = refl

test_no_default : into_core slots_of (sample_worker 10 5 none none) ≡ err configuration_failure
unfolding into_core check_worker validate_identifier versioning_strategy validate_count
    workflow_task_poller_behavior validated tuning_duration worker_rate tuning_rate
    bridge_task_types elem
test_no_default = refl

into_core-IsBuilderInput_example :
    Yields
      (λ c.
        (b : BuilderInput) × (slots_of b ≡ some c)
        × IsBuilderInput (sample_worker 10 5 none (some word_pinned)) b)
      (into_core slots_of (sample_worker 10 5 none (some word_pinned)))
into_core-IsBuilderInput_example =
    into_core-IsBuilderInput slots_of (sample_worker 10 5 none (some word_pinned))
