-- ===== src/Abi/Prepared.antt =====
-- rust/core-bridge/src/abi.rs: the parts of the worker configuration, and what Core may rely on.
use Prim.Native.Nat.{max}
use ocaml_temporal.Abi.Config.{
  default_behavior, versioning_strategy, validate_identifier, poll_lanes_for, bridge_task_types,
  max_worker_count, has_few_polls, max_graceful_shutdown_ms, check_counts, validate_count,
  word_auto_upgrade, word_pinned, configuration_failure, workflow_task_slots,
  workflow_task_poller_behavior,
}
use ocaml_temporal.Abi.WorkerInput.{
  WorkerVersioningStrategy, no_versioning, legacy_build_id_based, worker_deployment_based,
  WorkerVersioningInput, unversioned, legacy_build_id, deployment_based, WorkerTaskTypes,
  PollerBehavior, simple_maximum, autoscaling, WorkerConfigInput, BuilderInput,
  versioning_auto_upgrade, versioning_pinned,
}
use ocaml_temporal.Abi.Configured.{
  Yields, Yields-bind, Yields-seq, Yields-refuse, refuse_if_lem, IsName, validate_identifier_lem,
  validate_count_lem, IsTuning, IsScaling, poller_lem,
}
use ocaml_temporal.Base.{
  ◌≡◌, ℕ, Bool, Bytes, ok, ltb, true, false, Option, none, some, is_some, not, ◌&&◌, ◌≤◌, refl,
  arith, bytes_eq, bytes_eq_iff, inl, inr, ◌⊎◌, err, if◌then◌else◌,
}

-- The worker's own build id is the one it is routed by, and a default behavior stands exactly with
-- worker versioning.
abbrev pub IsStrategy : Bytes → WorkerVersioningStrategy → Type 0
IsStrategy own (no_versioning build_id) = build_id ≡ own
IsStrategy own (legacy_build_id_based build_id) = build_id ≡ own
IsStrategy own (worker_deployment_based name build_id used behavior) =
    IsName name × (build_id ≡ own) × (is_some behavior ≡ used)

default_behavior_lem : (o : Option Bytes) → Yields (λ _. Unit {0}) (default_behavior o)
default_behavior_lem none = tt
default_behavior_lem (some v) = go (bytes_eq v word_auto_upgrade) (bytes_eq v word_pinned)
  where
    go :
        (upgrade pin : Bool)
        → Yields
            (λ _. Unit {0})
            (if upgrade
              then ok (some versioning_auto_upgrade)
              else if pin
              then ok (some versioning_pinned)
              else err configuration_failure)
    go true pin = tt
    go false true = tt
    go false false = refl

pub versioning_strategy_lem :
    (own : Bytes) (v : WorkerVersioningInput) → Yields (IsStrategy own) (versioning_strategy own v)
unfolding versioning_strategy
versioning_strategy_lem own unversioned = refl
versioning_strategy_lem own (legacy_build_id build_id) =
    Yields-seq (IsName build_id) (IsStrategy own) (validate_identifier build_id) _
      (validate_identifier_lem build_id)
      λ _.
        Yields-refuse (IsStrategy own) (not (bytes_eq build_id own))
          (ok (legacy_build_id_based build_id)) λ e. ground (arith, e, bytes_eq_iff build_id own)
versioning_strategy_lem own (deployment_based name build_id used behavior) =
    Yields-seq (IsName name) (IsStrategy own) (validate_identifier name) _
      (validate_identifier_lem name)
      λ named.
        Yields-seq (IsName build_id) (IsStrategy own) (validate_identifier build_id) _
          (validate_identifier_lem build_id)
          λ _. Yields-refuse (IsStrategy own) (not (bytes_eq build_id own)) _ λ e.
            Yields-bind (λ _. Unit {0}) (IsStrategy own) (default_behavior behavior) _
              (default_behavior_lem behavior)
              λ b _. Yields-refuse (IsStrategy own) (not used && is_some b) _ λ f.
                Yields-refuse (IsStrategy own) (used && not (is_some b))
                  (ok (worker_deployment_based name build_id used b))
                  λ g. (named, ground (arith, e, bytes_eq_iff build_id own), ground (arith, f, g))

-- Each kind of task that is polled has its lane, and one is polled.
abbrev pub IsPolled : WorkerTaskTypes → Type 0
IsPolled t =
    (t.enable_workflows ≡ true ⊎ t.enable_remote_activities ≡ true)
    × (t.enable_local_activities ≡ t.enable_workflows)
    × (t.enable_nexus ≡ false)
    × (poll_lanes_for t ≡ (t.enable_workflows, true))

pub task_types_lem : (w a : Bool) → Yields IsPolled (bridge_task_types w a)
unfolding bridge_task_types poll_lanes_for
task_types_lem true true = (inl refl, refl, refl, refl)
task_types_lem true false = (inl refl, refl, refl, refl)
task_types_lem false true = (inr refl, refl, refl, refl)
task_types_lem false false = refl

pub record IsCounted (i : WorkerConfigInput) : Type 0 where
  pub cached_is_bounded : i.max_cached_workflows ≤ max_worker_count
  pub tasks_are_bounded :
      (1 ≤ i.max_outstanding_workflow_tasks) × (i.max_outstanding_workflow_tasks ≤ max_worker_count)
  pub polls_are_bounded :
      (1 ≤ i.max_concurrent_workflow_task_polls)
      × (i.max_concurrent_workflow_task_polls ≤ max_worker_count)
  pub polls_suffice : has_few_polls i ≡ false
  pub grace_is_bounded : i.graceful_shutdown_timeout_ms ≤ max_graceful_shutdown_ms

pub check_counts_lem : (i : WorkerConfigInput) → Yields (λ _. IsCounted i) (check_counts i)
check_counts_lem i =
    Yields-seq _ (λ _. IsCounted i) (validate_count i.max_cached_workflows true) _
      (validate_count_lem i.max_cached_workflows true)
      λ (a, _).
        Yields-seq _ (λ _. IsCounted i) (validate_count i.max_outstanding_workflow_tasks false) _
          (validate_count_lem i.max_outstanding_workflow_tasks false)
          λ (b, b1).
            Yields-seq _ (λ _. IsCounted i)
              (validate_count i.max_concurrent_workflow_task_polls false) _
              (validate_count_lem i.max_concurrent_workflow_task_polls false)
              λ (c, c1).
                Yields-refuse (λ _. IsCounted i) (has_few_polls i) _
                  λ d.
                    refuse_if_lem (IsCounted i)
                      (ltb max_graceful_shutdown_ms i.graceful_shutdown_timeout_ms)
                      λ e. record {
                        cached_is_bounded = a;
                        tasks_are_bounded = (b1 refl, b);
                        polls_are_bounded = (c1 refl, c);
                        polls_suffice = d;
                        grace_is_bounded = ground (arith, e);
                      }

-- The poller has the document's limit, or scales up to it.
abbrev pub IsPoller : ℕ → ℕ → PollerBehavior → Type 0
IsPoller cached polls (simple_maximum n) = (n ≡ polls) × (1 ≤ cached → 2 ≤ n)
IsPoller cached polls (autoscaling a) = IsScaling polls a

-- What Core may rely on in the arguments of its builder.
pub record IsBuilderInput (i : WorkerConfigInput) (b : BuilderInput) : Type 0 where
  pub is_named : (b.namespace ≡ i.namespace) × (b.task_queue ≡ i.task_queue)
  pub namespace_is_name : IsName b.namespace
  pub task_queue_is_name : IsName b.task_queue
  pub strategy_is_own : IsName i.build_id × IsStrategy i.build_id b.versioning_strategy
  pub cache_is_bounded : b.max_cached_workflows ≤ max_worker_count
  pub slots_are_bounded :
      (1 ≤ b.max_outstanding_workflow_tasks) × (b.max_outstanding_workflow_tasks ≤ max_worker_count)
  pub slots_fit_cache :
      1 ≤ b.max_cached_workflows → b.max_outstanding_workflow_tasks ≤ max b.max_cached_workflows 2
  pub poller_is_bounded :
      (1 ≤ i.max_concurrent_workflow_task_polls)
      × (i.max_concurrent_workflow_task_polls ≤ max_worker_count)
      × IsPoller b.max_cached_workflows i.max_concurrent_workflow_task_polls
          b.workflow_task_poller_behavior
  pub tuning_is_bounded : IsTuning b.tuning
  pub grace_is_bounded : b.graceful_shutdown_period ≤ max_graceful_shutdown_ms
  pub tasks_are_polled : IsPolled b.task_types

pub slots_lem :
    (cached outstanding : ℕ)
    → (1 ≤ outstanding)
    → (1 ≤ workflow_task_slots cached outstanding)
      × (workflow_task_slots cached outstanding ≤ outstanding)
      × (1 ≤ cached → workflow_task_slots cached outstanding ≤ max cached 2)
slots_lem cached outstanding h = ground (arith, h)

pub worker_poller_lem :
    (i : WorkerConfigInput)
    → has_few_polls i ≡ false
    → Yields (IsPoller i.max_cached_workflows i.max_concurrent_workflow_task_polls) (
        workflow_task_poller_behavior i.tuning.workflow_task_poller_autoscaling
          i.max_concurrent_workflow_task_polls)
worker_poller_lem i h =
    poller_lem _ i.tuning.workflow_task_poller_autoscaling i.max_concurrent_workflow_task_polls
      (λ e. (refl, λ c. ground (arith, h, e, c))) λ a scaling. scaling
