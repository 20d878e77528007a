-- ===== src/Abi/Built.antt =====
-- rust/core-bridge/src/abi.rs: `into_core` and the call of its builder.
use ocaml_temporal.Abi.Prepared.{
  IsStrategy, IsPolled, IsCounted, IsPoller, IsBuilderInput, versioning_strategy_lem,
  task_types_lem, check_counts_lem, slots_lem, worker_poller_lem,
}
use ocaml_temporal.Abi.Config.{
  versioning_strategy, validate_identifier, bridge_task_types, check_counts,
  workflow_task_poller_behavior, builder_input, check_worker, validated, into_core, built,
}
use ocaml_temporal.Abi.WorkerInput.{
  WorkerVersioningStrategy, WorkerTaskTypes, PollerBehavior, WorkerConfigInput, BuilderInput,
  ValidatedTuning,
}
use ocaml_temporal.Abi.Configured.{
  Yields, Yields-bind, Yields-seq, IsName, validate_identifier_lem, IsTuning, Yields-map,
  validated_lem,
}
use ocaml_temporal.Base.{◌≡◌, Option, none, some, refl, arith, ◌>>◌}

names_lem :
    (i : WorkerConfigInput)
    → Yields
        (λ _. IsName i.namespace × IsName i.task_queue × IsName i.build_id)
        (validate_identifier i.namespace
          >> (validate_identifier i.task_queue >> validate_identifier i.build_id))
names_lem i =
    Yields-seq (IsName i.namespace) _ (validate_identifier i.namespace) _
      (validate_identifier_lem i.namespace)
      λ a.
        Yields-seq (IsName i.task_queue) _ (validate_identifier i.task_queue)
          (validate_identifier i.build_id) (validate_identifier_lem i.task_queue)
          λ b.
            Yields-map _ _ (validate_identifier i.build_id) (validate_identifier_lem i.build_id)
              λ _ c. (a, b, c)

prepared :
    (i : WorkerConfigInput) (strategy : WorkerVersioningStrategy) (behavior : PollerBehavior)
    (tuning : ValidatedTuning) (types : WorkerTaskTypes)
    → IsName i.namespace
    → IsName i.task_queue
    → IsName i.build_id
    → IsStrategy i.build_id strategy
    → IsCounted i
    → IsPoller i.max_cached_workflows i.max_concurrent_workflow_task_polls behavior
    → IsTuning tuning
    → IsPolled types
    → IsBuilderInput i (builder_input i strategy behavior tuning types)
prepared i strategy behavior tuning types space queue own routed counted polling tuned polled =
    let (some_slot, few_slots, fit) =
      slots_lem i.max_cached_workflows i.max_outstanding_workflow_tasks
        (counted.tasks_are_bounded.0) in
    record {
      is_named = (refl, refl);
      namespace_is_name = space;
      task_queue_is_name = queue;
      strategy_is_own = (own, routed);
      cache_is_bounded = counted.cached_is_bounded;
      slots_are_bounded = (some_slot, ground (arith, few_slots, counted.tasks_are_bounded));
      slots_fit_cache = fit;
      poller_is_bounded = (counted.polls_are_bounded.0, counted.polls_are_bounded.1, polling);
      tuning_is_bounded = tuned;
      grace_is_bounded = counted.grace_is_bounded;
      tasks_are_polled = polled;
    }

check_worker_lem : (i : WorkerConfigInput) → Yields (IsBuilderInput i) (check_worker i)
unfolding check_worker
check_worker_lem i =
    Yields-seq (IsName i.namespace × IsName i.task_queue × IsName i.build_id) (IsBuilderInput i)
      (validate_identifier i.namespace
        >> (validate_identifier i.task_queue >> validate_identifier i.build_id))
      _ (names_lem i)
      λ (space, queue, own).
        Yields-bind (IsStrategy i.build_id) (IsBuilderInput i)
          (versioning_strategy i.build_id i.versioning) _
          (versioning_strategy_lem i.build_id i.versioning)
          λ strategy routed.
            Yields-seq (IsCounted i) (IsBuilderInput i) (check_counts i) _ (check_counts_lem i)
              λ counted.
                Yields-bind _ (IsBuilderInput i)
                  (workflow_task_poller_behavior i.tuning.workflow_task_poller_autoscaling
                    i.max_concurrent_workflow_task_polls)
                  _ (worker_poller_lem i counted.polls_suffice)
                  λ behavior polling.
                    Yields-bind IsTuning (IsBuilderInput i) (validated i.tuning) _
                      (validated_lem i.tuning)
                      λ tuning tuned.
                        Yields-bind IsPolled (IsBuilderInput i)
                          (bridge_task_types i.task_types.workflows i.task_types.activities) _
                          (task_types_lem i.task_types.workflows i.task_types.activities)
                          λ types polled.
                            prepared i strategy behavior tuning types space queue own routed counted
                              polling tuned polled

-- Whatever the document, and whatever Core's builder does with a configuration: the worker's
-- configuration is what the builder made of arguments that satisfy `IsBuilderInput`, or the failure
-- is one of the configuration. So names are the document's, of lawful length without a NUL byte; the
-- build id that routes is the document's own, and with a deployment a default behavior is given exactly if
-- versioning is used; slots, cache and pollers are within `max_worker_count`; the slots fit the
-- cache, and there are as many pollers as the document allows, two at least if the worker caches, or
-- they scale up to that number; durations
-- are at most a day, rates are normal, and that of the worker at least one in a day; one kind of task
-- is enabled, and the activity lane runs.
pub into_core-IsBuilderInput :
    {C : Type 0} (build : BuilderInput → Option C) (i : WorkerConfigInput)
    → Yields (λ c. (b : BuilderInput) × (build b ≡ some c) × IsBuilderInput i b) (into_core build i)
unfolding into_core
into_core-IsBuilderInput {C = C} build i =
    Yields-bind (IsBuilderInput i) _ (check_worker i) (λ input. built (build input))
      (check_worker_lem i) λ b h. go b h (build b) refl
  where
    go :
        (b : BuilderInput)
        → IsBuilderInput i b
        → (o : Option C) → build b ≡ o
        → Yields (λ c. (b : BuilderInput) × (build b ≡ some c) × IsBuilderInput i b) (built o)
    go b h none e = refl
    go b h (some c) e = (b, e, h)
