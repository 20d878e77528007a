-- ===== src/Workflow/Activations.antt =====
-- rust/core-bridge/src/workflow_protocol.rs: `validate_activation`. The sets of identifiers that a
-- loop has seen are passed along.
use ocaml_temporal.Base.{
  ℕ, suc, Bool, true, false, not, ◌&&◌, ◌||◌, Option, none, some, List, [], ◌∷◌, Result, ok, ◌>>=◌,
  ◌>>◌, fail_if, each, each_some, Bytes, bytes_key, bytes_eq, nat_eq, ◌==◌, ltb, if◌then◌else◌,
  length,
}
use ocaml_temporal.Base.Map.{Set, contains, add}
use ocaml_temporal.Workflow.Types.{
  SemanticError, eviction_not_alone, missing_timestamp, initialize_not_first, queries_mixed,
  duplicate_query_id, bad_attempt, duplicate_update_id, bad_update_meta, Fields, Timestamp,
  WorkflowExecution, NamespacedWorkflowExecution, Continuation, InitializeContext,
  ActivityResolution, activity_completed, activity_failed, activity_cancelled, activity_backoff,
  ChildWorkflowStartResolution, start_succeeded, start_failed, start_cancelled,
  ChildWorkflowResolution, child_completed, child_failed, child_cancelled,
  ExternalWorkflowResolution, external_succeeded, external_failed, Initialization, Update,
  ActivationJob, initialize_workflow, resolve_activity, resolve_child_workflow_start,
  resolve_child_workflow, resolve_signal_external_workflow,
  resolve_request_cancel_external_workflow, signal_workflow, query_workflow, do_update,
  notify_has_patch, update_random_seed, fire_timer, cancel_workflow, remove_from_cache,
  WorkerDeploymentVersion, ActivationMetadata, Activation,
}
use ocaml_temporal.Workflow.Validators.{
  Check, identifier, bounded_text, signal_identity, validate_timestamp, validate_duration,
  parse_canonical, validate_uint64_decimal, validate_inbound_priority,
  validate_inbound_retry_policy, validate_failure, is_negative, is_zero,
}

abbrev pub is_eviction : ActivationJob → Bool
is_eviction (remove_from_cache _ _) = true
is_eviction _ = false

abbrev pub is_initialize : ActivationJob → Bool
is_initialize (initialize_workflow _) = true
is_initialize _ = false

abbrev pub is_query : ActivationJob → Bool
is_query (query_workflow _ _ _ _) = true
is_query _ = false

-- `jobs.iter().filter(p).count()`.
unfoldable pub count_jobs : (ActivationJob → Bool) → List ActivationJob → ℕ
count_jobs p [] = 0
count_jobs p (j ∷ js) = let rest = count_jobs p js in if p j then suc rest else rest

abbrev pub starts_with_initialize : List ActivationJob → Bool
starts_with_initialize [] = false
starts_with_initialize (j ∷ js) = is_initialize j

abbrev pub check_keys : Fields → Check
check_keys = each λ f. identifier (f.0)

abbrev pub query_id : ActivationJob → Option Bytes
query_id (query_workflow id _ _ _) = some id
query_id _ = none

abbrev pub update_of : ActivationJob → Option Update
update_of (do_update u) = some u
update_of _ = none

-- The loop that collects query identifiers.
unfoldable pub check_query_ids : List ActivationJob → Set Bytes → Check
check_query_ids [] seen = ok tt
check_query_ids (j ∷ js) seen = elim (query_id j) [
  | none ↦ check_query_ids js seen
  | some id ↦ fail_if (contains id seen) duplicate_query_id >> check_query_ids js (add id seen)
]

abbrev pub check_parent : NamespacedWorkflowExecution → Check
check_parent p = identifier p.namespace >> (identifier p.workflow_id >> identifier p.run_id)

abbrev pub check_root : WorkflowExecution → Check
check_root w = identifier w.workflow_id >> identifier w.run_id

abbrev pub check_continuation : Continuation → Check
check_continuation c =
    (if length c.continued_from_execution_run_id == 0
      then ok tt
      else identifier c.continued_from_execution_run_id)
    >> each_some validate_failure c.continued_failure

unfoldable pub check_context : InitializeContext → Check
check_context c =
    check_keys c.headers
    >> (each_some check_keys c.memo
        >> (each_some check_keys c.search_attributes
            >> (each_some validate_timestamp c.workflow_execution_expiration_time
                >> (each_some validate_duration c.first_workflow_task_backoff
                    >> (bounded_text c.identity
                        >> (each_some check_parent c.parent_workflow
                            >> (identifier c.first_execution_run_id
                                >> (each_some validate_duration c.workflow_execution_timeout
                                    >> (each_some validate_duration c.workflow_run_timeout
                                        >> (each_some validate_duration c.workflow_task_timeout
                                            >> (each_some validate_timestamp c.start_time
                                                >> (each_some check_root c.root_workflow
                                                    >> (each_some validate_inbound_priority
                                                          c.priority
                                                        >> (each_some validate_inbound_retry_policy
                                                            c.retry_policy
                                                            >> each_some check_continuation
                                                            c.continuation))))))))))))))

abbrev pub check_initialization : Initialization → Check
check_initialization i =
    identifier i.workflow_id
    >> (identifier i.workflow_type
        >> (fail_if (is_negative i.attempt || is_zero i.attempt) bad_attempt
            >> (parse_canonical i.randomness_seed >>= λ _. each_some check_context i.context)))

abbrev pub check_activity : ActivityResolution → Check
check_activity (activity_completed _) = ok tt
check_activity (activity_failed f) = validate_failure f
check_activity (activity_cancelled f) = validate_failure f
check_activity (activity_backoff attempt backoff original) =
    fail_if (attempt == 0) bad_attempt
    >> (validate_duration backoff >> each_some validate_timestamp original)

abbrev pub check_child_start : ChildWorkflowStartResolution → Check
check_child_start (start_succeeded run_id) = identifier run_id
check_child_start (start_failed workflow_id workflow_type _) =
    identifier workflow_id >> identifier workflow_type
check_child_start (start_cancelled f) = validate_failure f

abbrev pub check_child : ChildWorkflowResolution → Check
check_child (child_completed _) = ok tt
check_child (child_failed f) = validate_failure f
check_child (child_cancelled f) = validate_failure f

abbrev pub check_external : ExternalWorkflowResolution → Check
check_external external_succeeded = ok tt
check_external (external_failed f) = validate_failure f

-- The identifiers and protocol identifiers of the updates so far.
abbrev pub Seen : Type 0
Seen = Set Bytes × Set Bytes

-- The tests on an update that follow those of its identifiers.
abbrev pub check_update_rest : Update → Check
check_update_rest u =
    fail_if (not (bytes_eq u.meta.update_id u.id)) bad_update_meta
    >> (identifier u.meta.update_id >> (bounded_text u.meta.identity >> check_keys u.headers))

unfoldable pub check_update : Update → Seen → Result SemanticError Seen
check_update u (ids, protocol_ids) =
    (identifier u.id >> (identifier u.protocol_instance_id >> identifier u.name))
    >> (fail_if (contains u.id ids) duplicate_update_id
        >> (fail_if (contains u.protocol_instance_id protocol_ids) duplicate_update_id
            >> (check_update_rest u >> ok (add u.id ids, add u.protocol_instance_id protocol_ids))))

-- The kinds of job that leave the sets alone.
abbrev pub check_plain_job : ActivationJob → Check
check_plain_job (initialize_workflow i) = check_initialization i
check_plain_job (resolve_activity _ r) = check_activity r
check_plain_job (resolve_child_workflow_start _ r) = check_child_start r
check_plain_job (resolve_child_workflow _ r) = check_child r
check_plain_job (resolve_signal_external_workflow _ r) = check_external r
check_plain_job (resolve_request_cancel_external_workflow _ r) = check_external r
check_plain_job (signal_workflow name _ identity headers) =
    identifier name >> (signal_identity identity >> check_keys headers)
check_plain_job (query_workflow id query_type _ headers) =
    identifier id >> (identifier query_type >> check_keys headers)
check_plain_job (do_update u) = ok tt
check_plain_job (notify_has_patch patch_id) = identifier patch_id
check_plain_job (update_random_seed seed) = validate_uint64_decimal seed >>= λ _. ok tt
check_plain_job (fire_timer _) = ok tt
check_plain_job (cancel_workflow reason) = bounded_text reason
check_plain_job (remove_from_cache message _) = bounded_text message

abbrev pub check_update_or : Option Update → ActivationJob → Seen → Result SemanticError Seen
check_update_or (some u) job seen = check_update u seen
check_update_or none job seen = check_plain_job job >> ok seen

unfoldable pub check_job : ActivationJob → Seen → Result SemanticError Seen
check_job job seen = check_update_or (update_of job) job seen

unfoldable pub check_jobs : List ActivationJob → Seen → Check
check_jobs [] seen = ok tt
check_jobs (j ∷ js) seen = check_job j seen >>= check_jobs js

abbrev pub check_deployment : WorkerDeploymentVersion → Check
check_deployment d = bounded_text d.deployment_name >> identifier d.build_id

unfoldable pub check_metadata : ActivationMetadata → Check
check_metadata m = parse_canonical m.history_size_bytes >>= λ _.
    bounded_text m.last_sdk_version
    >> each_some check_deployment m.deployment_version_for_current_task

abbrev pub check_activation_time : Option Timestamp → ℕ → Check
check_activation_time (some t) evictions = validate_timestamp t
check_activation_time none evictions = fail_if (not (evictions == 1)) missing_timestamp

-- The tests on how many jobs of a kind there are, and where.
abbrev pub check_eviction_count : List ActivationJob → Check
check_eviction_count jobs =
    let evictions = count_jobs is_eviction jobs in
    fail_if (not (evictions == 0) && (not (evictions == 1) || not (length jobs == 1)))
      eviction_not_alone

abbrev pub check_initialize_count : List ActivationJob → Check
check_initialize_count jobs =
    let initializes = count_jobs is_initialize jobs in
    fail_if (ltb 1 initializes || ((initializes == 1) && not (starts_with_initialize jobs)))
      initialize_not_first

abbrev pub check_query_count : List ActivationJob → Check
check_query_count jobs =
    let queries = count_jobs is_query jobs in
    fail_if (not (queries == 0) && not (queries == length jobs)) queries_mixed

unfoldable pub validate_activation : Activation → Check
validate_activation a =
    identifier a.run_id
    >> (check_eviction_count a.jobs
        >> (check_activation_time a.timestamp (count_jobs is_eviction a.jobs)
            >> (check_initialize_count a.jobs
                >> (check_query_count a.jobs
                    >> (check_query_ids a.jobs []
                        >> (check_jobs a.jobs ([], []) >> each_some check_metadata a.metadata))))))
