-- ===== src/Workflow/Completions.antt =====
-- rust/core-bridge/src/workflow_protocol.rs: `validate_completion`. The maps that a loop fills are
-- passed along.
use ocaml_temporal.Workflow.Commands.{
  ScheduleActivity, ScheduleLocalActivity, StartChildWorkflow, SignalExternalWorkflow, QueryResult,
  query_succeeded, query_failed, UpdateResponseResult, update_accepted, update_rejected,
  update_completed, CompletionCommand, schedule_activity, schedule_local_activity,
  start_child_workflow, cancel_child_workflow, signal_external_workflow,
  request_cancel_external_workflow, request_cancel_activity, request_cancel_local_activity,
  start_timer, cancel_timer, complete_workflow, fail_workflow, continue_as_new,
  cancel_workflow_execution, query_result, update_response, set_patch_marker,
  upsert_search_attributes, Completion,
}
use ocaml_temporal.Workflow.Types.{
  WorkflowPriority, Duration, Payload, SemanticError, Failure, bad_priority, zero_timeout,
  timeouts_out_of_order, long_task_timeout, missing_timeout, bad_attempt, bad_reason, payload_limit,
  mixed_patch_modes, terminal_not_last, bad_update_phase, commands_with_failure, versioned_failure,
}
use ocaml_temporal.Protocol.Json.{max_payload_bytes}
use ocaml_temporal.Workflow.Validators.{
  Check, is_negative, validate_duration, is_shorter, identifier, validate_close_timeout,
  validate_retry_policy, validate_timestamp, validate_failure, validate_failure_payloads,
  bounded_text,
}
use ocaml_temporal.Base.{
  ℕ, ◌/◌, ◌%◌, ◌^◌, Bool, true, false, not, ◌&&◌, Option, none, some, List, [], ◌∷◌, Result, ok,
  ◌>>=◌, ◌>>◌, fail_if, each, each_some, Bytes, length, ltb, leb, ◌==◌, is_some, pos, nat_eq,
  bytes_key, ◌||◌, if◌then◌else◌,
}
use ocaml_temporal.Base.Map.{Map, get, insert, elem}

-- A finite `f32` has an exponent that is not all ones, the two bounds are the bits of 0.001 and
-- of 1000, and the bits of positive numbers are in the order of the numbers.
abbrev pub is_bad_weight : ℕ → Bool
is_bad_weight bits =
    ((bits / 2 ^ 23) % 2 ^ 8 == 255)
    || (not (bits % 2 ^ 31 == 0) && not (leb 981668463 bits && leb bits 1148846080))

unfoldable pub validate_priority : WorkflowPriority → Check
validate_priority p =
    fail_if (is_negative p.priority_key) bad_priority
    >> (fail_if (ltb 64 (length p.fairness_key)) bad_priority
        >> (fail_if (elem 0 p.fairness_key) bad_priority
            >> fail_if (is_bad_weight p.fairness_weight_bits) bad_priority))

abbrev pub no_duration : Duration
no_duration = record { seconds = pos 0; nanoseconds = pos 0 }

abbrev pub max_task_timeout : Duration
max_task_timeout = record { seconds = pos 120; nanoseconds = pos 0 }

abbrev pub validate_child_timeout : Duration → Check
validate_child_timeout d =
    validate_duration d >> fail_if (not (is_shorter no_duration d)) zero_timeout

abbrev pub or_else : {A : Type 0} → Option A → Option A → Option A
or_else none o = o
or_else (some x) o = some x

-- The first timeout, if there are both, must not exceed the second.
abbrev pub check_within : Option Duration → Option Duration → Check
check_within (some d) (some bound) = fail_if (is_shorter bound d) timeouts_out_of_order
check_within _ _ = ok tt

unfoldable pub validate_child_timeouts : Option Duration → Option Duration → Option Duration → Check
validate_child_timeouts execution run task =
    each_some validate_child_timeout execution
    >> (each_some validate_child_timeout run
        >> (each_some validate_child_timeout task
            >> (each_some (λ d. fail_if (is_shorter max_task_timeout d) long_task_timeout) task
                >> (check_within run execution >> check_within task (or_else run execution)))))

abbrev pub is_terminal : CompletionCommand → Bool
is_terminal (complete_workflow _) = true
is_terminal (fail_workflow _) = true
is_terminal (continue_as_new _ _) = true
is_terminal cancel_workflow_execution = true
is_terminal _ = false

abbrev pub is_absent : Option Duration → Bool
is_absent o = not (is_some o)

abbrev pub check_durations : List (Option Duration) → Check
check_durations = each (each_some validate_duration)

unfoldable pub check_schedule_activity : ScheduleActivity → Check
check_schedule_activity a =
    identifier a.activity_id
    >> (identifier a.activity_type
        >> (identifier a.task_queue
            >> (fail_if
                  (is_absent a.schedule_to_close_timeout && is_absent a.start_to_close_timeout)
                  missing_timeout
                >> (validate_close_timeout a.schedule_to_close_timeout
                    >> (validate_close_timeout a.start_to_close_timeout
                        >> (check_durations (
                              a.schedule_to_close_timeout ∷ a.schedule_to_start_timeout
                              ∷ a.start_to_close_timeout ∷ a.heartbeat_timeout ∷ [])
                            >> (each_some validate_retry_policy a.retry_policy
                                >> each_some validate_priority a.priority)))))))

unfoldable pub check_schedule_local_activity : ScheduleLocalActivity → Check
check_schedule_local_activity a =
    identifier a.activity_id
    >> (identifier a.activity_type
        >> (fail_if (a.attempt == 0) bad_attempt
            >> (fail_if
                  (is_absent a.schedule_to_close_timeout && is_absent a.start_to_close_timeout)
                  missing_timeout
                >> (validate_close_timeout a.schedule_to_close_timeout
                    >> (validate_close_timeout a.start_to_close_timeout
                        >> (check_durations (
                              a.schedule_to_close_timeout ∷ a.schedule_to_start_timeout
                              ∷ a.start_to_close_timeout ∷ a.local_retry_threshold ∷ [])
                            >> (each_some validate_timestamp a.original_schedule_time
                                >> each_some validate_retry_policy a.retry_policy)))))))

unfoldable pub check_start_child_workflow : StartChildWorkflow → Check
check_start_child_workflow c =
    identifier c.workflow_id
    >> (identifier c.workflow_type
        >> (each_some identifier c.task_queue
            >> (each_some validate_retry_policy c.retry_policy
                >> validate_child_timeouts c.execution_timeout c.run_timeout c.task_timeout)))

abbrev pub check_run_id : Bytes → Check
check_run_id run_id = if length run_id == 0 then ok tt else identifier run_id

abbrev pub check_header : Bytes × Payload → Check
check_header (key, payload) = identifier key >> validate_failure_payloads (payload ∷ [])

unfoldable pub check_signal : SignalExternalWorkflow → Check
check_signal s =
    identifier s.workflow_id
    >> (check_run_id s.run_id
        >> (identifier s.signal_name
            >> (each (λ p. validate_failure_payloads (p ∷ [])) s.input
                >> each check_header s.headers)))

abbrev pub check_reason : Bytes → Check
check_reason reason =
    fail_if (length reason == 0) bad_reason
    >> (fail_if (elem 0 reason) bad_reason >> bounded_text reason)

abbrev pub is_large : Bytes → Bool
is_large value = ltb max_payload_bytes (length value)

abbrev pub check_query_result : QueryResult → Check
check_query_result (query_succeeded _) = ok tt
check_query_result (query_failed f) = validate_failure f

abbrev pub check_update_response : UpdateResponseResult → Check
check_update_response update_accepted = ok tt
check_update_response (update_rejected f) = validate_failure f
check_update_response (update_completed p) = fail_if (is_large p.body) payload_limit

abbrev pub any_large : List (Bytes × Bytes) → Bool
any_large [] = false
any_large ((key, value) ∷ fs) = is_large value || any_large fs

abbrev pub check_search_attribute : Bytes × Payload → Check
check_search_attribute (key, p) =
    identifier key >> fail_if (is_large p.body || any_large p.metadata) payload_limit

-- The match on a command, less the modes of patches.
unfoldable pub check_command : CompletionCommand → Check
check_command (schedule_activity a) = check_schedule_activity a
check_command (schedule_local_activity a) = check_schedule_local_activity a
check_command (start_child_workflow c) = check_start_child_workflow c
check_command (cancel_child_workflow _ reason) = check_reason reason
check_command (signal_external_workflow s) = check_signal s
check_command (request_cancel_external_workflow _ workflow_id run_id reason) =
    identifier workflow_id >> (check_run_id run_id >> check_reason reason)
check_command (request_cancel_activity _) = ok tt
check_command (request_cancel_local_activity _) = ok tt
check_command (start_timer _ d) = validate_duration d
check_command (cancel_timer _) = ok tt
check_command (complete_workflow _) = ok tt
check_command (fail_workflow f) = validate_failure f
check_command (continue_as_new workflow_type _) = identifier workflow_type
check_command cancel_workflow_execution = ok tt
check_command (query_result id r) = identifier id >> check_query_result r
check_command (update_response id r) = identifier id >> check_update_response r
check_command (set_patch_marker id _) = identifier id
check_command (upsert_search_attributes fields) = each check_search_attribute fields

abbrev pub Modes : Type 0
Modes = Map Bytes Bool

-- `Some(existing) if existing != deprecated`.
abbrev pub is_other_mode : Option Bool → Bool → Bool
is_other_mode none deprecated = false
is_other_mode (some existing) deprecated = if existing then not deprecated else deprecated

abbrev pub patch_of : CompletionCommand → Option (Bytes × Bool)
patch_of (set_patch_marker id deprecated) = some (id, deprecated)
patch_of _ = none

abbrev pub record_mode : Option (Bytes × Bool) → Modes → Result SemanticError Modes
record_mode none modes = ok modes
record_mode (some (id, deprecated)) modes =
    fail_if (is_other_mode (get id modes) deprecated) mixed_patch_modes
    >> ok (insert id deprecated modes)

abbrev pub is_empty : {A : Type 0} → List A → Bool
is_empty [] = true
is_empty (_ ∷ _) = false

-- The loop over the commands.
unfoldable pub check_commands : List CompletionCommand → Modes → Check
check_commands [] modes = ok tt
check_commands (c ∷ cs) modes =
    fail_if (is_terminal c && not (is_empty cs)) terminal_not_last
    >> (check_command c >> (record_mode (patch_of c) modes >>= check_commands cs))

-- Whether an update was accepted, and whether it was answered.
abbrev pub Phases : Type 0
Phases = Map Bytes (Bool × Bool)

abbrev pub entry : Bytes → Phases → Bool × Bool
entry id phases = elim (get id phases) [ none ↦ (false, false) | some p ↦ p ]

abbrev pub advance : Bool × Bool → UpdateResponseResult → Result SemanticError (Bool × Bool)
advance (accepted, answered) update_accepted =
    fail_if (accepted || answered) bad_update_phase >> ok (true, answered)
advance (accepted, answered) (update_rejected _) =
    fail_if answered bad_update_phase >> ok (accepted, true)
advance (accepted, answered) (update_completed _) =
    fail_if answered bad_update_phase >> ok (accepted, true)

abbrev pub response_of : CompletionCommand → Option (Bytes × UpdateResponseResult)
response_of (update_response id r) = some (id, r)
response_of _ = none

abbrev pub record_phase :
    Option (Bytes × UpdateResponseResult) → Phases → Result SemanticError Phases
record_phase none phases = ok phases
record_phase (some (id, r)) phases = advance (entry id phases) r >>= λ p. ok (insert id p phases)

-- The second loop.
unfoldable pub check_phases : List CompletionCommand → Phases → Check
check_phases [] phases = ok tt
check_phases (c ∷ cs) phases = record_phase (response_of c) phases >>= check_phases cs

abbrev pub check_task_failure : List CompletionCommand → Failure → Check
check_task_failure commands failure =
    fail_if (not (is_empty commands)) commands_with_failure >> validate_failure failure

unfoldable pub validate_completion : Completion → Check
validate_completion v =
    identifier v.run_id
    >> (fail_if (is_some v.task_failure && is_some v.versioning_behavior) versioned_failure
        >> (each_some (check_task_failure v.commands) v.task_failure
            >> (check_commands v.commands [] >> check_phases v.commands [])))
