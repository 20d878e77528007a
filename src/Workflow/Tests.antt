-- ===== src/Workflow/Tests.antt =====
-- rust/core-bridge/src/workflow_protocol.rs: runs of the validators, and an example for each theorem.
use ocaml_temporal.Workflow.Accepted.{IsCompletion, validate_completion-IsCompletion}
use ocaml_temporal.Workflow.Completions.{
  validate_completion, check_commands, check_command, check_phases, is_bad_weight,
}
use ocaml_temporal.Workflow.Commands.{
  CompletionCommand, Completion, pinned, update_response, update_accepted, update_completed,
  set_patch_marker, complete_workflow,
}
use ocaml_temporal.Workflow.Structure.{IsActivation, validate_activation-IsActivation}
use ocaml_temporal.Base.Map.{insert, get, elem}
use ocaml_temporal.Workflow.Validators.{identifier, bounded_text, signal_identity, validate_time}
use ocaml_temporal.Workflow.Activations.{
  validate_activation, count_jobs, check_query_ids, check_jobs, check_job, check_update,
}
use ocaml_temporal.Workflow.Types.{
  Update, Timestamp, ActivationJob, Activation, do_update, signal_workflow, duplicate_update_id,
  remove_from_cache, cache_full, Payload, bad_update_phase, mixed_patch_modes,
}
use ocaml_temporal.Base.{
  ◌≡◌, none, some, [], ◌∷◌, ok, err, refl, true, false, Bytes, List, pos, Option,
}

abbrev first_name : Bytes
first_name = 97 ∷ []

abbrev second_name : Bytes
second_name = 98 ∷ []

abbrev update_named : Bytes → Update
update_named id = record {
  id = id;
  protocol_instance_id = id;
  name = first_name;
  input = [];
  headers = [];
  meta = record { identity = []; update_id = id };
  run_validator = true;
}

abbrev sample_time : Timestamp
sample_time = record { seconds = pos 1; nanoseconds = pos 0 }

abbrev activation_of : Option Timestamp → List ActivationJob → Activation
activation_of timestamp jobs = record {
  run_id = first_name;
  timestamp = timestamp;
  is_replaying = false;
  history_length = 3;
  jobs = jobs;
  metadata = none;
}

abbrev two_updates : Activation
two_updates = activation_of (some sample_time) (
    do_update (update_named first_name)
    ∷ signal_workflow first_name [] [] []
    ∷ do_update (update_named second_name)
    ∷ [])

two_updates_accepted : validate_activation two_updates ≡ ok tt
unfolding validate_activation count_jobs check_query_ids check_jobs check_job check_update
    identifier bounded_text signal_identity validate_time insert get elem
two_updates_accepted = refl

validate_activation-IsActivation_example : IsActivation two_updates
validate_activation-IsActivation_example =
    validate_activation-IsActivation two_updates two_updates_accepted

test_same_update :
    validate_activation (
      activation_of
        (some sample_time)
        (do_update (update_named first_name) ∷ do_update (update_named first_name) ∷ []))
    ≡ err duplicate_update_id
unfolding validate_activation count_jobs check_query_ids check_jobs check_job check_update
    identifier bounded_text signal_identity validate_time insert get elem
test_same_update = refl

test_eviction_only :
    validate_activation (activation_of none (remove_from_cache first_name cache_full ∷ [])) ≡ ok tt
unfolding validate_activation count_jobs check_query_ids check_jobs check_job bounded_text
    identifier insert get elem
test_eviction_only = refl

abbrev sample_payload : Payload
sample_payload = record { metadata = []; body = [] }

abbrev completion_of : List CompletionCommand → Completion
completion_of commands = record {
  run_id = first_name;
  commands = commands;
  task_failure = none;
  versioning_behavior = some pinned;
}

abbrev answered_update : Completion
answered_update = completion_of (
    update_response first_name update_accepted
    ∷ set_patch_marker second_name false
    ∷ update_response second_name (update_completed sample_payload)
    ∷ update_response first_name (update_completed sample_payload)
    ∷ set_patch_marker second_name false
    ∷ complete_workflow none
    ∷ [])

answered_update_accepted : validate_completion answered_update ≡ ok tt
unfolding validate_completion check_commands check_command check_phases identifier insert get elem
answered_update_accepted = refl

validate_completion-IsCompletion_example : IsCompletion answered_update
validate_completion-IsCompletion_example =
    validate_completion-IsCompletion answered_update answered_update_accepted

test_late_acceptance :
    validate_completion (
      completion_of (
        update_response first_name (update_completed sample_payload)
        ∷ update_response first_name update_accepted
        ∷ []))
    ≡ err bad_update_phase
unfolding validate_completion check_commands check_command check_phases identifier insert get elem
test_late_acceptance = refl

test_mixed_modes :
    validate_completion
      (completion_of (set_patch_marker first_name true ∷ set_patch_marker first_name false ∷ []))
    ≡ err mixed_patch_modes
unfolding validate_completion check_commands check_command check_phases identifier insert get elem
test_mixed_modes = refl

-- 1.0 is a weight, 0.0009 is none.
test_weights : (is_bad_weight 1065353216 ≡ false) × (is_bad_weight 980151803 ≡ true)
test_weights = (refl, refl)
