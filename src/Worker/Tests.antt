-- ===== src/Worker/Tests.antt =====
-- Concrete lanes and deliveries, and the theorems of `Worker` applied to them.
use ocaml_temporal.Base.{
  ◌≡◌, refl, true, false, some, List, [], ◌∷◌, ◌++◌, ok, err, Bytes, bytes_key,
}
use ocaml_temporal.Base.Map.{get, contains, insert, remove}
use ocaml_temporal.Ledger.State.{TaskLedger, new_ledger, start}
use ocaml_temporal.Ledger.Workflows.{admit_polled_workflow_activation, lease_workflow_activation}
use ocaml_temporal.Ledger.Activities.{admit_polled_activity}
use ocaml_temporal.Ledger.Calls.{
  Call, apply, admits_activation, leases_activation, admits_polled_activity,
}
use ocaml_temporal.Ledger.Invariant.{IsValid}
use ocaml_temporal.Ledger.Preserved.{new_ledger-IsValid}
use ocaml_temporal.Ledger.History.{run, run-IsValid}
use ocaml_temporal.Worker.Core.{
  WorkflowActivation, ActivityTask, workflow_completed, workflow_failed, finished, timed_out,
  core_workflow, core,
}
use ocaml_temporal.Worker.Completion.{complete_workflow_with, reject_workflow_delivery_with}
use ocaml_temporal.Worker.Completed.{
  RestoredAt, awaited, refused_completion_restored, follow_up_eviction_admitted,
  rejected_delivery_retired,
}
use ocaml_temporal.Worker.Readiness.{Lane, fail, new_lane, enqueue, take_inner}
use ocaml_temporal.Worker.Queue.{LaneCall, enqueues, takes, fails, serve, sent_by, serve_in_order}
use ocaml_temporal.Worker.Lanes.{LaneState, polled, workflow_lane_round, activity_lane_round}
use ocaml_temporal.Worker.Accounting.{WorkflowFate, workflow_accounted}
use ocaml_temporal.Worker.ActivityAccounting.{ActivityFate, activity_accounted}

abbrev run_a : Bytes
run_a = 97 ∷ []

abbrev token_a : Bytes
token_a = 7 ∷ []

-- Run `run_a` is leased.
abbrev history : List Call
history = admits_activation run_a false ∷ leases_activation run_a false ∷ []

leased : TaskLedger
unfolding run apply admit_polled_workflow_activation lease_workflow_activation get insert remove
leased = run history new_ledger

leased-IsValid : IsValid leased
unfolding leased
leased-IsValid = run-IsValid history new_ledger new_ledger-IsValid

leased_workflow : get run_a leased.workflows ≡ some true
unfolding leased
leased_workflow = refl

abbrev state_of : {T : Type 0} → TaskLedger → LaneState T
state_of l = record { ledger = l; lane = new_lane; sent = [] }

abbrev activation : WorkflowActivation
activation = record { run_id = run_a; is_only_eviction = true }

abbrev task : ActivityTask
task = record { task_token = token_a; variant = some start }

workflow_accounted_example :
    WorkflowFate
      (state_of leased)
      (workflow_lane_round (state_of leased) (polled activation)).0
      activation
workflow_accounted_example = workflow_accounted (state_of leased) activation leased-IsValid

activity_accounted_example :
    ActivityFate
      (state_of leased)
      (activity_lane_round (state_of leased) (polled task)).0
      task
      start
activity_accounted_example = activity_accounted (state_of leased) task start leased-IsValid refl

refused_completion_restored_example :
    let during = admits_polled_activity token_a start ∷ [] in
    let (m, sent, result) = complete_workflow_with during (finished false) leased run_a false in
    RestoredAt
      (awaited during leased run_a)
      run_a
      (contains run_a leased.eviction_activations)
      m
      run_a
    × (sent ≡ workflow_completed run_a ∷ [])
    × (result ≡ err core_workflow)
unfolding leased run apply admit_polled_activity get insert remove
refused_completion_restored_example =
    refused_completion_restored (admits_polled_activity token_a start ∷ []) leased run_a false run_a
      leased-IsValid leased_workflow refl

follow_up_eviction_admitted_example :
    let (m, sent, result) =
      complete_workflow_with
        (admits_activation run_a true ∷ [])
        (finished true)
        leased
        run_a
        false in
    (get run_a m.workflows ≡ some false)
    × (contains run_a m.eviction_activations ≡ true)
    × (sent ≡ workflow_completed run_a ∷ [])
    × (result ≡ ok tt)
follow_up_eviction_admitted_example =
    follow_up_eviction_admitted leased run_a false leased-IsValid leased_workflow

rejected_delivery_retired_example :
    let (m, sent, result) =
      reject_workflow_delivery_with (admits_activation run_a true ∷ []) timed_out leased run_a in
    (get run_a m.workflows ≡ some false)
    × (contains run_a m.eviction_activations ≡ true)
    × (sent ≡ workflow_failed run_a ∷ [])
unfolding leased
rejected_delivery_retired_example =
    rejected_delivery_retired leased timed_out run_a leased-IsValid leased_workflow

abbrev lane_calls : List (LaneCall ActivityTask)
lane_calls =
    enqueues (ok task)
    ∷ takes false
    ∷ enqueues (err (core []))
    ∷ fails (core [])
    ∷ takes true
    ∷ takes true
    ∷ enqueues (ok task)
    ∷ []

serve_in_order_example :
    (serve lane_calls new_lane).0 ++ (serve lane_calls new_lane).1.messages
    ≡ [] ++ sent_by lane_calls
serve_in_order_example = serve_in_order lane_calls new_lane refl

serve_run : (serve lane_calls new_lane).0 ≡ ok task ∷ err (core []) ∷ []
unfolding serve enqueue take_inner fail
serve_run = refl

abbrev queued : Lane ActivityTask
queued = record new_lane { messages = ok task ∷ []; pending = 1; error = some (core []) }
