-- ===== src/Worker/PassTests.antt =====
-- Concrete lanes, and the theorems about handoffs, shutdown passes and disposal applied to them.
use ocaml_temporal.Worker.Drained.{
  DrainEnd, IsRetiredOnReceipt, drain_and_join_for_shutdown-DrainEnd, first_failure,
}
use ocaml_temporal.Worker.Drain.{
  Draining, Select, workflow_joined, activity_joined, drain_and_join_for_shutdown, Bound,
}
use ocaml_temporal.Base.{
  ◌+◌, ◌≡◌, refl, true, false, ◌||◌, some, List, [], ◌∷◌, ok, Bytes, bytes_key, none, ℕ,
}
use ocaml_temporal.Base.Map.{get, contains, elem, insert, remove}
use ocaml_temporal.Ledger.State.{TaskLedger, new_ledger, start, can_finalize}
use ocaml_temporal.Ledger.Workflows.{admit_polled_workflow_activation, lease_workflow_activation}
use ocaml_temporal.Ledger.Activities.{admit_polled_activity}
use ocaml_temporal.Ledger.Calls.{
  Call, apply, admits_activation, leases_activation, admits_polled_activity, completes_workflow,
}
use ocaml_temporal.Ledger.Invariant.{IsValid}
use ocaml_temporal.Ledger.Preserved.{new_ledger-IsValid}
use ocaml_temporal.Ledger.History.{run, run-IsValid}
use ocaml_temporal.Ledger.Taken.{runs}
use ocaml_temporal.Worker.Core.{WorkflowActivation, ActivityTask, Sent}
use ocaml_temporal.Worker.Completion.{finalize}
use ocaml_temporal.Worker.Readiness.{Lane, new_lane, publish_all}
use ocaml_temporal.Worker.Handoff.{
  PollLanes, try_take_workflow, try_take_activity, initiate_shutdown, Publication, no_publication,
}
use ocaml_temporal.Worker.Retirement.{ShutdownRetirement}
use ocaml_temporal.Worker.Dispose.{
  force_complete_outstanding_for_dispose, abandon_replay_for_dispose,
}
use ocaml_temporal.Worker.Answers.{unit_if, run_answers, token_answers, acknowledgements}
use ocaml_temporal.Worker.Handed.{WorkflowHandoff, try_take_workflow-WorkflowHandoff}
use ocaml_temporal.Worker.HandedTasks.{
  fresh_part, ActivityHandoff, try_take_activity-ActivityHandoff,
}
use ocaml_temporal.Worker.Disposed.{queued_runs}
use ocaml_temporal.Worker.Replayed.{replay_answers_once}
use ocaml_temporal.Worker.Settled.{quiet, disposal_settles}

abbrev run_a : Bytes
run_a = 97 ∷ []

abbrev run_b : Bytes
run_b = 98 ∷ []

abbrev token_a : Bytes
token_a = 7 ∷ []

-- Run `run_a` is leased; `run_b` and `token_a` wait.
abbrev history : List Call
history =
    admits_activation run_a false
    ∷ leases_activation run_a false
    ∷ admits_activation run_b true
    ∷ admits_polled_activity token_a start
    ∷ []

owing : TaskLedger
unfolding run apply admit_polled_workflow_activation lease_workflow_activation admit_polled_activity
    get insert remove
owing = run history new_ledger

owing-IsValid : IsValid owing
unfolding owing
owing-IsValid = run-IsValid history new_ledger new_ledger-IsValid

abbrev workflows : Lane WorkflowActivation
workflows = record new_lane {
  messages = ok (record { run_id = run_b; is_only_eviction = true }) ∷ [];
  pending = 1;
}

abbrev tasks : Lane ActivityTask
tasks = record new_lane {
  messages = ok (record { task_token = token_a; variant = some start }) ∷ [];
  pending = 1;
}

abbrev lanes : PollLanes
lanes = record {
  ledger = owing;
  workflow_ready = workflows;
  activity_ready = tasks;
  sent = [];
  shutdown_started = false;
}

-- While Core is awaited, `run_a` is completed and comes back.
abbrev others : List Sent → List Call
others _ = completes_workflow run_a ∷ admits_activation run_a true ∷ []

-- A lane admits and publishes another run during a pass.
abbrev late : Publication
late = record {
  calls = admits_activation (99 ∷ []) false ∷ [];
  workflows = ok (record { run_id = 99 ∷ []; is_only_eviction = false }) ∷ [];
  tasks = [];
}

try_take_workflow-WorkflowHandoff_example :
    WorkflowHandoff lanes (try_take_workflow others lanes).0 (try_take_workflow others lanes).1
try_take_workflow-WorkflowHandoff_example = try_take_workflow-WorkflowHandoff others lanes

try_take_activity-ActivityHandoff_example :
    ActivityHandoff owing none []
      (fresh_part owing tasks.messages)
      (try_take_activity others lanes).0
      (try_take_activity others lanes).1
try_take_activity-ActivityHandoff_example = try_take_activity-ActivityHandoff others lanes

replay_answers_once_example :
    let s' = abandon_replay_for_dispose others late lanes in
    let answered : ℕ = unit_if (
      contains run_b owing.workflows
      || elem run_b (runs (queued_runs (publish_all late.workflows workflows).messages))) in
    (run_answers run_b s'.sent ≡ run_answers run_b [] + answered)
    × (acknowledgements run_b s'.sent ≡ acknowledgements run_b [] + answered)
    × (token_answers run_b s'.sent ≡ token_answers run_b [])
replay_answers_once_example = replay_answers_once others late lanes run_b owing-IsValid

disposal_settles_example :
    let s' =
      force_complete_outstanding_for_dispose quiet no_publication (initiate_shutdown lanes) in
    (can_finalize s'.ledger ≡ true)
    × (finalize s'.ledger true ≡ ok tt)
    × (s'.workflow_ready.messages ≡ [])
    × (s'.activity_ready.messages ≡ [])
unfolding owing
disposal_settles_example = disposal_settles lanes refl refl

abbrev none_yet : ShutdownRetirement
none_yet = record { abandoned_leases = 0; undelivered = 0 }

abbrev in_time : Bound
in_time = record { cut = λ d. d; in_last_pass = false }

abbrev selects : List Select
selects =
    record { published = late; meanwhile = λ s. s; branch = workflow_joined none }
    ∷ record { published = no_publication; meanwhile = λ s. s; branch = activity_joined (some []) }
    ∷ []

drain_and_join_for_shutdown-DrainEnd_example :
    let (d, result) = drain_and_join_for_shutdown quiet in_time selects lanes true true in
    DrainEnd (first_failure selects true true) d result
    × ((at : Draining) → IsRetiredOnReceipt quiet at)
drain_and_join_for_shutdown-DrainEnd_example =
    drain_and_join_for_shutdown-DrainEnd quiet in_time selects lanes true true
