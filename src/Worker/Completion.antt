-- ===== src/Worker/Completion.antt =====
-- rust/core-bridge/src/worker_bridge.rs, `PollLanes`: the completion handlers. Each gives the
-- ledger afterwards, the completions handed to Core, and its result. The mutex is free while Core
-- is awaited: `during` lists the ledger calls that others make in that time.
use ocaml_temporal.Base.{
  Bool, true, false, List, [], ◌∷◌, Result, ok, err, Bytes, if◌then◌else◌, ◌==◌,
}
use ocaml_temporal.Ledger.State.{TaskLedger, CompleteError, outstanding}
use ocaml_temporal.Ledger.Workflows.{is_eviction_lease, complete_workflow, retire_rejected_workflow}
use ocaml_temporal.Ledger.Activities.{
  ensure_activity_leased, complete_activity, retire_rejected_activity,
}
use ocaml_temporal.Ledger.Calls.{Call}
use ocaml_temporal.Ledger.Steps.{restore}
use ocaml_temporal.Ledger.History.{run}
use ocaml_temporal.Worker.Core.{
  Sent, workflow_completed, activity_completed, activity_retired, WorkerBridgeError, completion,
  core_workflow, core_activity, outstanding_tasks, lost_poll_lease, worker_still_shared,
  completion_stranded, core_wait_timed_out, GuardedCompletion, finished, stranded, timed_out,
  retirement,
}

abbrev pub Outcome : Type 0
Outcome = TaskLedger × List Sent × Result WorkerBridgeError (Unit {0})

-- After the wait for a workflow completion: only a refusal by Core restores the lease.
abbrev pub after_completion :
    GuardedCompletion
    → TaskLedger
    → Bytes
    → Bool
    → Bool
    → TaskLedger × Result WorkerBridgeError (Unit {0})
after_completion (finished true) l run_id was_eviction is_empty = (l, ok tt)
after_completion (finished false) l run_id was_eviction is_empty =
    (restore l run_id was_eviction, err core_workflow)
after_completion stranded l run_id was_eviction is_empty =
    (l, if is_empty then ok tt else err completion_stranded)
after_completion timed_out l run_id was_eviction is_empty = (l, err core_wait_timed_out)

-- `complete_workflow_with`: the lease is retired before Core is awaited.
unfoldable pub complete_workflow_with :
    List Call → GuardedCompletion → TaskLedger → Bytes → Bool → Outcome
complete_workflow_with during reply l run_id is_empty =
    let was_eviction = is_eviction_lease l run_id in
    let (l', result) = complete_workflow l run_id in
    elim result [
      | err e ↦ (l', [], err (completion e))
      | ok _ ↦
          let (l'', answer) = after_completion reply (run during l') run_id was_eviction is_empty in
          (l'', workflow_completed run_id ∷ [], answer)
    ]

abbrev pub after_rejection : GuardedCompletion → Bool → Result WorkerBridgeError (Unit {0})
after_rejection (finished accepted) eviction_only = if accepted then ok tt else err core_workflow
after_rejection stranded eviction_only = if eviction_only then ok tt else err completion_stranded
after_rejection timed_out eviction_only = err core_wait_timed_out

-- `reject_workflow_delivery_with`: the lease is retired whatever Core answers.
unfoldable pub reject_workflow_delivery_with :
    List Call → GuardedCompletion → TaskLedger → Bytes → Outcome
reject_workflow_delivery_with during reply l run_id =
    let eviction_only = is_eviction_lease l run_id in
    let (l', result) = retire_rejected_workflow l run_id in
    elim result [
      | err e ↦ (l', [], err (completion e))
      | ok _ ↦
          (run during l', retirement run_id eviction_only ∷ [], after_rejection reply eviction_only)
    ]

abbrev pub completed_as :
    TaskLedger × Result CompleteError (Unit {0}) → TaskLedger × Result WorkerBridgeError (Unit {0})
completed_as (l, ok _) = (l, ok tt)
completed_as (l, err e) = (l, err (completion e))

-- `complete_activity`: the lease is checked, and consumed only when Core has accepted.
unfoldable pub complete_activity_with : List Call → Bool → TaskLedger → Bytes → Outcome
complete_activity_with during accepted l task_token = elim (ensure_activity_leased l task_token) [
  | err e ↦ (l, [], err (completion e))
  | ok _ ↦
      let awaited = run during l in
      let (l', result) = completed_as (complete_activity awaited task_token) in
      if accepted
      then (l', activity_completed task_token ∷ [], result)
      else (awaited, activity_completed task_token ∷ [], err core_activity)
]

-- `core_result.and(ledger_result)`.
abbrev pub both : Bool → Result WorkerBridgeError (Unit {0}) → Result WorkerBridgeError (Unit {0})
both true result = result
both false result = err core_activity

-- `reject_activity_delivery`: the lease is consumed whatever Core answers.
unfoldable pub reject_activity_delivery : List Call → Bool → TaskLedger → Bytes → Outcome
reject_activity_delivery during accepted l task_token = elim (ensure_activity_leased l task_token) [
  | err e ↦ (l, [], err (completion e))
  | ok _ ↦
      let (l', result) = completed_as (retire_rejected_activity (run during l) task_token) in
      (l', activity_retired task_token ∷ [], both accepted result)
]

-- `record_activity_heartbeat`: a heartbeat goes to Core only under a lease.
unfoldable pub record_activity_heartbeat :
    TaskLedger → Bytes → Bool × Result WorkerBridgeError (Unit {0})
record_activity_heartbeat l task_token = elim (ensure_activity_leased l task_token) [
  | err e ↦ (false, err (completion e))
  | ok _ ↦ (true, ok tt)
]

-- `finalize`: `sole_owner` says whether `Arc::try_unwrap` succeeds.
unfoldable pub finalize : TaskLedger → Bool → Result WorkerBridgeError (Unit {0})
finalize l sole_owner =
    if outstanding l == 0
    then if l.lost_poll_lease
      then err lost_poll_lease
      else if sole_owner
      then ok tt
      else err worker_still_shared
    else err (outstanding_tasks (outstanding l))
