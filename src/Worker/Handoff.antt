-- ===== src/Worker/Handoff.antt =====
-- rust/core-bridge/src/worker_bridge.rs, `PollLanes` as its owner uses it: the handoff to OCaml and
-- the start of shutdown. While Core is awaited, others call the ledger: `others` lists their calls,
-- given the completions handed to Core so far. Messages that a lane publishes while a handoff waits
-- stay in its queue for the owner's next take.
use ocaml_temporal.Base.{
  Bool, true, Option, none, some, List, [], ◌∷◌, ◌++◌, ok, err, Bytes, if◌then◌else◌,
}
use ocaml_temporal.Ledger.State.{
  ActivityAdmission, start, cancel, invalid_identity, CompleteError, already_leased, TaskLedger,
  begin_draining,
}
use ocaml_temporal.Ledger.Workflows.{lease_workflow_activation, abandon_workflow_admission}
use ocaml_temporal.Ledger.Activities.{handoff_activity, abandon_activity_admission}
use ocaml_temporal.Ledger.Calls.{Call}
use ocaml_temporal.Ledger.History.{run}
use ocaml_temporal.Worker.Core.{
  WorkflowActivation, ActivityTask, Sent, workflow_failed, activity_retired, PollLaneError,
  admission, duplicate_identity, ReadyTask, is_cancel_task, is_stale_activity_cancellation,
}
use ocaml_temporal.Worker.Readiness.{Lane, take_or_failure, close, publish_all}

pub record PollLanes : Type 0 where
  pub ledger : TaskLedger
  pub workflow_ready : Lane WorkflowActivation
  pub activity_ready : Lane ActivityTask
  pub sent : List Sent
  pub shutdown_started : Bool

-- Admission closes, and both waits wake.
unfoldable pub initiate_shutdown : PollLanes → PollLanes
initiate_shutdown s = if s.shutdown_started then s else record s {
  ledger = begin_draining s.ledger;
  workflow_ready = close s.workflow_ready;
  activity_ready = close s.activity_ready;
  shutdown_started = true;
}

unfoldable pub mark_natural_shutdown : PollLanes → PollLanes
mark_natural_shutdown s =
    if s.shutdown_started then s else record s { ledger = begin_draining s.ledger }

abbrev pub handoff_kind : ActivityTask → ActivityAdmission
handoff_kind task = if is_cancel_task task then cancel else start

-- What happens during a pass besides the awaits: the calls that others make between the snapshot of
-- the ledger and the drain of the queues, and the messages that the lanes publish before a drain
-- finds its queue empty. A queue is first in, first out, and a drain goes on until it is empty, so it
-- does not matter when they are put behind those that are queued.
pub record Publication : Type 0 where
  pub calls : List Call
  pub workflows : List (ReadyTask WorkflowActivation)
  pub tasks : List (ReadyTask ActivityTask)

abbrev pub no_publication : Publication
no_publication = record { calls = []; workflows = []; tasks = [] }

abbrev pub publish : Publication → PollLanes → PollLanes
publish p s = record s {
  ledger = run p.calls s.ledger;
  workflow_ready = publish_all p.workflows s.workflow_ready;
  activity_ready = publish_all p.tasks s.activity_ready;
}

module _ (others : List Sent → List Call) where
  -- A completion is handed to Core, and its answer awaited.
  abbrev pub await_core : PollLanes → Sent → PollLanes
  await_core s c =
      let sent = s.sent ++ c ∷ [] in record s { ledger = run (others sent) s.ledger; sent = sent }

  abbrev pub fail_handoff_workflow : PollLanes → Bytes → PollLanes
  fail_handoff_workflow s run_id =
      let s' = await_core s (workflow_failed run_id) in
      record s' { ledger = abandon_workflow_admission s'.ledger run_id }

  abbrev pub refuse_workflow : PollLanes → Bytes → CompleteError → PollLanes × PollLaneError
  refuse_workflow s run_id already_leased = (s, duplicate_identity)
  refuse_workflow s run_id _ = (fail_handoff_workflow s run_id, admission invalid_identity)

  abbrev pub handoff_workflow :
      PollLanes → WorkflowActivation → PollLanes × Option (ReadyTask WorkflowActivation)
  handoff_workflow s a =
      let (l, lease) = lease_workflow_activation s.ledger a.run_id a.is_only_eviction in
      let s' : PollLanes = record s { ledger = l } in
      elim lease [
        | ok _ ↦ (s', some (ok a))
        | err e ↦ let (s'', e') = refuse_workflow s' a.run_id e in (s'', some (err e'))
      ]

  abbrev pub handoff_workflow_message :
      PollLanes
      → Option (ReadyTask WorkflowActivation)
      → PollLanes × Option (ReadyTask WorkflowActivation)
  handoff_workflow_message s none = (s, none)
  handoff_workflow_message s (some (err e)) = (s, some (err e))
  handoff_workflow_message s (some (ok a)) = handoff_workflow s a

  unfoldable pub try_take_workflow : PollLanes → PollLanes × Option (ReadyTask WorkflowActivation)
  try_take_workflow s =
      let (lane, ready) = take_or_failure s.workflow_ready in
      handoff_workflow_message (record s { workflow_ready = lane }) ready

  abbrev pub fail_handoff_activity : PollLanes → Bytes → PollLanes
  fail_handoff_activity s task_token =
      let s' = await_core s (activity_retired task_token) in
      record s' { ledger = abandon_activity_admission s'.ledger task_token }

  abbrev pub refuse_activity : PollLanes → Bytes → CompleteError → PollLanes × PollLaneError
  refuse_activity s task_token already_leased = (s, duplicate_identity)
  refuse_activity s task_token _ = (fail_handoff_activity s task_token, admission invalid_identity)

  -- A stale cancellation is dropped, and the loop goes on with the messages behind it.
  unfoldable pub take_activity :
      List (ReadyTask ActivityTask) → PollLanes → PollLanes × Option (ReadyTask ActivityTask)
  take_activity [] s =
      let (lane, ready) = take_or_failure s.activity_ready in
      (record s { activity_ready = lane }, ready)
  take_activity (_ ∷ later) s =
      let (lane, ready) = take_or_failure s.activity_ready in
      let s' : PollLanes = record s { activity_ready = lane } in
      elim ready [
        | none ↦ (s', none)
        | some message ↦ elim message [
          | err e ↦ (s', some (err e))
          | ok task ↦
              let (l, lease) = handoff_activity s'.ledger task.task_token (handoff_kind task) in
              let s'' : PollLanes = record s' { ledger = l } in
              let rest = take_activity later s'' in
              elim lease [
                | ok _ ↦ (s'', some (ok task))
                | err e ↦
                    if is_stale_activity_cancellation task e
                    then rest
                    else let (s''', e') = refuse_activity s'' task.task_token e in
                      (s''', some (err e'))
              ]
        ]
      ]

  -- The list is the queue itself: it bounds the loop.
  unfoldable pub try_take_activity : PollLanes → PollLanes × Option (ReadyTask ActivityTask)
  try_take_activity s = take_activity s.activity_ready.messages s
