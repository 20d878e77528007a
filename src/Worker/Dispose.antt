-- ===== src/Worker/Dispose.antt =====
-- rust/core-bridge/src/worker_bridge.rs, `force_complete_outstanding_for_dispose` and
-- `abandon_replay_for_dispose`: one pass of disposal, of a live and of a replay worker.
use ocaml_temporal.Base.{
  Bool, true, false, none, some, List, [], ◌∷◌, ◌++◌, ok, err, Bytes, bytes_key, if◌then◌else◌, map,
}
use ocaml_temporal.Base.Map.{Set, contains, add, extend}
use ocaml_temporal.Ledger.State.{TaskLedger}
use ocaml_temporal.Ledger.Workflows.{force_remove_workflow, retire_workflow_for_dispose}
use ocaml_temporal.Ledger.Activities.{retire_activity_for_dispose}
use ocaml_temporal.Ledger.Drain.{take_all_outstanding, take_all_outstanding_for_replay}
use ocaml_temporal.Ledger.Calls.{Call}
use ocaml_temporal.Worker.Core.{
  WorkflowActivation, ActivityTask, Sent, workflow_empty, activity_retired, ReadyTask,
  is_cancel_task, retirement,
}
use ocaml_temporal.Worker.Readiness.{take}
use ocaml_temporal.Worker.Handoff.{PollLanes, Publication, publish, await_core}
use ocaml_temporal.Worker.Retirement.{retire_workflows, retire_activities}

unfoldable pub claim_dispose_workflow_identity :
    TaskLedger → Set Bytes → Bytes → TaskLedger × Set Bytes × Bool
claim_dispose_workflow_identity l completed run_id =
    if contains run_id completed
    then (l, completed, false)
    else (retire_workflow_for_dispose l run_id, add run_id completed, true)

unfoldable pub claim_dispose_activity_identity :
    TaskLedger → Set Bytes → Bytes → TaskLedger × Set Bytes × Bool
claim_dispose_activity_identity l completed task_token =
    if contains task_token completed
    then (l, completed, false)
    else (retire_activity_for_dispose l task_token, add task_token completed, true)

abbrev pub queued_run : ReadyTask WorkflowActivation → List (Bytes × Bool)
queued_run (ok a) = (a.run_id, a.is_only_eviction) ∷ []
queued_run (err e) = []

-- The queue is drained into a list; the first argument is the queue itself, and bounds the loop.
unfoldable pub collect_workflows :
    List (ReadyTask WorkflowActivation) → PollLanes → PollLanes × List (Bytes × Bool)
collect_workflows [] s = (record s { workflow_ready = (take s.workflow_ready).0 }, [])
collect_workflows (_ ∷ later) s =
    let (lane, ready) = take s.workflow_ready in
    let s' : PollLanes = record s { workflow_ready = lane } in
    let (s'', queued) = collect_workflows later s' in
    elim ready [ none ↦ (s', []) | some message ↦ (s'', queued_run message ++ queued) ]

module _ (others : List Sent → List Call) where
  -- A queued activation is completed if this pass has not completed its run.
  unfoldable pub claim_workflows : List (Bytes × Bool) → PollLanes → Set Bytes → PollLanes
  claim_workflows [] s completed = s
  claim_workflows ((run_id, eviction_only) ∷ rest) s completed =
      let (l, completed', claimed) = claim_dispose_workflow_identity s.ledger completed run_id in
      let s' : PollLanes = record s { ledger = l } in
      claim_workflows rest
        (if claimed then await_core others s' (retirement run_id eviction_only) else s') completed'

  abbrev pub claim_task : ReadyTask ActivityTask → PollLanes → Set Bytes → PollLanes × Set Bytes
  claim_task (err e) s completed = (s, completed)
  claim_task (ok task) s completed =
      if is_cancel_task task
      then (s, completed)
      else let (l, completed', claimed) =
          claim_dispose_activity_identity s.ledger completed task.task_token in
        let s' : PollLanes = record s { ledger = l } in
        (
          if claimed then await_core others s' (activity_retired task.task_token) else s',
          completed',
        )

  unfoldable pub claim_activities :
      List (ReadyTask ActivityTask) → PollLanes → Set Bytes → PollLanes
  claim_activities [] s completed = record s { activity_ready = (take s.activity_ready).0 }
  claim_activities (_ ∷ later) s completed =
      let (lane, ready) = take s.activity_ready in
      let s' : PollLanes = record s { activity_ready = lane } in
      elim ready [
        | none ↦ s'
        | some message ↦
            let (s'', completed') = claim_task message s' completed in
            claim_activities later s'' completed'
      ]

  unfoldable pub force_complete_outstanding_for_dispose : Publication → PollLanes → PollLanes
  force_complete_outstanding_for_dispose p s =
      let (l, workflows, tokens) = take_all_outstanding s.ledger in
      let owed = publish p (
        retire_activities others tokens
          (retire_workflows others workflows (record s { ledger = l }))) in
      let (drained, queued) = collect_workflows owed.workflow_ready.messages owed in
      let claimed = claim_workflows queued drained (extend (map (λ p. p.0) workflows) []) in
      claim_activities claimed.activity_ready.messages claimed (extend tokens [])

  -- The queued runs are removed, and each is listed once.
  unfoldable pub collect_replay :
      List (ReadyTask WorkflowActivation) → PollLanes → Set Bytes → PollLanes × List Bytes
  collect_replay [] s seen = (record s { workflow_ready = (take s.workflow_ready).0 }, [])
  collect_replay (_ ∷ later) s seen =
      let (lane, ready) = take s.workflow_ready in
      let s' : PollLanes = record s { workflow_ready = lane } in
      elim ready [
        | none ↦ (s', [])
        | some message ↦ elim message [
          | err e ↦ collect_replay later s' seen
          | ok a ↦
              let (s'', ids) =
                collect_replay later
                  (record s' { ledger = force_remove_workflow s'.ledger a.run_id })
                  (add a.run_id seen) in
              (s'', if contains a.run_id seen then ids else a.run_id ∷ ids)
        ]
      ]

  unfoldable pub acknowledge_all : List Bytes → PollLanes → PollLanes
  acknowledge_all [] s = s
  acknowledge_all (run_id ∷ rest) s =
      acknowledge_all rest (await_core others s (workflow_empty run_id))

  unfoldable pub abandon_replay_for_dispose : Publication → PollLanes → PollLanes
  abandon_replay_for_dispose p s =
      let (l, workflow_ids, _) = take_all_outstanding_for_replay s.ledger in
      let s' : PollLanes = publish p (record s { ledger = l }) in
      let (drained, queued) =
        collect_replay s'.workflow_ready.messages s' (extend workflow_ids []) in
      acknowledge_all (workflow_ids ++ queued) drained
