-- ===== src/Worker/Retirement.antt =====
-- rust/core-bridge/src/worker_bridge.rs, `retire_visible_for_shutdown` with the two methods it
-- uses: one pass of the shutdown drain.
use ocaml_temporal.Base.{
  ℕ, ◌+◌, Bool, none, some, List, [], ◌∷◌, ok, err, Bytes, if◌then◌else◌, length,
}
use ocaml_temporal.Ledger.Workflows.{force_remove_workflow}
use ocaml_temporal.Ledger.Activities.{force_remove_activity}
use ocaml_temporal.Ledger.Drain.{take_leased_for_shutdown}
use ocaml_temporal.Ledger.Calls.{Call}
use ocaml_temporal.Worker.Core.{
  WorkflowActivation, ActivityTask, Sent, activity_retired, ReadyTask, is_cancel_task, retirement,
}
use ocaml_temporal.Worker.Readiness.{take}
use ocaml_temporal.Worker.Handoff.{PollLanes, Publication, publish, await_core}

pub record ShutdownRetirement : Type 0 where
  pub abandoned_leases : ℕ
  pub undelivered : ℕ

abbrev pub Retiring : Type 0
Retiring = PollLanes × ShutdownRetirement

abbrev pub count_undelivered : ShutdownRetirement → ShutdownRetirement
count_undelivered n = record n { undelivered = n.undelivered + 1 }

module _ (others : List Sent → List Call) where
  -- The loops that complete what was taken out of the ledger.
  unfoldable pub retire_workflows : List (Bytes × Bool) → PollLanes → PollLanes
  retire_workflows [] s = s
  retire_workflows ((run_id, eviction_only) ∷ rest) s =
      retire_workflows rest (await_core others s (retirement run_id eviction_only))

  unfoldable pub retire_activities : List Bytes → PollLanes → PollLanes
  retire_activities [] s = s
  retire_activities (task_token ∷ rest) s =
      retire_activities rest (await_core others s (activity_retired task_token))

  abbrev pub retire_queued_workflow : ReadyTask WorkflowActivation → Retiring → Retiring
  retire_queued_workflow (err e) (s, n) = (s, n)
  retire_queued_workflow (ok a) (s, n) = (
    await_core others (record s { ledger = force_remove_workflow s.ledger a.run_id })
        (retirement a.run_id a.is_only_eviction),
    count_undelivered n,
  )

  abbrev pub retire_queued_activity : ReadyTask ActivityTask → Retiring → Retiring
  retire_queued_activity (err e) (s, n) = (s, n)
  retire_queued_activity (ok task) (s, n) = if is_cancel_task task then (s, n) else (
    await_core others (record s { ledger = force_remove_activity s.ledger task.task_token })
        (activity_retired task.task_token),
    count_undelivered n,
  )

  -- The loops over the queues; the list is the queue itself, and bounds the loop.
  unfoldable pub drain_workflows : List (ReadyTask WorkflowActivation) → Retiring → Retiring
  drain_workflows [] (s, n) = (record s { workflow_ready = (take s.workflow_ready).0 }, n)
  drain_workflows (_ ∷ later) (s, n) =
      let (lane, ready) = take s.workflow_ready in
      let s' : PollLanes = record s { workflow_ready = lane } in
      elim ready [
        | none ↦ (s', n)
        | some message ↦ drain_workflows later (retire_queued_workflow message (s', n))
      ]

  unfoldable pub drain_activities : List (ReadyTask ActivityTask) → Retiring → Retiring
  drain_activities [] (s, n) = (record s { activity_ready = (take s.activity_ready).0 }, n)
  drain_activities (_ ∷ later) (s, n) =
      let (lane, ready) = take s.activity_ready in
      let s' : PollLanes = record s { activity_ready = lane } in
      elim ready [
        | none ↦ (s', n)
        | some message ↦ drain_activities later (retire_queued_activity message (s', n))
      ]

  -- The leases that the pass takes out of the ledger, completed and counted.
  abbrev pub retire_leases : Retiring → Retiring
  retire_leases (s, n) =
      let (l, workflows, activities) = take_leased_for_shutdown s.ledger in
      (
        retire_activities activities (retire_workflows workflows (record s { ledger = l })),
        record n { abandoned_leases = n.abandoned_leases + (length workflows + length activities) },
      )

  unfoldable pub retire_visible_for_shutdown : Publication → Retiring → Retiring
  retire_visible_for_shutdown p start =
      let (s, n) = retire_leases start in
      let leases : Retiring = (publish p s, n) in
      let workflows = drain_workflows leases.0.workflow_ready.messages leases in
      drain_activities workflows.0.activity_ready.messages workflows
