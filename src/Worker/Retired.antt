-- ===== src/Worker/Retired.antt =====
-- What one pass of the shutdown drain completes and counts.
use ocaml_temporal.Base.{◌+◌, ◌≡◌, List, [], ◌∷◌, ok, err, Bytes, bytes_key, arith, length}
use ocaml_temporal.Ledger.Workflows.{force_remove_workflow}
use ocaml_temporal.Ledger.Activities.{force_remove_activity}
use ocaml_temporal.Ledger.Calls.{Call}
use ocaml_temporal.Ledger.Taken.{runs}
use ocaml_temporal.Worker.Core.{
  WorkflowActivation, ActivityTask, Sent, activity_retired, ReadyTask, retirement,
}
use ocaml_temporal.Worker.Readiness.{take, take_inner}
use ocaml_temporal.Worker.Handoff.{PollLanes, await_core}
use ocaml_temporal.Worker.Retirement.{
  ShutdownRetirement, count_undelivered, drain_workflows, drain_activities,
}
use ocaml_temporal.Worker.Answers.{
  run_answers, token_answers, occurs, run_answers-append, token_answers-append,
  answers_run-retirement, answers_token-retirement,
}
use ocaml_temporal.Worker.Disposed.{queued_runs, queued_tokens}

module _ (others : List Sent → List Call) where
  -- The loop over the queued activations.
  pub drain_workflows_lem :
      (ms : List (ReadyTask WorkflowActivation)) (s : PollLanes) (n : ShutdownRetirement)
      (k : Bytes)
      → s.workflow_ready.messages ≡ ms
      → let (s', n') = drain_workflows others ms (s, n) in
        (run_answers k s'.sent ≡ run_answers k s.sent + occurs k (runs (queued_runs ms)))
        × (token_answers k s'.sent ≡ token_answers k s.sent)
        × (n'.undelivered ≡ n.undelivered + length (queued_runs ms))
        × (n'.abandoned_leases ≡ n.abandoned_leases)
        × (s'.activity_ready ≡ s.activity_ready)
        × (s'.workflow_ready.messages ≡ [])
  unfolding drain_workflows occurs take take_inner
  drain_workflows_lem [] s n k h = ground arith
  drain_workflows_lem (err e ∷ ms) s n k h =
      let s' : PollLanes = record s { workflow_ready = (take s.workflow_ready).0 } in
      ground (arith, drain_workflows_lem ms s' n k)
  drain_workflows_lem (ok a ∷ ms) s n k h =
      let c : Sent = retirement a.run_id a.is_only_eviction in
      let s' : PollLanes = record s {
        workflow_ready = (take s.workflow_ready).0;
        ledger = force_remove_workflow s.ledger a.run_id;
      } in
      ground (
        arith,
        drain_workflows_lem ms (await_core others s' c) (count_undelivered n) k,
        run_answers-append k c s.sent,
        token_answers-append k c s.sent,
        answers_run-retirement k a.run_id a.is_only_eviction,
        answers_token-retirement k a.run_id a.is_only_eviction,
      )

  -- The loop over the queued activity tasks.
  pub drain_activities_lem :
      (ms : List (ReadyTask ActivityTask)) (s : PollLanes) (n : ShutdownRetirement) (k : Bytes)
      → s.activity_ready.messages ≡ ms
      → let (s', n') = drain_activities others ms (s, n) in
        (token_answers k s'.sent ≡ token_answers k s.sent + occurs k (queued_tokens ms))
        × (run_answers k s'.sent ≡ run_answers k s.sent)
        × (n'.undelivered ≡ n.undelivered + length (queued_tokens ms))
        × (n'.abandoned_leases ≡ n.abandoned_leases)
        × (s'.workflow_ready ≡ s.workflow_ready)
        × (s'.activity_ready.messages ≡ [])
  unfolding drain_activities occurs take take_inner
  drain_activities_lem [] s n k h = ground arith
  drain_activities_lem (err e ∷ ms) s n k h =
      let s' : PollLanes = record s { activity_ready = (take s.activity_ready).0 } in
      ground (arith, drain_activities_lem ms s' n k)
  drain_activities_lem (ok task ∷ ms) s n k h =
      let c : Sent = activity_retired task.task_token in
      let idle : PollLanes = record s { activity_ready = (take s.activity_ready).0 } in
      let s' : PollLanes = record idle {
        ledger = force_remove_activity s.ledger task.task_token;
      } in
      ground (
        arith,
        drain_activities_lem ms idle n k,
        drain_activities_lem ms (await_core others s' c) (count_undelivered n) k,
        run_answers-append k c s.sent,
        token_answers-append k c s.sent,
      )
