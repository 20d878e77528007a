-- ===== src/Worker/Disposed.antt =====
-- A pass of disposal answers every identity that is owed or queued once.
use ocaml_temporal.Base.{
  ◌≡◌, Bool, List, [], ◌∷◌, ◌++◌, ok, err, Bytes, bytes_key, arith, if◌then◌else◌,
}
use ocaml_temporal.Worker.Core.{WorkflowActivation, ActivityTask, ReadyTask, is_cancel_task}
use ocaml_temporal.Worker.Readiness.{take, take_inner}
use ocaml_temporal.Worker.Handoff.{PollLanes}
use ocaml_temporal.Worker.Dispose.{queued_run, collect_workflows}

-- The runs of a queue, each with its eviction bit, and the tokens of its starts.
abbrev pub queued_runs : List (ReadyTask WorkflowActivation) → List (Bytes × Bool)
queued_runs [] = []
queued_runs (m ∷ ms) = queued_run m ++ queued_runs ms

abbrev pub queued_token : ReadyTask ActivityTask → List Bytes
queued_token (err e) = []
queued_token (ok task) = if is_cancel_task task then [] else task.task_token ∷ []

abbrev pub queued_tokens : List (ReadyTask ActivityTask) → List Bytes
queued_tokens [] = []
queued_tokens (m ∷ ms) = queued_token m ++ queued_tokens ms

pub collect_workflows_lem :
    (ms : List (ReadyTask WorkflowActivation)) (s : PollLanes)
    → s.workflow_ready.messages ≡ ms
    → ((collect_workflows ms s).1 ≡ queued_runs ms)
      × ((collect_workflows ms s).0.sent ≡ s.sent)
      × ((collect_workflows ms s).0.ledger ≡ s.ledger)
      × ((collect_workflows ms s).0.activity_ready ≡ s.activity_ready)
      × ((collect_workflows ms s).0.workflow_ready.messages ≡ [])
unfolding collect_workflows take take_inner
collect_workflows_lem [] s h = ground arith
collect_workflows_lem (m ∷ ms) s h =
    let s' : PollLanes = record s { workflow_ready = (take s.workflow_ready).0 } in
    ground (arith, collect_workflows_lem ms s')
