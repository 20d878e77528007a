-- ===== src/Worker/Settled.antt =====
-- A pass of disposal with nothing else running leaves a worker that can be finalized.
use ocaml_temporal.Worker.Disposed.{collect_workflows_lem}
use ocaml_temporal.Worker.Completion.{finalize}
use ocaml_temporal.Worker.Dispose.{
  claim_workflows, claim_activities, claim_dispose_workflow_identity,
  claim_dispose_activity_identity, force_complete_outstanding_for_dispose, collect_workflows,
  claim_task,
}
use ocaml_temporal.Base.{
  ◌≡◌, refl, Bool, true, false, List, [], ◌∷◌, ok, err, Bytes, bytes_key, arith, map, ap, subst,
  sym, ◌∙◌,
}
use ocaml_temporal.Base.Map.{Set, remove, add, extend}
use ocaml_temporal.Ledger.State.{
  TaskLedger, draining_phase, outstanding, can_finalize, begin_draining, outstanding_workflows,
  outstanding_activities,
}
use ocaml_temporal.Ledger.Workflows.{retire_workflow_for_dispose}
use ocaml_temporal.Ledger.Activities.{retire_activity_for_dispose}
use ocaml_temporal.Ledger.Drain.{take_all_outstanding}
use ocaml_temporal.Ledger.Calls.{Call}
use ocaml_temporal.Ledger.History.{run}
use ocaml_temporal.Worker.Core.{ActivityTask, Sent, ReadyTask, retirement, activity_retired}
use ocaml_temporal.Worker.Readiness.{take, take_inner, publish_all}
use ocaml_temporal.Worker.Handoff.{PollLanes, await_core, initiate_shutdown, no_publication}
use ocaml_temporal.Worker.Retirement.{retire_workflows, retire_activities}

-- Nothing happens while Core is awaited.
abbrev pub quiet : List Sent → List Call
quiet _ = []

-- Nothing is owed, and the ledger is draining without a loss.
abbrev Cleared : TaskLedger → Type 0
Cleared l =
    (l.workflows ≡ [])
    × (l.activities ≡ [])
    × (l.phase ≡ draining_phase)
    × (l.lost_poll_lease ≡ false)

quiet-retire_workflows :
    (ws : List (Bytes × Bool)) (s : PollLanes) → (retire_workflows quiet ws s).ledger ≡ s.ledger
unfolding retire_workflows run
quiet-retire_workflows [] s = refl
quiet-retire_workflows ((r, b) ∷ ws) s =
    quiet-retire_workflows ws (await_core quiet s (retirement r b))

quiet-retire_activities :
    (ts : List Bytes) (s : PollLanes) → (retire_activities quiet ts s).ledger ≡ s.ledger
unfolding retire_activities run
quiet-retire_activities [] s = refl
quiet-retire_activities (t ∷ ts) s =
    quiet-retire_activities ts (await_core quiet s (activity_retired t))

claim_workflows-Cleared :
    (ws : List (Bytes × Bool)) (s : PollLanes) (completed : Set Bytes)
    → Cleared s.ledger
    → Cleared (claim_workflows quiet ws s completed).ledger
      × ((claim_workflows quiet ws s completed).workflow_ready ≡ s.workflow_ready)
unfolding claim_workflows claim_dispose_workflow_identity retire_workflow_for_dispose run remove
claim_workflows-Cleared [] s completed h = (h, refl)
claim_workflows-Cleared ((r, b) ∷ ws) s completed h =
    let l : TaskLedger = retire_workflow_for_dispose s.ledger r in
    ground (
      arith,
      claim_workflows-Cleared ws s completed,
      claim_workflows-Cleared ws (await_core quiet (record s { ledger = l }) (retirement r b))
          (add r completed),
    )

-- What one message does.
claim_task-Cleared :
    (m : ReadyTask ActivityTask) (s : PollLanes) (completed : Set Bytes)
    → Cleared s.ledger
    → Cleared (claim_task quiet m s completed).0.ledger
      × ((claim_task quiet m s completed).0.workflow_ready ≡ s.workflow_ready)
      × ((claim_task quiet m s completed).0.activity_ready ≡ s.activity_ready)
unfolding claim_dispose_activity_identity retire_activity_for_dispose run remove
claim_task-Cleared (err e) s completed c = (c, refl, refl)
claim_task-Cleared (ok task) s completed c = ground arith

claim_activities-step :
    (m : ReadyTask ActivityTask) (ms : List (ReadyTask ActivityTask)) (s : PollLanes)
    (completed : Set Bytes)
    → s.activity_ready.messages ≡ m ∷ ms
    → let s' : PollLanes = record s { activity_ready = (take s.activity_ready).0 } in
      let (s'', completed') = claim_task quiet m s' completed in
      (claim_activities quiet (m ∷ ms) s completed ≡ claim_activities quiet ms s'' completed')
      × (s'.activity_ready.messages ≡ ms)
unfolding claim_activities take take_inner
claim_activities-step m ms s completed h = ground arith

claim_activities-Cleared :
    (ms : List (ReadyTask ActivityTask)) (s : PollLanes) (completed : Set Bytes)
    → s.activity_ready.messages ≡ ms
    → Cleared s.ledger
    → Cleared (claim_activities quiet ms s completed).ledger
      × ((claim_activities quiet ms s completed).workflow_ready ≡ s.workflow_ready)
      × ((claim_activities quiet ms s completed).activity_ready.messages ≡ [])
unfolding claim_activities take take_inner
claim_activities-Cleared [] s completed h c = ground arith
claim_activities-Cleared (m ∷ ms) s completed h c =
    let s' : PollLanes = record s { activity_ready = (take s.activity_ready).0 } in
    let r : PollLanes × Set Bytes = claim_task quiet m s' completed in
    let (step, behind) = claim_activities-step m ms s completed h in
    let (c', same, queue) = claim_task-Cleared m s' completed c in
    let (cleared, same', empty) =
      claim_activities-Cleared ms r.0 r.1 (ap (λ q. q.messages) queue ∙ behind) c' in
    subst
      (λ x.
        Cleared x.ledger × (x.workflow_ready ≡ s.workflow_ready) × (x.activity_ready.messages ≡ []))
      (sym step) (cleared, same' ∙ same, empty)

-- Shutdown begins and a pass of disposal runs while nothing else does: if no lease was lost before,
-- the queues are then empty and the sole owner can finalize the worker, whatever was owed.
pub disposal_settles :
    (s : PollLanes)
    → s.shutdown_started ≡ false
    → s.ledger.lost_poll_lease ≡ false
    → let s' = force_complete_outstanding_for_dispose quiet no_publication (initiate_shutdown s) in
      (can_finalize s'.ledger ≡ true)
      × (finalize s'.ledger true ≡ ok tt)
      × (s'.workflow_ready.messages ≡ [])
      × (s'.activity_ready.messages ≡ [])
unfolding force_complete_outstanding_for_dispose take_all_outstanding initiate_shutdown run
    publish_all begin_draining can_finalize finalize outstanding outstanding_workflows
    outstanding_activities
disposal_settles s fresh kept =
    let s0 : PollLanes = initiate_shutdown s in
    let w : List (Bytes × Bool) = (take_all_outstanding s0.ledger).1 in
    let t : List Bytes = (take_all_outstanding s0.ledger).2 in
    let s1 : PollLanes = record s0 { ledger = (take_all_outstanding s0.ledger).0 } in
    let s2 : PollLanes = retire_workflows quiet w s1 in
    let s3 : PollLanes = retire_activities quiet t s2 in
    let collected : PollLanes × List (Bytes × Bool) =
      collect_workflows s3.workflow_ready.messages s3 in
    let s4 : PollLanes = collected.0 in
    let completed : Set Bytes = extend (map (λ p. p.0) w) [] in
    let s5 : PollLanes = claim_workflows quiet collected.1 s4 completed in
    ground (
      arith,
      quiet-retire_workflows w s1,
      quiet-retire_activities t s2,
      collect_workflows_lem s3.workflow_ready.messages s3 refl,
      claim_workflows-Cleared collected.1 s4 completed,
      claim_activities-Cleared s5.activity_ready.messages s5 (extend t []) refl,
    )
