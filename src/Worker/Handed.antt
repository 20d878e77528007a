-- ===== src/Worker/Handed.antt =====
-- What OCaml gets from the ready queues.
use ocaml_temporal.Base.{
  ◌≡◌, ◌≢◌, refl, Bool, true, false, Option, none, some, List, [], ◌∷◌, ◌++◌, ok, err, Bytes,
  bytes_key, bytes_eq_iff, arith,
}
use ocaml_temporal.Base.Map.{get, contains, get-insert, get-remove}
use ocaml_temporal.Ledger.State.{TaskLedger, invalid_identity}
use ocaml_temporal.Ledger.Workflows.{lease_workflow_activation, abandon_workflow_admission}
use ocaml_temporal.Ledger.Calls.{Call}
use ocaml_temporal.Ledger.History.{run}
use ocaml_temporal.Worker.Core.{
  WorkflowActivation, Sent, workflow_failed, PollLaneError, admission, duplicate_identity,
  ReadyTask,
}
use ocaml_temporal.Worker.Readiness.{take_or_failure, take_inner}
use ocaml_temporal.Worker.Handoff.{PollLanes, try_take_workflow}

-- The outcome of a handoff: the lanes before and after it, and what the owner gets.
pub data WorkflowHandoff (s s' : PollLanes) (result : Option (ReadyTask WorkflowActivation))
    : Type 0 where
  -- Nothing is queued or reported.
  nothing :
      s.workflow_ready.messages ≡ []
      → s.workflow_ready.error ≡ none
      → result ≡ none
      → s'.ledger ≡ s.ledger
      → s'.sent ≡ s.sent
      → WorkflowHandoff s s' result
  -- The error at the head is passed on.
  reported :
      (e : PollLaneError) (rest : List (ReadyTask WorkflowActivation))
      → s.workflow_ready.messages ≡ err e ∷ rest
      → result ≡ some (err e)
      → s'.workflow_ready.messages ≡ rest
      → s'.ledger ≡ s.ledger
      → s'.sent ≡ s.sent
      → WorkflowHandoff s s' result
  -- Nothing is queued, and the lane has failed.
  lane_failed :
      (e : PollLaneError)
      → s.workflow_ready.messages ≡ []
      → s.workflow_ready.error ≡ some e
      → result ≡ some (err e)
      → s'.ledger ≡ s.ledger
      → s'.sent ≡ s.sent
      → WorkflowHandoff s s' result
  -- The activation at the head was a waiting debt, and is leased to OCaml with its eviction bit.
  leased :
      (a : WorkflowActivation) (rest : List (ReadyTask WorkflowActivation))
      → s.workflow_ready.messages ≡ ok a ∷ rest
      → result ≡ some (ok a)
      → get a.run_id s.ledger.workflows ≡ some false
      → get a.run_id s'.ledger.workflows ≡ some true
      → contains a.run_id s'.ledger.eviction_activations ≡ a.is_only_eviction
      → s'.workflow_ready.messages ≡ rest
      → s'.sent ≡ s.sent
      → WorkflowHandoff s s' result
  -- Its run is leased already: that lease is not touched, and Core hears nothing.
  still_leased :
      (a : WorkflowActivation) (rest : List (ReadyTask WorkflowActivation))
      → s.workflow_ready.messages ≡ ok a ∷ rest
      → result ≡ some (err duplicate_identity)
      → get a.run_id s.ledger.workflows ≡ some true
      → s'.ledger ≡ s.ledger
      → s'.sent ≡ s.sent
      → WorkflowHandoff s s' result
  -- Its run was no debt: it is failed once, and no waiting debt of the run is left.
  failed :
      (a : WorkflowActivation) (rest : List (ReadyTask WorkflowActivation))
      → s.workflow_ready.messages ≡ ok a ∷ rest
      → result ≡ some (err (admission invalid_identity))
      → get a.run_id s.ledger.workflows ≡ none
      → get a.run_id s'.ledger.workflows ≢ some false
      → s'.sent ≡ s.sent ++ workflow_failed a.run_id ∷ []
      → WorkflowHandoff s s' result

abandoned_not_waiting :
    (l : TaskLedger) (r : Bytes) → get r (abandon_workflow_admission l r).workflows ≢ some false
unfolding abandon_workflow_admission
abandoned_not_waiting l r = ground (arith, get-remove r r l.workflows, bytes_eq_iff r r)

module _ (others : List Sent → List Call) where
  handoff_of_head :
      (s : PollLanes) (a : WorkflowActivation) (rest : List (ReadyTask WorkflowActivation))
      → s.workflow_ready.messages ≡ ok a ∷ rest
      → (entry : Option Bool) → get a.run_id s.ledger.workflows ≡ entry
      → WorkflowHandoff s (try_take_workflow others s).0 (try_take_workflow others s).1
  unfolding try_take_workflow take_or_failure take_inner lease_workflow_activation
  handoff_of_head s a rest h none g =
      failed a rest h (ground arith) g
        (ground (
          arith,
          abandoned_not_waiting (run (others (s.sent ++ workflow_failed a.run_id ∷ [])) s.ledger)
              a.run_id,
        ))
        (ground arith)
  handoff_of_head s a rest h (some true) g =
      still_leased a rest h (ground arith) g (ground arith) (ground arith)
  handoff_of_head s a rest h (some false) g =
      leased a rest h (ground arith) g
        (ground (
          arith,
          get-insert a.run_id a.run_id true s.ledger.workflows,
          bytes_eq_iff a.run_id a.run_id,
        ))
        (ground (
          arith,
          get-insert a.run_id a.run_id tt s.ledger.eviction_activations,
          get-remove a.run_id a.run_id s.ledger.eviction_activations,
          bytes_eq_iff a.run_id a.run_id,
        ))
        (ground arith) (ground arith)

  -- Whatever the owner takes from the workflow queue: an activation reaches OCaml exactly if its run
  -- is a waiting debt, which becomes a lease; a lease that is held is never completed by the bridge;
  -- an activation whose run is no debt is failed once, whatever calls others make meanwhile; and an
  -- error reaches OCaml only from the head of the queue, or from a failed lane whose queue is empty.
  pub try_take_workflow-WorkflowHandoff :
      (s : PollLanes)
      → WorkflowHandoff s (try_take_workflow others s).0 (try_take_workflow others s).1
  unfolding try_take_workflow take_or_failure take_inner
  try_take_workflow-WorkflowHandoff s =
      at s.workflow_ready.messages s.workflow_ready.error refl refl
    where
      at :
          (ms : List (ReadyTask WorkflowActivation)) (error : Option PollLaneError)
          → s.workflow_ready.messages ≡ ms
          → s.workflow_ready.error ≡ error
          → WorkflowHandoff s (try_take_workflow others s).0 (try_take_workflow others s).1
      at [] none h g = nothing h g (ground arith) (ground arith) (ground arith)
      at [] (some e) h g = lane_failed e h g (ground arith) (ground arith) (ground arith)
      at (err e ∷ rest) error h g =
          reported e rest h (ground arith) (ground arith) (ground arith) (ground arith)
      at (ok a ∷ rest) error h g = handoff_of_head s a rest h (get a.run_id s.ledger.workflows) refl
