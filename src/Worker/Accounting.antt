-- ===== src/Worker/Accounting.antt =====
-- Every task that Core's polls return is accounted for.
use ocaml_temporal.Base.{
  ◌≡◌, refl, true, false, some, [], ◌∷◌, ◌++◌, ok, err, bytes_key, bytes_eq_iff, arith, ◌⊎◌, inl,
  inr, Bool-cases,
}
use ocaml_temporal.Base.Map.{contains, get, insert, get-insert, get-remove}
use ocaml_temporal.Ledger.State.{new, retired, mark_lost_poll_lease}
use ocaml_temporal.Ledger.Workflows.{
  admit_polled_workflow_activation, abandon_workflow_admission, set_eviction,
}
use ocaml_temporal.Ledger.Invariant.{IsValid}
use ocaml_temporal.Ledger.Cases.{record_workflow_cases}
use ocaml_temporal.Worker.Core.{WorkflowActivation, Sent, workflow_empty, workflow_failed}
use ocaml_temporal.Worker.Readiness.{enqueue}
use ocaml_temporal.Worker.Lanes.{polled, LaneState, settle_workflow, workflow_lane_round}

-- The fate of a polled activation.
pub data WorkflowFate (s s' : LaneState WorkflowActivation) (a : WorkflowActivation) : Type 0 where
  -- It waits in the ready queue, and its run is a debt, not leased, that was none before.
  delivered :
      contains a.run_id s.ledger.workflows ≡ false
      → get a.run_id s'.ledger.workflows ≡ some false
      → contains a.run_id s'.ledger.eviction_activations ≡ a.is_only_eviction
      → s'.lane.messages ≡ s.lane.messages ++ ok a ∷ []
      → s'.sent ≡ s.sent
      → WorkflowFate s s' a
  -- It was answered with one completion, and its run, which was no debt, is none now.
  answered :
      (c : Sent)
      → (c ≡ workflow_failed a.run_id)
        ⊎ ((c ≡ workflow_empty a.run_id) × (a.is_only_eviction ≡ true))
      → s'.sent ≡ s.sent ++ c ∷ []
      → contains a.run_id s.ledger.workflows ≡ false
      → contains a.run_id s'.ledger.workflows ≡ false
      → WorkflowFate s s' a
  -- It was dropped: nothing went to Core, the debts are unchanged, and the loss is on record.
  dropped :
      s'.ledger.lost_poll_lease ≡ true
      → s'.ledger.workflows ≡ s.ledger.workflows
      → s'.sent ≡ s.sent
      → WorkflowFate s s' a

new_workflow_fate :
    (s : LaneState WorkflowActivation) (a : WorkflowActivation)
    → contains a.run_id s.ledger.workflows ≡ false
    → let l =
        set_eviction
          (record (s.ledger) { workflows = insert a.run_id false s.ledger.workflows })
          a.run_id
          a.is_only_eviction in
      WorkflowFate s (settle_workflow (record s { ledger = l }) a (ok new)).0 a
unfolding enqueue abandon_workflow_admission
new_workflow_fate s a fresh = elim (Bool-cases s.lane.receiver_alive) [
  | inl alive ↦
      rw (alive, enqueue)
        (delivered fresh
          (ground (
            arith,
            get-insert a.run_id a.run_id false s.ledger.workflows,
            bytes_eq_iff a.run_id a.run_id,
          ))
          (ground (
            arith,
            get-insert a.run_id a.run_id tt s.ledger.eviction_activations,
            get-remove a.run_id a.run_id s.ledger.eviction_activations,
            bytes_eq_iff a.run_id a.run_id,
          ))
          refl refl)
  | inr dead ↦
      rw (dead, enqueue)
        (answered (workflow_failed a.run_id) (inl refl) refl fresh (
          ground (
            arith,
            get-insert a.run_id a.run_id false s.ledger.workflows,
            get-remove a.run_id a.run_id (insert a.run_id false s.ledger.workflows),
            bytes_eq_iff a.run_id a.run_id,
          )))
]

retired_workflow_fate :
    (s : LaneState WorkflowActivation) (a : WorkflowActivation)
    → contains a.run_id s.ledger.retired_workflows ≡ true
    → contains a.run_id s.ledger.workflows ≡ false
    → WorkflowFate s (settle_workflow s a (err retired)).0 a
unfolding mark_lost_poll_lease
retired_workflow_fate s a gone absent = elim (Bool-cases a.is_only_eviction) [
  | inl eviction ↦
      rw (eviction) (answered (workflow_empty a.run_id) (inr (refl, refl)) refl absent absent)
  | inr other ↦ rw (other) (dropped refl refl refl)
]

-- On a valid ledger, a polled activation is queued as a new debt, or answered once while its run is
-- no debt, or dropped with the loss on record. So a duplicate never completes the activation that
-- holds its run.
pub workflow_accounted :
    (s : LaneState WorkflowActivation) (a : WorkflowActivation)
    → IsValid s.ledger
    → WorkflowFate s (workflow_lane_round s (polled a)).0 a
unfolding workflow_lane_round admit_polled_workflow_activation mark_lost_poll_lease
workflow_accounted s a v =
    record_workflow_cases s.ledger a.run_id
      (λ p. WorkflowFate s (settle_workflow (record s { ledger = p.0 }) a p.1).0 a)
      a.is_only_eviction
      (λ bad.
        answered (workflow_failed a.run_id) (inl refl) refl
          (ground (arith, v.workflows_valid.identities a.run_id))
          (ground (arith, v.workflows_valid.identities a.run_id)))
      (λ gone.
        retired_workflow_fate s a gone (ground (arith, v.workflows_valid.not_retired a.run_id)))
      (λ twice. dropped refl refl refl) (λ good free fresh. new_workflow_fate s a fresh)
