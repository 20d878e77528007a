-- ===== src/Ledger/Finalize.antt =====
-- When Core may be finalized.
use ocaml_temporal.Base.{
  ◌≡◌, refl, Bool, true, false, List, [], ◌∷◌, Bytes, bytes_key, arith, err, ◌∙◌, ◌∙◌,
}
use ocaml_temporal.Ledger.State.{
  TaskLedger, ActivityAdmission, draining_phase, can_finalize, begin_draining, mark_lost_poll_lease,
  draining, start, cancel,
}
use ocaml_temporal.Ledger.Workflows.{
  record_workflow, admit_workflow, admit_polled_workflow, admit_polled_workflow_activation,
  lease_workflow_activation, complete_workflow, retire_rejected_workflow, force_remove_workflow,
  retire_workflow_for_dispose, with_eviction,
}
use ocaml_temporal.Ledger.Activities.{
  record_activity, admit_activity, admit_polled_activity, lease_activity, handoff_activity,
  complete_activity, force_remove_activity, retire_rejected_activity, retire_activity_for_dispose,
}
use ocaml_temporal.Ledger.Drain.{
  clear_dispose_retired, take_all_outstanding, take_all_outstanding_for_replay,
  take_leased_for_shutdown,
}
use ocaml_temporal.Ledger.Cases.{
  record_workflow_cases, admit_workflow_cases, lease_workflow_cases, complete_workflow_cases,
  abandon_workflow_admission_cases, record_activity_cases, admit_activity_cases,
  lease_activity_cases, complete_activity_cases, abandon_activity_admission_cases,
}
use ocaml_temporal.Ledger.Taken.{take_leased_for_shutdown-ledger}
use ocaml_temporal.Ledger.Calls.{
  Call, apply, admits_workflow, admits_polled_workflow, leases_workflow, abandons_workflow,
  completes_workflow, rejects_workflow, removes_workflow, retires_workflow, admits_activation,
  leases_activation, admits_activity, admits_polled_activity, hands_off_activity, leases_activity,
  abandons_activity, completes_activity, rejects_activity, removes_activity, retires_activity,
  drains, loses, clears_retired, takes_all, takes_all_for_replay, takes_leased,
}
use ocaml_temporal.Ledger.History.{run}

-- The phase and the loss flag are those of `l`.
data SameFlags (l l' : TaskLedger) : Type 0 where
  same : l'.phase ≡ l.phase → l'.lost_poll_lease ≡ l.lost_poll_lease → SameFlags l l'

-- Draining and a loss are for good.
abbrev pub IsLater : TaskLedger → TaskLedger → Type 0
IsLater l l' =
    (l.phase ≡ draining_phase → l'.phase ≡ draining_phase)
    × (l.lost_poll_lease ≡ true → l'.lost_poll_lease ≡ true)

SameFlags-IsLater : {l l' : TaskLedger} → SameFlags l l' → IsLater l l'
SameFlags-IsLater (same p q) = (λ h. p ∙ h, λ h. q ∙ h)

record_workflow-SameFlags :
    (l : TaskLedger) (r : Bytes) (b : Bool) → SameFlags l (record_workflow l r b).0
record_workflow-SameFlags l r b =
    record_workflow_cases l r (λ p. SameFlags l p.0) b (λ _. (same refl refl))
      (λ _. (same refl refl)) (λ _. (same refl refl)) (λ _ _ _. (same refl refl))

lease_workflow_activation-SameFlags :
    (l : TaskLedger) (r : Bytes) (b : Bool) → SameFlags l (lease_workflow_activation l r b).0
unfolding lease_workflow_activation
lease_workflow_activation-SameFlags l r b =
    lease_workflow_cases l r (λ p. SameFlags l (with_eviction p.0 p.1 r b).0)
      (λ _. (same refl refl)) (λ _. (same refl refl)) (λ _. (same refl refl))

complete_workflow-SameFlags : (l : TaskLedger) (r : Bytes) → SameFlags l (complete_workflow l r).0
complete_workflow-SameFlags l r =
    complete_workflow_cases l r (λ p. SameFlags l p.0) (λ _. (same refl refl))
      (λ _. (same refl refl)) (λ _. (same refl refl))

record_activity-SameFlags :
    (l : TaskLedger) (t : Bytes) (k : ActivityAdmission) → SameFlags l (record_activity l t k).0
record_activity-SameFlags l t k =
    record_activity_cases l t (λ p. SameFlags l p.0) k (λ _. (same refl refl)) (same refl refl)
      (λ _ _ _. (same refl refl)) (λ _ _ _. (same refl refl))

lease_activity-SameFlags : (l : TaskLedger) (t : Bytes) → SameFlags l (lease_activity l t).0
lease_activity-SameFlags l t =
    lease_activity_cases l t (λ p. SameFlags l p.0) (λ _. (same refl refl)) (same refl refl)
      (λ _ _ _. (same refl refl))

handoff_activity-SameFlags :
    (l : TaskLedger) (t : Bytes) (k : ActivityAdmission) → SameFlags l (handoff_activity l t k).0
unfolding handoff_activity
handoff_activity-SameFlags l t start = lease_activity-SameFlags l t
handoff_activity-SameFlags l t cancel = (same refl refl)

complete_activity-SameFlags : (l : TaskLedger) (t : Bytes) → SameFlags l (complete_activity l t).0
unfolding force_remove_activity
complete_activity-SameFlags l t =
    complete_activity_cases l t (λ p. SameFlags l p.0) (λ _. (same refl refl)) (same refl refl)
      (λ _ _ _. (same refl refl))

take_leased-SameFlags : (l : TaskLedger) → SameFlags l (take_leased_for_shutdown l).0
take_leased-SameFlags l = rw (take_leased_for_shutdown-ledger l).0 (same refl refl)

-- No method reopens admission or forgets a lost poll result.
pub apply-IsLater : (c : Call) (l : TaskLedger) → IsLater l (apply c l)
unfolding apply admit_polled_workflow admit_polled_workflow_activation retire_rejected_workflow
    force_remove_workflow admit_polled_activity retire_rejected_activity begin_draining
    mark_lost_poll_lease take_all_outstanding take_all_outstanding_for_replay
    retire_workflow_for_dispose retire_activity_for_dispose clear_dispose_retired
apply-IsLater (admits_workflow r) l = SameFlags-IsLater (
    admit_workflow_cases l r (λ p. SameFlags l p.0) (same refl refl)
      (record_workflow-SameFlags l r false))
apply-IsLater (admits_polled_workflow r) l = SameFlags-IsLater (record_workflow-SameFlags l r false)
apply-IsLater (leases_workflow r) l = SameFlags-IsLater (
    lease_workflow_cases l r (λ p. SameFlags l p.0) (λ _. (same refl refl)) (λ _. (same refl refl))
      (λ _. (same refl refl)))
apply-IsLater (abandons_workflow r) l =
    SameFlags-IsLater
      (abandon_workflow_admission_cases l r (SameFlags l) (same refl refl) (λ _. (same refl refl)))
apply-IsLater (completes_workflow r) l = SameFlags-IsLater (complete_workflow-SameFlags l r)
apply-IsLater (rejects_workflow r) l = SameFlags-IsLater (complete_workflow-SameFlags l r)
apply-IsLater (removes_workflow r) l = (λ h. h, λ h. h)
apply-IsLater (retires_workflow r) l = (λ h. h, λ h. h)
apply-IsLater (admits_activation r b) l = SameFlags-IsLater (record_workflow-SameFlags l r b)
apply-IsLater (leases_activation r b) l =
    SameFlags-IsLater (lease_workflow_activation-SameFlags l r b)
apply-IsLater (admits_activity t k) l = SameFlags-IsLater (
    admit_activity_cases l t (λ p. SameFlags l p.0) k (λ _. (same refl refl))
      (record_activity-SameFlags l t k))
apply-IsLater (admits_polled_activity t k) l = SameFlags-IsLater (record_activity-SameFlags l t k)
apply-IsLater (hands_off_activity t k) l = SameFlags-IsLater (handoff_activity-SameFlags l t k)
apply-IsLater (leases_activity t) l = SameFlags-IsLater (lease_activity-SameFlags l t)
apply-IsLater (abandons_activity t) l =
    unfold force_remove_activity in
    SameFlags-IsLater (
      abandon_activity_admission_cases l t (SameFlags l) (same refl refl)
        (λ _ _ _. (same refl refl)))
apply-IsLater (completes_activity t) l = SameFlags-IsLater (complete_activity-SameFlags l t)
apply-IsLater (rejects_activity t) l = SameFlags-IsLater (complete_activity-SameFlags l t)
apply-IsLater (removes_activity t) l = unfold force_remove_activity in (λ h. h, λ h. h)
apply-IsLater (retires_activity t) l = unfold force_remove_activity in (λ h. h, λ h. h)
apply-IsLater drains l = (λ _. refl, λ h. h)
apply-IsLater loses l = (λ h. h, λ _. refl)
apply-IsLater clears_retired l = (λ h. h, λ h. h)
apply-IsLater takes_all l = (λ h. h, λ h. h)
apply-IsLater takes_all_for_replay l = (λ h. h, λ h. h)
apply-IsLater takes_leased l = SameFlags-IsLater (take_leased-SameFlags l)

run-IsLater : (cs : List Call) (l : TaskLedger) → IsLater l (run cs l)
unfolding run
run-IsLater [] l = (λ h. h, λ h. h)
run-IsLater (c ∷ cs) l =
    let a : IsLater l (apply c l) = apply-IsLater c l in
    let b : IsLater (apply c l) (run cs (apply c l)) = run-IsLater cs (apply c l) in
    (λ h. b.0 (a.0 h), λ h. b.1 (a.1 h))

-- Once a poll result is on record as lost, no calls make finalization possible.
pub lost_never_finalizes :
    (cs : List Call) (l : TaskLedger) → l.lost_poll_lease ≡ true → can_finalize (run cs l) ≡ false
unfolding can_finalize
lost_never_finalizes cs l h = ground (arith, (run-IsLater cs l).1 h)

-- Once draining, no calls let `admit_workflow` or a starting `admit_activity` in.
pub draining_admits_nothing :
    (cs : List Call) (l : TaskLedger) (k : Bytes)
    → l.phase ≡ draining_phase
    → (admit_workflow (run cs l) k ≡ (run cs l, err draining))
      × (admit_activity (run cs l) k start ≡ (run cs l, err draining))
unfolding admit_workflow admit_activity
draining_admits_nothing cs l k h = ground (arith, (run-IsLater cs l).0 h)
