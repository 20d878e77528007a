-- ===== src/Ledger/Lifecycle.antt =====
-- One admission supports one lease and one completion; failed calls change nothing.
use ocaml_temporal.Base.{
  ◌≡◌, refl, Bool, true, false, Result, ok, err, Bytes, bytes_key, arith, bytes_eq_iff,
}
use ocaml_temporal.Base.Map.{insert, get-insert, get-remove}
use ocaml_temporal.Ledger.State.{
  TaskLedger, ActivityState, ActivityAdmission, start, cancel, new, existing_cancellation,
  duplicate, not_leased, already_leased, unknown_workflow, unknown_activity,
}
use ocaml_temporal.Ledger.Workflows.{
  record_workflow, admit_workflow, lease_workflow_activation, with_eviction, complete_workflow,
}
use ocaml_temporal.Ledger.Activities.{
  record_activity, admit_activity, lease_activity, handoff_activity, complete_activity,
  ensure_activity_cancellation,
}
use ocaml_temporal.Ledger.Cases.{
  record_workflow_cases, admit_workflow_cases, lease_workflow_cases, complete_workflow_cases,
  record_activity_cases, admit_activity_cases, lease_activity_cases, complete_activity_cases,
}

-- An error leaves the ledger as it was.
abbrev pub IsAtomic : {E A : Type 0} → TaskLedger → TaskLedger × Result E A → Type 0
IsAtomic l (l', ok a) = Unit {0}
IsAtomic l (l', err e) = l' ≡ l

record_workflow-IsAtomic :
    (l : TaskLedger) (r : Bytes) (b : Bool) → IsAtomic l (record_workflow l r b)
record_workflow-IsAtomic l r b =
    record_workflow_cases l r (IsAtomic l) b (λ _. refl) (λ _. refl) (λ _. tt) (λ _ _ _. tt)

lease_workflow_activation-IsAtomic :
    (l : TaskLedger) (r : Bytes) (b : Bool) → IsAtomic l (lease_workflow_activation l r b)
unfolding lease_workflow_activation
lease_workflow_activation-IsAtomic l r b =
    lease_workflow_cases l r (λ p. IsAtomic l (with_eviction p.0 p.1 r b)) (λ _. refl) (λ _. refl)
      (λ _. tt)

record_activity-IsAtomic :
    (l : TaskLedger) (t : Bytes) (k : ActivityAdmission) → IsAtomic l (record_activity l t k)
record_activity-IsAtomic l t k =
    record_activity_cases l t (IsAtomic l) k (λ _. refl) tt (λ _ _ _. tt) (λ _ _ _. tt)

lease_activity-IsAtomic : (l : TaskLedger) (t : Bytes) → IsAtomic l (lease_activity l t)
lease_activity-IsAtomic l t = lease_activity_cases l t (IsAtomic l) (λ _. refl) refl (λ _ _ _. tt)

handoff_activity-IsAtomic :
    (l : TaskLedger) (t : Bytes) (k : ActivityAdmission) → IsAtomic l (handoff_activity l t k)
unfolding handoff_activity ensure_activity_cancellation
handoff_activity-IsAtomic l t start = lease_activity-IsAtomic l t
handoff_activity-IsAtomic l t cancel = ground arith

-- A fallible method that returns an error, of whatever kind, has not touched the ledger.
pub errors_change_nothing :
    (l : TaskLedger) (k : Bytes) (eviction_only : Bool) (kind : ActivityAdmission)
    → IsAtomic l (admit_workflow l k)
      × IsAtomic l (record_workflow l k eviction_only)
      × IsAtomic l (lease_workflow_activation l k eviction_only)
      × IsAtomic l (complete_workflow l k)
      × IsAtomic l (admit_activity l k kind)
      × IsAtomic l (record_activity l k kind)
      × IsAtomic l (handoff_activity l k kind)
      × IsAtomic l (complete_activity l k)
errors_change_nothing l k b kind = (
  admit_workflow_cases l k (IsAtomic l) refl (record_workflow-IsAtomic l k false),
  record_workflow-IsAtomic l k b,
  lease_workflow_activation-IsAtomic l k b,
  complete_workflow_cases l k (IsAtomic l) (λ _. refl) (λ _. refl) (λ _. tt),
  admit_activity_cases l k (IsAtomic l) kind (λ _. refl) (record_activity-IsAtomic l k kind),
  record_activity-IsAtomic l k kind,
  handoff_activity-IsAtomic l k kind,
  complete_activity_cases l k (IsAtomic l) (λ _. refl) refl (λ _ _ _. tt),
)

-- A run admitted as new cannot be completed before it is leased, is leased once, is completed
-- once, and is then admitted as new again.
pub workflow_life :
    (l : TaskLedger) (r : Bytes) (b c : Bool)
    → (record_workflow l r b).1 ≡ ok new
    → let admitted = (record_workflow l r b).0 in
      let leased = (lease_workflow_activation admitted r b).0 in
      let completed = (complete_workflow leased r).0 in
      (complete_workflow admitted r ≡ (admitted, err not_leased))
      × ((lease_workflow_activation admitted r b).1 ≡ ok tt)
      × (lease_workflow_activation leased r b ≡ (leased, err already_leased))
      × ((complete_workflow leased r).1 ≡ ok tt)
      × (complete_workflow completed r ≡ (completed, err unknown_workflow))
      × ((record_workflow completed r c).1 ≡ ok new)
unfolding record_workflow lease_workflow_activation complete_workflow
workflow_life l r b c h = ground (
  arith,
  bytes_eq_iff r r,
  get-insert r r false l.workflows,
  get-insert r r true (insert r false l.workflows),
  get-remove r r (insert r true (insert r false l.workflows)),
)

-- An activity start admitted as new cannot be completed before it is leased, is leased once and is
-- completed once. Its first cancellation is an update of that debt, a second one a duplicate, and
-- handing a cancellation to OCaml takes no lease; after the completion it is refused as unknown.
pub activity_life :
    (l : TaskLedger) (t : Bytes)
    → (record_activity l t start).1 ≡ ok new
    → let admitted = (record_activity l t start).0 in
      let cancelled = (record_activity admitted t cancel).0 in
      let leased = (handoff_activity cancelled t start).0 in
      let completed = (complete_activity leased t).0 in
      (complete_activity admitted t ≡ (admitted, err not_leased))
      × ((record_activity admitted t cancel).1 ≡ ok existing_cancellation)
      × (record_activity cancelled t cancel ≡ (cancelled, ok duplicate))
      × (handoff_activity cancelled t cancel ≡ (cancelled, ok tt))
      × (complete_activity cancelled t ≡ (cancelled, err not_leased))
      × (handoff_activity leased t start ≡ (leased, err already_leased))
      × ((complete_activity leased t).1 ≡ ok tt)
      × (handoff_activity completed t cancel ≡ (completed, err unknown_activity))
unfolding record_activity handoff_activity complete_activity
activity_life l t h =
    let s0 : ActivityState = record { cancelled = false; leased = false } in
    let s1 : ActivityState = record { cancelled = true; leased = false } in
    let s2 : ActivityState = record { cancelled = true; leased = true } in
    ground (
      arith,
      bytes_eq_iff t t,
      get-insert t t s0 l.activities,
      get-insert t t s1 (insert t s0 l.activities),
      get-insert t t s2 (insert t s1 (insert t s0 l.activities)),
      get-remove t t (insert t s2 (insert t s1 (insert t s0 l.activities))),
    )
