-- ===== src/Ledger/Cases.antt =====
-- The branches of the ledger's fallible methods, each with what the code has tested on the way.
use ocaml_temporal.Base.{
  ◌≡◌, Bool, true, false, none, some, ok, err, Bytes, bytes_key, arith, Result, Option-cases, inl,
  inr,
}
use ocaml_temporal.Base.Map.{contains, get, insert}
use ocaml_temporal.Ledger.State.{
  Admission, new, duplicate, existing_cancellation, ActivityAdmission, start, cancel, AdmitError,
  invalid_identity, draining, unknown_activity_cancellation, retired, CompleteError, TaskLedger,
  ActivityState, unknown_workflow, unknown_activity, not_leased, already_leased, max_run_id_bytes,
  max_task_token_bytes, bad_identity,
}
use ocaml_temporal.Ledger.Workflows.{
  set_eviction, record_workflow, admit_workflow, lease_workflow, complete_workflow, drop_workflow,
  abandon_workflow_admission,
}
use ocaml_temporal.Ledger.Activities.{
  put_activity, record_activity, admit_activity, lease_activity, complete_activity,
  force_remove_activity, abandon_activity_admission,
}

module _ {ℓ} (l : TaskLedger) (r : Bytes) where
  pub record_workflow_cases :
      (P : TaskLedger × Result AdmitError Admission → Type ℓ) (b : Bool)
      → (bad_identity max_run_id_bytes r ≡ true → P (l, err invalid_identity))
      → (contains r l.retired_workflows ≡ true → P (l, err retired))
      → (contains r l.workflows ≡ true → P (l, ok duplicate))
      → (bad_identity max_run_id_bytes r ≡ false
          → contains r l.retired_workflows ≡ false
          → contains r l.workflows ≡ false
          → P (set_eviction (record l { workflows = insert r false l.workflows }) r b, ok new))
      → P (record_workflow l r b)
  unfolding record_workflow
  record_workflow_cases P b bad gone twice fresh = ground arith

  pub admit_workflow_cases :
      (P : TaskLedger × Result AdmitError Admission → Type ℓ)
      → P (l, err draining)
      → P (record_workflow l r false)
      → P (admit_workflow l r)
  unfolding admit_workflow
  admit_workflow_cases P closed rest = ground arith

  pub lease_workflow_cases :
      (P : TaskLedger × Result CompleteError (Unit {0}) → Type ℓ)
      → (get r l.workflows ≡ none → P (l, err unknown_workflow))
      → (get r l.workflows ≡ some true → P (l, err already_leased))
      → (get r l.workflows ≡ some false
          → P (record l { workflows = insert r true l.workflows }, ok tt))
      → P (lease_workflow l r)
  unfolding lease_workflow
  lease_workflow_cases P absent twice first = ground arith

  pub complete_workflow_cases :
      (P : TaskLedger × Result CompleteError (Unit {0}) → Type ℓ)
      → (get r l.workflows ≡ none → P (l, err unknown_workflow))
      → (get r l.workflows ≡ some false → P (l, err not_leased))
      → (get r l.workflows ≡ some true → P (drop_workflow l r, ok tt))
      → P (complete_workflow l r)
  unfolding complete_workflow
  complete_workflow_cases P absent early done = ground arith

  pub abandon_workflow_admission_cases :
      (P : TaskLedger → Type ℓ)
      → P l
      → (get r l.workflows ≡ some false → P (drop_workflow l r))
      → P (abandon_workflow_admission l r)
  unfolding abandon_workflow_admission
  abandon_workflow_admission_cases P same dropped = ground arith

module _ {ℓ} (l : TaskLedger) (t : Bytes) where
  pub record_activity_cases :
      (P : TaskLedger × Result AdmitError Admission → Type ℓ) (kind : ActivityAdmission)
      → ((e : AdmitError) → P (l, err e))
      → P (l, ok duplicate)
      → (bad_identity max_task_token_bytes t ≡ false
          → contains t l.retired_activities ≡ false
          → get t l.activities ≡ none
          → P (put_activity l t (record { cancelled = false; leased = false }), ok new))
      → ((s : ActivityState)
          → get t l.activities ≡ some s
          → s.cancelled ≡ false
          → P (put_activity l t (record s { cancelled = true }), ok existing_cancellation))
      → P (record_activity l t kind)
  unfolding record_activity
  record_activity_cases P start bad twice fresh update =
      ground (arith, bad invalid_identity, bad retired, bad unknown_activity_cancellation)
  record_activity_cases P cancel bad twice fresh update = elim (Option-cases (get t l.activities)) [
    | inl e ↦
        rw (e, record_activity)
          (ground (arith, bad invalid_identity, bad retired, bad unknown_activity_cancellation))
    | inr (s, e) ↦
        rw (e, record_activity) (ground (arith, bad invalid_identity, bad retired, update s))
  ]

  pub admit_activity_cases :
      (P : TaskLedger × Result AdmitError Admission → Type ℓ) (kind : ActivityAdmission)
      → (kind ≡ start → P (l, err draining))
      → P (record_activity l t kind)
      → P (admit_activity l t kind)
  unfolding admit_activity
  admit_activity_cases P start closed rest = ground arith
  admit_activity_cases P cancel closed rest = rest

  pub lease_activity_cases :
      (P : TaskLedger × Result CompleteError (Unit {0}) → Type ℓ)
      → (get t l.activities ≡ none → P (l, err unknown_activity))
      → P (l, err already_leased)
      → ((s : ActivityState)
          → get t l.activities ≡ some s
          → s.leased ≡ false
          → P (put_activity l t (record s { leased = true }), ok tt))
      → P (lease_activity l t)
  unfolding lease_activity
  lease_activity_cases P absent twice first = elim (Option-cases (get t l.activities)) [
    | inl e ↦ rw (e, lease_activity) (absent e)
    | inr (s, e) ↦ rw (e, lease_activity) (ground (arith, first s))
  ]

  pub complete_activity_cases :
      (P : TaskLedger × Result CompleteError (Unit {0}) → Type ℓ)
      → (get t l.activities ≡ none → P (l, err unknown_activity))
      → P (l, err not_leased)
      → ((s : ActivityState)
          → get t l.activities ≡ some s
          → s.leased ≡ true
          → P (force_remove_activity l t, ok tt))
      → P (complete_activity l t)
  unfolding complete_activity
  complete_activity_cases P absent early done = elim (Option-cases (get t l.activities)) [
    | inl e ↦ rw (e, complete_activity) (absent e)
    | inr (s, e) ↦ rw (e, complete_activity) (ground (arith, done s))
  ]

  pub abandon_activity_admission_cases :
      (P : TaskLedger → Type ℓ)
      → P l
      → ((s : ActivityState)
          → get t l.activities ≡ some s
          → s.leased ≡ false
          → P (force_remove_activity l t))
      → P (abandon_activity_admission l t)
  unfolding abandon_activity_admission
  abandon_activity_admission_cases P same dropped = elim (Option-cases (get t l.activities)) [
    | inl e ↦ rw (e, abandon_activity_admission) same
    | inr (s, e) ↦ rw (e, abandon_activity_admission) (ground (arith, dropped s))
  ]

  pub record_start_cases :
      (P : TaskLedger × Result AdmitError Admission → Type ℓ)
      → (bad_identity max_task_token_bytes t ≡ true → P (l, err invalid_identity))
      → (contains t l.retired_activities ≡ true → P (l, err retired))
      → (contains t l.activities ≡ true → P (l, ok duplicate))
      → (get t l.activities ≡ none
          → P (put_activity l t (record { cancelled = false; leased = false }), ok new))
      → P (record_activity l t start)
  unfolding record_activity
  record_start_cases P bad gone twice fresh = ground arith

  pub record_cancel_cases :
      (P : TaskLedger × Result AdmitError Admission → Type ℓ)
      → (bad_identity max_task_token_bytes t ≡ true → P (l, err invalid_identity))
      → (contains t l.retired_activities ≡ true → P (l, err retired))
      → (get t l.activities ≡ none → P (l, err unknown_activity_cancellation))
      → ((s : ActivityState)
          → get t l.activities ≡ some s
          → s.cancelled ≡ true
          → P (l, ok duplicate))
      → ((s : ActivityState)
          → get t l.activities ≡ some s
          → s.cancelled ≡ false
          → P (put_activity l t (record s { cancelled = true }), ok existing_cancellation))
      → P (record_activity l t cancel)
  unfolding record_activity
  record_cancel_cases P bad gone absent twice update = elim (Option-cases (get t l.activities)) [
    | inl e ↦ rw (e, record_activity) (ground (arith, bad, gone, absent e))
    | inr (s, e) ↦ rw (e, record_activity) (ground (arith, bad, gone, twice s, update s))
  ]
