-- ===== src/Ledger/Preserved/Activities.antt =====
-- The methods on activity tasks keep `IsValid`.
use ocaml_temporal.Base.{◌≡◌, true, Bytes, bytes_key, is_some, ap}
use ocaml_temporal.Base.Map.{contains}
use ocaml_temporal.Ledger.State.{TaskLedger, ActivityState, ActivityAdmission, start, cancel}
use ocaml_temporal.Ledger.Activities.{
  put_activity, record_activity, admit_activity, lease_activity, handoff_activity,
  abandon_activity_admission, complete_activity, force_remove_activity, retire_activity_for_dispose,
}
use ocaml_temporal.Ledger.Cases.{
  record_activity_cases, admit_activity_cases, lease_activity_cases, complete_activity_cases,
  abandon_activity_admission_cases,
}
use ocaml_temporal.Ledger.Invariant.{
  IsValid, insert-IsActivitiesValid, update-IsActivitiesValid, remove-IsActivitiesValid,
  retire-IsActivitiesValid,
}

pub put_activity-IsValid :
    (l : TaskLedger) (t : Bytes) (s : ActivityState)
    → contains t l.activities ≡ true
    → IsValid l
    → IsValid (put_activity l t s)
put_activity-IsValid l t s owned v = record {
  workflows_valid = v.workflows_valid;
  activities_valid = update-IsActivitiesValid _ _ v.activities_valid t s owned;
}

pub force_remove_activity-IsValid :
    (l : TaskLedger) (t : Bytes) → IsValid l → IsValid (force_remove_activity l t)
unfolding force_remove_activity
force_remove_activity-IsValid l t v = record {
  workflows_valid = v.workflows_valid;
  activities_valid = remove-IsActivitiesValid _ _ v.activities_valid t;
}

pub record_activity-IsValid :
    (l : TaskLedger) (t : Bytes) (k : ActivityAdmission)
    → IsValid l
    → IsValid (record_activity l t k).0
record_activity-IsValid l t k v =
    record_activity_cases l t (λ p. IsValid p.0) k (λ _. v) v
      (λ good free _. record {
        workflows_valid = v.workflows_valid;
        activities_valid = insert-IsActivitiesValid _ _ v.activities_valid t _ good free;
      })
      λ s e _. put_activity-IsValid l t _ (ap is_some e) v

pub admit_activity-IsValid :
    (l : TaskLedger) (t : Bytes) (k : ActivityAdmission)
    → IsValid l
    → IsValid (admit_activity l t k).0
admit_activity-IsValid l t k v =
    admit_activity_cases l t (λ p. IsValid p.0) k (λ _. v) (record_activity-IsValid l t k v)

pub lease_activity-IsValid :
    (l : TaskLedger) (t : Bytes) → IsValid l → IsValid (lease_activity l t).0
lease_activity-IsValid l t v =
    lease_activity_cases l t (λ p. IsValid p.0) (λ _. v) v
      λ s e _. put_activity-IsValid l t _ (ap is_some e) v

pub handoff_activity-IsValid :
    (l : TaskLedger) (t : Bytes) (k : ActivityAdmission)
    → IsValid l
    → IsValid (handoff_activity l t k).0
unfolding handoff_activity
handoff_activity-IsValid l t start v = lease_activity-IsValid l t v
handoff_activity-IsValid l t cancel v = v

pub abandon_activity_admission-IsValid :
    (l : TaskLedger) (t : Bytes) → IsValid l → IsValid (abandon_activity_admission l t)
abandon_activity_admission-IsValid l t v =
    abandon_activity_admission_cases l t IsValid v λ _ _ _. force_remove_activity-IsValid l t v

pub complete_activity-IsValid :
    (l : TaskLedger) (t : Bytes) → IsValid l → IsValid (complete_activity l t).0
complete_activity-IsValid l t v =
    complete_activity_cases l t (λ p. IsValid p.0) (λ _. v) v
      λ _ _ _. force_remove_activity-IsValid l t v

pub retire_activity_for_dispose-IsValid :
    (l : TaskLedger) (t : Bytes) → IsValid l → IsValid (retire_activity_for_dispose l t)
unfolding retire_activity_for_dispose
retire_activity_for_dispose-IsValid l t v = record {
  workflows_valid = v.workflows_valid;
  activities_valid = retire-IsActivitiesValid _ _ v.activities_valid t;
}
