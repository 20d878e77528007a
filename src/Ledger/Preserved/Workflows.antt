-- ===== src/Ledger/Preserved/Workflows.antt =====
-- The methods on workflow activations keep `IsValid`.
use ocaml_temporal.Base.{◌≡◌, Bool, true, false, Bytes, bytes_key, arith, is_some, ap, bytes_eq_iff}
use ocaml_temporal.Base.Map.{contains, insert, get-insert}
use ocaml_temporal.Ledger.State.{TaskLedger, max_run_id_bytes, bad_identity}
use ocaml_temporal.Ledger.Workflows.{
  set_eviction, record_workflow, admit_workflow, lease_workflow, lease_workflow_activation,
  abandon_workflow_admission, complete_workflow, drop_workflow, with_eviction,
  retire_workflow_for_dispose,
}
use ocaml_temporal.Ledger.Cases.{
  record_workflow_cases, admit_workflow_cases, lease_workflow_cases, complete_workflow_cases,
  abandon_workflow_admission_cases,
}
use ocaml_temporal.Ledger.Invariant.{
  IsValid, insert_workflow-IsWorkflowsValid, add_eviction-IsWorkflowsValid,
  remove_eviction-IsWorkflowsValid, drop-IsWorkflowsValid, retire-IsWorkflowsValid,
  relabel-IsWorkflowsValid,
}

-- A change to the workflow half, and one to the activity half.
pub set_eviction-IsValid :
    (l : TaskLedger) (r : Bytes) (b : Bool)
    → contains r l.workflows ≡ true
    → IsValid l
    → IsValid (set_eviction l r b)
set_eviction-IsValid l r true owned v = record {
  workflows_valid = add_eviction-IsWorkflowsValid _ _ _ v.workflows_valid r owned;
  activities_valid = v.activities_valid;
}
set_eviction-IsValid l r false owned v = record {
  workflows_valid = remove_eviction-IsWorkflowsValid _ _ _ v.workflows_valid r;
  activities_valid = v.activities_valid;
}

pub set_workflow-IsValid :
    (l : TaskLedger) (r : Bytes) (b : Bool)
    → bad_identity max_run_id_bytes r ≡ false
    → contains r l.retired_workflows ≡ false
    → IsValid l
    → IsValid (record l { workflows = insert r b l.workflows })
set_workflow-IsValid l r b good free v = record {
  workflows_valid = insert_workflow-IsWorkflowsValid _ _ _ v.workflows_valid r b good free;
  activities_valid = v.activities_valid;
}

pub relabel_workflow-IsValid :
    (l : TaskLedger) (r : Bytes) (b : Bool)
    → contains r l.workflows ≡ true
    → IsValid l
    → IsValid (record l { workflows = insert r b l.workflows })
relabel_workflow-IsValid l r b owned v = record {
  workflows_valid = relabel-IsWorkflowsValid _ _ _ v.workflows_valid r b owned;
  activities_valid = v.activities_valid;
}

pub drop_workflow-IsValid : (l : TaskLedger) (r : Bytes) → IsValid l → IsValid (drop_workflow l r)
drop_workflow-IsValid l r v = record {
  workflows_valid = drop-IsWorkflowsValid _ _ _ v.workflows_valid r;
  activities_valid = v.activities_valid;
}

pub record_workflow-IsValid :
    (l : TaskLedger) (r : Bytes) (b : Bool) → IsValid l → IsValid (record_workflow l r b).0
record_workflow-IsValid l r b v =
    record_workflow_cases l r (λ p. IsValid p.0) b (λ _. v) (λ _. v) (λ _. v)
      λ good free _.
        set_eviction-IsValid _ r b
          (ground (arith, get-insert r r false l.workflows, bytes_eq_iff r r))
          (set_workflow-IsValid l r false good free v)

pub admit_workflow-IsValid :
    (l : TaskLedger) (r : Bytes) → IsValid l → IsValid (admit_workflow l r).0
admit_workflow-IsValid l r v =
    admit_workflow_cases l r (λ p. IsValid p.0) v (record_workflow-IsValid l r false v)

pub lease_workflow-IsValid :
    (l : TaskLedger) (r : Bytes) → IsValid l → IsValid (lease_workflow l r).0
lease_workflow-IsValid l r v =
    lease_workflow_cases l r (λ p. IsValid p.0) (λ _. v) (λ _. v)
      λ e. relabel_workflow-IsValid l r true (ap is_some e) v

pub lease_workflow_activation-IsValid :
    (l : TaskLedger) (r : Bytes) (b : Bool)
    → IsValid l
    → IsValid (lease_workflow_activation l r b).0
unfolding lease_workflow_activation
lease_workflow_activation-IsValid l r b v =
    lease_workflow_cases l r (λ p. IsValid (with_eviction p.0 p.1 r b).0) (λ _. v) (λ _. v)
      λ e.
        set_eviction-IsValid _ r b
          (ground (arith, get-insert r r true l.workflows, bytes_eq_iff r r))
          (relabel_workflow-IsValid l r true (ap is_some e) v)

pub abandon_workflow_admission-IsValid :
    (l : TaskLedger) (r : Bytes) → IsValid l → IsValid (abandon_workflow_admission l r)
abandon_workflow_admission-IsValid l r v =
    abandon_workflow_admission_cases l r IsValid v λ _. drop_workflow-IsValid l r v

pub complete_workflow-IsValid :
    (l : TaskLedger) (r : Bytes) → IsValid l → IsValid (complete_workflow l r).0
complete_workflow-IsValid l r v =
    complete_workflow_cases l r (λ p. IsValid p.0) (λ _. v) (λ _. v)
      λ _. drop_workflow-IsValid l r v

pub retire_workflow_for_dispose-IsValid :
    (l : TaskLedger) (r : Bytes) → IsValid l → IsValid (retire_workflow_for_dispose l r)
unfolding retire_workflow_for_dispose
retire_workflow_for_dispose-IsValid l r v = record {
  workflows_valid = retire-IsWorkflowsValid _ _ _ v.workflows_valid r;
  activities_valid = v.activities_valid;
}
