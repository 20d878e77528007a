-- ===== src/Ledger/Workflows.antt =====
-- rust/core-bridge/src/worker_bridge.rs, `TaskLedger`: the methods on workflow activations. A
-- method on `&mut self` returns the ledger after it and its result.
use ocaml_temporal.Base.{
  Bool, true, false, none, some, Result, ok, err, Bytes, bytes_key, if◌then◌else◌,
}
use ocaml_temporal.Base.Map.{get, contains, insert, add, remove}
use ocaml_temporal.Ledger.State.{
  Admission, new, duplicate, AdmitError, invalid_identity, retired, CompleteError, unknown_workflow,
  not_leased, already_leased, TaskLedger, max_run_id_bytes, bad_identity, ensure_open,
}

-- Sets or clears the eviction bit of a run.
abbrev pub set_eviction : TaskLedger → Bytes → Bool → TaskLedger
set_eviction l run_id eviction_only = record l {
  eviction_activations =
      if eviction_only
      then add run_id l.eviction_activations
      else remove run_id l.eviction_activations;
}

unfoldable pub record_workflow :
    TaskLedger → Bytes → Bool → TaskLedger × Result AdmitError Admission
record_workflow l run_id eviction_only =
    if bad_identity max_run_id_bytes run_id
    then (l, err invalid_identity)
    else if contains run_id l.retired_workflows
    then (l, err retired)
    else if contains run_id l.workflows
    then (l, ok duplicate)
    else (
      set_eviction (record l { workflows = insert run_id false l.workflows }) run_id eviction_only,
      ok new,
    )

unfoldable pub admit_workflow : TaskLedger → Bytes → TaskLedger × Result AdmitError Admission
unfolding record_workflow ensure_open
admit_workflow l run_id = elim (ensure_open l) [
  | ok _ ↦ record_workflow l run_id false
  | err e ↦ (l, err e)
]

unfoldable pub admit_polled_workflow : TaskLedger → Bytes → TaskLedger × Result AdmitError Admission
unfolding record_workflow
admit_polled_workflow l run_id = record_workflow l run_id false

unfoldable pub admit_polled_workflow_activation :
    TaskLedger → Bytes → Bool → TaskLedger × Result AdmitError Admission
unfolding record_workflow
admit_polled_workflow_activation l run_id eviction_only = record_workflow l run_id eviction_only

unfoldable pub lease_workflow : TaskLedger → Bytes → TaskLedger × Result CompleteError (Unit {0})
lease_workflow l run_id = elim (get run_id l.workflows) [
  | none ↦ (l, err unknown_workflow)
  | some leased ↦
      if leased
      then (l, err already_leased)
      else (record l { workflows = insert run_id true l.workflows }, ok tt)
]

-- The eviction bit follows a lease that succeeded.
abbrev pub with_eviction :
    TaskLedger
    → Result CompleteError (Unit {0})
    → Bytes
    → Bool
    → TaskLedger × Result CompleteError (Unit {0})
with_eviction l (ok _) run_id eviction_only = (set_eviction l run_id eviction_only, ok tt)
with_eviction l (err e) run_id eviction_only = (l, err e)

unfoldable pub lease_workflow_activation :
    TaskLedger → Bytes → Bool → TaskLedger × Result CompleteError (Unit {0})
unfolding lease_workflow
lease_workflow_activation l run_id eviction_only =
    let (l', result) = lease_workflow l run_id in with_eviction l' result run_id eviction_only

unfoldable pub is_eviction_lease : TaskLedger → Bytes → Bool
is_eviction_lease l run_id = contains run_id l.eviction_activations

abbrev pub drop_workflow : TaskLedger → Bytes → TaskLedger
drop_workflow l run_id = record l {
  workflows = remove run_id l.workflows;
  eviction_activations = remove run_id l.eviction_activations;
}

unfoldable pub abandon_workflow_admission : TaskLedger → Bytes → TaskLedger
abandon_workflow_admission l run_id = elim (get run_id l.workflows) [
  | none ↦ l
  | some leased ↦ if leased then l else drop_workflow l run_id
]

unfoldable pub complete_workflow : TaskLedger → Bytes → TaskLedger × Result CompleteError (Unit {0})
complete_workflow l run_id = elim (get run_id l.workflows) [
  | none ↦ (l, err unknown_workflow)
  | some leased ↦ if leased then (drop_workflow l run_id, ok tt) else (l, err not_leased)
]

unfoldable pub restore_rejected_workflow_completion : TaskLedger → Bytes → TaskLedger × Bool
restore_rejected_workflow_completion l run_id =
    if contains run_id l.workflows
    then (l, false)
    else (record l { workflows = insert run_id true l.workflows }, true)

unfoldable pub restore_eviction_lease : TaskLedger → Bytes → TaskLedger
restore_eviction_lease l run_id = record l {
  eviction_activations = add run_id l.eviction_activations;
}

unfoldable pub ensure_workflow_leased : TaskLedger → Bytes → Result CompleteError (Unit {0})
ensure_workflow_leased l run_id = elim (get run_id l.workflows) [
  | none ↦ err unknown_workflow
  | some leased ↦ if leased then ok tt else err not_leased
]

unfoldable pub retire_rejected_workflow :
    TaskLedger → Bytes → TaskLedger × Result CompleteError (Unit {0})
unfolding complete_workflow
retire_rejected_workflow l run_id = complete_workflow l run_id

unfoldable pub force_remove_workflow : TaskLedger → Bytes → TaskLedger
force_remove_workflow l run_id = drop_workflow l run_id

unfoldable pub retire_workflow_for_dispose : TaskLedger → Bytes → TaskLedger
retire_workflow_for_dispose l run_id = record (drop_workflow l run_id) {
  retired_workflows = add run_id l.retired_workflows;
}
