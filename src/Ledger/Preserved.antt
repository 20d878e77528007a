-- ===== src/Ledger/Preserved.antt =====
-- Every method keeps `IsValid`.
mod Workflows
mod Activities
pub use Workflows.*
pub use Activities.*
use ocaml_temporal.Base.{
  ◌≡◌, refl, Bool, true, false, List, [], ◌∷◌, Bytes, bytes_key, arith, is_some, ap, bytes_eq_iff,
}
use ocaml_temporal.Base.Map.{Set, retain, contains, get, keys, insert, get-insert}
use ocaml_temporal.Ledger.State.{
  TaskLedger, ActivityState, ActivityAdmission, start, cancel, max_run_id_bytes, bad_identity,
  new_ledger, begin_draining, mark_lost_poll_lease,
}
use ocaml_temporal.Ledger.Workflows.{
  set_eviction, record_workflow, admit_workflow, admit_polled_workflow,
  admit_polled_workflow_activation, lease_workflow, lease_workflow_activation,
  abandon_workflow_admission, complete_workflow, drop_workflow, retire_rejected_workflow,
  with_eviction, force_remove_workflow, retire_workflow_for_dispose,
}
use ocaml_temporal.Ledger.Activities.{
  put_activity, record_activity, admit_activity, admit_polled_activity, lease_activity,
  handoff_activity, abandon_activity_admission, complete_activity, force_remove_activity,
  retire_rejected_activity, retire_activity_for_dispose,
}
use ocaml_temporal.Ledger.Drain.{
  clear_dispose_retired, take_all_outstanding, take_all_outstanding_for_replay,
  take_leased_workflows, remove_activities, take_leased_for_shutdown,
}
use ocaml_temporal.Ledger.Cases.{
  record_workflow_cases, admit_workflow_cases, lease_workflow_cases, complete_workflow_cases,
  abandon_workflow_admission_cases, record_activity_cases, admit_activity_cases,
  lease_activity_cases, complete_activity_cases, abandon_activity_admission_cases,
}
use ocaml_temporal.Ledger.Calls.{
  Call, apply, admits_workflow, admits_polled_workflow, leases_workflow, abandons_workflow,
  completes_workflow, rejects_workflow, removes_workflow, retires_workflow, admits_activation,
  leases_activation, admits_activity, admits_polled_activity, hands_off_activity, leases_activity,
  abandons_activity, completes_activity, rejects_activity, removes_activity, retires_activity,
  drains, loses, clears_retired, takes_all, takes_all_for_replay, takes_leased,
}
use ocaml_temporal.Ledger.Invariant.{
  IsValid, IsWorkflowsValid, IsActivitiesValid, insert_workflow-IsWorkflowsValid,
  add_eviction-IsWorkflowsValid, remove_eviction-IsWorkflowsValid, drop-IsWorkflowsValid,
  retire-IsWorkflowsValid, insert-IsActivitiesValid, update-IsActivitiesValid,
  remove-IsActivitiesValid, retire-IsActivitiesValid, relabel-IsWorkflowsValid,
}

pub new_ledger-IsValid : IsValid new_ledger
unfolding get
new_ledger-IsValid = record {
  workflows_valid = record {
    distinct = tt;
    identities = λ k h. cc;
    not_retired = λ k h. cc;
    evictions_owned = λ k h. cc;
  };
  activities_valid = record { distinct = tt; identities = λ k h. cc; not_retired = λ k h. cc };
}

empty-IsWorkflowsValid : (ret : Set Bytes) → IsWorkflowsValid [] [] ret
unfolding get
empty-IsWorkflowsValid ret = record {
  distinct = tt;
  identities = λ k h. cc;
  not_retired = λ k h. cc;
  evictions_owned = λ k h. cc;
}

empty-IsActivitiesValid : (ret : Set Bytes) → IsActivitiesValid [] ret
unfolding get
empty-IsActivitiesValid ret = record {
  distinct = tt;
  identities = λ k h. cc;
  not_retired = λ k h. cc;
}

take_leased_workflows-IsValid :
    (rs : List Bytes) (l : TaskLedger) → IsValid l → IsValid (take_leased_workflows rs l).0
unfolding take_leased_workflows
take_leased_workflows-IsValid [] l v = v
take_leased_workflows-IsValid (r ∷ rs) l v =
    take_leased_workflows-IsValid rs (drop_workflow l r) (drop_workflow-IsValid l r v)

remove_activities-IsValid :
    (ts : List Bytes) (l : TaskLedger) → IsValid l → IsValid (remove_activities ts l)
unfolding remove_activities force_remove_activity
remove_activities-IsValid [] l v = v
remove_activities-IsValid (t ∷ ts) l v =
    remove_activities-IsValid ts (force_remove_activity l t) (force_remove_activity-IsValid l t v)

take_leased_for_shutdown-IsValid :
    (l : TaskLedger) → IsValid l → IsValid (take_leased_for_shutdown l).0
unfolding take_leased_for_shutdown
take_leased_for_shutdown-IsValid l v =
    let rs : List Bytes = keys (retain (λ _ leased. leased) l.workflows) in
    let l' : TaskLedger = (take_leased_workflows rs l).0 in
    remove_activities-IsValid (keys (retain (λ _ state. state.leased) l'.activities)) l'
      (take_leased_workflows-IsValid rs l v)

clear_dispose_retired-IsValid : (l : TaskLedger) → IsValid l → IsValid (clear_dispose_retired l)
unfolding clear_dispose_retired get
clear_dispose_retired-IsValid l v =
    let w : IsWorkflowsValid l.workflows l.eviction_activations l.retired_workflows =
      v.workflows_valid in
    let a : IsActivitiesValid l.activities l.retired_activities = v.activities_valid in
    record {
      workflows_valid = record {
        distinct = w.distinct;
        identities = w.identities;
        not_retired = λ k h. refl;
        evictions_owned = w.evictions_owned;
      };
      activities_valid = record {
        distinct = a.distinct;
        identities = a.identities;
        not_retired = λ k h. refl;
      };
    }

-- Every method of the ledger keeps the invariant.
pub apply-IsValid : (c : Call) (l : TaskLedger) → IsValid l → IsValid (apply c l)
unfolding apply admit_polled_workflow admit_polled_workflow_activation retire_rejected_workflow
    force_remove_workflow admit_polled_activity retire_rejected_activity begin_draining
    mark_lost_poll_lease take_all_outstanding take_all_outstanding_for_replay
apply-IsValid (admits_workflow r) l v = admit_workflow-IsValid l r v
apply-IsValid (admits_polled_workflow r) l v = record_workflow-IsValid l r false v
apply-IsValid (leases_workflow r) l v = lease_workflow-IsValid l r v
apply-IsValid (abandons_workflow r) l v = abandon_workflow_admission-IsValid l r v
apply-IsValid (completes_workflow r) l v = complete_workflow-IsValid l r v
apply-IsValid (rejects_workflow r) l v = complete_workflow-IsValid l r v
apply-IsValid (removes_workflow r) l v = drop_workflow-IsValid l r v
apply-IsValid (retires_workflow r) l v = retire_workflow_for_dispose-IsValid l r v
apply-IsValid (admits_activation r b) l v = record_workflow-IsValid l r b v
apply-IsValid (leases_activation r b) l v = lease_workflow_activation-IsValid l r b v
apply-IsValid (admits_activity t k) l v = admit_activity-IsValid l t k v
apply-IsValid (admits_polled_activity t k) l v = record_activity-IsValid l t k v
apply-IsValid (hands_off_activity t k) l v = handoff_activity-IsValid l t k v
apply-IsValid (leases_activity t) l v = lease_activity-IsValid l t v
apply-IsValid (abandons_activity t) l v = abandon_activity_admission-IsValid l t v
apply-IsValid (completes_activity t) l v = complete_activity-IsValid l t v
apply-IsValid (rejects_activity t) l v = complete_activity-IsValid l t v
apply-IsValid (removes_activity t) l v = force_remove_activity-IsValid l t v
apply-IsValid (retires_activity t) l v = retire_activity_for_dispose-IsValid l t v
apply-IsValid drains l v = record {
  workflows_valid = v.workflows_valid;
  activities_valid = v.activities_valid;
}
apply-IsValid loses l v = record {
  workflows_valid = v.workflows_valid;
  activities_valid = v.activities_valid;
}
apply-IsValid clears_retired l v = clear_dispose_retired-IsValid l v
apply-IsValid takes_all l v = record {
  workflows_valid = empty-IsWorkflowsValid _;
  activities_valid = empty-IsActivitiesValid _;
}
apply-IsValid takes_all_for_replay l v = record {
  workflows_valid = empty-IsWorkflowsValid _;
  activities_valid = empty-IsActivitiesValid _;
}
apply-IsValid takes_leased l v = take_leased_for_shutdown-IsValid l v
