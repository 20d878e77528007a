-- ===== src/Ledger/Calls.antt =====
-- Every method of `TaskLedger` that changes it, as one call type, and the runs of such calls.
use ocaml_temporal.Base.{Bool, Bytes, bytes_key}
use ocaml_temporal.Ledger.State.{
  TaskLedger, ActivityAdmission, begin_draining, mark_lost_poll_lease,
}
use ocaml_temporal.Ledger.Workflows.{
  admit_workflow, admit_polled_workflow, admit_polled_workflow_activation, lease_workflow,
  lease_workflow_activation, abandon_workflow_admission, complete_workflow,
  retire_rejected_workflow, force_remove_workflow, retire_workflow_for_dispose,
}
use ocaml_temporal.Ledger.Activities.{
  admit_activity, admit_polled_activity, lease_activity, handoff_activity,
  abandon_activity_admission, complete_activity, retire_rejected_activity, force_remove_activity,
  retire_activity_for_dispose,
}
use ocaml_temporal.Ledger.Drain.{
  clear_dispose_retired, take_all_outstanding, take_all_outstanding_for_replay,
  take_leased_for_shutdown,
}

-- The two restoring methods are left to `Ledger.Steps`, since they are called with a run that the
-- same completion has just retired.
pub data Call : Type 0 where
  admits_workflow admits_polled_workflow leases_workflow abandons_workflow : Bytes → Call
  completes_workflow rejects_workflow removes_workflow retires_workflow : Bytes → Call
  admits_activation leases_activation : Bytes → Bool → Call
  admits_activity admits_polled_activity hands_off_activity : Bytes → ActivityAdmission → Call
  leases_activity abandons_activity completes_activity rejects_activity : Bytes → Call
  removes_activity retires_activity : Bytes → Call
  drains loses clears_retired takes_all takes_all_for_replay takes_leased : Call

unfoldable pub apply : Call → TaskLedger → TaskLedger
apply (admits_workflow r) l = (admit_workflow l r).0
apply (admits_polled_workflow r) l = (admit_polled_workflow l r).0
apply (leases_workflow r) l = (lease_workflow l r).0
apply (abandons_workflow r) l = abandon_workflow_admission l r
apply (completes_workflow r) l = (complete_workflow l r).0
apply (rejects_workflow r) l = (retire_rejected_workflow l r).0
apply (removes_workflow r) l = force_remove_workflow l r
apply (retires_workflow r) l = retire_workflow_for_dispose l r
apply (admits_activation r b) l = (admit_polled_workflow_activation l r b).0
apply (leases_activation r b) l = (lease_workflow_activation l r b).0
apply (admits_activity t k) l = (admit_activity l t k).0
apply (admits_polled_activity t k) l = (admit_polled_activity l t k).0
apply (hands_off_activity t k) l = (handoff_activity l t k).0
apply (leases_activity t) l = (lease_activity l t).0
apply (abandons_activity t) l = abandon_activity_admission l t
apply (completes_activity t) l = (complete_activity l t).0
apply (rejects_activity t) l = (retire_rejected_activity l t).0
apply (removes_activity t) l = force_remove_activity l t
apply (retires_activity t) l = retire_activity_for_dispose l t
apply drains l = begin_draining l
apply loses l = mark_lost_poll_lease l
apply clears_retired l = clear_dispose_retired l
apply takes_all l = (take_all_outstanding l).0
apply takes_all_for_replay l = (take_all_outstanding_for_replay l).0
apply takes_leased l = (take_leased_for_shutdown l).0
