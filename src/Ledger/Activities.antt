-- ===== src/Ledger/Activities.antt =====
-- rust/core-bridge/src/worker_bridge.rs, `TaskLedger`: the methods on remote activities.
use ocaml_temporal.Base.{
  true, false, Option, none, some, Result, ok, err, Bytes, bytes_key, if◌then◌else◌,
}
use ocaml_temporal.Base.Map.{get, contains, insert, add, remove}
use ocaml_temporal.Ledger.State.{
  Admission, new, duplicate, existing_cancellation, ActivityAdmission, start, cancel, AdmitError,
  invalid_identity, unknown_activity_cancellation, retired, CompleteError, unknown_activity,
  not_leased, already_leased, ActivityState, TaskLedger, max_task_token_bytes, bad_identity,
  ensure_open,
}

abbrev pub put_activity : TaskLedger → Bytes → ActivityState → TaskLedger
put_activity l task_token state = record l { activities = insert task_token state l.activities }

-- The `match` on the kind and the entry.
abbrev pub record_activity_entry :
    TaskLedger
    → Bytes
    → ActivityAdmission
    → Option ActivityState
    → TaskLedger × Result AdmitError Admission
record_activity_entry l task_token start (some state) = (l, ok duplicate)
record_activity_entry l task_token start none =
    (put_activity l task_token (record { cancelled = false; leased = false }), ok new)
record_activity_entry l task_token cancel (some state) =
    if state.cancelled
    then (l, ok duplicate)
    else (put_activity l task_token (record state { cancelled = true }), ok existing_cancellation)
record_activity_entry l task_token cancel none = (l, err unknown_activity_cancellation)

unfoldable pub record_activity :
    TaskLedger → Bytes → ActivityAdmission → TaskLedger × Result AdmitError Admission
record_activity l task_token kind =
    if bad_identity max_task_token_bytes task_token
    then (l, err invalid_identity)
    else if contains task_token l.retired_activities
    then (l, err retired)
    else record_activity_entry l task_token kind (get task_token l.activities)

unfoldable pub admit_activity :
    TaskLedger → Bytes → ActivityAdmission → TaskLedger × Result AdmitError Admission
unfolding record_activity ensure_open
admit_activity l task_token start = elim (ensure_open l) [
  | ok _ ↦ record_activity l task_token start
  | err e ↦ (l, err e)
]
admit_activity l task_token cancel = record_activity l task_token cancel

unfoldable pub admit_polled_activity :
    TaskLedger → Bytes → ActivityAdmission → TaskLedger × Result AdmitError Admission
unfolding record_activity
admit_polled_activity l task_token kind = record_activity l task_token kind

unfoldable pub lease_activity : TaskLedger → Bytes → TaskLedger × Result CompleteError (Unit {0})
lease_activity l task_token = elim (get task_token l.activities) [
  | none ↦ (l, err unknown_activity)
  | some state ↦
      if state.leased
      then (l, err already_leased)
      else (put_activity l task_token (record state { leased = true }), ok tt)
]

unfoldable pub ensure_activity_cancellation : TaskLedger → Bytes → Result CompleteError (Unit {0})
ensure_activity_cancellation l task_token =
    if contains task_token l.activities then ok tt else err unknown_activity

unfoldable pub handoff_activity :
    TaskLedger → Bytes → ActivityAdmission → TaskLedger × Result CompleteError (Unit {0})
unfolding lease_activity ensure_activity_cancellation
handoff_activity l task_token start = lease_activity l task_token
handoff_activity l task_token cancel = (l, ensure_activity_cancellation l task_token)

unfoldable pub force_remove_activity : TaskLedger → Bytes → TaskLedger
force_remove_activity l task_token = record l { activities = remove task_token l.activities }

unfoldable pub abandon_activity_admission : TaskLedger → Bytes → TaskLedger
unfolding force_remove_activity
abandon_activity_admission l task_token = elim (get task_token l.activities) [
  | none ↦ l
  | some state ↦ if state.leased then l else force_remove_activity l task_token
]

unfoldable pub complete_activity : TaskLedger → Bytes → TaskLedger × Result CompleteError (Unit {0})
unfolding force_remove_activity
complete_activity l task_token = elim (get task_token l.activities) [
  | none ↦ (l, err unknown_activity)
  | some state ↦
      if state.leased then (force_remove_activity l task_token, ok tt) else (l, err not_leased)
]

unfoldable pub ensure_activity_leased : TaskLedger → Bytes → Result CompleteError (Unit {0})
ensure_activity_leased l task_token = elim (get task_token l.activities) [
  | none ↦ err unknown_activity
  | some state ↦ if state.leased then ok tt else err not_leased
]

unfoldable pub retire_rejected_activity :
    TaskLedger → Bytes → TaskLedger × Result CompleteError (Unit {0})
unfolding complete_activity
retire_rejected_activity l task_token = complete_activity l task_token

unfoldable pub retire_activity_for_dispose : TaskLedger → Bytes → TaskLedger
unfolding force_remove_activity
retire_activity_for_dispose l task_token = record (force_remove_activity l task_token) {
  retired_activities = add task_token l.retired_activities;
}
