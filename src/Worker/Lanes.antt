-- ===== src/Worker/Lanes.antt =====
-- rust/core-bridge/src/worker_bridge.rs, `run_workflow_lane` and `run_activity_lane`: one round of
-- each loop on what Core's poll returned. The state is what the lane shares with the owner, and the
-- completions handed to Core so far; the flag says whether the loop goes on.
use ocaml_temporal.Base.{
  Bool, true, false, none, some, List, [], ◌∷◌, ◌++◌, Result, ok, err, Bytes, if◌then◌else◌, Option,
}
use ocaml_temporal.Ledger.State.{
  Admission, new, duplicate, existing_cancellation, ActivityAdmission, start, cancel, AdmitError,
  draining, invalid_identity, unknown_activity_cancellation, retired, TaskLedger,
  mark_lost_poll_lease,
}
use ocaml_temporal.Ledger.Workflows.{admit_polled_workflow_activation, abandon_workflow_admission}
use ocaml_temporal.Ledger.Activities.{admit_polled_activity, abandon_activity_admission}
use ocaml_temporal.Worker.Core.{
  WorkflowActivation, ActivityTask, Sent, workflow_empty, workflow_failed, activity_retired, core,
  admission, duplicate_identity, invalid_activity_variant, ReadyTask,
}
use ocaml_temporal.Worker.Readiness.{Lane, enqueue, fail, close, close_after_core_shutdown}

pub data Poll (T : Type 0) : Type 0 where
  polled : T → Poll T
  poll_shut_down : Poll T
  poll_failed : Bytes → Poll T

pub record LaneState (T : Type 0) : Type 0 where
  pub ledger : TaskLedger
  pub lane : Lane T
  pub sent : List Sent

module _ {T : Type 0} where
  abbrev pub hand_to_core : LaneState T → Sent → LaneState T
  hand_to_core s c = record s { sent = s.sent ++ c ∷ [] }

  abbrev pub lose : LaneState T → LaneState T
  lose s = record s { ledger = mark_lost_poll_lease s.ledger }

  -- `if !signal.enqueue(..) { return; }`.
  abbrev pub publish : LaneState T → ReadyTask T → LaneState T × Bool
  publish s message =
      let (lane, delivered) = enqueue s.lane message in (record s { lane = lane }, delivered)

  -- A failed poll: the error is published and kept, and the loop ends.
  abbrev pub fail_lane : LaneState T → Bytes → LaneState T × Bool
  fail_lane s text =
      let (s', _) = publish s (err (core text)) in
      (record s' { lane = fail s'.lane (core text) }, false)

abbrev pub settle_workflow :
    LaneState WorkflowActivation
    → WorkflowActivation
    → Result AdmitError Admission
    → LaneState WorkflowActivation × Bool
settle_workflow s a (ok new) =
    let (s', delivered) = publish s (ok a) in
    if delivered then (s', true) else (
      hand_to_core (record s' { ledger = abandon_workflow_admission s'.ledger a.run_id })
          (workflow_failed a.run_id),
      false,
    )
settle_workflow s a (ok duplicate) = publish (lose s) (err duplicate_identity)
settle_workflow s a (ok existing_cancellation) = publish (lose s) (err duplicate_identity)
settle_workflow s a (err retired) =
    if a.is_only_eviction
    then (hand_to_core s (workflow_empty a.run_id), true)
    else publish (lose s) (err (admission retired))
settle_workflow s a (err invalid_identity) =
    publish (hand_to_core s (workflow_failed a.run_id)) (err (admission invalid_identity))
settle_workflow s a (err draining) =
    publish (hand_to_core s (workflow_failed a.run_id)) (err (admission draining))
settle_workflow s a (err unknown_activity_cancellation) =
    publish (hand_to_core s (workflow_failed a.run_id))
      (err (admission unknown_activity_cancellation))

unfoldable pub workflow_lane_round :
    LaneState WorkflowActivation → Poll WorkflowActivation → LaneState WorkflowActivation × Bool
workflow_lane_round s (polled a) =
    let (ledger, result) = admit_polled_workflow_activation s.ledger a.run_id a.is_only_eviction in
    settle_workflow (record s { ledger = ledger }) a result
workflow_lane_round s poll_shut_down = (record s { lane = close_after_core_shutdown s.lane }, false)
workflow_lane_round s (poll_failed text) = fail_lane s text

unfoldable pub is_ignorable_activity_cancellation :
    ActivityAdmission → Result AdmitError Admission → Bool
is_ignorable_activity_cancellation cancel (ok duplicate) = true
is_ignorable_activity_cancellation cancel (err e) = true
is_ignorable_activity_cancellation _ _ = false

abbrev pub is_start : ActivityAdmission → Bool
is_start start = true
is_start cancel = false

abbrev pub deliver_activity :
    LaneState ActivityTask → ActivityTask → ActivityAdmission → LaneState ActivityTask × Bool
deliver_activity s t kind =
    let (s', delivered) = publish s (ok t) in
    if delivered
    then (s', true)
    else if is_start kind
    then (
      hand_to_core (record s' { ledger = abandon_activity_admission s'.ledger t.task_token })
          (activity_retired t.task_token),
      false,
    )
    else (s', false)

abbrev pub settle_activity :
    LaneState ActivityTask
    → ActivityTask
    → ActivityAdmission
    → Result AdmitError Admission
    → LaneState ActivityTask × Bool
settle_activity s t kind (ok new) = deliver_activity s t kind
settle_activity s t kind (ok existing_cancellation) = deliver_activity s t kind
settle_activity s t kind (ok duplicate) = publish (lose s) (err duplicate_identity)
settle_activity s t kind (err invalid_identity) =
    publish (hand_to_core s (activity_retired t.task_token)) (err (admission invalid_identity))
settle_activity s t kind (err draining) =
    publish (hand_to_core s (activity_retired t.task_token)) (err (admission draining))
settle_activity s t kind (err retired) = publish (lose s) (err (admission retired))
settle_activity s t kind (err unknown_activity_cancellation) =
    publish (lose s) (err (admission unknown_activity_cancellation))

abbrev pub admit_task :
    LaneState ActivityTask → ActivityTask → ActivityAdmission → LaneState ActivityTask × Bool
admit_task s t kind =
    let (ledger, result) = admit_polled_activity s.ledger t.task_token kind in
    let s' = record s { ledger = ledger } in
    if is_ignorable_activity_cancellation kind result
    then (s', true)
    else settle_activity s' t kind result

abbrev pub round_of_variant :
    LaneState ActivityTask → ActivityTask → Option ActivityAdmission → LaneState ActivityTask × Bool
round_of_variant s t (some kind) = admit_task s t kind
round_of_variant s t none =
    publish (hand_to_core s (activity_retired t.task_token)) (err invalid_activity_variant)

unfoldable pub activity_lane_round :
    LaneState ActivityTask → Poll ActivityTask → LaneState ActivityTask × Bool
activity_lane_round s (polled t) = round_of_variant s t t.variant
activity_lane_round s poll_shut_down = (record s { lane = close s.lane }, false)
activity_lane_round s (poll_failed text) = fail_lane s text
