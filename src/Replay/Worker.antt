-- ===== src/Replay/Worker.antt =====
-- rust/core-bridge/src/replay_bridge.rs, `ReplayWorker`, and worker_bridge.rs, the join of a replay
-- lane. The two fields of `PollLanes` that only the join uses stand beside it. A success returns the
-- worker too, as it was consumed.
use ocaml_temporal.Base.{
  Bool, true, false, not, ◌||◌, Option, none, some, List, [], ◌∷◌, Result, ok, err, ◌==◌,
  if◌then◌else◌, ◌++◌,
}
use ocaml_temporal.Ledger.State.{outstanding}
use ocaml_temporal.Ledger.Workflows.{force_remove_workflow}
use ocaml_temporal.Ledger.Drain.{clear_dispose_retired}
use ocaml_temporal.Ledger.Calls.{Call}
use ocaml_temporal.Ledger.History.{run}
use ocaml_temporal.Worker.Core.{
  WorkflowActivation, Sent, workflow_empty, PollLaneError, core, WorkerBridgeError, ReadyTask,
}
use ocaml_temporal.Worker.Readiness.{ReadinessWait, shutdown, publish_all, take_async}
use ocaml_temporal.Worker.Completion.{finalize}
use ocaml_temporal.Worker.Handoff.{
  PollLanes, initiate_shutdown, mark_natural_shutdown, await_core, Publication,
}
use ocaml_temporal.Worker.Dispose.{abandon_replay_for_dispose}
use ocaml_temporal.Replay.Histories.{ReplayInputError}

pub data ReplayWorkerError : Type 0 where
  feeder_closed core_initialization feed_timed_out : ReplayWorkerError
  replay_not_drained : Bool → Bool → Bool → ReplayWorkerError
  invalid_replay_history : ReplayInputError → ReplayWorkerError
  poll_lane : PollLaneError → ReplayWorkerError
  finalization : WorkerBridgeError → ReplayWorkerError

-- `fed` are the histories that Core's feeder took, oldest first.
pub record ReplayWorker (History : Type 0) : Type 0 where
  pub lanes : PollLanes
  pub workflow_lane : Bool
  pub replay_join_timed_out : Bool
  pub feeder : Bool
  pub workflow_shutdown_observed : Bool
  pub fed : List History

pub data FeedReply : Type 0 where
  taken refused elapsed : FeedReply

-- What the lane and others do before a select, and the branch that wins it: the lane's task ends,
-- with a flag that says whether it failed, or the queue is received from.
pub data JoinBranch : Type 0 where
  lane_ended : Bool → JoinBranch
  received : JoinBranch

pub record JoinSelect : Type 0 where
  pub calls : List Call
  pub published : List (ReadyTask WorkflowActivation)
  pub branch : JoinBranch

pub data ReplayLaneJoin : Type 0 where
  joined : Bool → ReplayLaneJoin
  join_timed_out : ReplayLaneJoin

unfoldable pub before_select : JoinSelect → PollLanes → PollLanes
before_select step s = record s {
  ledger = run step.calls s.ledger;
  workflow_ready = publish_all step.published s.workflow_ready;
}

abbrev pub ends_or_goes_on :
    JoinBranch → PollLanes → PollLanes × ReplayLaneJoin → PollLanes × ReplayLaneJoin
ends_or_goes_on (lane_ended failed) s rest = (s, joined failed)
ends_or_goes_on received s rest = rest

-- `has_outstanding_tasks`.
unfoldable pub has_outstanding_tasks : PollLanes → Bool
has_outstanding_tasks s = not (outstanding s.ledger == 0)

-- The text of a lane's failure is left out.
abbrev pub lane_failure : PollLaneError
lane_failure = core []

module _ (others : List Sent → List Call) where
  -- A message that was received: an activation leaves the ledger and is acknowledged.
  unfoldable pub acknowledge : ReadyTask WorkflowActivation → PollLanes → PollLanes
  acknowledge (err e) s = s
  acknowledge (ok a) s =
      await_core others (record s { ledger = force_remove_workflow s.ledger a.run_id })
        (workflow_empty a.run_id)

  unfoldable pub receive : PollLanes → PollLanes
  receive s = elim (take_async s.workflow_ready) [
    | none ↦ s
    | some (lane, message) ↦
        let s' : PollLanes = record s { workflow_ready = lane } in
        elim message [ none ↦ s' | some m ↦ acknowledge m s' ]
  ]

  -- The bound passes at a select when no more follow.
  unfoldable pub join_replay_lane_within : List JoinSelect → PollLanes → PollLanes × ReplayLaneJoin
  join_replay_lane_within [] s = (s, join_timed_out)
  join_replay_lane_within (step ∷ steps) s =
      let s' = before_select step s in
      let rest = join_replay_lane_within steps (receive s') in ends_or_goes_on step.branch s' rest

  module _ {History : Type 0} where
    -- A lane that was joined before is not joined again.
    unfoldable pub join_replay_poll_lane :
        List JoinSelect
        → ReplayWorker History
        → ReplayWorker History × Result PollLaneError (Unit {0})
    join_replay_poll_lane steps w =
        if not w.workflow_lane
        then (w, ok tt)
        else let (s, outcome) = join_replay_lane_within steps w.lanes in
          let w' : ReplayWorker History = record w {
            lanes = record s { ledger = clear_dispose_retired s.ledger };
            workflow_lane = false;
          } in
          elim outcome [
            | joined failed ↦ (w', if failed then err lane_failure else ok tt)
            | join_timed_out ↦ (record w' { replay_join_timed_out = true }, err lane_failure)
          ]

    -- `PollLanes::finalize`, on the worker's own lanes.
    abbrev pub finalize_lanes :
        Bool → ReplayWorker History → ReplayWorker History × Result ReplayWorkerError (Unit {0})
    finalize_lanes sole_owner w = elim (finalize w.lanes.ledger sole_owner) [
      | ok _ ↦ (w, ok tt)
      | err e ↦ (w, err (finalization e))
    ]

    abbrev pub not_drained : ReplayWorker History → Bool
    not_drained w =
        not (not w.feeder) || (not w.workflow_shutdown_observed || has_outstanding_tasks w.lanes)

    -- After a failed join: shutdown starts, and what is owed is acknowledged.
    abbrev pub abandon_failed : Publication → ReplayWorker History → ReplayWorker History
    abandon_failed p w = record w {
      lanes = abandon_replay_for_dispose others p (initiate_shutdown w.lanes);
    }

    -- `p` is what the lane publishes during the pass that follows a failed join.
    unfoldable pub finalize_replay :
        Publication
        → List JoinSelect
        → Bool
        → ReplayWorker History
        → ReplayWorker History × Result ReplayWorkerError (Unit {0})
    finalize_replay p steps sole_owner w =
        if w.replay_join_timed_out
        then (w, err (poll_lane lane_failure))
        else if not_drained w
        then (
          w,
          err (
              replay_not_drained (not w.feeder) w.workflow_shutdown_observed
                (has_outstanding_tasks w.lanes)),
        )
        else let (w', result) =
            join_replay_poll_lane steps (record w { lanes = mark_natural_shutdown w.lanes }) in
          elim result [
            | err e ↦ (abandon_failed p w', err (poll_lane e))
            | ok _ ↦ finalize_lanes sole_owner w'
          ]

    -- `None` is the success that leaks Core's worker instead of finalizing it. `p` and `q` are what
    -- the lane publishes during the two passes.
    unfoldable pub dispose_replay :
        Publication
        → Publication
        → List JoinSelect
        → Bool
        → ReplayWorker History
        → ReplayWorker History × Option (Result ReplayWorkerError (Unit {0}))
    dispose_replay p q steps sole_owner w =
        let w1 : ReplayWorker History = record w { feeder = false } in
        if w1.replay_join_timed_out
        then (w1, none)
        else let w2 : ReplayWorker History = record w1 {
          lanes = initiate_shutdown (abandon_replay_for_dispose others p w1.lanes);
        } in
          let (w3, result) = join_replay_poll_lane steps w2 in
          elim result [
            | err e ↦ (w3, some (err (poll_lane e)))
            | ok _ ↦
                let w4 : ReplayWorker History = record w3 {
                  lanes = abandon_replay_for_dispose others q w3.lanes;
                } in
                let (w5, answer) = finalize_lanes sole_owner w4 in (w5, some answer)
          ]

module _ {History : Type 0} where
  -- `decoded` is the answer of `decode_history_document`.
  unfoldable pub feed_json :
      Result ReplayInputError History
      → FeedReply
      → ReplayWorker History
      → ReplayWorker History × Result ReplayWorkerError (Unit {0})
  feed_json (err e) reply w = (w, err (invalid_replay_history e))
  feed_json (ok h) reply w = if not w.feeder then (w, err feeder_closed) else elim reply [
    | taken ↦ (record w { fed = w.fed ++ h ∷ [] }, ok tt)
    | refused ↦ (w, err feeder_closed)
    | elapsed ↦ (w, err feed_timed_out)
  ]

  unfoldable pub finish_input : ReplayWorker History → ReplayWorker History
  finish_input w = record w { feeder = false }

  -- The wait itself is `Readiness`'s; `found` is its answer.
  unfoldable pub wait_workflow : ReadinessWait → ReplayWorker History → ReplayWorker History
  wait_workflow shutdown w = record w { workflow_shutdown_observed = true }
  wait_workflow _ w = w
