-- ===== src/Worker/Drain.antt =====
-- rust/core-bridge/src/worker_bridge.rs, `drain_and_join_for_shutdown` and `drain_and_join`: the
-- loop of passes until both poll lanes are joined. A select is the branch that wins it, with what
-- the lanes publish during the pass before it, and what they and others do to the state between. The
-- bound passes in the round that begins when no more selects follow, or in the last pass.
use ocaml_temporal.Base.{
  Bool, true, false, not, ◌||◌, Option, none, some, List, [], ◌∷◌, Result, ok, err, if◌then◌else◌,
  Bytes, ◌++◌,
}
use ocaml_temporal.Ledger.State.{mark_lost_poll_lease}
use ocaml_temporal.Ledger.Drain.{clear_dispose_retired}
use ocaml_temporal.Ledger.Calls.{Call}
use ocaml_temporal.Worker.Core.{Sent, PollLaneError, core}
use ocaml_temporal.Worker.Readiness.{take_async}
use ocaml_temporal.Worker.Handoff.{PollLanes, Publication, no_publication}
use ocaml_temporal.Worker.Retirement.{
  Retiring, retire_queued_workflow, retire_queued_activity, retire_visible_for_shutdown,
}

-- A join has the text of the error that the lane's task failed with.
pub data Branch : Type 0 where
  workflow_joined activity_joined : Option Bytes → Branch
  workflow_received activity_received : Branch

pub record Select : Type 0 where
  pub published : Publication
  pub meanwhile : PollLanes → PollLanes
  pub branch : Branch

pub record Draining : Type 0 where
  pub retiring : Retiring
  pub workflow_lane : Bool  -- not joined yet
  pub activity_lane : Bool
  pub workflow_queue_open : Bool
  pub activity_queue_open : Bool
  pub first_error : Option PollLaneError

pub data ShutdownDrainError : Type 0 where
  lane_error : PollLaneError → ShutdownDrainError
  drain_timed_out : ShutdownDrainError

-- Where the bound passes: what had been done of the round when it did, at whatever await that was.
pub record Bound : Type 0 where
  pub cut : Draining → Draining
  pub in_last_pass : Bool

abbrev pub workflow_lane_failed : Bytes  -- "workflow poll lane failed: "
workflow_lane_failed =
    119 ∷ 111 ∷ 114 ∷ 107 ∷ 102 ∷ 108 ∷ 111 ∷ 119 ∷ 32 ∷ 112 ∷ 111 ∷ 108 ∷ 108 ∷ 32 ∷ 108 ∷ 97 ∷ 110
    ∷ 101 ∷ 32 ∷ 102 ∷ 97 ∷ 105 ∷ 108 ∷ 101 ∷ 100 ∷ 58 ∷ 32 ∷ []

abbrev pub activity_lane_failed : Bytes  -- "activity poll lane failed: "
activity_lane_failed =
    97 ∷ 99 ∷ 116 ∷ 105 ∷ 118 ∷ 105 ∷ 116 ∷ 121 ∷ 32 ∷ 112 ∷ 111 ∷ 108 ∷ 108 ∷ 32 ∷ 108 ∷ 97 ∷ 110
    ∷ 101 ∷ 32 ∷ 102 ∷ 97 ∷ 105 ∷ 108 ∷ 101 ∷ 100 ∷ 58 ∷ 32 ∷ []

-- `get_or_insert` on a failed join.
abbrev pub note_failure : Bytes → Option Bytes → Option PollLaneError → Option PollLaneError
note_failure lane failed (some e) = some e
note_failure lane (some text) none = some (core (lane ++ text))
note_failure lane none none = none

abbrev pub lanes_result : Option PollLaneError → Result ShutdownDrainError (Unit {0})
lanes_result none = ok tt
lanes_result (some e) = err (lane_error e)

module _ (others : List Sent → List Call) where
  -- A receive that waits, or on a queue that is closed, does not win.
  abbrev pub receive_workflow : Draining → Draining
  receive_workflow d =
      if not d.workflow_queue_open then d else elim (take_async d.retiring.0.workflow_ready) [
        | none ↦ d
        | some (lane, received) ↦
            let s : PollLanes = record (d.retiring.0) { workflow_ready = lane } in
            let d' : Draining = record d { retiring = (s, d.retiring.1) } in
            elim received [
              | none ↦ record d' { workflow_queue_open = false }
              | some message ↦ record d' {
                retiring = retire_queued_workflow others message (s, d.retiring.1);
              }
            ]
      ]

  abbrev pub receive_activity : Draining → Draining
  receive_activity d =
      if not d.activity_queue_open then d else elim (take_async d.retiring.0.activity_ready) [
        | none ↦ d
        | some (lane, received) ↦
            let s : PollLanes = record (d.retiring.0) { activity_ready = lane } in
            let d' : Draining = record d { retiring = (s, d.retiring.1) } in
            elim received [
              | none ↦ record d' { activity_queue_open = false }
              | some message ↦ record d' {
                retiring = retire_queued_activity others message (s, d.retiring.1);
              }
            ]
      ]

  -- A lane that is joined already is not joined again.
  abbrev pub select_branch : Branch → Draining → Draining
  select_branch (workflow_joined failed) d =
      if d.workflow_lane
      then record d {
        workflow_lane = false;
        first_error = note_failure workflow_lane_failed failed d.first_error;
      }
      else d
  select_branch (activity_joined failed) d =
      if d.activity_lane
      then record d {
        activity_lane = false;
        first_error = note_failure activity_lane_failed failed d.first_error;
      }
      else d
  select_branch workflow_received d = receive_workflow d
  select_branch activity_received d = receive_activity d

  abbrev pub drain_round : Select → Draining → Draining
  drain_round step d =
      let (s, n) = retire_visible_for_shutdown others step.published d.retiring in
      select_branch step.branch (record d { retiring = (step.meanwhile s, n) })

  -- The last pass, with no producer left.
  abbrev pub finish_drain : Draining → Draining × Result ShutdownDrainError (Unit {0})
  finish_drain d =
      let (s, n) = retire_visible_for_shutdown others no_publication d.retiring in
      (
        record d { retiring = (record s { ledger = clear_dispose_retired s.ledger }, n) },
        lanes_result d.first_error,
      )

  -- The drain is cancelled in the state that the cut gives.
  abbrev pub time_out : Bound → Draining → Draining × Result ShutdownDrainError (Unit {0})
  time_out bound d =
      let d' = bound.cut d in
      let (s, n) = d'.retiring in
      (
        record d' { retiring = (record s { ledger = mark_lost_poll_lease s.ledger }, n) },
        err drain_timed_out,
      )

  abbrev pub end_drain : Bound → Draining → Draining × Result ShutdownDrainError (Unit {0})
  end_drain bound d = if bound.in_last_pass then time_out bound d else finish_drain d

  unfoldable pub drain_and_join :
      Bound → List Select → Draining → Draining × Result ShutdownDrainError (Unit {0})
  drain_and_join bound [] d =
      if d.workflow_lane || d.activity_lane then time_out bound d else end_drain bound d
  drain_and_join bound (step ∷ steps) d =
      let rest = drain_and_join bound steps (drain_round step d) in
      if d.workflow_lane || d.activity_lane then rest else end_drain bound d

  unfoldable pub drain_and_join_for_shutdown :
      Bound
      → List Select
      → PollLanes
      → Bool
      → Bool
      → Draining × Result ShutdownDrainError (Unit {0})
  drain_and_join_for_shutdown bound steps s workflow_lane activity_lane =
      drain_and_join bound steps (record {
        retiring = (s, record { abandoned_leases = 0; undelivered = 0 });
        workflow_lane = workflow_lane;
        activity_lane = activity_lane;
        workflow_queue_open = true;
        activity_queue_open = true;
        first_error = none;
      })
