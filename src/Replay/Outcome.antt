-- ===== src/Replay/Outcome.antt =====
-- What a finalized and what a disposed replay worker shows.
use ocaml_temporal.Worker.Dispose.{abandon_replay_for_dispose}
use ocaml_temporal.Base.{◌≡◌, ◌⊎◌, Bool, true, false, List, ok, err, arith, none, some}
use ocaml_temporal.Ledger.State.{outstanding}
use ocaml_temporal.Ledger.Calls.{Call}
use ocaml_temporal.Worker.Core.{Sent, WorkerBridgeError}
use ocaml_temporal.Worker.Completion.{finalize}
use ocaml_temporal.Worker.Handoff.{mark_natural_shutdown, initiate_shutdown, Publication}
use ocaml_temporal.Replay.Worker.{
  ReplayWorker, JoinSelect, finalization, has_outstanding_tasks, join_replay_poll_lane,
  finalize_lanes, finalize_replay, dispose_replay, poll_lane, lane_failure,
}

module _ {History : Type 0} where
  -- What a drained replay is.
  abbrev pub IsDrained : ReplayWorker History → Type 0
  IsDrained w =
      (w.feeder ≡ false)
      × (w.workflow_shutdown_observed ≡ true)
      × (outstanding w.lanes.ledger ≡ 0)
      × (w.replay_join_timed_out ≡ false)

module _ (others : List Sent → List Call) {History : Type 0} where
  -- A join that succeeds leaves the flag of a timeout as it was, and every join consumes the lane.
  join_facts :
      (steps : List JoinSelect) (w : ReplayWorker History)
      → let (w', r) = join_replay_poll_lane others steps w in
        (w'.workflow_lane ≡ false)
        × (r ≡ ok tt → w'.replay_join_timed_out ≡ w.replay_join_timed_out)
        × (w.workflow_lane ≡ false → (w' ≡ w) × (r ≡ ok tt))
        × (w'.feeder ≡ w.feeder)
  unfolding join_replay_poll_lane
  join_facts steps w = ground arith

  finalize_lanes_facts :
      (sole_owner : Bool) (w : ReplayWorker History)
      → let (w', r) = finalize_lanes others sole_owner w in
        (w' ≡ w)
        × ((r ≡ ok tt) ⊎ ((e : WorkerBridgeError) × (r ≡ err (finalization e))))
        × (r ≡ ok tt
            → (outstanding w.lanes.ledger ≡ 0)
              × (w.lanes.ledger.lost_poll_lease ≡ false)
              × (sole_owner ≡ true))
  unfolding finalize
  finalize_lanes_facts sole_owner w = ground arith

  -- A replay is finalized only if its input was finished, the workflow lane's terminal shutdown was
  -- observed, nothing was owed and no join had timed out; and Core's finalizer is only reached by
  -- the sole owner of the worker, after a join that did not time out, with nothing owed or lost.
  pub finalize_replay-IsDrained :
      (p : Publication) (steps : List JoinSelect) (sole_owner : Bool) (w : ReplayWorker History)
      → let (w', r) = finalize_replay others p steps sole_owner w in
        r ≡ ok tt
        → IsDrained w
          × (w'.replay_join_timed_out ≡ false)
          × (outstanding w'.lanes.ledger ≡ 0)
          × (w'.lanes.ledger.lost_poll_lease ≡ false)
          × (sole_owner ≡ true)
  unfolding finalize_replay has_outstanding_tasks
  finalize_replay-IsDrained p steps sole_owner w h =
      let j : ReplayWorker History = record w { lanes = mark_natural_shutdown w.lanes } in
      ground (
        arith,
        join_facts steps j,
        finalize_lanes_facts sole_owner ((join_replay_poll_lane others steps j).0),
      )

  dispose_facts :
      (p q : Publication) (steps : List JoinSelect) (sole_owner : Bool) (w : ReplayWorker History)
      → let (w', answer) = dispose_replay others p q steps sole_owner w in
        (w'.feeder ≡ false)
        × ((w'.replay_join_timed_out ≡ true) ⊎ (w'.workflow_lane ≡ false))
        × (w.replay_join_timed_out ≡ true → (answer ≡ none) × (w'.lanes ≡ w.lanes))
        × (w.workflow_lane ≡ false
            → (answer ≡ none)
              ⊎ ((answer ≡ some (ok tt))
                  ⊎ ((e : WorkerBridgeError) × (answer ≡ some (err (finalization e))))))
  unfolding dispose_replay
  dispose_facts p q steps sole_owner w =
      let w1 : ReplayWorker History = record w { feeder = false } in
      let w2 : ReplayWorker History = record w1 {
        lanes = initiate_shutdown (abandon_replay_for_dispose others p w1.lanes);
      } in
      let w3 : ReplayWorker History = (join_replay_poll_lane others steps w2).0 in
      let w4 : ReplayWorker History = record w3 {
        lanes = abandon_replay_for_dispose others q w3.lanes;
      } in
      ground (arith, join_facts steps w2, finalize_lanes_facts sole_owner w4)

  -- However a first disposal ended, a second one does not fail on the lane again: it finalizes, it
  -- leaks Core's worker, or Core's finalizer refuses it. If the join of the first timed out, then
  -- the second hands nothing more to Core and leaks, and a finalization is refused.
  pub second_disposal_ends :
      (p q p' q' : Publication) (first second last : List JoinSelect) (sole sole' : Bool)
      (w : ReplayWorker History)
      → let (w', _) = dispose_replay others p q first sole w in
        let (w'', answer) = dispose_replay others p' q' second sole' w' in
        ((answer ≡ none)
          ⊎ ((answer ≡ some (ok tt))
              ⊎ ((e : WorkerBridgeError) × (answer ≡ some (err (finalization e))))))
        × (w'.replay_join_timed_out ≡ true
            → (answer ≡ none)
              × (w''.lanes ≡ w'.lanes)
              × ((finalize_replay others p last sole' w').1 ≡ err (poll_lane lane_failure)))
  unfolding finalize_replay
  second_disposal_ends p q p' q' first second last sole sole' w =
      let w' : ReplayWorker History = (dispose_replay others p q first sole w).0 in
      ground (arith, dispose_facts p q first sole w, dispose_facts p' q' second sole' w')
