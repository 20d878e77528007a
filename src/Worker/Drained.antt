-- ===== src/Worker/Drained.antt =====
-- How the shutdown drain ends.
use ocaml_temporal.Worker.Readiness.{take_async}
use ocaml_temporal.Ledger.Activities.{force_remove_activity}
use ocaml_temporal.Ledger.Workflows.{force_remove_workflow}
use ocaml_temporal.Base.{
  ◌≡◌, refl, Bool, false, ◌||◌, List, [], ◌∷◌, Result, err, arith, Bool-cases, inl, inr, Option,
  none, some, ok, ◌++◌, true, Option-cases, ap, subst, if◌then◌else◌, ◌+◌, ◌≢◌,
}
use ocaml_temporal.Ledger.State.{mark_lost_poll_lease, can_finalize, cancel}
use ocaml_temporal.Ledger.Drain.{clear_dispose_retired}
use ocaml_temporal.Ledger.Calls.{Call}
use ocaml_temporal.Ledger.History.{run}
use ocaml_temporal.Ledger.Finalize.{lost_never_finalizes}
use ocaml_temporal.Worker.Core.{
  Sent, PollLaneError, core, WorkflowActivation, ActivityTask, workflow_empty, workflow_failed,
  activity_retired, ReadyTask,
}
use ocaml_temporal.Worker.Handoff.{PollLanes, Publication, publish, no_publication}
use ocaml_temporal.Worker.Retirement.{
  ShutdownRetirement, Retiring, retire_leases, drain_workflows, retire_visible_for_shutdown,
}
use ocaml_temporal.Worker.Retired.{drain_workflows_lem, drain_activities_lem}
use ocaml_temporal.Worker.Drain.{
  Select, Draining, ShutdownDrainError, drain_timed_out, drain_round, lanes_result, finish_drain,
  time_out, drain_and_join, drain_and_join_for_shutdown, Branch, workflow_joined, activity_joined,
  workflow_lane_failed, activity_lane_failed, lane_error, Bound, workflow_received,
  activity_received, end_drain, receive_workflow, receive_activity, select_branch,
}

-- Both lanes are joined, the queues are empty, and the tombstones of a disposal are gone.
pub record IsDrained (d : Draining) : Type 0 where
  pub workflow_joined : d.workflow_lane ≡ false
  pub activity_joined : d.activity_lane ≡ false
  pub no_workflow : d.retiring.0.workflow_ready.messages ≡ []
  pub no_activity : d.retiring.0.activity_ready.messages ≡ []
  pub no_tombstone :
      (d.retiring.0.ledger.retired_workflows ≡ []) × (d.retiring.0.ledger.retired_activities ≡ [])

-- The failure of the lane that a select joins, or the first one later.
abbrev pub failure_of :
    Branch → (Bool → Bool → Option PollLaneError) → Bool → Bool → Option PollLaneError
failure_of (workflow_joined (some text)) later true activity =
    some (core (workflow_lane_failed ++ text))
failure_of (workflow_joined none) later true activity = later false activity
failure_of (workflow_joined _) later false activity = later false activity
failure_of (activity_joined (some text)) later workflow true =
    some (core (activity_lane_failed ++ text))
failure_of (activity_joined none) later workflow true = later workflow false
failure_of (activity_joined _) later workflow false = later workflow false
failure_of _ later workflow activity = later workflow activity

-- The first failure of a lane that is joined by these selects, with the lanes that are not joined yet.
abbrev pub first_failure : List Select → Bool → Bool → Option PollLaneError
first_failure [] workflow activity = none
first_failure (step ∷ steps) workflow activity =
    failure_of step.branch (first_failure steps) workflow activity

-- The two ends of the drain, given the first failure of a lane.
pub data DrainEnd (failure : Option PollLaneError) (d : Draining)
    (result : Result ShutdownDrainError (Unit {0})) : Type 0 where
  -- The lanes have stopped, and none failed.
  succeeded : IsDrained d → failure ≡ none → result ≡ ok tt → DrainEnd failure d result
  -- The lanes have stopped, and this is the first that failed.
  failed :
      (e : PollLaneError)
      → IsDrained d
      → failure ≡ some e
      → result ≡ err (lane_error e)
      → DrainEnd failure d result
  -- The bound passed, and no later calls make the worker one that can be finalized.
  expired :
      result ≡ err drain_timed_out
      → ((cs : List Call) → can_finalize (run cs d.retiring.0.ledger) ≡ false)
      → DrainEnd failure d result

abbrev or_first : Option PollLaneError → Option PollLaneError → Option PollLaneError
or_first (some e) later = some e
or_first none later = later

first_failure-joined : (steps : List Select) → first_failure steps false false ≡ none
first_failure-joined [] = refl
first_failure-joined (step ∷ steps) = go step.branch (first_failure-joined steps)
  where
    go :
        (b : Branch)
        → first_failure steps false false ≡ none
        → failure_of b (first_failure steps) false false ≡ none
    go (workflow_joined (some text)) h = h
    go (workflow_joined none) h = h
    go (activity_joined (some text)) h = h
    go (activity_joined none) h = h
    go workflow_received h = h
    go activity_received h = h

module _ (others : List Sent → List Call) where
  -- A pass leaves both queues empty.
  pass_empties :
      (p : Publication) (s : PollLanes) (n : ShutdownRetirement)
      → let s' = (retire_visible_for_shutdown others p (s, n)).0 in
        (s'.workflow_ready.messages ≡ []) × (s'.activity_ready.messages ≡ [])
  unfolding retire_visible_for_shutdown
  pass_empties p s n =
      let l : Retiring = retire_leases others (s, n) in
      let s1 : PollLanes = publish p l.0 in
      let q : Retiring = drain_workflows others s1.workflow_ready.messages (s1, l.1) in
      ground (
        arith,
        drain_workflows_lem others s1.workflow_ready.messages s1 l.1 [] refl,
        drain_activities_lem others q.0.activity_ready.messages q.0 q.1 [] refl,
      )

  finish-IsDrained :
      (d : Draining)
      → (d.workflow_lane || d.activity_lane) ≡ false
      → IsDrained (finish_drain others d).0
  unfolding clear_dispose_retired
  finish-IsDrained d h =
      let (w, a) = pass_empties no_publication d.retiring.0 d.retiring.1 in
      record {
        workflow_joined = ground arith;
        activity_joined = ground arith;
        no_workflow = w;
        no_activity = a;
        no_tombstone = (refl, refl);
      }

  finish-DrainEnd :
      (d : Draining)
      → (d.workflow_lane || d.activity_lane) ≡ false
      → DrainEnd d.first_error (finish_drain others d).0 (finish_drain others d).1
  finish-DrainEnd d h = elim (Option-cases d.first_error) [
    | inl fine ↦ succeeded (finish-IsDrained d h) fine (ap lanes_result fine)
    | inr (e, found) ↦ failed e (finish-IsDrained d h) found (ap lanes_result found)
  ]

  time_out-DrainEnd :
      (failure : Option PollLaneError) (bound : Bound) (d : Draining)
      → DrainEnd failure (time_out others bound d).0 (time_out others bound d).1
  unfolding mark_lost_poll_lease
  time_out-DrainEnd failure bound d =
      expired refl λ cs. lost_never_finalizes cs (time_out others bound d).0.retiring.0.ledger refl

  end-DrainEnd :
      (bound : Bound) (steps : List Select) (d : Draining)
      → (d.workflow_lane || d.activity_lane) ≡ false
      → DrainEnd
          (or_first d.first_error (first_failure steps d.workflow_lane d.activity_lane))
          (end_drain others bound d).0
          (end_drain others bound d).1
  end-DrainEnd bound steps d h = elim (Bool-cases bound.in_last_pass) [
    | inl late ↦ rw (late) (time_out-DrainEnd _ bound d)
    | inr in_time ↦
        let no_more : d.first_error
            ≡ or_first d.first_error (first_failure steps d.workflow_lane d.activity_lane) =
          ground (arith, h, first_failure-joined steps) in
        rw (in_time) (
          subst (λ f. DrainEnd f (finish_drain others d).0 (finish_drain others d).1) no_more
            (finish-DrainEnd d h))
  ]

  receive_keeps :
      (d : Draining)
      → ((receive_workflow others d).first_error ≡ d.first_error)
        × ((receive_workflow others d).workflow_lane ≡ d.workflow_lane)
        × ((receive_workflow others d).activity_lane ≡ d.activity_lane)
        × ((receive_activity others d).first_error ≡ d.first_error)
        × ((receive_activity others d).workflow_lane ≡ d.workflow_lane)
        × ((receive_activity others d).activity_lane ≡ d.activity_lane)
  receive_keeps d = ground arith

  branch_failure :
      (b : Branch) (d : Draining) (later : Bool → Bool → Option PollLaneError)
      → let d' = select_branch others b d in
        or_first d'.first_error (later d'.workflow_lane d'.activity_lane)
        ≡ or_first d.first_error (failure_of b later d.workflow_lane d.activity_lane)
  branch_failure (workflow_joined (some text)) d later = ground arith
  branch_failure (workflow_joined none) d later = ground arith
  branch_failure (activity_joined (some text)) d later = ground arith
  branch_failure (activity_joined none) d later = ground arith
  branch_failure workflow_received d later = ground (arith, receive_keeps d)
  branch_failure activity_received d later = ground (arith, receive_keeps d)

  round_failure :
      (step : Select) (steps : List Select) (d : Draining)
      → let d' = drain_round others step d in
        or_first d'.first_error (first_failure steps d'.workflow_lane d'.activity_lane)
        ≡ or_first d.first_error (first_failure (step ∷ steps) d.workflow_lane d.activity_lane)
  round_failure step steps d =
      let (s, n) = retire_visible_for_shutdown others step.published d.retiring in
      branch_failure step.branch (record d { retiring = (step.meanwhile s, n) })
        (first_failure steps)

  drain_and_join-DrainEnd :
      (bound : Bound) (steps : List Select) (d : Draining)
      → DrainEnd
          (or_first d.first_error (first_failure steps d.workflow_lane d.activity_lane))
          (drain_and_join others bound steps d).0
          (drain_and_join others bound steps d).1
  unfolding drain_and_join
  drain_and_join-DrainEnd bound [] d = elim (Bool-cases (d.workflow_lane || d.activity_lane)) [
    | inl more ↦ rw (more) (time_out-DrainEnd _ bound d)
    | inr joined ↦ rw (joined) (end-DrainEnd bound [] d joined)
  ]
  drain_and_join-DrainEnd bound (step ∷ steps) d =
      elim (Bool-cases (d.workflow_lane || d.activity_lane)) [
        | inl more ↦
            let d' : Draining = drain_round others step d in
            rw (more) (
              subst
                (λ f.
                  DrainEnd f (drain_and_join others bound steps d').0
                    (drain_and_join others bound steps d').1)
                (round_failure step steps d) (drain_and_join-DrainEnd bound steps d'))
        | inr joined ↦ rw (joined) (end-DrainEnd bound (step ∷ steps) d joined)
      ]

  -- A select that receives an activation or a start takes it from its queue and from the ledger, gives
  -- it one completion and counts it, and others call the ledger after that.
  pub record IsRetiredOnReceipt (d : Draining) : Type 0 where
    pub workflow :
        (a : WorkflowActivation) (later : List (ReadyTask WorkflowActivation))
        → d.workflow_queue_open ≡ true
        → d.retiring.0.workflow_ready.messages ≡ ok a ∷ later
        → let d' = select_branch others workflow_received d in
          let c : Sent =
            if a.is_only_eviction then workflow_empty a.run_id else workflow_failed a.run_id in
          (d'.retiring.0.sent ≡ d.retiring.0.sent ++ c ∷ [])
          × (d'.retiring.0.ledger
              ≡ run
                  (others d'.retiring.0.sent)
                  (force_remove_workflow d.retiring.0.ledger a.run_id))
          × (d'.retiring.1.undelivered ≡ d.retiring.1.undelivered + 1)
          × (d'.retiring.0.workflow_ready.messages ≡ later)
    pub activity :
        (t : ActivityTask) (later : List (ReadyTask ActivityTask))
        → d.activity_queue_open ≡ true
        → d.retiring.0.activity_ready.messages ≡ ok t ∷ later
        → t.variant ≢ some cancel
        → let d' = select_branch others activity_received d in
          (d'.retiring.0.sent ≡ d.retiring.0.sent ++ activity_retired t.task_token ∷ [])
          × (d'.retiring.0.ledger
              ≡ run
                  (others d'.retiring.0.sent)
                  (force_remove_activity d.retiring.0.ledger t.task_token))
          × (d'.retiring.1.undelivered ≡ d.retiring.1.undelivered + 1)
          × (d'.retiring.0.activity_ready.messages ≡ later)

  retired_on_receipt : (d : Draining) → IsRetiredOnReceipt d
  unfolding take_async
  retired_on_receipt d = record {
    workflow = λ a later opened queued. ground (arith, opened, queued);
    activity = λ t later opened queued other. ground (arith, opened, queued, other);
  }

  -- However the lanes, the owner's selects and other callers interleave, and wherever the bound
  -- passes, the shutdown drain ends with both lanes joined, both queues empty and no tombstone left;
  -- it then succeeds if no join of a lane failed, and reports the first that did otherwise, by the
  -- lane and the text. Or it times out, and then no later calls of the ledger let the worker be
  -- finalized. A select that receives an activation, or an activity
  -- task that is no cancellation, retires it with one completion and counts it as undelivered.
  pub drain_and_join_for_shutdown-DrainEnd :
      (bound : Bound) (steps : List Select) (s : PollLanes) (workflow_lane activity_lane : Bool)
      → let (d, result) =
          drain_and_join_for_shutdown others bound steps s workflow_lane activity_lane in
        DrainEnd (first_failure steps workflow_lane activity_lane) d result
        × ((at : Draining) → IsRetiredOnReceipt at)
  unfolding drain_and_join_for_shutdown
  drain_and_join_for_shutdown-DrainEnd bound steps s w a =
      (drain_and_join-DrainEnd bound steps _, retired_on_receipt)
