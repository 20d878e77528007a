-- ===== src/Worker/Replayed.antt =====
-- A pass of disposal of a replay worker acknowledges every run that is owed or queued once.
use ocaml_temporal.Base.{
  ◌+◌, ◌≡◌, refl, not, ◌&&◌, ◌||◌, List, [], ◌∷◌, ◌++◌, ok, err, Bytes, bytes_key, bytes_eq_iff,
  arith, ℕ,
}
use ocaml_temporal.Base.Map.{
  Set, contains, get, keys, elem, add, extend, get-insert, contains-extend, elem-keys,
}
use ocaml_temporal.Ledger.Workflows.{force_remove_workflow}
use ocaml_temporal.Ledger.Drain.{take_all_outstanding_for_replay}
use ocaml_temporal.Ledger.Calls.{Call}
use ocaml_temporal.Ledger.Invariant.{IsValid}
use ocaml_temporal.Ledger.Taken.{runs}
use ocaml_temporal.Worker.Core.{WorkflowActivation, Sent, workflow_empty, ReadyTask}
use ocaml_temporal.Worker.Readiness.{take, take_inner, publish_all}
use ocaml_temporal.Worker.Handoff.{PollLanes, Publication, publish, await_core}
use ocaml_temporal.Worker.Dispose.{collect_replay, acknowledge_all, abandon_replay_for_dispose}
use ocaml_temporal.Worker.Answers.{
  unit_if, run_answers, token_answers, occurs, run_answers-append, token_answers-append,
  occurs-keys, acknowledgements, acknowledgements-append,
}
use ocaml_temporal.Worker.Disposed.{queued_runs}

occurs-append : (k : Bytes) (js is : List Bytes) → occurs k (js ++ is) ≡ occurs k js + occurs k is
unfolding occurs
occurs-append k [] is = omega arith
occurs-append k (j ∷ js) is = ground (arith, occurs-append k js is)

module _ (others : List Sent → List Call) where
  -- The queued runs that were not seen are listed once; nothing is handed to Core yet.
  collect_replay_lem :
      (ms : List (ReadyTask WorkflowActivation)) (s : PollLanes) (seen : Set Bytes) (k : Bytes)
      → s.workflow_ready.messages ≡ ms
      → (occurs k (collect_replay others ms s seen).1
          ≡ unit_if (elem k (runs (queued_runs ms)) && not (contains k seen)))
        × ((collect_replay others ms s seen).0.sent ≡ s.sent)
  unfolding collect_replay occurs elem take take_inner
  collect_replay_lem [] s seen k h = ground arith
  collect_replay_lem (err e ∷ ms) s seen k h =
      let s' : PollLanes = record s { workflow_ready = (take s.workflow_ready).0 } in
      ground (arith, collect_replay_lem ms s' seen k)
  collect_replay_lem (ok a ∷ ms) s seen k h =
      let s' : PollLanes = record s {
        workflow_ready = (take s.workflow_ready).0;
        ledger = force_remove_workflow s.ledger a.run_id;
      } in
      ground (
        arith,
        collect_replay_lem ms s' (add a.run_id seen) k,
        get-insert a.run_id k tt seen,
        bytes_eq_iff a.run_id k,
      )

  answers-acknowledge_all :
      (rs : List Bytes) (s : PollLanes) (k : Bytes)
      → (run_answers k (acknowledge_all others rs s).sent ≡ run_answers k s.sent + occurs k rs)
        × (acknowledgements k (acknowledge_all others rs s).sent
            ≡ acknowledgements k s.sent + occurs k rs)
        × (token_answers k (acknowledge_all others rs s).sent ≡ token_answers k s.sent)
  unfolding acknowledge_all occurs
  answers-acknowledge_all [] s k = ground arith
  answers-acknowledge_all (r ∷ rs) s k =
      let c : Sent = workflow_empty r in
      ground (
        arith,
        answers-acknowledge_all rs (await_core others s c) k,
        run_answers-append k c s.sent,
        acknowledgements-append k c s.sent,
        token_answers-append k c s.sent,
      )

  -- A pass of disposal of a replay worker hands Core exactly one completion, an empty one, for each
  -- run that is owed, queued or published before the drain of the queue ends, and none for any other
  -- run or for an activity; whatever calls of the ledger others make and whatever the lane publishes. The
  -- ledger is valid when the pass begins.
  pub replay_answers_once :
      (p : Publication) (s : PollLanes) (k : Bytes)
      → IsValid s.ledger
      → let s' = abandon_replay_for_dispose others p s in
        let answered : ℕ = unit_if (
          contains k s.ledger.workflows
          || elem k (runs (queued_runs (publish_all p.workflows s.workflow_ready).messages))) in
        (run_answers k s'.sent ≡ run_answers k s.sent + answered)
        × (acknowledgements k s'.sent ≡ acknowledgements k s.sent + answered)
        × (token_answers k s'.sent ≡ token_answers k s.sent)
  unfolding abandon_replay_for_dispose take_all_outstanding_for_replay get
  replay_answers_once p s k v =
      let w : List Bytes = keys s.ledger.workflows in
      let s1 : PollLanes =
        publish p (record s { ledger = (take_all_outstanding_for_replay s.ledger).0 }) in
      let collected : PollLanes × List Bytes =
        collect_replay others s1.workflow_ready.messages s1 (extend w []) in
      ground (
        arith,
        collect_replay_lem s1.workflow_ready.messages s1 (extend w []) k refl,
        answers-acknowledge_all (w ++ collected.1) collected.0 k,
        occurs-append k w collected.1,
        occurs-keys k s.ledger.workflows v.workflows_valid.distinct,
        contains-extend k w [],
        elem-keys k s.ledger.workflows,
      )
