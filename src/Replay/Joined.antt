-- ===== src/Replay/Joined.antt =====
-- The join of a replay lane loses no activation and acknowledges none twice.
use ocaml_temporal.Ledger.Workflows.{force_remove_workflow}
use ocaml_temporal.Ledger.History.{run}
use ocaml_temporal.Ledger.State.{TaskLedger}
use ocaml_temporal.Base.Map.{contains, get-remove}
use ocaml_temporal.Base.{
  ℕ, ◌+◌, ◌≡◌, refl, true, List, [], ◌∷◌, ◌++◌, ok, err, Bytes, bytes_key, arith, bytes_eq,
  append_assoc, append-nil, sym, inl, inr, ◌⊎◌, ◌-◌, ◌≤◌, subst, bytes_eq_iff,
}
use ocaml_temporal.Ledger.Calls.{Call}
use ocaml_temporal.Worker.Core.{WorkflowActivation, Sent, ReadyTask, workflow_empty}
use ocaml_temporal.Worker.Readiness.{Lane, enqueue, take_async, publish_all}
use ocaml_temporal.Worker.Handoff.{PollLanes}
use ocaml_temporal.Worker.Answers.{
  unit_if, run_answers, token_answers, run_answers-append, token_answers-append, acknowledgements,
  acknowledgements-append,
}
use ocaml_temporal.Replay.Worker.{
  JoinSelect, lane_ended, received, before_select, acknowledge, receive, join_replay_lane_within,
  JoinBranch, ends_or_goes_on, ReplayLaneJoin, join_timed_out, joined,
}

-- How many queued activations a run has.
unfoldable pub queued_for : Bytes → List (ReadyTask WorkflowActivation) → ℕ
queued_for k [] = 0
queued_for k (err e ∷ ms) = queued_for k ms
queued_for k (ok a ∷ ms) = unit_if (bytes_eq a.run_id k) + queued_for k ms

list_cases : {A : Type 0} (xs : List A) → (xs ≡ []) ⊎ ((x : A) × (ys : List A) × (xs ≡ x ∷ ys))
list_cases [] = inl refl
list_cases (x ∷ xs) = inr (x, xs, refl)

queued_for-append :
    (k : Bytes) (xs ys : List (ReadyTask WorkflowActivation))
    → queued_for k (xs ++ ys) ≡ queued_for k xs + queued_for k ys
unfolding queued_for
queued_for-append k [] ys = omega arith
queued_for-append k (err e ∷ xs) ys = queued_for-append k xs ys
queued_for-append k (ok a ∷ xs) ys = omega (arith, queued_for-append k xs ys)

abbrev taken : PollLanes → List (ReadyTask WorkflowActivation) → PollLanes
taken s ms = record s {
  workflow_ready = record (s.workflow_ready) {
    messages = ms;
    pending = s.workflow_ready.pending - 1;
  };
}

publish_all_lem :
    (ms : List (ReadyTask WorkflowActivation)) (lane : Lane WorkflowActivation)
    → lane.receiver_alive ≡ true
    → ((publish_all ms lane).messages ≡ lane.messages ++ ms)
      × ((publish_all ms lane).receiver_alive ≡ true)
unfolding publish_all enqueue
publish_all_lem [] lane h = (sym (append-nil lane.messages), h)
publish_all_lem (m ∷ ms) lane h =
    ground (arith, publish_all_lem ms ((enqueue lane m).0), append_assoc lane.messages (m ∷ []) ms)

-- What is published before the selects that run: those up to the end of the lane.
unfoldable pub published_for : Bytes → List JoinSelect → ℕ
published_for k [] = 0
published_for k (step ∷ steps) =
    let rest = published_for k steps in
    queued_for k step.published + elim step.branch [ lane_ended _ ↦ 0 | received ↦ rest ]

-- How the join ends: with the first select that the end of the lane wins, or else by the bound.
unfoldable pub first_end : List JoinSelect → ReplayLaneJoin
first_end [] = join_timed_out
first_end (step ∷ steps) =
    let rest = first_end steps in
    elim step.branch [ lane_ended failed ↦ joined failed | received ↦ rest ]

-- What is acknowledged or still queued for a run, with no other completion of the run, and none of
-- an activity.
abbrev pub IsSettledBy : Bytes → ℕ → PollLanes → PollLanes → Type 0
IsSettledBy k more s s' =
    (acknowledgements k s'.sent + queued_for k s'.workflow_ready.messages
      ≡ acknowledgements k s.sent + queued_for k s.workflow_ready.messages + more)
    × (run_answers k s'.sent + acknowledgements k s.sent
        ≡ run_answers k s.sent + acknowledgements k s'.sent)
    × (token_answers k s'.sent ≡ token_answers k s.sent)
    × (s'.workflow_ready.receiver_alive ≡ true)

-- The ledger owes the run only while an activation of it is queued.
abbrev pub IsOwedQueued : Bytes → PollLanes → Type 0
IsOwedQueued k s = contains k s.ledger.workflows ≡ true → 1 ≤ queued_for k s.workflow_ready.messages

-- The calls do not admit the run.
abbrev pub AdmitsNone : Bytes → List Call → Type 0
AdmitsNone k cs =
    (l : TaskLedger) → contains k (run cs l).workflows ≡ true → contains k l.workflows ≡ true

-- Before each select the run is admitted only if it is published too.
abbrev pub PublishesAdmitted : Bytes → List JoinSelect → Type 0
PublishesAdmitted k [] = Unit {0}
PublishesAdmitted k (step ∷ steps) =
    (AdmitsNone k step.calls ⊎ (1 ≤ queued_for k step.published)) × PublishesAdmitted k steps

module _ (others : List Sent → List Call) where
  acknowledge_lem :
      (k : Bytes) (m : ReadyTask WorkflowActivation) (s : PollLanes)
      → let s' = acknowledge others m s in
        (acknowledgements k s'.sent ≡ acknowledgements k s.sent + queued_for k (m ∷ []))
        × (run_answers k s'.sent + acknowledgements k s.sent
            ≡ run_answers k s.sent + acknowledgements k s'.sent)
        × (token_answers k s'.sent ≡ token_answers k s.sent)
        × (s'.workflow_ready ≡ s.workflow_ready)
  unfolding acknowledge queued_for
  acknowledge_lem k (err e) s = ground arith
  acknowledge_lem k (ok a) s = ground (
    arith,
    run_answers-append k (workflow_empty a.run_id) s.sent,
    acknowledgements-append k (workflow_empty a.run_id) s.sent,
    token_answers-append k (workflow_empty a.run_id) s.sent,
  )

  -- An acknowledged activation has left the ledger.
  acknowledge-removes :
      (k : Bytes) (m : ReadyTask WorkflowActivation) (s : PollLanes)
      → ((sent : List Sent) → AdmitsNone k (others sent))
      → contains k (acknowledge others m s).ledger.workflows ≡ true
      → (contains k s.ledger.workflows ≡ true) × (queued_for k (m ∷ []) ≡ 0)
  unfolding acknowledge queued_for force_remove_workflow
  acknowledge-removes k (err e) s quiet h = (h, refl)
  acknowledge-removes k (ok a) s quiet h = ground (
    arith,
    quiet (s.sent ++ workflow_empty a.run_id ∷ []) (force_remove_workflow s.ledger a.run_id) h,
    get-remove a.run_id k s.ledger.workflows,
    bytes_eq_iff a.run_id k,
  )

  receive_lem :
      (k : Bytes) (s : PollLanes)
      → s.workflow_ready.receiver_alive ≡ true
      → IsSettledBy k 0 s (receive others s)
  unfolding receive take_async
  receive_lem k s h = elim (list_cases s.workflow_ready.messages) [
    | inl e ↦ ground (arith, e, h)
    | inr (m, ms, e) ↦
        let s' : PollLanes = taken s ms in
        ground (arith, e, h, acknowledge_lem k m s', queued_for-append k (m ∷ []) ms)
  ]

  receive-IsOwedQueued :
      (k : Bytes) (s : PollLanes)
      → ((sent : List Sent) → AdmitsNone k (others sent))
      → IsOwedQueued k s
      → IsOwedQueued k (receive others s)
  unfolding receive take_async
  receive-IsOwedQueued k s quiet h owed = elim (list_cases s.workflow_ready.messages) [
    | inl e ↦ ground (arith, e, h, owed)
    | inr (m, ms, e) ↦
        let s' : PollLanes = taken s ms in
        let received_m : receive others s ≡ acknowledge others m s' = ground (arith, e) in
        let (before, other) =
          acknowledge-removes k m s' quiet
            (subst (λ x. contains k x.ledger.workflows ≡ true) received_m owed) in
        ground (arith, e, h before, other, acknowledge_lem k m s', queued_for-append k (m ∷ []) ms)
  ]

  before_select_lem :
      (k : Bytes) (step : JoinSelect) (s : PollLanes)
      → s.workflow_ready.receiver_alive ≡ true
      → IsSettledBy k (queued_for k step.published) s (before_select step s)
  unfolding before_select
  before_select_lem k step s h = ground (
    arith,
    publish_all_lem step.published s.workflow_ready h,
    queued_for-append k s.workflow_ready.messages step.published,
  )

  before_select-IsOwedQueued :
      (k : Bytes) (step : JoinSelect) (s : PollLanes)
      → s.workflow_ready.receiver_alive ≡ true
      → (AdmitsNone k step.calls ⊎ (1 ≤ queued_for k step.published))
      → IsOwedQueued k s
      → IsOwedQueued k (before_select step s)
  unfolding before_select
  before_select-IsOwedQueued k step s h (inl none_admitted) q owed =
      ground (arith, before_select_lem k step s h, q (none_admitted s.ledger owed))
  before_select-IsOwedQueued k step s h (inr more) q owed =
      ground (arith, before_select_lem k step s h, more)

  join_settles :
      (k : Bytes) (steps : List JoinSelect) (s : PollLanes)
      → s.workflow_ready.receiver_alive ≡ true
      → IsSettledBy k (published_for k steps) s (join_replay_lane_within others steps s).0
  unfolding join_replay_lane_within published_for
  join_settles k [] s h = ground (arith, h)
  join_settles k (step ∷ steps) s h =
      let s' = before_select step s in
      let (p, q, a, r) = before_select_lem k step s h in
      let (p', q', a', r') = receive_lem k s' r in
      ground (
        arith,
        before_select_lem k step s h,
        receive_lem k s' r,
        join_settles k steps (receive others s') r',
      )

  join-IsOwedQueued :
      (k : Bytes) (steps : List JoinSelect) (s : PollLanes)
      → s.workflow_ready.receiver_alive ≡ true
      → ((sent : List Sent) → AdmitsNone k (others sent))
      → PublishesAdmitted k steps
      → IsOwedQueued k s
      → IsOwedQueued k (join_replay_lane_within others steps s).0
  unfolding join_replay_lane_within
  join-IsOwedQueued k [] s h quiet honest q = q
  join-IsOwedQueued k (step ∷ steps) s h quiet (now, later) q =
      let s' : PollLanes = before_select step s in
      let (_, _, _, r) = before_select_lem k step s h in
      let (_, _, _, r') = receive_lem k s' r in
      let q' : IsOwedQueued k s' = before_select-IsOwedQueued k step s h now q in
      at step.branch q' (
        join-IsOwedQueued k steps (receive others s') r' quiet later
          (receive-IsOwedQueued k s' quiet q'))
    where
      at :
          (b : JoinBranch)
          → IsOwedQueued k (before_select step s)
          → IsOwedQueued k
              (join_replay_lane_within others steps (receive others (before_select step s))).0
          → let s' = before_select step s in
            let rest = join_replay_lane_within others steps (receive others s') in
            IsOwedQueued k (ends_or_goes_on b s' rest).0
      at (lane_ended failed) here there = here
      at received here there = there

  join_outcome :
      (steps : List JoinSelect) (s : PollLanes)
      → (join_replay_lane_within others steps s).1 ≡ first_end steps
  unfolding join_replay_lane_within first_end
  join_outcome [] s = refl
  join_outcome (step ∷ steps) s =
      ground (arith, join_outcome steps (receive others (before_select step s)))

  -- A join of a replay lane, whatever is published and whatever others do before each select: each
  -- activation that was queued or is published before the lane ends or the bound passes is
  -- acknowledged once, by an empty completion, or still queued, the run gets no other completion, and
  -- no activity is answered. And if others admit the run only with an activation that is published,
  -- then at the end, as before, the ledger owes the run only while an activation of it is queued. It
  -- ends as the lane's task did, at the first select that finds it ended, or else by the bound.
  pub join_acknowledges :
      (k : Bytes) (steps : List JoinSelect) (s : PollLanes)
      → s.workflow_ready.receiver_alive ≡ true
      → let s' = (join_replay_lane_within others steps s).0 in
        IsSettledBy k (published_for k steps) s s'
        × (((sent : List Sent) → AdmitsNone k (others sent))
            → PublishesAdmitted k steps
            → IsOwedQueued k s
            → IsOwedQueued k s')
        × ((join_replay_lane_within others steps s).1 ≡ first_end steps)
  join_acknowledges k steps s h =
      (join_settles k steps s h, join-IsOwedQueued k steps s h, join_outcome steps s)
