-- ===== src/Worker/HandedTasks.antt =====
-- What OCaml gets from the queue of activity tasks: the stale cancellations at its head are passed
-- over.
use ocaml_temporal.Base.{
  ◌≡◌, refl, Bool, true, false, not, ◌&&◌, Option, none, some, List, [], ◌∷◌, ◌++◌, ok, err, Bytes,
  bytes_key, bytes_eq_iff, arith, Bool-cases, inl, inr, if◌then◌else◌, subst, Option-cases,
}
use ocaml_temporal.Base.Map.{get, contains, get-insert, get-remove, keep_if}
use ocaml_temporal.Ledger.State.{TaskLedger, ActivityState, invalid_identity}
use ocaml_temporal.Ledger.Activities.{
  handoff_activity, abandon_activity_admission, lease_activity, ensure_activity_cancellation,
}
use ocaml_temporal.Ledger.Calls.{Call}
use ocaml_temporal.Ledger.History.{run}
use ocaml_temporal.Worker.Core.{
  ActivityTask, Sent, activity_retired, PollLaneError, admission, duplicate_identity, ReadyTask,
  is_cancel_task, is_stale_activity_cancellation,
}
use ocaml_temporal.Worker.Readiness.{take_or_failure, take_inner}
use ocaml_temporal.Worker.Handoff.{PollLanes, take_activity, try_take_activity}

-- A cancellation of a token that is no debt.
abbrev pub is_stale : TaskLedger → ReadyTask ActivityTask → Bool
is_stale l (err e) = false
is_stale l (ok task) = is_cancel_task task && not (contains task.task_token l.activities)

-- The queue from its first message that is not stale.
unfoldable pub fresh_part :
    TaskLedger → List (ReadyTask ActivityTask) → List (ReadyTask ActivityTask)
fresh_part l [] = []
fresh_part l (m ∷ ms) = let rest = fresh_part l ms in if is_stale l m then rest else m ∷ ms

-- The outcome of a handoff, by the head of the fresh part of the queue.
pub data ActivityHandoff (l : TaskLedger) (error : Option PollLaneError) (sent : List Sent)
    (fresh : List (ReadyTask ActivityTask)) (s' : PollLanes)
    (result : Option (ReadyTask ActivityTask)) : Type 0 where
  -- There is none.
  nothing :
      fresh ≡ []
      → error ≡ none
      → result ≡ none
      → s'.ledger ≡ l
      → s'.sent ≡ sent
      → ActivityHandoff l error sent fresh s' result
  -- The error at the head is passed on.
  reported :
      (e : PollLaneError) (rest : List (ReadyTask ActivityTask))
      → fresh ≡ err e ∷ rest
      → result ≡ some (err e)
      → s'.activity_ready.messages ≡ rest
      → s'.ledger ≡ l
      → s'.sent ≡ sent
      → ActivityHandoff l error sent fresh s' result
  -- There is none, and the lane has failed.
  lane_failed :
      (e : PollLaneError)
      → fresh ≡ []
      → error ≡ some e
      → result ≡ some (err e)
      → s'.ledger ≡ l
      → s'.sent ≡ sent
      → ActivityHandoff l error sent fresh s' result
  -- A start of a waiting debt is leased to OCaml.
  leased :
      (task : ActivityTask) (rest : List (ReadyTask ActivityTask)) (a : ActivityState)
      → fresh ≡ ok task ∷ rest
      → is_cancel_task task ≡ false
      → result ≡ some (ok task)
      → get task.task_token l.activities ≡ some a
      → a.leased ≡ false
      → get task.task_token s'.ledger.activities ≡ some (record a { leased = true })
      → s'.activity_ready.messages ≡ rest
      → s'.sent ≡ sent
      → ActivityHandoff l error sent fresh s' result
  -- A cancellation of a debt is passed on; it takes no lease.
  notified :
      (task : ActivityTask) (rest : List (ReadyTask ActivityTask))
      → fresh ≡ ok task ∷ rest
      → is_cancel_task task ≡ true
      → result ≡ some (ok task)
      → contains task.task_token l.activities ≡ true
      → s'.ledger ≡ l
      → s'.activity_ready.messages ≡ rest
      → s'.sent ≡ sent
      → ActivityHandoff l error sent fresh s' result
  -- A start of a leased token: that lease is not touched, and Core hears nothing.
  still_leased :
      (task : ActivityTask) (rest : List (ReadyTask ActivityTask)) (a : ActivityState)
      → fresh ≡ ok task ∷ rest
      → is_cancel_task task ≡ false
      → result ≡ some (err duplicate_identity)
      → get task.task_token l.activities ≡ some a
      → a.leased ≡ true
      → s'.ledger ≡ l
      → s'.sent ≡ sent
      → ActivityHandoff l error sent fresh s' result
  -- A start of a token that is no debt is failed once, and leaves no waiting debt.
  failed :
      (task : ActivityTask) (rest : List (ReadyTask ActivityTask))
      → fresh ≡ ok task ∷ rest
      → is_cancel_task task ≡ false
      → result ≡ some (err (admission invalid_identity))
      → get task.task_token l.activities ≡ none
      → keep_if (λ a. not a.leased) (get task.task_token s'.ledger.activities) ≡ none
      → s'.sent ≡ sent ++ activity_retired task.task_token ∷ []
      → ActivityHandoff l error sent fresh s' result

abandoned_not_waiting :
    (l : TaskLedger) (t : Bytes)
    → keep_if (λ a. not a.leased) (get t (abandon_activity_admission l t).activities) ≡ none
unfolding abandon_activity_admission
abandoned_not_waiting l t = ground (arith, get-remove t t l.activities, bytes_eq_iff t t)

module _ (others : List Sent → List Call) where
  -- The message at the head; `later` is about the queue behind it.
  take_head :
      (task : ActivityTask) (ms : List (ReadyTask ActivityTask)) (s : PollLanes)
      → s.activity_ready.messages ≡ ok task ∷ ms
      → let lane = (take_or_failure s.activity_ready).0 in
        let s1 : PollLanes = record s { activity_ready = lane } in
        ActivityHandoff s.ledger s.activity_ready.error s.sent
          (fresh_part s.ledger ms)
          (take_activity others ms s1).0
          (take_activity others ms s1).1
        → (entry : Option ActivityState) (cancels : Bool)
        → get task.task_token s.ledger.activities ≡ entry
        → is_cancel_task task ≡ cancels
        → let ms' = ok task ∷ ms in
          ActivityHandoff s.ledger s.activity_ready.error s.sent
            (fresh_part s.ledger ms')
            (take_activity others ms' s).0
            (take_activity others ms' s).1
  unfolding take_activity fresh_part take_or_failure take_inner handoff_activity lease_activity
      ensure_activity_cancellation is_stale_activity_cancellation
  take_head task ms s h later none true g c =
      let s1 : PollLanes = record s { activity_ready = (take_or_failure s.activity_ready).0 } in
      let passed : take_activity others ms s1 ≡ take_activity others (ok task ∷ ms) s =
        ground arith in
      let dropped : fresh_part s.ledger ms ≡ fresh_part s.ledger (ok task ∷ ms) = ground arith in
      let outcome : PollLanes × Option (ReadyTask ActivityTask) =
        take_activity others (ok task ∷ ms) s in
      subst
        (λ fresh. ActivityHandoff s.ledger s.activity_ready.error s.sent fresh outcome.0 outcome.1)
        dropped
        (subst
          (λ p.
            ActivityHandoff s.ledger s.activity_ready.error s.sent (fresh_part s.ledger ms) p.0 p.1)
          passed later)
  take_head task ms s h later (some a) true g c =
      notified task ms (ground arith) c (ground arith) (ground arith) (ground arith) (ground arith)
        (ground arith)
  take_head task ms s h later none false g c =
      failed task ms (ground arith) c (ground arith) g
        (ground (
          arith,
          abandoned_not_waiting
              (run (others (s.sent ++ activity_retired task.task_token ∷ [])) s.ledger)
              task.task_token,
        ))
        (ground arith)
  take_head task ms s h later (some a) false g c = elim (Bool-cases a.leased) [
    | inl held ↦
        still_leased task ms a (ground arith) c (ground arith) g held (ground arith) (ground arith)
    | inr free ↦
        let k : Bytes = task.task_token in
        let a' : ActivityState = record a { leased = true } in
        leased task ms a (ground arith) c (ground arith) g free
          (ground (arith, get-insert k k a' s.ledger.activities, bytes_eq_iff k k)) (ground arith)
          (ground arith)
  ]

  take_activity-ActivityHandoff :
      (ms : List (ReadyTask ActivityTask)) (s : PollLanes)
      → s.activity_ready.messages ≡ ms
      → ActivityHandoff s.ledger s.activity_ready.error s.sent
          (fresh_part s.ledger ms)
          (take_activity others ms s).0
          (take_activity others ms s).1
  unfolding take_activity fresh_part take_or_failure take_inner
  take_activity-ActivityHandoff [] s h = elim (Option-cases s.activity_ready.error) [
    | inl none_yet ↦ nothing refl none_yet (ground arith) (ground arith) (ground arith)
    | inr (e, found) ↦ lane_failed e refl found (ground arith) (ground arith) (ground arith)
  ]
  take_activity-ActivityHandoff (err e ∷ ms) s h =
      reported e ms (ground arith) (ground arith) (ground arith) (ground arith) (ground arith)
  take_activity-ActivityHandoff (ok task ∷ ms) s h =
      let s1 : PollLanes = record s { activity_ready = (take_or_failure s.activity_ready).0 } in
      let same : s1.activity_ready.error ≡ s.activity_ready.error = ground (arith, h) in
      take_head task ms s h
        (subst
          (λ error.
            ActivityHandoff s.ledger error s.sent (fresh_part s.ledger ms)
              (take_activity others ms s1).0 (take_activity others ms s1).1)
          same (take_activity-ActivityHandoff ms s1 (ground arith)))
        (get task.task_token s.ledger.activities) (is_cancel_task task) refl refl

  -- Whatever the owner takes from the activity queue, past the cancellations of tokens that are no
  -- debt: a start reaches OCaml exactly if its token is a waiting debt, which becomes a lease; a
  -- cancellation of a debt reaches OCaml without a lease; a held lease is never completed by the
  -- bridge; a start of a token that is no debt is failed once, whatever calls others make meanwhile;
  -- and an error reaches OCaml only from the head, or from a failed lane with nothing else queued.
  pub try_take_activity-ActivityHandoff :
      (s : PollLanes)
      → ActivityHandoff s.ledger s.activity_ready.error s.sent
          (fresh_part s.ledger s.activity_ready.messages)
          (try_take_activity others s).0
          (try_take_activity others s).1
  unfolding try_take_activity
  try_take_activity-ActivityHandoff s =
      take_activity-ActivityHandoff s.activity_ready.messages s refl
