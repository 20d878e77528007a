-- ===== src/Worker/ActivityAccounting.antt =====
-- Every activity task that Core's polls return is accounted for.
use ocaml_temporal.Base.{
  ◌≡◌, refl, sym, ap, subst, true, false, none, some, [], ◌∷◌, ◌++◌, Result, ok, Bytes, bytes_key,
  bytes_eq_iff, arith, if◌then◌else◌, inl, inr, Bool-cases, is_some, ◌⊎◌,
}
use ocaml_temporal.Base.Map.{contains, get, insert, get-insert, get-remove}
use ocaml_temporal.Ledger.State.{
  Admission, new, existing_cancellation, ActivityAdmission, start, cancel, AdmitError, TaskLedger,
  ActivityState, mark_lost_poll_lease,
}
use ocaml_temporal.Ledger.Activities.{
  admit_polled_activity, abandon_activity_admission, put_activity, force_remove_activity,
}
use ocaml_temporal.Ledger.Invariant.{IsValid}
use ocaml_temporal.Ledger.Cases.{record_start_cases, record_cancel_cases}
use ocaml_temporal.Worker.Core.{ActivityTask, activity_retired}
use ocaml_temporal.Worker.Readiness.{enqueue}
use ocaml_temporal.Worker.Lanes.{
  polled, LaneState, is_ignorable_activity_cancellation, settle_activity, admit_task,
  round_of_variant, activity_lane_round,
}

-- A cancellation of the token has nothing to mark: it is no debt, or is cancelled already.
abbrev pub CancelsNone : TaskLedger → Bytes → Type 0
CancelsNone l t =
    (get t l.activities ≡ none)
    ⊎ ((a : ActivityState) × (get t l.activities ≡ some a) × (a.cancelled ≡ true))

-- The fate of a polled activity task of a kind.
pub data ActivityFate (s s' : LaneState ActivityTask) (t : ActivityTask) (kind : ActivityAdmission)
    : Type 0 where
  -- A start waits in the ready queue, and its token is a debt that was none before.
  started :
      kind ≡ start
      → contains t.task_token s.ledger.activities ≡ false
      → get t.task_token s'.ledger.activities ≡ some (record { cancelled = false; leased = false })
      → s'.lane.messages ≡ s.lane.messages ++ ok t ∷ []
      → s'.sent ≡ s.sent
      → ActivityFate s s' t kind
  -- The first cancellation of a debt marks it, keeps its lease, and is published.
  updated :
      (a : ActivityState)
      → kind ≡ cancel
      → get t.task_token s.ledger.activities ≡ some a
      → a.cancelled ≡ false
      → get t.task_token s'.ledger.activities ≡ some (record a { cancelled = true })
      → s'.lane.messages
        ≡ (if s.lane.receiver_alive then s.lane.messages ++ ok t ∷ [] else s.lane.messages)
      → s'.sent ≡ s.sent
      → ActivityFate s s' t kind
  -- A start was answered with one completion, and its token, which was no debt, is none now.
  answered :
      kind ≡ start
      → s'.sent ≡ s.sent ++ activity_retired t.task_token ∷ []
      → contains t.task_token s.ledger.activities ≡ false
      → contains t.task_token s'.ledger.activities ≡ false
      → ActivityFate s s' t kind
  -- A start was dropped: nothing went to Core, the debts are unchanged, and the loss is on record.
  dropped :
      kind ≡ start
      → s'.ledger.lost_poll_lease ≡ true
      → s'.ledger.activities ≡ s.ledger.activities
      → s'.sent ≡ s.sent
      → ActivityFate s s' t kind
  -- A cancellation that updates no debt leaves everything as it was.
  ignored : kind ≡ cancel → CancelsNone s.ledger t.task_token → s' ≡ s → ActivityFate s s' t kind

abbrev after_admission :
    LaneState ActivityTask
    → ActivityTask
    → ActivityAdmission
    → TaskLedger × Result AdmitError Admission
    → LaneState ActivityTask
after_admission s t kind (l, result) =
    let s' : LaneState ActivityTask = record s { ledger = l } in
    (if is_ignorable_activity_cancellation kind result
      then (s', true)
      else settle_activity s' t kind result).0

new_start_fate :
    (s : LaneState ActivityTask) (t : ActivityTask)
    → get t.task_token s.ledger.activities ≡ none
    → let a : ActivityState = record { cancelled = false; leased = false } in
      ActivityFate s
        (after_admission s t start (put_activity s.ledger t.task_token a, ok new))
        t
        start
unfolding enqueue is_ignorable_activity_cancellation abandon_activity_admission
    force_remove_activity
new_start_fate s t fresh =
    let a : ActivityState = record { cancelled = false; leased = false } in
    let k : Bytes = t.task_token in
    elim (Bool-cases s.lane.receiver_alive) [
      | inl alive ↦
          rw (alive, enqueue)
            (started refl (ap is_some fresh)
              (ground (arith, get-insert k k a s.ledger.activities, bytes_eq_iff k k)) refl refl)
      | inr dead ↦
          rw (dead, enqueue)
            (answered refl refl (ap is_some fresh) (
              ground (
                arith,
                get-insert k k a s.ledger.activities,
                get-remove k k (insert k a s.ledger.activities),
                bytes_eq_iff k k,
              )))
    ]

first_cancel_fate :
    (s : LaneState ActivityTask) (t : ActivityTask) (a : ActivityState)
    → get t.task_token s.ledger.activities ≡ some a
    → a.cancelled ≡ false
    → let b : ActivityState = record a { cancelled = true } in
      ActivityFate s
        (after_admission s t cancel
          (put_activity s.ledger t.task_token b, ok existing_cancellation))
        t
        cancel
unfolding enqueue is_ignorable_activity_cancellation
first_cancel_fate s t a found first =
    let b : ActivityState = record a { cancelled = true } in
    let k : Bytes = t.task_token in
    let marked : get k (insert k b s.ledger.activities) ≡ some b =
      ground (arith, get-insert k k b s.ledger.activities, bytes_eq_iff k k) in
    elim (Bool-cases s.lane.receiver_alive) [
      | inl alive ↦ rw (alive, enqueue) (updated a refl found first marked refl refl)
      | inr dead ↦ rw (dead, enqueue) (updated a refl found first marked refl refl)
    ]

start_fate :
    (s : LaneState ActivityTask) (t : ActivityTask)
    → IsValid s.ledger
    → ActivityFate s (admit_task s t start).0 t start
unfolding admit_polled_activity is_ignorable_activity_cancellation mark_lost_poll_lease
start_fate s t v =
    record_start_cases s.ledger t.task_token
      (λ p. ActivityFate s (after_admission s t start p) t start)
      (λ bad.
        answered refl refl (ground (arith, v.activities_valid.identities t.task_token))
          (ground (arith, v.activities_valid.identities t.task_token)))
      (λ gone. dropped refl refl refl refl) (λ twice. dropped refl refl refl refl)
      (new_start_fate s t)

cancel_fate :
    (s : LaneState ActivityTask) (t : ActivityTask)
    → IsValid s.ledger
    → ActivityFate s (admit_task s t cancel).0 t cancel
unfolding admit_polled_activity is_ignorable_activity_cancellation
cancel_fate s t v =
    let k : Bytes = t.task_token in
    record_cancel_cases s.ledger k (λ p. ActivityFate s (after_admission s t cancel p) t cancel)
      (λ bad. ignored refl (inl (ground (arith, v.activities_valid.identities k, bad))) refl)
      (λ gone. ignored refl (inl (ground (arith, v.activities_valid.not_retired k, gone))) refl)
      (λ absent. ignored refl (inl absent) refl)
      (λ a found twice. ignored refl (inr (a, found, twice)) refl) (first_cancel_fate s t)

admit_fate :
    (s : LaneState ActivityTask) (t : ActivityTask) (kind : ActivityAdmission)
    → IsValid s.ledger
    → ActivityFate s (admit_task s t kind).0 t kind
admit_fate s t start v = start_fate s t v
admit_fate s t cancel v = cancel_fate s t v

activity_round_of_kind :
    (s : LaneState ActivityTask) (t : ActivityTask) (kind : ActivityAdmission)
    → t.variant ≡ some kind
    → admit_task s t kind ≡ activity_lane_round s (polled t)
unfolding activity_lane_round
activity_round_of_kind s t kind h = ap (round_of_variant s t) (sym h)

-- On a valid ledger, a polled start is queued, or answered once while its token is no debt, or
-- dropped with the loss on record; a cancellation of a debt that is not cancelled yet marks it, and is
-- published if the owner still receives; any other, whose token is no debt or is cancelled already,
-- changes nothing. A completion is never made up for a cancellation.
pub activity_accounted :
    (s : LaneState ActivityTask) (t : ActivityTask) (kind : ActivityAdmission)
    → IsValid s.ledger
    → t.variant ≡ some kind
    → ActivityFate s (activity_lane_round s (polled t)).0 t kind
activity_accounted s t kind v h =
    subst (λ p. ActivityFate s p.0 t kind) (activity_round_of_kind s t kind h)
      (admit_fate s t kind v)
