-- ===== src/Worker/Readiness.antt =====
-- rust/core-bridge/src/worker_bridge.rs, `Readiness` and its ready queue. A lane is the state under
-- the mutex with the unbounded channel that it guards; wakes are the later items of a wait's list.
use ocaml_temporal.Base.{
  ℕ, ◌+◌, ◌-◌, ◌^◌, Bool, true, false, ◌||◌, Option, none, some, List, [], ◌∷◌, ◌++◌, err, ltb,
  if◌then◌else◌, min,
}
use ocaml_temporal.Worker.Core.{PollLaneError, ReadyTask}

-- `usize::MAX`, at 64 bits.
abbrev pub usize_max : ℕ
usize_max = 2 ^ 64 - 1

pub record Lane (T : Type 0) : Type 0 where
  pub messages : List (ReadyTask T)
  pub receiver_alive : Bool
  pub sender_alive : Bool
  pub pending : ℕ
  pub error : Option PollLaneError
  pub closed : Bool
  pub core_stream_ended : Bool

pub data ReadinessWait : Type 0 where
  ready shutdown timed_out : ReadinessWait
  error_found : PollLaneError → ReadinessWait

module _ {T : Type 0} where
  abbrev pub new_lane : Lane T
  new_lane = record {
    messages = [];
    receiver_alive = true;
    sender_alive = true;
    pending = 0;
    error = none;
    closed = false;
    core_stream_ended = false;
  }

  unfoldable pub enqueue : Lane T → ReadyTask T → Lane T × Bool
  enqueue lane message =
      if lane.receiver_alive
      then (
        record lane {
          messages = lane.messages ++ message ∷ [];
          pending = min (lane.pending + 1) usize_max;
        },
        true,
      )
      else (record lane { closed = true }, false)

  unfoldable pub publish_all : List (ReadyTask T) → Lane T → Lane T
  publish_all [] lane = lane
  publish_all (m ∷ ms) lane = publish_all ms ((enqueue lane m).0)

  abbrev pub reported : Bool → Option PollLaneError → Option (ReadyTask T)
  reported true (some e) = some (err e)
  reported _ _ = none

  unfoldable pub take_inner : Lane T → Bool → Lane T × Option (ReadyTask T)
  take_inner lane report_failure = elim lane.messages [
    | message ∷ rest ↦ (record lane { messages = rest; pending = lane.pending - 1 }, some message)
    | [] ↦
        if lane.sender_alive
        then (lane, reported report_failure lane.error)
        else (record lane { closed = true }, reported report_failure lane.error)
  ]

  unfoldable pub take : Lane T → Lane T × Option (ReadyTask T)
  unfolding take_inner
  take lane = take_inner lane false

  unfoldable pub take_or_failure : Lane T → Lane T × Option (ReadyTask T)
  unfolding take_inner
  take_or_failure lane = take_inner lane true

  -- `none` outside: the receive waits.
  unfoldable pub take_async : Lane T → Option (Lane T × Option (ReadyTask T))
  take_async lane = elim lane.messages [
    | message ∷ rest ↦
        some (record lane { messages = rest; pending = lane.pending - 1 }, some message)
    | [] ↦ if lane.sender_alive then none else some (lane, none)
  ]

  unfoldable pub fail : Lane T → PollLaneError → Lane T
  fail lane e = record lane { error = some e }

  unfoldable pub close_inner : Lane T → Bool → Lane T
  close_inner lane core_ended = record lane {
    closed = true;
    core_stream_ended = lane.core_stream_ended || core_ended;
  }

  unfoldable pub close : Lane T → Lane T
  unfolding close_inner
  close lane = close_inner lane false

  unfoldable pub close_after_core_shutdown : Lane T → Lane T
  unfolding close_inner
  close_after_core_shutdown lane = close_inner lane true

  -- The tests of one round of `wait`; `none` goes on waiting.
  unfoldable pub observe : Lane T → Option ReadinessWait
  observe lane = if ltb 0 lane.pending then some ready else elim lane.error [
    | some e ↦ some (error_found e)
    | none ↦ if lane.closed then some shutdown else none
  ]

  -- The lane as it is found at each wake; when none is left the bound has passed.
  unfoldable pub wait : List (Lane T) → ReadinessWait
  wait [] = timed_out
  wait (lane ∷ later) = elim (observe lane) [ some answer ↦ answer | none ↦ wait later ]

abbrev pub first_error : Option PollLaneError → Option PollLaneError → Option PollLaneError
first_error (some e) other = some e
first_error none other = other

module _ {T U : Type 0} where
  -- One round of `wait_any_lane`, over both lanes at one instant.
  unfoldable pub observe_any : Lane T → Lane U → Option ReadinessWait
  observe_any workflow activity =
      if ltb 0 workflow.pending || ltb 0 activity.pending
      then some ready
      else elim (first_error workflow.error activity.error) [
        | some e ↦ some (error_found e)
        | none ↦ if workflow.closed || activity.closed then some shutdown else none
      ]

  unfoldable pub wait_any : List (Lane T × Lane U) → ReadinessWait
  wait_any [] = timed_out
  wait_any ((workflow, activity) ∷ later) = elim (observe_any workflow activity) [
    | some answer ↦ answer
    | none ↦ wait_any later
  ]
