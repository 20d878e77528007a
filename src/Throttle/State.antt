-- ===== src/Throttle/State.antt =====
-- rust/core-bridge/src/heartbeat_throttle.rs, `HeartbeatThrottle`: the state under its lock and
-- its critical sections. `Payloads` is Core's type of details, a parameter.
use ocaml_temporal.Base.{
  ℕ, ◌+◌, ◌%◌, ◌^◌, Bool, true, false, not, ◌||◌, Option, none, some, List, [], Result, ok, err,
  Bytes, bytes_key, nat_eq, ◌==◌, leb, if◌then◌else◌, length, min, ◌/◌,
}
use ocaml_temporal.Abi.{Failure}
use ocaml_temporal.Base.Map.{Map, Set, get, contains, insert, add, remove, keys, retain}

pub record HeartbeatFlags : Type 0 where
  pub cancel_requested : Bool
  pub paused : Bool
  pub reset : Bool

-- The closed bodies of `outcome_body`; the last is the empty one.
pub data OutcomeBody : Type 0 where
  cancel_requested_body reset_body paused_body empty_body : OutcomeBody

unfoldable pub outcome_body : HeartbeatFlags → OutcomeBody
outcome_body f =
    if f.cancel_requested
    then cancel_requested_body
    else if f.reset
    then reset_body
    else if f.paused
    then paused_body
    else empty_body

abbrev pub default_flags : HeartbeatFlags
default_flags = record { cancel_requested = false; paused = false; reset = false }

abbrev pub SendOutcome : Type 0
SendOutcome = Result Failure HeartbeatFlags

-- Durations in nanoseconds.
pub record HeartbeatIntervals : Type 0 where
  pub max_interval : ℕ
  pub default_interval : ℕ

-- A set timeout that is not below one millisecond.
abbrev pub timeout_or_unset : Option ℕ → Option ℕ
timeout_or_unset none = none
timeout_or_unset (some t) = if t / 1000000 == 0 then none else some t

-- `mul_f64(0.8)` is floating point of the standard library: the parameter `scale`.
unfoldable pub interval : (ℕ → ℕ) → HeartbeatIntervals → Option ℕ → ℕ
interval scale i heartbeat_timeout = elim (timeout_or_unset heartbeat_timeout) [
  | none ↦ min i.default_interval i.max_interval
  | some t ↦ min (scale t) i.max_interval
]

pub record TokenState (P : Type 0) : Type 0 where
  pub id : ℕ
  pub pending : Option (Option P)
  pub flags : HeartbeatFlags
  pub sending : Bool

pub record ThrottleState (P : Type 0) : Type 0 where
  pub tokens : Map Bytes (TokenState P)
  pub drivers : Set ℕ  -- the ids whose `JoinHandle` is retained
  pub next_id : ℕ  -- u64
  pub closed : Bool

-- `sent` carries the driver that was spawned.
pub data Admission (P : Type 0) : Type 0 where
  sent : ℕ → Admission P
  coalesced : HeartbeatFlags → Admission P
  unthrottled : Option P → Admission P

module _ {P : Type 0} where
  abbrev pub new_throttle : ThrottleState P
  new_throttle = record { tokens = []; drivers = []; next_id = 0; closed = false }

  abbrev pub put_token : ThrottleState P → Bytes → TokenState P → ThrottleState P
  put_token s k t = record s { tokens = insert k t s.tokens }

  -- A new token: finished drivers are reaped, and a driver is spawned under the lock.
  abbrev pub open_token : (ℕ → Bool) → ThrottleState P → Bytes → ThrottleState P
  open_token is_finished s k = record s {
    tokens =
        insert k (record { id = s.next_id; pending = none; flags = default_flags; sending = true })
          s.tokens;
    drivers = add s.next_id (retain (λ id _. not (is_finished id)) s.drivers);
    next_id = (s.next_id + 1) % 2 ^ 64;
  }

  unfoldable pub record_heartbeat :
      (ℕ → Bool) → ℕ → ThrottleState P → Bytes → Option P → ThrottleState P × Admission P
  record_heartbeat is_finished max_tokens s k details = elim (get k s.tokens) [
    | some t ↦ (put_token s k (record t { pending = some details }), coalesced t.flags)
    | none ↦
        if s.closed || leb max_tokens (length s.tokens)
        then (s, unthrottled details)
        else (open_token is_finished s k, sent s.next_id)
  ]

  -- The driver that `evict` aborts: only one that sleeps, and whose handle is retained.
  abbrev pub sleeping_driver : ThrottleState P → TokenState P → Option ℕ
  sleeping_driver s t =
      if t.sending then none else if contains t.id s.drivers then some t.id else none

  -- The state afterwards, the pending details, and the aborted driver.
  unfoldable pub evict : ThrottleState P → Bytes → ThrottleState P × Option (Option P) × Option ℕ
  evict s k = elim (get k s.tokens) [
    | none ↦ (s, none, none)
    | some t ↦ (record s { tokens = remove k s.tokens }, t.pending, sleeping_driver s t)
  ]

  -- The drivers returned are aborted.
  unfoldable pub shutdown : ThrottleState P → ThrottleState P × List ℕ
  shutdown s = (record s { closed = true; tokens = []; drivers = [] }, keys s.drivers)

  unfoldable pub counts : (ℕ → Bool) → ThrottleState P → ThrottleState P × ℕ × ℕ
  counts is_finished s =
      let s' = record s { drivers = retain (λ id _. not (is_finished id)) s.drivers } in
      (s', length s'.tokens, length s'.drivers)

  -- The state of token `k` if it belongs to driver `id`.
  abbrev pub current : ThrottleState P → Bytes → ℕ → Option (TokenState P)
  current s k id = elim (get k s.tokens) [
    | none ↦ none
    | some t ↦ if t.id == id then some t else none
  ]

  abbrev pub record_outcome :
      ThrottleState P → Bytes → TokenState P → SendOutcome → ThrottleState P × Bool
  record_outcome s k t (ok flags) =
      (put_token s k (record t { sending = false; flags = flags }), true)
  record_outcome s k t (err _) = (record s { tokens = remove k s.tokens }, false)

  unfoldable pub finish_send : ThrottleState P → Bytes → ℕ → SendOutcome → ThrottleState P × Bool
  finish_send s k id outcome = elim (current s k id) [
    | none ↦ (s, false)
    | some t ↦ record_outcome s k t outcome
  ]

  abbrev pub take_details :
      ThrottleState P
      → Bytes
      → TokenState P
      → Option (Option P)
      → ThrottleState P × Option (Option P)
  take_details s k t (some details) =
      (put_token s k (record t { pending = none; sending = true }), some details)
  take_details s k t none = (record s { tokens = remove k s.tokens }, none)

  unfoldable pub take_pending : ThrottleState P → Bytes → ℕ → ThrottleState P × Option (Option P)
  take_pending s k id = elim (current s k id) [
    | none ↦ (s, none)
    | some t ↦ take_details s k t t.pending
  ]

  unfoldable pub remove_if_current : ThrottleState P → Bytes → ℕ → ThrottleState P
  remove_if_current s k id = elim (current s k id) [
    | none ↦ s
    | some _ ↦ record s { tokens = remove k s.tokens }
  ]
