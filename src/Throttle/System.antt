-- ===== src/Throttle/System.antt =====
-- rust/core-bridge/src/heartbeat_throttle.rs, `drive`: the throttle with its running drivers, and
-- the events that they and the callers bring about, in any order.
use ocaml_temporal.Base.{
  ℕ, Bool, true, false, not, Option, none, some, [], Bytes, bytes_key, nat_eq,
}
use ocaml_temporal.Base.Map.{Map, get, contains, insert, remove}
use ocaml_temporal.Throttle.State.{
  SendOutcome, ThrottleState, Admission, sent, coalesced, unthrottled, record_heartbeat, evict,
  shutdown, finish_send, take_pending, remove_if_current, new_throttle,
}

-- Where a driver's loop stands: it waits for the answer to a send of `details`, or it sleeps.
pub data Phase (P : Type 0) : Type 0 where
  sends : Option P → Phase P
  sleeps : Phase P

pub record Task (P : Type 0) : Type 0 where
  pub token : Bytes
  pub phase : Phase P

-- A task that is not in `tasks` has finished.
pub record System (P : Type 0) : Type 0 where
  pub throttle : ThrottleState P
  pub tasks : Map ℕ (Task P)

module _ {P : Type 0} where
  abbrev pub new_system : System P
  new_system = record { throttle = new_throttle; tasks = [] }

  abbrev pub is_finished : System P → ℕ → Bool
  is_finished s id = not (contains id s.tasks)

  abbrev pub spawned : System P → Bytes → Option P → ThrottleState P × Admission P → System P
  spawned s k details (throttle, sent id) = record {
    throttle = throttle;
    tasks = insert id (record { token = k; phase = sends details }) s.tasks;
  }
  spawned s k details (throttle, coalesced _) = record s { throttle = throttle }
  spawned s k details (throttle, unthrottled _) = record s { throttle = throttle }

  unfoldable pub heartbeat : ℕ → System P → Bytes → Option P → System P
  heartbeat max_tokens s k details =
      spawned s k details (record_heartbeat (is_finished s) max_tokens s.throttle k details)

  -- The end of a driver for any reason: its guard runs, and it has finished.
  abbrev pub end_task : System P → ℕ → Task P → System P
  end_task s id t = record {
    throttle = remove_if_current s.throttle t.token id;
    tasks = remove id s.tasks;
  }

  abbrev pub go_on : System P → ℕ → Task P → ThrottleState P → Option (Phase P) → System P
  go_on s id t throttle (some phase) = record {
    throttle = throttle;
    tasks = insert id (record t { phase = phase }) s.tasks;
  }
  go_on s id t throttle none = end_task (record s { throttle = throttle }) id t

  abbrev pub sleep_if : Bool → Option (Phase P)
  sleep_if true = some sleeps
  sleep_if false = none

  abbrev pub send_next : Option (Option P) → Option (Phase P)
  send_next (some details) = some (sends details)
  send_next none = none

  -- The send of driver `id` is answered.
  unfoldable pub answered : System P → ℕ → Task P → SendOutcome → System P
  answered s id t outcome =
      let (throttle, keep) = finish_send s.throttle t.token id outcome in
      go_on s id t throttle (sleep_if keep)

  -- The interval of driver `id` is over.
  unfoldable pub woken : System P → ℕ → Task P → System P
  woken s id t =
      let (throttle, next) = take_pending s.throttle t.token id in
      go_on s id t throttle (send_next next)

-- `ends` is a driver's cancellation, or a panic.
pub data Event (P : Type 0) : Type 0 where
  beats : Bytes → Option P → Event P
  answers : ℕ → SendOutcome → Event P
  wakes ends : ℕ → Event P
  evicts : Bytes → Event P
  shuts_down : Event P

module _ {P : Type 0} where
  abbrev pub answer_phase : System P → ℕ → Task P → SendOutcome → Phase P → System P
  answer_phase s id t outcome (sends _) = answered s id t outcome
  answer_phase s id t outcome sleeps = s

  abbrev pub wake_phase : System P → ℕ → Task P → Phase P → System P
  wake_phase s id t (sends _) = s
  wake_phase s id t sleeps = woken s id t

  -- Events of drivers that have finished, or stand elsewhere in their loop, do not occur.
  unfoldable pub handle : ℕ → Event P → System P → System P
  handle max_tokens (beats k details) s = heartbeat max_tokens s k details
  handle max_tokens (answers id outcome) s = elim (get id s.tasks) [
    | none ↦ s
    | some t ↦ answer_phase s id t outcome t.phase
  ]
  handle max_tokens (wakes id) s = elim (get id s.tasks) [
    | none ↦ s
    | some t ↦ wake_phase s id t t.phase
  ]
  handle max_tokens (ends id) s = elim (get id s.tasks) [ none ↦ s | some t ↦ end_task s id t ]
  handle max_tokens (evicts k) s = record s { throttle = (evict s.throttle k).0 }
  handle max_tokens shuts_down s = record s { throttle = (shutdown s.throttle).0 }
