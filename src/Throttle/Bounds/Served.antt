-- ===== src/Throttle/Bounds/Served.antt =====
-- rust/core-bridge/src/heartbeat_throttle.rs: which events start a driver, and which change no token.
use ocaml_temporal.Base.{
  ℕ, ◌≡◌, refl, true, false, Option, none, some, Bytes, bytes_key, nat_eq, length, arith,
  Option-cases, inl, inr, ◌==◌, ==_iff, ◌≢◌, Bool, ◌||◌, leb, if◌then◌else◌,
}
use ocaml_temporal.Base.Map.{get, insert}
use ocaml_temporal.Throttle.State.{
  SendOutcome, ThrottleState, finish_send, take_pending, remove_if_current, TokenState, current,
  record_heartbeat,
}
use ocaml_temporal.Throttle.System.{
  Phase, sends, sleeps, Task, System, heartbeat, answered, woken, answer_phase, wake_phase, Event,
  beats, answers, wakes, ends, evicts, shuts_down, handle,
}

module _ {P : Type 0} where
  -- An event of one driver.
  abbrev pub is_event_of : ℕ → Event P → Bool
  is_event_of id (answers i _) = i == id
  is_event_of id (wakes i) = i == id
  is_event_of id (ends i) = i == id
  is_event_of id _ = false

  -- A heartbeat starts a driver, with the next number and the heartbeat's details, exactly if its token
  -- is not tracked, the throttle is open and there is room; that of a tracked token replaces the
  -- pending details and nothing else. A driver that its token's state does not name changes no token.
  pub record IsServedOnce (max_tokens : ℕ) (s : System P) : Type 0 where
    pub coalesces :
        (k : Bytes) (details : Option P) (t : TokenState P)
        → get k s.throttle.tokens ≡ some t
        → handle max_tokens (beats k details) s ≡ record s {
          throttle = record (s.throttle) {
            tokens = insert k (record t { pending = some details }) s.throttle.tokens;
          };
        }
    pub starts :
        (k : Bytes) (details : Option P)
        → get k s.throttle.tokens ≡ none
        → (handle max_tokens (beats k details) s).tasks ≡ (
            if s.throttle.closed || leb max_tokens (length s.throttle.tokens)
            then s.tasks
            else insert s.throttle.next_id (record { token = k; phase = sends details }) s.tasks)
    pub ignores_stale :
        (e : Event P) (id : ℕ) (d : Task P)
        → is_event_of id e ≡ true
        → get id s.tasks ≡ some d
        → ((t : TokenState P) → get d.token s.throttle.tokens ≡ some t → t.id ≢ id)
        → (handle max_tokens e s).throttle ≡ s.throttle

  stale-none :
      (s : ThrottleState P) (k : Bytes) (id : ℕ)
      → ((t : TokenState P) → get k s.tokens ≡ some t → t.id ≢ id)
      → current s k id ≡ none
  stale-none s k id h = elim (Option-cases (get k s.tokens)) [
    | inl absent ↦ ground (arith, absent)
    | inr (t, found) ↦ ground (arith, found, h t found, ==_iff t.id id)
  ]

  remove_stale :
      (s : ThrottleState P) (k : Bytes) (id : ℕ)
      → current s k id ≡ none
      → remove_if_current s k id ≡ s
  unfolding remove_if_current
  remove_stale s k id stale = ground (arith, stale)

  answer_stale :
      (s : System P) (id : ℕ) (d : Task P) (outcome : SendOutcome) (phase : Phase P)
      → current s.throttle d.token id ≡ none
      → (answer_phase s id d outcome phase).throttle ≡ s.throttle
  unfolding answered finish_send
  answer_stale s id d outcome sleeps stale = refl
  answer_stale s id d outcome (sends _) stale =
      ground (arith, stale, remove_stale s.throttle d.token id stale)

  wake_stale :
      (s : System P) (id : ℕ) (d : Task P) (phase : Phase P)
      → current s.throttle d.token id ≡ none
      → (wake_phase s id d phase).throttle ≡ s.throttle
  unfolding woken take_pending
  wake_stale s id d sleeps stale = ground (arith, stale, remove_stale s.throttle d.token id stale)
  wake_stale s id d (sends _) stale = refl

  stale_lem :
      (m : ℕ) (s : System P) (e : Event P) (id : ℕ) (d : Task P)
      → is_event_of id e ≡ true
      → get id s.tasks ≡ some d
      → current s.throttle d.token id ≡ none
      → (handle m e s).throttle ≡ s.throttle
  unfolding handle
  stale_lem m s (answers i outcome) id d mine here stale =
      ground (arith, mine, here, ==_iff i id, answer_stale s id d outcome d.phase stale)
  stale_lem m s (wakes i) id d mine here stale =
      ground (arith, mine, here, ==_iff i id, wake_stale s id d d.phase stale)
  stale_lem m s (ends i) id d mine here stale =
      ground (arith, mine, here, ==_iff i id, remove_stale s.throttle d.token id stale)
  stale_lem m s (beats _ _) id d mine here stale = ground (arith, mine)
  stale_lem m s (evicts _) id d mine here stale = ground (arith, mine)
  stale_lem m s shuts_down id d mine here stale = ground (arith, mine)

  pub served_once : (m : ℕ) (s : System P) → IsServedOnce m s
  unfolding handle heartbeat record_heartbeat
  served_once m s = record {
    coalesces = λ k details t found. ground (arith, found);
    starts = λ k details absent. ground (arith, absent);
    ignores_stale = λ e id d mine here stale.
        stale_lem m s e id d mine here (stale-none s.throttle d.token id stale);
  }
