-- ===== src/Throttle/Bounds.antt =====
-- The throttle tracks a bounded number of tokens, and none after its shutdown.
mod Changes
mod Served
pub use Changes.*
pub use Served.*
use ocaml_temporal.Base.{
  ℕ, ◌+◌, ◌<◌, ◌^◌, ◌≤◌, ◌≡◌, refl, true, false, Option, none, some, List, [], ◌∷◌, ◌∙◌, ok, err,
  Bytes, bytes_key, nat_eq, length, arith, Option-cases, inl, inr, ◌==◌, ==_iff, ◌≢◌, Bool, ◌||◌,
  leb, if◌then◌else◌,
}
use ocaml_temporal.Base.Map.{
  get, Distinct, length-insert, length-remove, remove-Distinct, insert-Distinct, insert,
}
use ocaml_temporal.Throttle.State.{
  SendOutcome, ThrottleState, evict, shutdown, finish_send, take_pending, remove_if_current,
  default_flags, TokenState, current, record_heartbeat,
}
use ocaml_temporal.Throttle.Cases.{record_heartbeat_cases}
use ocaml_temporal.Throttle.System.{
  Phase, sends, sleeps, Task, System, heartbeat, spawned, is_finished, end_task, go_on, answered,
  woken, sleep_if, new_system, send_next, answer_phase, wake_phase, Event, beats, answers, wakes,
  ends, evicts, shuts_down, handle,
}
use ocaml_temporal.Throttle.Owned.{IsOwned}
use ocaml_temporal.Throttle.Preserved.{handle-IsOwned}

module _ {P : Type 0} where
  -- What every event keeps: the limit, and, once closed, that nothing is tracked.
  pub record IsBounded (max_tokens : ℕ) (s : System P) : Type 0 where
    pub within : length s.throttle.tokens ≤ max_tokens
    pub empty_if_closed : s.throttle.closed ≡ true → length s.throttle.tokens ≡ 0

  record Kept (max_tokens : ℕ) (s s' : System P) : Type 0 where
    bounded : IsBounded max_tokens s'
    stays_closed : s.throttle.closed ≡ true → s'.throttle.closed ≡ true
    next : s'.throttle.next_id ≤ s.throttle.next_id + 1

  NoMore-Kept :
      (m : ℕ) (s s' : System P) → NoMore s.throttle s'.throttle → IsBounded m s → Kept m s s'
  NoMore-Kept m s s' n b = ground (arith, n.no_more, n.same_closed, n.same_next)

  heartbeat-Kept :
      (m : ℕ) (s : System P) (k : Bytes) (details : Option P)
      → IsBounded m s
      → Kept m s (heartbeat m s k details)
  unfolding heartbeat
  heartbeat-Kept m s k details b =
      record_heartbeat_cases (λ p. Kept m s (spawned s k details p)) (is_finished s) m s.throttle k
        details
        (λ t tracked.
          ground (arith, length-insert k (record t { pending = some details }) s.throttle.tokens))
        (ground arith)
        (λ absent opened room. ground (
          arith,
          length-insert k
              (record {
                id = s.throttle.next_id;
                pending = none;
                flags = default_flags;
                sending = true;
              })
              s.throttle.tokens,
        ))

  end_task-NoMore :
      (s : System P) (id : ℕ) (d : Task P)
      → Distinct s.throttle.tokens
      → NoMore s.throttle (end_task s id d).throttle
  end_task-NoMore s id d h = remove_if_current-NoMore s.throttle d.token id h

  answer_phase-NoMore :
      (s : System P) (id : ℕ) (d : Task P) (outcome : SendOutcome) (phase : Phase P)
      → Distinct s.throttle.tokens
      → NoMore s.throttle (answer_phase s id d outcome phase).throttle
  unfolding answered
  answer_phase-NoMore s id d outcome (sends _) h =
      NoMore-trans _ _ _ (finish_send-NoMore s.throttle d.token id outcome h) (
        go_on-NoMore s id d (finish_send s.throttle d.token id outcome).0
          (sleep_if (finish_send s.throttle d.token id outcome).1)
          (finish_send-Distinct s.throttle d.token id outcome h))
  answer_phase-NoMore s id d outcome sleeps h = record {
    no_more = omega arith;
    same_closed = refl;
    same_next = refl;
  }

  wake_phase-NoMore :
      (s : System P) (id : ℕ) (d : Task P) (phase : Phase P)
      → Distinct s.throttle.tokens
      → NoMore s.throttle (wake_phase s id d phase).throttle
  unfolding woken
  wake_phase-NoMore s id d (sends _) h = record {
    no_more = omega arith;
    same_closed = refl;
    same_next = refl;
  }
  wake_phase-NoMore s id d sleeps h =
      NoMore-trans _ _ _ (take_pending-NoMore s.throttle d.token id h) (
        go_on-NoMore s id d (take_pending s.throttle d.token id).0
          (send_next (take_pending s.throttle d.token id).1)
          (take_pending-Distinct s.throttle d.token id h))

  handle-Kept :
      (m : ℕ) (e : Event P) (s : System P)
      → Distinct s.throttle.tokens
      → IsBounded m s
      → Kept m s (handle m e s)
  unfolding handle evict shutdown
  handle-Kept m (beats k details) s d b = heartbeat-Kept m s k details b
  handle-Kept m (answers id outcome) s d b = elim (Option-cases (get id s.tasks)) [
    | inl gone ↦ rw (gone, handle) (ground arith)
    | inr (t, here) ↦
        rw (here, handle) (NoMore-Kept m s _ (answer_phase-NoMore s id t outcome t.phase d) b)
  ]
  handle-Kept m (wakes id) s d b = elim (Option-cases (get id s.tasks)) [
    | inl gone ↦ rw (gone, handle) (ground arith)
    | inr (t, here) ↦ rw (here, handle) (NoMore-Kept m s _ (wake_phase-NoMore s id t t.phase d) b)
  ]
  handle-Kept m (ends id) s d b = elim (Option-cases (get id s.tasks)) [
    | inl gone ↦ rw (gone, handle) (ground arith)
    | inr (t, here) ↦ rw (here, handle) (NoMore-Kept m s _ (end_task-NoMore s id t d) b)
  ]
  handle-Kept m (evicts k) s d b = elim (Option-cases (get k s.throttle.tokens)) [
    | inl absent ↦ ground arith
    | inr (t, tracked) ↦ ground (arith, length-remove k s.throttle.tokens d)
  ]
  handle-Kept m shuts_down s d b = ground arith

  unfoldable pub run_events : ℕ → List (Event P) → System P → System P
  run_events m [] s = s
  run_events m (e ∷ es) s = run_events m es (handle m e s)

  run_events-kept :
      (m : ℕ) (es : List (Event P)) (s : System P)
      → s.throttle.next_id + length es < 2 ^ 64
      → IsOwned s
      → IsBounded m s
      → IsOwned (run_events m es s) × IsBounded m (run_events m es s)
  unfolding run_events
  run_events-kept m [] s room v b = (v, b)
  run_events-kept m (e ∷ es) s room v b =
      let kept : Kept m s (handle m e s) = handle-Kept m e s v.tokens_distinct b in
      run_events-kept m es (handle m e s) (omega arith) (handle-IsOwned m e s (omega arith) v)
        kept.bounded

  -- From the empty throttle, over any fewer than 2 ^ 64 events of callers and drivers in any order:
  -- every tracked token is served by the running driver that its state names, which stands in its
  -- loop where the state says; the tokens stay within the limit, and a throttle that was shut down
  -- tracks none. A heartbeat then starts a driver exactly if its token is not tracked, the throttle
  -- is open and there is room, and that of a tracked token replaces the pending details and nothing
  -- else. A driver that no token's state names, as after an eviction, may still run, but changes no
  -- token.
  pub throttle_invariant :
      (max_tokens : ℕ) (es : List (Event P))
      → length es < 2 ^ 64
      → let s : System P = run_events max_tokens es new_system in
        IsOwned s × IsBounded max_tokens s × IsServedOnce max_tokens s
  unfolding get
  throttle_invariant m es h =
      let (owned, bounded) =
        run_events-kept m es new_system (omega arith)
          (record {
            tokens_distinct = tt;
            tasks_distinct = tt;
            served = λ _. tt;
            numbered = λ _. tt;
          })
          (record { within = omega arith; empty_if_closed = λ _. refl }) in
      (owned, bounded, served_once m (run_events m es new_system))

  -- A throttle that is shut down stays so and tracks nothing, whatever event happens next.
  pub shutdown_is_final :
      (m : ℕ) (e : Event P) (s : System P)
      → Distinct s.throttle.tokens
      → IsBounded m s
      → s.throttle.closed ≡ true
      → ((handle m e s).throttle.closed ≡ true) × (length (handle m e s).throttle.tokens ≡ 0)
  shutdown_is_final m e s d b h =
      let kept : Kept m s (handle m e s) = handle-Kept m e s d b in
      (kept.stays_closed h, kept.bounded.empty_if_closed (kept.stays_closed h))
