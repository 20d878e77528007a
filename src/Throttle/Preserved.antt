-- ===== src/Throttle/Preserved.antt =====
-- Every event keeps each tracked token with its one driver.
use ocaml_temporal.Base.{
  ℕ, ◌+◌, ◌<◌, ◌^◌, ◌≡◌, refl, sym, ap, subst, true, false, Option, none, some, ok, err, Bytes,
  bytes_key, nat_eq, bytes_eq_iff, ==_iff, arith, Option-cases, inl, inr, is_some,
}
use ocaml_temporal.Base.Map.{get, insert, remove, get-insert, insert-Distinct}
use ocaml_temporal.Throttle.State.{
  SendOutcome, TokenState, ThrottleState, evict, shutdown, finish_send, take_pending, put_token,
  open_token, current, default_flags, record_outcome, take_details,
}
use ocaml_temporal.Throttle.Cases.{record_heartbeat_cases}
use ocaml_temporal.Throttle.System.{
  Phase, sends, sleeps, Task, System, heartbeat, spawned, is_finished, go_on, answered, woken,
  sleep_if, send_next, answer_phase, wake_phase, Event, beats, answers, wakes, ends, evicts,
  shuts_down, handle,
}
use ocaml_temporal.Throttle.Owned.{
  IsOwned, IsServed, remove_token-IsOwned, end_task-IsOwned, resume-IsOwned,
}

module _ {P : Type 0} where
  -- What `current` finds.
  current_lem :
      (s : ThrottleState P) (k : Bytes) (id : ℕ) (t : TokenState P)
      → current s k id ≡ some t
      → (get k s.tokens ≡ some t) × (t.id ≡ id)
  current_lem s k id t h = ground (arith, ==_iff t.id id)

  answered-IsOwned :
      (s : System P) (id : ℕ) (d : Task P) (outcome : SendOutcome)
      → get id s.tasks ≡ some d
      → IsOwned s
      → IsOwned (answered s id d outcome)
  unfolding answered finish_send
  answered-IsOwned s id d outcome here v = elim (Option-cases (current s.throttle d.token id)) [
    | inl idle ↦ rw (idle, finish_send) (end_task-IsOwned s id d here v)
    | inr (t, busy) ↦
        rw (busy, finish_send) (settled t outcome (current_lem s.throttle d.token id t busy))
  ]
    where
      settled :
          (t : TokenState P) (outcome : SendOutcome)
          → (get d.token s.throttle.tokens ≡ some t) × (t.id ≡ id)
          → IsOwned (
              go_on s id d
                (record_outcome s.throttle d.token t outcome).0
                (sleep_if (record_outcome s.throttle d.token t outcome).1))
      settled t (ok flags) h =
          resume-IsOwned s id d (record t { sending = false; flags = flags }) sleeps here
            (ap is_some h.0) h.1 refl v
      settled t (err _) h =
          end_task-IsOwned
            (record s {
              throttle = record (s.throttle) { tokens = remove d.token s.throttle.tokens };
            })
            id d here (remove_token-IsOwned s d.token v)

  woken-IsOwned :
      (s : System P) (id : ℕ) (d : Task P)
      → get id s.tasks ≡ some d
      → IsOwned s
      → IsOwned (woken s id d)
  unfolding woken take_pending
  woken-IsOwned s id d here v = elim (Option-cases (current s.throttle d.token id)) [
    | inl idle ↦ rw (idle, take_pending) (end_task-IsOwned s id d here v)
    | inr (t, busy) ↦
        rw (busy, take_pending) (taken t t.pending (current_lem s.throttle d.token id t busy))
  ]
    where
      taken :
          (t : TokenState P) (o : Option (Option P))
          → (get d.token s.throttle.tokens ≡ some t) × (t.id ≡ id)
          → IsOwned (
              go_on s id d
                (take_details s.throttle d.token t o).0
                (send_next (take_details s.throttle d.token t o).1))
      taken t (some details) h =
          resume-IsOwned s id d (record t { pending = none; sending = true }) (sends details) here
            (ap is_some h.0) h.1 refl v
      taken t none h =
          end_task-IsOwned
            (record s {
              throttle = record (s.throttle) { tokens = remove d.token s.throttle.tokens };
            })
            id d here (remove_token-IsOwned s d.token v)

  coalesced-IsOwned :
      (s : System P) (k : Bytes) (t : TokenState P) (o : Option (Option P))
      → get k s.throttle.tokens ≡ some t
      → IsOwned s
      → IsOwned (record s { throttle = put_token s.throttle k (record t { pending = o }) })
  coalesced-IsOwned s k t o tracked v = record {
    tokens_distinct =
        insert-Distinct k (record t { pending = o }) s.throttle.tokens v.tokens_distinct;
    tasks_distinct = v.tasks_distinct;
    served = λ j.
        subst (IsServed s.tasks j)
          (sym (get-insert k j (record t { pending = o }) s.throttle.tokens))
          (ground (arith, v.served j, v.served k, bytes_eq_iff k j));
    numbered = v.numbered;
  }

  -- Ids wrap at 2 ^ 64; until then the next one is fresh.
  opened-IsOwned :
      (s : System P) (k : Bytes) (details : Option P)
      → get k s.throttle.tokens ≡ none
      → s.throttle.next_id + 1 < 2 ^ 64
      → IsOwned s
      → IsOwned (record {
        throttle = open_token (is_finished s) s.throttle k;
        tasks = insert s.throttle.next_id (record { token = k; phase = sends details }) s.tasks;
      })
  opened-IsOwned s k details absent room v = record {
    tokens_distinct = insert-Distinct k t s.throttle.tokens v.tokens_distinct;
    tasks_distinct = insert-Distinct n d s.tasks v.tasks_distinct;
    served = λ j. still j (get j s.throttle.tokens) refl;
    numbered = λ i. ground (arith, v.numbered i, get-insert n i d s.tasks, ==_iff n i);
  }
    where
      n : ℕ
      n = s.throttle.next_id

      t : TokenState P
      t = record { id = n; pending = none; flags = default_flags; sending = true }

      d : Task P
      d = record { token = k; phase = sends details }

      still :
          (j : Bytes) (o : Option (TokenState P))
          → get j s.throttle.tokens ≡ o
          → IsServed (insert n d s.tasks) j (get j (insert k t s.throttle.tokens))
      still j none e =
          subst (IsServed (insert n d s.tasks) j) (sym (get-insert k j t s.throttle.tokens))
            (ground (arith, get-insert n n d s.tasks, ==_iff n n, bytes_eq_iff k j))
      still j (some u) e =
          subst (IsServed (insert n d s.tasks) j) (sym (get-insert k j t s.throttle.tokens)) (
            ground (
              arith,
              v.served j,
              v.numbered u.id,
              get-insert n n d s.tasks,
              get-insert n u.id d s.tasks,
              ==_iff n n,
              ==_iff n u.id,
              bytes_eq_iff k j,
            ))

  heartbeat-IsOwned :
      (max_tokens : ℕ) (s : System P) (k : Bytes) (details : Option P)
      → s.throttle.next_id + 1 < 2 ^ 64
      → IsOwned s
      → IsOwned (heartbeat max_tokens s k details)
  unfolding heartbeat
  heartbeat-IsOwned max_tokens s k details room v =
      record_heartbeat_cases (λ p. IsOwned (spawned s k details p)) (is_finished s) max_tokens
        s.throttle k details (λ t tracked. coalesced-IsOwned s k t (some details) tracked v) v
        (λ absent _ _. opened-IsOwned s k details absent room v)

  evict-IsOwned :
      (s : System P) (k : Bytes)
      → IsOwned s
      → IsOwned (record s { throttle = (evict s.throttle k).0 })
  unfolding evict
  evict-IsOwned s k v = elim (Option-cases (get k s.throttle.tokens)) [
    | inl absent ↦ rw (absent, evict) v
    | inr (t, tracked) ↦ rw (tracked, evict) (remove_token-IsOwned s k v)
  ]

  shutdown-IsOwned :
      (s : System P) → IsOwned s → IsOwned (record s { throttle = (shutdown s.throttle).0 })
  unfolding shutdown get
  shutdown-IsOwned s v = record {
    tokens_distinct = tt;
    tasks_distinct = v.tasks_distinct;
    served = λ _. tt;
    numbered = v.numbered;
  }

  -- Every event, of a caller or a driver, leaves each tracked token with exactly one running
  -- driver, which stands where the token's state says, as long as ids have not wrapped.
  pub handle-IsOwned :
      (max_tokens : ℕ) (e : Event P) (s : System P)
      → s.throttle.next_id + 1 < 2 ^ 64
      → IsOwned s
      → IsOwned (handle max_tokens e s)
  unfolding handle
  handle-IsOwned m (beats k details) s room v = heartbeat-IsOwned m s k details room v
  handle-IsOwned m (answers id outcome) s room v = elim (Option-cases (get id s.tasks)) [
    | inl gone ↦ rw (gone, handle) v
    | inr (d, here) ↦ rw (here, handle) (place d d.phase here)
  ]
    where
      place :
          (d : Task P) (phase : Phase P)
          → get id s.tasks ≡ some d
          → IsOwned (answer_phase s id d outcome phase)
      place d (sends _) here = answered-IsOwned s id d outcome here v
      place d sleeps here = v
  handle-IsOwned m (wakes id) s room v = elim (Option-cases (get id s.tasks)) [
    | inl gone ↦ rw (gone, handle) v
    | inr (d, here) ↦ rw (here, handle) (place d d.phase here)
  ]
    where
      place :
          (d : Task P) (phase : Phase P)
          → get id s.tasks ≡ some d
          → IsOwned (wake_phase s id d phase)
      place d (sends _) here = v
      place d sleeps here = woken-IsOwned s id d here v
  handle-IsOwned m (ends id) s room v = elim (Option-cases (get id s.tasks)) [
    | inl gone ↦ rw (gone, handle) v
    | inr (d, here) ↦ rw (here, handle) (end_task-IsOwned s id d here v)
  ]
  handle-IsOwned m (evicts k) s room v = evict-IsOwned s k v
  handle-IsOwned m shuts_down s room v = shutdown-IsOwned s v
