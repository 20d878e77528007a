-- ===== src/Throttle/Owned.antt =====
-- Each tracked token is served by exactly one running driver.
use ocaml_temporal.Base.{
  ℕ, ◌<◌, ◌≡◌, refl, sym, subst, Bool, true, false, Option, none, some, Bytes, bytes_key, nat_eq,
  bytes_eq_iff, ==_iff, arith, Option-cases, inl, inr,
}
use ocaml_temporal.Base.Map.{
  Map, get, contains, insert, remove, Distinct, get-insert, get-remove, insert-Distinct,
  remove-Distinct,
}
use ocaml_temporal.Throttle.State.{TokenState, ThrottleState, remove_if_current, put_token, current}
use ocaml_temporal.Throttle.System.{Phase, sends, sleeps, Task, System, end_task}

module _ {P : Type 0} where
  abbrev pub is_sending : Phase P → Bool
  is_sending (sends _) = true
  is_sending sleeps = false

  -- A task that serves token `k` and stands where the token's state says.
  abbrev pub Serves : Option (Task P) → Bytes → Bool → Type 0
  Serves none k sending = ⊥
  Serves (some d) k sending = (d.token ≡ k) × (is_sending d.phase ≡ sending)

  abbrev pub IsServed : Map ℕ (Task P) → Bytes → Option (TokenState P) → Type 0
  IsServed tasks k none = Unit {0}
  IsServed tasks k (some t) = Serves (get t.id tasks) k t.sending

  -- A driver that has not finished was numbered before `next`.
  abbrev pub IsBelow : ℕ → ℕ → Option (Task P) → Type 0
  IsBelow next id none = Unit {0}
  IsBelow next id (some _) = id < next

  pub record IsOwned (s : System P) : Type 0 where
    pub tokens_distinct : Distinct s.throttle.tokens
    pub tasks_distinct : Distinct s.tasks
    pub served : (k : Bytes) → IsServed s.tasks k (get k s.throttle.tokens)
    pub numbered : (id : ℕ) → IsBelow s.throttle.next_id id (get id s.tasks)

  pub remove_token-IsOwned :
      (s : System P) (k : Bytes)
      → IsOwned s
      → IsOwned
          (record s { throttle = record (s.throttle) { tokens = remove k s.throttle.tokens } })
  remove_token-IsOwned s k v = record {
    tokens_distinct = remove-Distinct k s.throttle.tokens v.tokens_distinct;
    tasks_distinct = v.tasks_distinct;
    served = λ j. ground (arith, v.served j, get-remove k j s.throttle.tokens);
    numbered = v.numbered;
  }

  -- A driver that ends no longer serves any token.
  drop_task-IsOwned :
      (s : System P) (id : ℕ) (d : Task P)
      → get id s.tasks ≡ some d
      → current s.throttle d.token id ≡ none
      → IsOwned s
      → IsOwned (record s { tasks = remove id s.tasks })
  drop_task-IsOwned s id d here idle v = record {
    tokens_distinct = v.tokens_distinct;
    tasks_distinct = remove-Distinct id s.tasks v.tasks_distinct;
    served = λ j. still j (get j s.throttle.tokens) refl;
    numbered = λ i. ground (arith, v.numbered i, get-remove id i s.tasks);
  }
    where
      still :
          (j : Bytes) (o : Option (TokenState P))
          → get j s.throttle.tokens ≡ o
          → IsServed (remove id s.tasks) j (get j s.throttle.tokens)
      still j none e = subst (IsServed (remove id s.tasks) j) (sym e) tt
      still j (some t) e =
          subst (IsServed (remove id s.tasks) j) (sym e)
            (ground (arith, v.served j, get-remove id t.id s.tasks, ==_iff id t.id, ==_iff t.id id))

  current-remove :
      (s : ThrottleState P) (k : Bytes) (id : ℕ)
      → current (record s { tokens = remove k s.tokens }) k id ≡ none
  current-remove s k id = ground (arith, get-remove k k s.tokens, bytes_eq_iff k k)

  pub end_task-IsOwned :
      (s : System P) (id : ℕ) (d : Task P)
      → get id s.tasks ≡ some d
      → IsOwned s
      → IsOwned (end_task s id d)
  unfolding remove_if_current
  end_task-IsOwned s id d here v = elim (Option-cases (current s.throttle d.token id)) [
    | inl idle ↦ rw (idle, remove_if_current) (drop_task-IsOwned s id d here idle v)
    | inr (t, busy) ↦
        rw (busy, remove_if_current)
          (drop_task-IsOwned
            (record s {
              throttle = record (s.throttle) { tokens = remove d.token s.throttle.tokens };
            })
            id d here (current-remove s.throttle d.token id) (remove_token-IsOwned s d.token v))
  ]

  -- A driver goes on, its token's state and its own place changed together.
  pub resume-IsOwned :
      (s : System P) (id : ℕ) (d : Task P) (t : TokenState P) (phase : Phase P)
      → get id s.tasks ≡ some d
      → contains d.token s.throttle.tokens ≡ true
      → t.id ≡ id
      → is_sending phase ≡ t.sending
      → IsOwned s
      → IsOwned (record {
        throttle = put_token s.throttle d.token t;
        tasks = insert id (record d { phase = phase }) s.tasks;
      })
  resume-IsOwned s id d t phase here tracked mine place v = record {
    tokens_distinct = insert-Distinct d.token t s.throttle.tokens v.tokens_distinct;
    tasks_distinct = insert-Distinct id (record d { phase = phase }) s.tasks v.tasks_distinct;
    served = λ j. still j (get j s.throttle.tokens) refl;
    numbered = λ i. ground (
      arith,
      v.numbered i,
      v.numbered id,
      get-insert id i (record d { phase = phase }) s.tasks,
      ==_iff id i,
    );
  }
    where
      d' : Task P
      d' = record d { phase = phase }

      still :
          (j : Bytes) (o : Option (TokenState P))
          → get j s.throttle.tokens ≡ o
          → IsServed (insert id d' s.tasks) j (get j (insert d.token t s.throttle.tokens))
      still j none e =
          subst (IsServed (insert id d' s.tasks) j) (sym (get-insert d.token j t s.throttle.tokens))
            (ground (arith, get-insert id t.id d' s.tasks, ==_iff id t.id, bytes_eq_iff d.token j))
      still j (some u) e =
          subst (IsServed (insert id d' s.tasks) j) (sym (get-insert d.token j t s.throttle.tokens))
            (ground (
              arith,
              v.served j,
              get-insert id t.id d' s.tasks,
              get-insert id u.id d' s.tasks,
              ==_iff id t.id,
              ==_iff id u.id,
              bytes_eq_iff d.token j,
            ))
