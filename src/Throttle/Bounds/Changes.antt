-- ===== src/Throttle/Bounds/Changes.antt =====
-- What the critical sections of a driver do to the number of tokens.
use ocaml_temporal.Base.{
  ℕ, ◌≤◌, ◌≡◌, refl, true, false, Option, none, some, ◌∙◌, ok, err, Bytes, bytes_key, nat_eq,
  length, arith, Option-cases, inl, inr,
}
use ocaml_temporal.Base.Map.{
  get, Distinct, length-insert, length-remove, remove-Distinct, insert-Distinct,
}
use ocaml_temporal.Throttle.State.{
  SendOutcome, ThrottleState, finish_send, take_pending, remove_if_current,
}
use ocaml_temporal.Throttle.System.{Phase, Task, System, go_on}

module _ {P : Type 0} where
  -- Removing a token, or writing one that is there, adds none.
  pub record NoMore (s s' : ThrottleState P) : Type 0 where
    pub no_more : length s'.tokens ≤ length s.tokens
    pub same_closed : s'.closed ≡ s.closed
    pub same_next : s'.next_id ≡ s.next_id

  pub remove_if_current-NoMore :
      (s : ThrottleState P) (k : Bytes) (id : ℕ)
      → Distinct s.tokens
      → NoMore s (remove_if_current s k id)
  unfolding remove_if_current
  remove_if_current-NoMore s k id d = ground (arith, length-remove k s.tokens d)

  pub finish_send-NoMore :
      (s : ThrottleState P) (k : Bytes) (id : ℕ) (outcome : SendOutcome)
      → Distinct s.tokens
      → NoMore s (finish_send s k id outcome).0
  unfolding finish_send
  finish_send-NoMore s k id (ok flags) d = elim (Option-cases (get k s.tokens)) [
    | inl absent ↦ ground arith
    | inr (t, tracked) ↦
        ground (arith, length-insert k (record t { sending = false; flags = flags }) s.tokens)
  ]
  finish_send-NoMore s k id (err f) d = ground (arith, length-remove k s.tokens d)

  pub finish_send-Distinct :
      (s : ThrottleState P) (k : Bytes) (id : ℕ) (outcome : SendOutcome)
      → Distinct s.tokens
      → Distinct (finish_send s k id outcome).0.tokens
  unfolding finish_send
  finish_send-Distinct s k id (ok flags) d = elim (Option-cases (get k s.tokens)) [
    | inl absent ↦ ground arith
    | inr (t, tracked) ↦
        ground (arith, insert-Distinct k (record t { sending = false; flags = flags }) s.tokens d)
  ]
  finish_send-Distinct s k id (err f) d = ground (arith, remove-Distinct k s.tokens d)

  pub take_pending-NoMore :
      (s : ThrottleState P) (k : Bytes) (id : ℕ)
      → Distinct s.tokens
      → NoMore s (take_pending s k id).0
  unfolding take_pending
  take_pending-NoMore s k id d = elim (Option-cases (get k s.tokens)) [
    | inl absent ↦ ground arith
    | inr (t, tracked) ↦ ground (
      arith,
      length-insert k (record t { pending = none; sending = true }) s.tokens,
      length-remove k s.tokens d,
    )
  ]

  pub take_pending-Distinct :
      (s : ThrottleState P) (k : Bytes) (id : ℕ)
      → Distinct s.tokens
      → Distinct (take_pending s k id).0.tokens
  unfolding take_pending
  take_pending-Distinct s k id d = elim (Option-cases (get k s.tokens)) [
    | inl absent ↦ ground arith
    | inr (t, tracked) ↦ ground (
      arith,
      insert-Distinct k (record t { pending = none; sending = true }) s.tokens d,
      remove-Distinct k s.tokens d,
    )
  ]

  pub go_on-NoMore :
      (s : System P) (id : ℕ) (d : Task P) (throttle : ThrottleState P) (phase : Option (Phase P))
      → Distinct throttle.tokens
      → NoMore throttle (go_on s id d throttle phase).throttle
  go_on-NoMore s id d throttle (some phase) h = record {
    no_more = omega arith;
    same_closed = refl;
    same_next = refl;
  }
  go_on-NoMore s id d throttle none h = remove_if_current-NoMore throttle d.token id h

  pub NoMore-trans : (s t u : ThrottleState P) → NoMore s t → NoMore t u → NoMore s u
  NoMore-trans s t u p q = record {
    no_more = omega arith;
    same_closed = q.same_closed ∙ p.same_closed;
    same_next = q.same_next ∙ p.same_next;
  }
