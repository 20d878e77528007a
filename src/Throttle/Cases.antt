-- ===== src/Throttle/Cases.antt =====
-- The branches of an admission, with what it has tested.
use ocaml_temporal.Base.{
  ℕ, ◌<◌, ◌≡◌, Bool, false, Option, none, some, Bytes, bytes_key, length, arith, Option-cases, inl,
  inr,
}
use ocaml_temporal.Base.Map.{get}
use ocaml_temporal.Throttle.State.{
  TokenState, ThrottleState, Admission, sent, coalesced, unthrottled, record_heartbeat, put_token,
  open_token,
}

pub record_heartbeat_cases {ℓ} :
    {P : Type 0} (Q : ThrottleState P × Admission P → Type ℓ) (is_finished : ℕ → Bool)
    (max_tokens : ℕ) (s : ThrottleState P) (k : Bytes) (details : Option P)
    → ((t : TokenState P)
        → get k s.tokens ≡ some t
        → Q (put_token s k (record t { pending = some details }), coalesced t.flags))
    → Q (s, unthrottled details)
    → (get k s.tokens ≡ none
        → s.closed ≡ false
        → length s.tokens < max_tokens
        → Q (open_token is_finished s k, sent s.next_id))
    → Q (record_heartbeat is_finished max_tokens s k details)
unfolding record_heartbeat
record_heartbeat_cases Q is_finished max_tokens s k details again refused first =
    elim (Option-cases (get k s.tokens)) [
      | inl e ↦ rw (e, record_heartbeat) (ground (arith, first e))
      | inr (t, e) ↦ rw (e, record_heartbeat) (again t e)
    ]
