-- ===== src/Throttle/Latest.antt =====
-- What the trailing send carries, and what a failed send leaves behind.
use ocaml_temporal.Abi.{Failure}
use ocaml_temporal.Base.{
  ℕ, ◌≤◌, ◌≡◌, Bool, true, false, Option, none, some, List, [], ◌∷◌, ◌++◌, err, Bytes, bytes_key,
  bytes_eq_iff, ==_iff, length, arith,
}
use ocaml_temporal.Base.Map.{get, Distinct, get-insert, get-remove, length-insert, length-remove}
use ocaml_temporal.Throttle.State.{
  TokenState, ThrottleState, sent, coalesced, record_heartbeat, evict, finish_send, take_pending,
  put_token,
}

module _ {P : Type 0} (is_finished : ℕ → Bool) (max_tokens : ℕ) where
  -- Heartbeats for one token, one after another.
  unfoldable pub beat_all : List (Option P) → ThrottleState P → Bytes → ThrottleState P
  beat_all [] s k = s
  beat_all (d ∷ ds) s k = beat_all ds (record_heartbeat is_finished max_tokens s k d).0 k

  record_heartbeat-tracked :
      (s : ThrottleState P) (k : Bytes) (t : TokenState P) (d : Option P)
      → get k s.tokens ≡ some t
      → record_heartbeat is_finished max_tokens s k d
        ≡ (put_token s k (record t { pending = some d }), coalesced t.flags)
  unfolding record_heartbeat
  record_heartbeat-tracked s k t d h = rw (h, record_heartbeat)

  beat_all-tracked :
      (ds : List (Option P)) (d : Option P) (s : ThrottleState P) (k : Bytes) (t : TokenState P)
      → get k s.tokens ≡ some t
      → (get k (beat_all (ds ++ d ∷ []) s k).tokens ≡ some (record t { pending = some d }))
        × (length (beat_all (ds ++ d ∷ []) s k).tokens ≡ length s.tokens)
  unfolding beat_all
  beat_all-tracked [] d s k t h = ground (
    arith,
    record_heartbeat-tracked s k t d h,
    get-insert k k (record t { pending = some d }) s.tokens,
    length-insert k (record t { pending = some d }) s.tokens,
    bytes_eq_iff k k,
  )
  beat_all-tracked (e ∷ ds) d s k t h =
      let t' : TokenState P = record t { pending = some e } in
      let s' : ThrottleState P = put_token s k t' in
      let tracked : get k s'.tokens ≡ some t' =
        ground (arith, get-insert k k t' s.tokens, bytes_eq_iff k k) in
      ground (
        arith,
        record_heartbeat-tracked s k t e h,
        beat_all-tracked ds d s' k t' tracked,
        length-insert k t' s.tokens,
      )

  -- However many heartbeats of a tracked token are coalesced, its trailing send, or its eviction,
  -- hands out the details of the last of them, once, and no further token is tracked.
  pub latest_details_sent :
      (ds : List (Option P)) (d : Option P) (s : ThrottleState P) (k : Bytes) (t : TokenState P)
      → get k s.tokens ≡ some t
      → let after = beat_all (ds ++ d ∷ []) s k in
        let next = take_pending after k t.id in
        (next.1 ≡ some d)
        × ((take_pending (next.0) k t.id).1 ≡ none)
        × ((evict after k).1 ≡ some d)
        × (length after.tokens ≡ length s.tokens)
  unfolding take_pending evict
  latest_details_sent ds d s k t h =
      let after = beat_all (ds ++ d ∷ []) s k in
      ground (
        arith,
        beat_all-tracked ds d s k t h,
        ==_iff t.id t.id,
        bytes_eq_iff k k,
        get-insert k k (record t { pending = none; sending = true }) after.tokens,
      )

  -- A failed send forgets its token, so the next heartbeat is sent at once by a new driver, while
  -- the throttle is open and was within its limit.
  pub failed_send_reopens :
      (s : ThrottleState P) (k : Bytes) (t : TokenState P) (f : Failure) (d : Option P)
      → Distinct s.tokens
      → get k s.tokens ≡ some t
      → length s.tokens ≤ max_tokens
      → s.closed ≡ false
      → let after = finish_send s k t.id (err f) in
        (after.1 ≡ false)
        × ((record_heartbeat is_finished max_tokens (after.0) k d).1 ≡ sent s.next_id)
  unfolding finish_send record_heartbeat
  failed_send_reopens s k t f d distinct h fits is_open = ground (
    arith,
    ==_iff t.id t.id,
    get-remove k k s.tokens,
    bytes_eq_iff k k,
    length-remove k s.tokens distinct,
  )
