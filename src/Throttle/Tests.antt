-- ===== src/Throttle/Tests.antt =====
-- A concrete throttle, and the theorems of `Throttle` applied to it.
use ocaml_temporal.Base.{
  ◌≡◌, refl, Bool, true, false, some, none, List, [], ◌∷◌, ok, Bytes, ℕ, length, bytes_key, arith,
}
use ocaml_temporal.Base.Map.{get}
use ocaml_temporal.Throttle.State.{ThrottleState, TokenState, default_flags, evict, take_pending}
use ocaml_temporal.Throttle.System.{System, new_system, Event, beats, answers, wakes, ends, evicts}
use ocaml_temporal.Throttle.Latest.{beat_all, latest_details_sent}
use ocaml_temporal.Throttle.Owned.{IsOwned}
use ocaml_temporal.Throttle.Bounds.{IsBounded, run_events, throttle_invariant, IsServedOnce}

abbrev token_a : Bytes
token_a = 7 ∷ []

abbrev sleeping : TokenState ℕ
sleeping = record { id = 3; pending = none; flags = default_flags; sending = false }

abbrev tracked : ThrottleState ℕ
tracked = record {
  tokens = (token_a, sleeping) ∷ [];
  drivers = (3, tt) ∷ [];
  next_id = 4;
  closed = false;
}

abbrev running : ℕ → Bool
running _ = false

latest_details_sent_example :
    let after = beat_all running 8 (some 1 ∷ none ∷ some 5 ∷ []) tracked token_a in
    let next = take_pending after token_a 3 in
    (next.1 ≡ some (some 5))
    × ((take_pending (next.0) token_a 3).1 ≡ none)
    × ((evict after token_a).1 ≡ some (some 5))
    × (length after.tokens ≡ 1)
unfolding get
latest_details_sent_example =
    latest_details_sent running 8 (some 1 ∷ none ∷ []) (some 5) tracked token_a sleeping refl

abbrev events : List (Event ℕ)
events =
    beats token_a none
    ∷ beats token_a (some 4)
    ∷ answers 0 (ok default_flags)
    ∷ wakes 0
    ∷ evicts token_a
    ∷ beats token_a none
    ∷ ends 0
    ∷ []

throttle_invariant_example :
    let s : System ℕ = run_events 2 events new_system in
    IsOwned s × IsBounded 2 s × IsServedOnce 2 s
throttle_invariant_example = throttle_invariant 2 events (omega arith)

abbrev closed_system : System ℕ
closed_system = record new_system { throttle = record (new_system.throttle) { closed = true } }
