-- ===== src/Calls/Limits.antt =====
-- rust/core-bridge/src/client_calls.rs: admission limits of a client, and the owner identities that
-- `new_owner_id` draws. A draw is the high half of a random UUID.
use ocaml_temporal.Base.{
  ℕ, ◌%◌, ◌<◌, ◌≤◌, ◌≡◌, ◌≢◌, ◌⊎◌, refl, ◌&&◌, Option, none, some, List, [], ◌∷◌, ◌++◌, Result, ok,
  err, ◌>>=◌, ◌==◌, leb, if◌then◌else◌, arith, inl, inr, Bool-cases,
}
use ocaml_temporal.Abi.{Failure, status_configuration}
use ocaml_temporal.Calls.State.{max_call_id}

abbrev pub max_configurable_pending_waits : ℕ
max_configurable_pending_waits = 4096

abbrev pub max_configurable_pending_starts : ℕ
max_configurable_pending_starts = 4096

abbrev pub max_configurable_in_flight_calls : ℕ
max_configurable_in_flight_calls = 65536

pub record ClientLimits : Type 0 where
  pub pending_waits : ℕ
  pub pending_starts : ℕ
  pub in_flight_calls : ℕ

-- `MAX_PENDING_WAITS`, `MAX_PENDING_STARTS` and `MAX_PENDING_CALLS` of abi.rs.
abbrev pub default_limits : ClientLimits
default_limits = record { pending_waits = 64; pending_starts = 64; in_flight_calls = 4096 }

abbrev pub limit_failure : Failure
limit_failure = record { status = status_configuration }

unfoldable pub limit : Option ℕ → ℕ → ℕ → Result Failure ℕ
limit none maximum default = ok default
limit (some value) maximum default =
    if leb 1 value && leb value maximum then ok value else err limit_failure

unfoldable pub from_config : Option ℕ → Option ℕ → Option ℕ → Result Failure ClientLimits
from_config waits starts calls =
    limit waits max_configurable_pending_waits default_limits.pending_waits >>= λ w.
    limit starts max_configurable_pending_starts default_limits.pending_starts >>= λ s.
    limit calls max_configurable_in_flight_calls default_limits.in_flight_calls >>= λ c.
    ok (record { pending_waits = w; pending_starts = s; in_flight_calls = c })

-- `new_owner_id` on the draws to come: the first that is not zero in its low 62 bits.
unfoldable pub new_owner_id : List ℕ → Option ℕ
new_owner_id [] = none
new_owner_id (high ∷ draws) =
    let rest = new_owner_id draws in
    let owner = high % max_call_id in if owner == 0 then rest else some owner

-- A field of the connect document that is accepted: left out, or within its bounds.
abbrev pub InBounds : ℕ → Option ℕ → Type 0
InBounds maximum none = Unit {0}
InBounds maximum (some value) = (1 ≤ value) × (value ≤ maximum)

abbrev pub or_default : ℕ → Option ℕ → ℕ
or_default default none = default
or_default default (some value) = value

-- The fields of a connect document, each with its default.
abbrev pub filled : Option ℕ → Option ℕ → Option ℕ → ClientLimits
filled waits starts calls = record {
  pending_waits = or_default 64 waits;
  pending_starts = or_default 64 starts;
  in_flight_calls = or_default 4096 calls;
}

limit_iff :
    (value : Option ℕ) (maximum default : ℕ)
    → ((limit value maximum default ≡ ok (or_default default value)) × InBounds maximum value)
      ⊎ ((limit value maximum default ≡ err limit_failure) × (InBounds maximum value → ⊥))
unfolding limit
limit_iff none maximum default = inl (refl, tt)
limit_iff (some value) maximum default = ground arith

-- The limits of a connection are accepted exactly when each field that is given lies between 1 and
-- its maximum; a field that is left out gets its default, and everything else is the configuration
-- failure.
pub from_config_iff :
    (waits starts calls : Option ℕ)
    → ((from_config waits starts calls ≡ ok (filled waits starts calls))
        × InBounds 4096 waits
        × InBounds 4096 starts
        × InBounds 65536 calls)
      ⊎ ((from_config waits starts calls ≡ err limit_failure)
          × (InBounds 4096 waits × InBounds 4096 starts × InBounds 65536 calls → ⊥))
unfolding from_config
from_config_iff waits starts calls = elim (limit_iff waits 4096 64) [
  | inr (e, n) ↦ rw (from_config, e) (inr (refl, λ h. n (h.0)))
  | inl (e, p) ↦ elim (limit_iff starts 4096 64) [
    | inr (f, n) ↦ rw (from_config, e, f) (inr (refl, λ h. n (h.1)))
    | inl (f, q) ↦ elim (limit_iff calls 65536 4096) [
      | inr (g, n) ↦ rw (from_config, e, f, g) (inr (refl, λ h. n (h.2)))
      | inl (g, r) ↦ rw (from_config, e, f, g) (inl (refl, p, q, r))
    ]
  ]
]

-- `new_owner_id` ends as soon as a draw is not zero in its low 62 bits, and an identity that it
-- returns is positive and below `MAX_CALL_ID`.
pub new_owner_id_ends :
    (zeros draws : List ℕ) (high : ℕ)
    → high % max_call_id ≢ 0
    → (owner : ℕ) × (new_owner_id (zeros ++ high ∷ draws) ≡ some owner)
      × (0 < owner)
      × (owner < max_call_id)
unfolding new_owner_id
new_owner_id_ends [] draws high h =
    (high % max_call_id, ground (arith, h), ground (arith, h), omega arith)
new_owner_id_ends (z ∷ zeros) draws high h =
    let (owner, e, low, top) = new_owner_id_ends zeros draws high h in
    elim (Bool-cases (z % max_call_id == 0)) [
      | inl zero ↦ (owner, ground (arith, zero, e), low, top)
      | inr nonzero ↦
          (z % max_call_id, ground (arith, nonzero), ground (arith, nonzero), omega arith)
    ]
