-- ===== src/Calls/Consistent.antt =====
-- The invariant of the registry and its slots, and the changes that keep it.
use ocaml_temporal.Base.{
  ℕ, ◌+◌, ◌%◌, ◌^◌, ◌<◌, ◌≤◌, ◌≡◌, Bool, true, none, some, nat_eq, length, arith, Option-cases, inl,
  inr,
}
use ocaml_temporal.Base.Map.{
  Map, get, contains, insert, get-insert, insert-Distinct, count_if-insert, count_if-length,
  length-insert,
}
use ocaml_temporal.Calls.State.{
  Calls, RegisteredCall, Registry, SlotState, pending, max_call_id, register, or_zero,
}
use ocaml_temporal.Calls.Registry.{IsCounted, is_owned_by}

pub record IsConsistent (s : Calls) : Type 0 where
  pub counts : IsCounted s.registry
  -- An entry's slot is its own and exists; no identifier is ahead of the counter.
  pub entry :
      (id : ℕ) (c : RegisteredCall)
      → get id s.registry.calls ≡ some c
      → (c.slot ≡ id) × (contains id s.slots ≡ true)
  pub issued : (id : ℕ) → contains id s.slots ≡ true → id < s.next_call
  pub few : length s.registry.calls < s.next_call

abbrev pub enrol : ℕ → Calls → Calls
enrol owner s = record s {
  next_call = (s.next_call + 1) % 2 ^ 64;
  registry = record {
    calls =
        insert s.next_call (record { owner = owner; slot = s.next_call; task = none })
          s.registry.calls;
    per_owner =
        insert owner ((or_zero (get owner s.registry.per_owner) + 1) % 2 ^ 64) s.registry.per_owner;
  };
  slots = insert s.next_call pending s.slots;
}

pub register_cases :
    (Q : Calls → Type 0) (owner : ℕ) (reserved : Bool) (s : Calls)
    → (s.next_call < max_call_id → Q (enrol owner s))
    → Q (record s { next_call = (s.next_call + 1) % 2 ^ 64 })
    → Q ((register owner reserved s).0)
unfolding register
register_cases Q owner reserved s enrolled refused = ground (arith, register, enrolled, refused)

pub unused_id : (s : Calls) → IsConsistent s → get s.next_call s.registry.calls ≡ none
unused_id s v = elim (Option-cases (get s.next_call s.registry.calls)) [
  | inl e ↦ e
  | inr (c, e) ↦ ground (arith, v.entry s.next_call c e, v.issued s.next_call)
]

enrol-IsCounted :
    (owner : ℕ) (s : Calls)
    → s.next_call < max_call_id
    → IsConsistent s
    → IsCounted (enrol owner s).registry
enrol-IsCounted owner s small v =
    let c : RegisteredCall = record { owner = owner; slot = s.next_call; task = none } in
    record {
      calls_distinct = insert-Distinct s.next_call c s.registry.calls v.counts.calls_distinct;
      owners_distinct = insert-Distinct owner _ s.registry.per_owner v.counts.owners_distinct;
      counted = λ o. ground (
        arith,
        get-insert owner o ((or_zero (get owner s.registry.per_owner) + 1) % 2 ^ 64)
            s.registry.per_owner,
        count_if-insert (is_owned_by o) s.next_call c s.registry.calls,
        count_if-length (is_owned_by o) s.registry.calls,
        unused_id s v,
        v.few,
        v.counts.counted o,
      );
      positive = λ o. ground (
        arith,
        get-insert owner o ((or_zero (get owner s.registry.per_owner) + 1) % 2 ^ 64)
            s.registry.per_owner,
        count_if-length (is_owned_by owner) s.registry.calls,
        v.few,
        v.counts.counted owner,
        v.counts.positive o,
      );
    }

pub enrol-IsConsistent :
    (owner : ℕ) (s : Calls)
    → s.next_call < max_call_id
    → IsConsistent s
    → IsConsistent (enrol owner s)
enrol-IsConsistent owner s small v =
    let c : RegisteredCall = record { owner = owner; slot = s.next_call; task = none } in
    record {
      counts = enrol-IsCounted owner s small v;
      entry = λ id d e. ground (
        arith,
        get-insert s.next_call id c s.registry.calls,
        get-insert s.next_call id pending s.slots,
        v.entry id d,
      );
      issued = λ id h. ground (arith, get-insert s.next_call id pending s.slots, v.issued id);
      few = ground (arith, length-insert s.next_call c s.registry.calls, unused_id s v, v.few);
    }

pub skip-IsConsistent :
    (s : Calls)
    → s.next_call + 1 < 2 ^ 64
    → IsConsistent s
    → IsConsistent (record s { next_call = (s.next_call + 1) % 2 ^ 64 })
skip-IsConsistent s small v = record {
  counts = v.counts;
  entry = v.entry;
  issued = λ id h. ground (arith, v.issued id h);
  few = ground (arith, v.few);
}

-- A change of the slots alone that adds none.
pub slots-IsConsistent :
    (s : Calls) (slots : Map ℕ SlotState)
    → ((id : ℕ) → contains id slots ≡ contains id s.slots)
    → IsConsistent s
    → IsConsistent (record s { slots = slots })
slots-IsConsistent s slots same v = record {
  counts = v.counts;
  entry = λ id c e. ground (arith, v.entry id c e, same id);
  issued = λ id h. ground (arith, v.issued id, same id);
  few = v.few;
}

-- A change of the registry that only loses entries.
pub registry-IsConsistent :
    (s : Calls) (r : Registry)
    → IsCounted r
    → ((id : ℕ) (c : RegisteredCall) → get id r.calls ≡ some c → get id s.registry.calls ≡ some c)
    → length r.calls ≤ length s.registry.calls
    → IsConsistent s
    → IsConsistent (record s { registry = r })
registry-IsConsistent s r counts less fewer v = record {
  counts = counts;
  entry = λ id c e. v.entry id c (less id c e);
  issued = v.issued;
  few = omega (arith, fewer, v.few);
}

-- An entry replaced by one of the same owner and slot.
abbrev pub put_task : ℕ → RegisteredCall → ℕ → Registry → Registry
put_task call c task r = record r { calls = insert call (record c { task = some task }) r.calls }

pub put_task-IsConsistent :
    (s : Calls) (call : ℕ) (c : RegisteredCall) (task : ℕ)
    → get call s.registry.calls ≡ some c
    → IsConsistent s
    → IsConsistent (record s { registry = put_task call c task s.registry })
put_task-IsConsistent s call c task e v =
    let d : RegisteredCall = record c { task = some task } in
    record {
      counts = record {
        calls_distinct = insert-Distinct call d s.registry.calls v.counts.calls_distinct;
        owners_distinct = v.counts.owners_distinct;
        counted = λ o.
            ground
              (arith, count_if-insert (is_owned_by o) call d s.registry.calls, v.counts.counted o);
        positive = v.counts.positive;
      };
      entry = λ id x h.
          ground (arith, get-insert call id d s.registry.calls, v.entry id x, v.entry call c e);
      issued = v.issued;
      few = ground (arith, length-insert call d s.registry.calls, v.few);
    }
