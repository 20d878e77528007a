-- ===== src/Calls/State.antt =====
-- rust/core-bridge/src/client_calls.rs: the registry, the slots that registry and tasks share, and
-- the operations. `slots` is the store behind the `Arc`s: a slot is named by the call identifier
-- that it was made for, and outlives its registry entry. An abort handle is a number.
use ocaml_temporal.Base.{
  ℕ, ◌+◌, ◌-◌, ◌%◌, ◌^◌, Bool, not, ◌||◌, Option, none, some, List, [], ◌∷◌, Result, ok, err,
  nat_eq, ◌==◌, leb, if◌then◌else◌, length, is_some,
}
use ocaml_temporal.Base.Map.{Map, get, insert, remove, keys, retain}
use ocaml_temporal.Abi.{Failure, Operation, status_panic, status_internal, status_invalid_state}

abbrev pub max_call_id : ℕ
max_call_id = 2 ^ 62

pub data SlotState : Type 0 where
  pending : SlotState
  ready : Operation → SlotState
  closed : SlotState

pub record RegisteredCall : Type 0 where
  pub owner : ℕ
  pub slot : ℕ
  pub task : Option ℕ

pub record Registry : Type 0 where
  pub calls : Map ℕ RegisteredCall
  pub per_owner : Map ℕ ℕ

abbrev pub or_zero : Option ℕ → ℕ
or_zero none = 0
or_zero (some n) = n

-- One registered call less for an owner.
abbrev pub discount : ℕ → Map ℕ ℕ → Map ℕ ℕ
discount owner counts = elim (get owner counts) [
  | none ↦ counts
  | some count ↦ if count - 1 == 0 then remove owner counts else insert owner (count - 1) counts
]

-- The entry of `call`, if `owner` is the one that registered it.
unfoldable pub owned_entry : ℕ → ℕ → Registry → Option RegisteredCall
owned_entry owner call r = elim (get call r.calls) [
  | none ↦ none
  | some c ↦ if c.owner == owner then some c else none
]

abbrev pub remove_entry : ℕ → RegisteredCall → Registry → Registry
remove_entry call c r = record {
  calls = remove call r.calls;
  per_owner = discount c.owner r.per_owner;
}

-- `Registry::remove` for an owner that is given, as at each of its calls.
unfoldable pub remove_call : ℕ → ℕ → Registry → Registry × Option RegisteredCall
remove_call owner call r = elim (owned_entry owner call r) [
  | none ↦ (r, none)
  | some c ↦ (remove_entry call c r, some c)
]

-- The statics `CALLS` and `NEXT_CALL`, the slots, and the tasks that were aborted.
pub record Calls : Type 0 where
  pub registry : Registry
  pub next_call : ℕ  -- u64
  pub slots : Map ℕ SlotState
  pub aborted : List ℕ

abbrev pub no_calls : Calls
no_calls = record {
  registry = record { calls = []; per_owner = [] };
  next_call = 1;
  slots = [];
  aborted = [];
}

abbrev pub closed_failure : Failure
closed_failure = record { status = status_invalid_state }

abbrev pub settle : SlotState → SlotState → SlotState
settle to pending = to
settle to (ready o) = ready o
settle to closed = closed

-- A slot that is still pending becomes `to`.
unfoldable pub settle_slot : ℕ → SlotState → Calls → Calls
settle_slot slot to s = elim (get slot s.slots) [
  | none ↦ s
  | some state ↦ record s { slots = insert slot (settle to state) s.slots }
]

abbrev pub complete_slot : ℕ → Operation → Calls → Calls
complete_slot slot outcome = settle_slot slot (ready outcome)

abbrev pub close_slot : ℕ → Calls → Calls
close_slot slot = settle_slot slot closed

-- `CompletionGuard`, which its task consumes by `complete` or drops.
pub record CompletionGuard : Type 0 where
  pub slot : Option ℕ

unfoldable pub guard_complete : CompletionGuard → Operation → Calls → Calls
guard_complete g outcome s = elim (g.slot) [ none ↦ s | some slot ↦ complete_slot slot outcome s ]

unfoldable pub guard_drop : CompletionGuard → Bool → Calls → Calls
guard_drop g panicking s = elim (g.slot) [
  | none ↦ s
  | some slot ↦
      complete_slot slot
        (err (if panicking then record { status = status_panic } else closed_failure)) s
]

-- `reserved` says whether the maps could grow.
unfoldable pub register : ℕ → Bool → Calls → Calls × Result Failure (ℕ × CompletionGuard)
register owner reserved s =
    let call = s.next_call in
    let s' = record s { next_call = (call + 1) % 2 ^ 64 } in
    if leb max_call_id call || not reserved
    then (s', err (record { status = status_internal }))
    else (
      record s' {
        registry = record {
          calls = insert call (record { owner = owner; slot = call; task = none }) s.registry.calls;
          per_owner =
              insert owner ((or_zero (get owner s.registry.per_owner) + 1) % 2 ^ 64)
                s.registry.per_owner;
        };
        slots = insert call pending s.slots;
      },
      ok (call, record { slot = some call }),
    )

abbrev pub abort : Option ℕ → Calls → Calls
abort none s = s
abort (some task) s = record s { aborted = task ∷ s.aborted }

unfoldable pub attach_task : ℕ → ℕ → ℕ → Calls → Calls
attach_task owner call task s = elim (owned_entry owner call s.registry) [
  | none ↦ abort (some task) s
  | some c ↦ record s {
    registry = record s.registry {
      calls = insert call (record c { task = some task }) s.registry.calls;
    };
  }
]

-- The critical section in which a release or an await removes a call.
unfoldable pub unregister : ℕ → ℕ → Calls → Calls × Option RegisteredCall
unregister owner call s =
    let (r, removed) = remove_call owner call s.registry in (record s { registry = r }, removed)

abbrev pub cons_some {ℓ} : {A : Type ℓ} → Option A → List A → List A
cons_some none xs = xs
cons_some (some x) xs = x ∷ xs

abbrev pub remove_calls : ℕ → List ℕ → Registry → Registry × List RegisteredCall
remove_calls owner [] r = (r, [])
remove_calls owner (id ∷ ids) r =
    let (r', removed) = remove_call owner id r in
    let (r'', others) = remove_calls owner ids r' in (r'', cons_some removed others)

abbrev pub owned_ids : ℕ → Registry → List ℕ
owned_ids owner r = keys (retain (λ _ c. c.owner == owner) r.calls)

-- The critical section of `release_owner`.
unfoldable pub unregister_owner : ℕ → Calls → Calls × List RegisteredCall
unregister_owner owner s =
    let (r, released) = remove_calls owner (owned_ids owner s.registry) s.registry in
    (record s { registry = r }, released)

-- The terminal read of an await, under the slot's lock; `none` for a slot that is still pending.
abbrev pub read_state : ℕ → Calls → SlotState → Calls × Option Operation
read_state slot s pending = (s, none)
read_state slot s (ready outcome) = (record s { slots = insert slot closed s.slots }, some outcome)
read_state slot s closed =
    (record s { slots = insert slot closed s.slots }, some (err closed_failure))

unfoldable pub read_slot : ℕ → Calls → Calls × Option Operation
read_slot slot s = elim (get slot s.slots) [
  | none ↦ (s, none)
  | some state ↦ read_state slot s state
]

unfoldable pub unregistered_calls : ℕ → List ℕ → Calls → List ℕ
unregistered_calls owner [] s = []
unregistered_calls owner (call ∷ calls) s =
    let rest = unregistered_calls owner calls s in
    if is_some (owned_entry owner call s.registry) then rest else call ∷ rest

unfoldable pub registered_calls : ℕ → Calls → ℕ
registered_calls owner s = or_zero (get owner s.registry.per_owner)

unfoldable pub registered_call_total : Calls → ℕ
registered_call_total s = length s.registry.calls
