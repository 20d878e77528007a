-- ===== src/Calls/Once.antt =====
-- Each outcome is read once: the two ways in which an await ends, and what follows.
use ocaml_temporal.Base.{
  ℕ, ◌+◌, ◌^◌, ◌<◌, ◌≡◌, ◌⊎◌, refl, sym, subst, Option, none, some, List, nat_eq, length, arith,
  inl, inr, err,
}
use ocaml_temporal.Base.Map.{get, insert, get-insert}
use ocaml_temporal.Abi.{Operation, status_not_ready}
use ocaml_temporal.Calls.State.{
  Calls, RegisteredCall, SlotState, pending, closed, owned_entry, unregister, read_slot,
  closed_failure,
}
use ocaml_temporal.Calls.System.{Section, run, await_call, await_entry}
use ocaml_temporal.Calls.Consistent.{IsConsistent, slots-IsConsistent}
use ocaml_temporal.Calls.Runs.{run_facts, Fits}
use ocaml_temporal.Calls.Await.{
  Answers, read_slot_cases, IsRetired, owned_slot, unregister-IsRetired, IsRetired-run,
}

-- An await that took the outcome of a slot in state `st`.
abbrev pub HasTaken : ℕ → ℕ → Option SlotState → Calls × Operation → Type 0
HasTaken owner call found r =
    ((st : SlotState) × (found ≡ some st) × Answers st (r.1))
    × IsRetired owner call (r.0)
    × (get call (r.0).slots ≡ some closed)

abbrev pub HasTimedOut : Calls → Option SlotState → Calls × Operation → Type 0
HasTimedOut s found r =
    (found ≡ some pending) × (r ≡ (s, err (record { status = status_not_ready })))

closed_after :
    (call : ℕ) (xs : List Section) (s : Calls)
    → Fits xs s
    → IsConsistent s
    → get call s.slots ≡ some closed
    → get call (run xs s).slots ≡ some closed
closed_after call xs s fits v e =
    let (st, f, l) = (run_facts xs s fits v).1.slot call closed e in ground (arith, f, l)

taken :
    (owner call : ℕ) (after : List Section) (u : Calls) (st : SlotState) (out : Operation)
    → IsConsistent u
    → call < u.next_call
    → u.next_call + length after + 1 < 2 ^ 64
    → get call u.slots ≡ some st
    → Answers st out
    → IsConsistent (record u { slots = insert call closed u.slots })
    → HasTaken owner call (get call u.slots) (
      (unregister owner call (run after (record u { slots = insert call closed u.slots }))).0,
      out,
    )
unfolding unregister
taken owner call after u st out v lt small e a w =
    let u' : Calls = record u { slots = insert call closed u.slots } in
    let gone : get call u'.slots ≡ some closed =
      ground (arith, get-insert call call closed u.slots) in
    let shut = closed_after call after u' (omega (arith, small)) w gone in
    let (x, h) = run_facts after u' (omega (arith, small)) w in
    (
      (st, e, a),
      unregister-IsRetired owner call (run after u') x (omega (arith, lt, h.not_less))
          (omega (arith, small, h.not_more)),
      shut,
    )

await_entry_ends :
    (owner call : ℕ) (c : RegisteredCall) (during after : List Section) (s : Calls)
    → c.slot ≡ call
    → call < s.next_call
    → (st : SlotState) × (get call s.slots ≡ some st)
    → IsConsistent s
    → s.next_call + length during + length after + 1 < 2 ^ 64
    → HasTimedOut
        (run during s)
        (get call (run during s).slots)
        (await_entry owner call c during after s)
      ⊎ HasTaken owner call
          (get call (run during s).slots)
          (await_entry owner call c during after s)
unfolding await_entry
await_entry_ends owner call c during after s same lt (st, e) v small =
    let (w, h) = run_facts during s (omega (arith, small)) v in
    let (st', e', _) = h.slot call st e in
    let u = run during s in
    let finish : Calls × Option Operation → Calls × Operation = λ x. elim (x.1) [
      | none ↦ (x.0, err (record { status = status_not_ready }))
      | some out ↦ ((unregister owner call (run after (x.0))).0, out)
    ] in
    let Ends : Calls × Operation → Type 0 =
      λ r. HasTimedOut u (get call u.slots) r ⊎ HasTaken owner call (get call u.slots) r in
    subst (λ k. Ends (finish (read_slot k u))) (sym same)
      (read_slot_cases (λ x. Ends (finish x)) call u st' e' (λ p. inl (ground (arith, p, e'), refl))
        λ out a. inr (
          taken owner call after u st' out w (omega (arith, lt, h.not_less))
            (omega (arith, small, h.not_more)) e' a
            (slots-IsConsistent u (insert call closed u.slots)
              (λ id. ground (arith, get-insert call id closed u.slots, e')) w)))

-- The two ends of an await for a registered call.
pub await_call_ends :
    (owner call : ℕ) (c : RegisteredCall) (during after : List Section) (s : Calls)
    → owned_entry owner call s.registry ≡ some c
    → IsConsistent s
    → s.next_call + length during + length after + 1 < 2 ^ 64
    → HasTimedOut
        (run during s)
        (get call (run during s).slots)
        (await_call owner call during after s)
      ⊎ HasTaken owner call (get call (run during s).slots) (await_call owner call during after s)
unfolding await_call
await_call_ends owner call c during after s e v small =
    let (same, lt, slot) = owned_slot owner call s c v e in
    rw (await_call, e) (await_entry_ends owner call c during after s same lt slot v small)

pub retired_answer :
    (owner call : ℕ) (xs during after : List Section) (s : Calls)
    → Fits xs s
    → IsRetired owner call s
    → await_call owner call during after (run xs s) ≡ (run xs s, err closed_failure)
unfolding await_call
retired_answer owner call xs during after s fits r =
    rw (await_call, (IsRetired-run owner call xs s fits r).gone) refl

-- What a thread that still holds the slot reads, and what an await answers.
abbrev pub IsSpent : ℕ → ℕ → List Section → List Section → Calls → Type 0
IsSpent owner call during after s =
    ((read_slot call s).1 ≡ some (err closed_failure))
    × (await_call owner call during after s ≡ (s, err closed_failure))

taken-IsSpent :
    (owner call : ℕ) (found : Option SlotState) (r : Calls × Operation)
    (later during after : List Section)
    → HasTaken owner call found r
    → Fits later (r.0)
    → IsSpent owner call during after (run later (r.0))
unfolding read_slot
taken-IsSpent owner call found r later during after (_, retired, shut) fits = (
  rw (read_slot, closed_after call later (r.0) fits (retired.consistent) shut) refl,
  retired_answer owner call later during after (r.0) fits retired,
)

-- An await for a registered call, whatever other threads do while it waits and before it retires
-- the call, either times out with the slot still pending and the registry as the others left it,
-- or it is the last to get anything of that call: after any later sections a thread that still
-- holds the slot reads the closed failure, and an await answers it and changes nothing.
pub await_consumes :
    (owner call : ℕ) (c : RegisteredCall) (during after later during' after' : List Section)
    (s : Calls)
    → owned_entry owner call s.registry ≡ some c
    → IsConsistent s
    → s.next_call + length during + length after + 1 < 2 ^ 64
    → Fits later ((await_call owner call during after s).0)
    → HasTimedOut
        (run during s)
        (get call (run during s).slots)
        (await_call owner call during after s)
      ⊎ IsSpent owner call during' after' (run later ((await_call owner call during after s).0))
await_consumes owner call c during after later during' after' s e v small fits =
    elim (await_call_ends owner call c during after s e v small) [
      | inl t ↦ inl t
      | inr t ↦ inr (taken-IsSpent owner call _ _ later during' after' t fits)
    ]
