-- ===== src/Calls/Await.antt =====
-- What an await and a release leave behind, whatever other threads run meanwhile.
use ocaml_temporal.Base.{
  ℕ, ◌+◌, ◌^◌, ◌<◌, ◌≡◌, ◌≢◌, ◌⊎◌, refl, Option, none, some, List, nat_eq, arith, inl, inr, err,
  Option-cases,
}
use ocaml_temporal.Base.Map.{get, insert, get-remove}
use ocaml_temporal.Abi.{Operation}
use ocaml_temporal.Calls.State.{
  Calls, RegisteredCall, SlotState, pending, ready, closed, owned_entry, unregister, read_slot,
  closed_failure,
}
use ocaml_temporal.Calls.System.{Section, unregisters, run}
use ocaml_temporal.Calls.Registry.{owned_entry_cases, remove_call_cases}
use ocaml_temporal.Calls.Consistent.{IsConsistent}
use ocaml_temporal.Calls.Invariant.{perform-IsConsistent}
use ocaml_temporal.Calls.History.{Later}
use ocaml_temporal.Calls.Runs.{run_facts, Fits}

-- What a terminal read of a slot answers.
abbrev pub Answers : SlotState → Operation → Type 0
Answers st out = (st ≡ ready out) ⊎ ((st ≡ closed) × (out ≡ err closed_failure))

pub read_slot_cases :
    (Q : Calls × Option Operation → Type 0) (slot : ℕ) (s : Calls) (st : SlotState)
    → get slot s.slots ≡ some st
    → (st ≡ pending → Q (s, none))
    → ((out : Operation)
        → Answers st out
        → Q (record s { slots = insert slot closed s.slots }, some out))
    → Q (read_slot slot s)
unfolding read_slot
read_slot_cases Q slot s pending e wait answer = rw (read_slot, e) (wait refl)
read_slot_cases Q slot s (ready o) e wait answer = rw (read_slot, e) (answer o (inl refl))
read_slot_cases Q slot s closed e wait answer =
    rw (read_slot, e) (answer (err closed_failure) (inr (refl, refl)))

-- A call that was issued and is gone for its owner.
pub record IsRetired (owner call : ℕ) (s : Calls) : Type 0 where
  pub gone : owned_entry owner call s.registry ≡ none
  pub used : call < s.next_call
  pub consistent : IsConsistent s

pub owned_slot :
    (owner call : ℕ) (s : Calls) (c : RegisteredCall)
    → IsConsistent s
    → owned_entry owner call s.registry ≡ some c
    → (c.slot ≡ call) × (call < s.next_call) × ((st : SlotState) × (get call s.slots ≡ some st))
owned_slot owner call s c v =
    owned_entry_cases
      (λ o.
        o ≡ some c
        → (c.slot ≡ call)
          × (call < s.next_call)
          × ((st : SlotState) × (get call s.slots ≡ some st)))
      owner call s.registry
      (λ d e _ h. elim (Option-cases (get call s.slots)) [
        | inl f ↦ ground (arith, f, v.entry call d e)
        | inr (st, f) ↦
            (ground (arith, v.entry call d e, h), ground (arith, f, v.issued call), (st, f))
      ])
      λ _ h. ground (arith, h)

pub unregister-IsRetired :
    (owner call : ℕ) (s : Calls)
    → IsConsistent s
    → call < s.next_call
    → s.next_call + 1 < 2 ^ 64
    → IsRetired owner call ((unregister owner call s).0)
unfolding unregister owned_entry
unregister-IsRetired owner call s v lt small =
    let w = perform-IsConsistent (unregisters owner call) s small v in
    record {
      gone =
          remove_call_cases (λ x. owned_entry owner call (x.0) ≡ none) owner call s.registry
            (λ c h _. ground (arith, get-remove call call s.registry.calls))
            λ foreign.
              owned_entry_cases (λ o. o ≡ none) owner call s.registry
                (λ c h p. ground (arith, foreign c h p)) λ _. refl;
      used = lt;
      consistent = w;
    }

pub Later-spent : (a b : SlotState) → Later a b → a ≢ pending → b ≢ pending
Later-spent a b l n = ground (arith, l, n)

pub IsRetired-run :
    (owner call : ℕ) (xs : List Section) (s : Calls)
    → Fits xs s
    → IsRetired owner call s
    → IsRetired owner call (run xs s)
IsRetired-run owner call xs s fits r =
    let (v, h) = run_facts xs s fits (r.consistent) in
    record {
      gone =
          owned_entry_cases (λ o. o ≡ none) owner call (run xs s).registry
            (λ c f p.
              let (d, g, q) = h.entry call c f (r.used) in
              owned_entry_cases (λ o. o ≡ none → some c ≡ none) owner call s.registry
                (λ x _ _ k. ground (arith, k)) (λ foreign _. ground (arith, foreign d g, p, q))
                (r.gone))
            λ _. refl;
      used = omega (arith, r.used, h.not_less);
      consistent = v;
    }
