-- ===== src/Calls/Invariant.antt =====
-- What every section keeps: the registry's counts, and identifiers that are never reused.
use ocaml_temporal.Base.{ℕ, ◌+◌, ◌^◌, ◌<◌, ◌≡◌, none, some, nat_eq, arith, Option-cases, inl, inr}
use ocaml_temporal.Base.Map.{get, insert, get-insert}
use ocaml_temporal.Calls.State.{
  Calls, SlotState, pending, attach_task, unregister, unregister_owner, settle_slot, settle,
  read_slot, read_state, abort, owned_ids,
}
use ocaml_temporal.Calls.System.{
  Section, registers, attaches, unregisters, unregisters_owner, completes, closes, reads, aborts,
  perform,
}
use ocaml_temporal.Calls.Registry.{
  owned_entry_cases, remove_call-IsCounted, remove_calls-IsCounted, get-remove_call,
  get-remove_calls, length-remove_call, length-remove_calls,
}
use ocaml_temporal.Calls.Consistent.{
  IsConsistent, register_cases, enrol-IsConsistent, skip-IsConsistent, slots-IsConsistent,
  registry-IsConsistent, put_task, put_task-IsConsistent,
}

settle_slot-IsConsistent :
    (slot : ℕ) (to : SlotState) (s : Calls) → IsConsistent s → IsConsistent (settle_slot slot to s)
unfolding settle_slot
settle_slot-IsConsistent slot to s v = elim (Option-cases (get slot s.slots)) [
  | inl e ↦ rw (settle_slot, e) v
  | inr (st, e) ↦
      rw (settle_slot, e)
        (slots-IsConsistent s (insert slot (settle to st) s.slots)
          (λ id. ground (arith, get-insert slot id (settle to st) s.slots)) v)
]

read_state-IsConsistent :
    (slot : ℕ) (st : SlotState) (s : Calls)
    → get slot s.slots ≡ some st
    → IsConsistent s
    → IsConsistent ((read_state slot s st).0)
read_state-IsConsistent slot pending s e v = v
read_state-IsConsistent slot (SlotState.ready o) s e v =
    slots-IsConsistent s (insert slot SlotState.closed s.slots)
      (λ id. ground (arith, get-insert slot id SlotState.closed s.slots)) v
read_state-IsConsistent slot SlotState.closed s e v =
    slots-IsConsistent s (insert slot SlotState.closed s.slots)
      (λ id. ground (arith, get-insert slot id SlotState.closed s.slots)) v

read_slot-IsConsistent :
    (slot : ℕ) (s : Calls) → IsConsistent s → IsConsistent ((read_slot slot s).0)
unfolding read_slot
read_slot-IsConsistent slot s v = elim (Option-cases (get slot s.slots)) [
  | inl e ↦ rw (read_slot, e) v
  | inr (st, e) ↦ rw (read_slot, e) (read_state-IsConsistent slot st s e v)
]

pub perform-IsConsistent :
    (x : Section) (s : Calls)
    → s.next_call + 1 < 2 ^ 64
    → IsConsistent s
    → IsConsistent (perform x s)
unfolding attach_task unregister unregister_owner
perform-IsConsistent (registers owner reserved) s small v =
    register_cases IsConsistent owner reserved s (λ lt. enrol-IsConsistent owner s lt v)
      (skip-IsConsistent s small v)
perform-IsConsistent (attaches owner call task) s small v =
    owned_entry_cases
      (λ o. IsConsistent (elim o [
        | none ↦ abort (some task) s
        | some c ↦ record s { registry = put_task call c task s.registry }
      ]))
      owner call s.registry (λ c e _. put_task-IsConsistent s call c task e v)
      λ _. record { counts = v.counts; entry = v.entry; issued = v.issued; few = v.few }
perform-IsConsistent (unregisters owner call) s small v =
    registry-IsConsistent s _ (remove_call-IsCounted owner call s.registry v.counts)
      (λ id c. get-remove_call owner call id s.registry c)
      (length-remove_call owner call s.registry v.counts) v
perform-IsConsistent (unregisters_owner owner) s small v =
    let ids = owned_ids owner s.registry in
    registry-IsConsistent s _ (remove_calls-IsCounted owner ids s.registry v.counts)
      (λ id c. get-remove_calls owner ids id s.registry c)
      (length-remove_calls owner ids s.registry v.counts) v
perform-IsConsistent (completes slot o) s small v =
    settle_slot-IsConsistent slot (SlotState.ready o) s v
perform-IsConsistent (closes slot) s small v = settle_slot-IsConsistent slot SlotState.closed s v
perform-IsConsistent (reads slot) s small v = read_slot-IsConsistent slot s v
perform-IsConsistent (aborts task) s small v = record {
  counts = v.counts;
  entry = v.entry;
  issued = v.issued;
  few = v.few;
}
