-- ===== src/Calls/History.antt =====
-- What becomes of a slot and of an entry while sections run in any order.
use ocaml_temporal.Base.{
  ℕ, ◌+◌, ◌^◌, ◌<◌, ◌≤◌, ◌≡◌, ◌⊎◌, refl, Option, none, some, nat_eq, ◌==◌, arith, Option-cases, inl,
  inr, subst, Bool-cases,
}
use ocaml_temporal.Base.Map.{get, insert, get-insert}
use ocaml_temporal.Calls.State.{
  Calls, RegisteredCall, SlotState, pending, ready, closed, attach_task, unregister,
  unregister_owner, settle_slot, settle, read_slot, read_state, abort, owned_ids,
}
use ocaml_temporal.Calls.System.{
  Section, registers, attaches, unregisters, unregisters_owner, completes, closes, reads, aborts,
  perform,
}
use ocaml_temporal.Calls.Registry.{owned_entry_cases, get-remove_call, get-remove_calls}
use ocaml_temporal.Calls.Consistent.{IsConsistent, register_cases, enrol, put_task}

-- A pending slot may become anything, and any slot may be consumed; nothing else changes.
abbrev pub Later : SlotState → SlotState → Type 0
Later from to = (to ≡ from) ⊎ ((from ≡ pending) ⊎ (to ≡ closed))

abbrev pub HasLater : SlotState → Option SlotState → Type 0
HasLater from to = (st : SlotState) × (to ≡ some st) × Later from st

-- The identifiers go up by at most one, slots only go on, and an entry under an identifier that was
-- issued before keeps its owner.
pub record IsAfter (steps : ℕ) (s s' : Calls) : Type 0 where
  pub not_less : s.next_call ≤ s'.next_call
  pub not_more : s'.next_call ≤ s.next_call + steps
  pub slot : (id : ℕ) (st : SlotState) → get id s.slots ≡ some st → HasLater st (get id s'.slots)
  pub entry :
      (id : ℕ) (c : RegisteredCall)
      → get id s'.registry.calls ≡ some c
      → id < s.next_call
      → (d : RegisteredCall) × (get id s.registry.calls ≡ some d) × (c.owner ≡ d.owner)

same-IsAfter :
    (s s' : Calls)
    → s'.next_call ≡ s.next_call
    → ((id : ℕ) (st : SlotState) → get id s.slots ≡ some st → HasLater st (get id s'.slots))
    → ((id : ℕ) (c : RegisteredCall)
        → get id s'.registry.calls ≡ some c
        → (d : RegisteredCall) × (get id s.registry.calls ≡ some d) × (c.owner ≡ d.owner))
    → IsAfter 1 s s'
same-IsAfter s s' e slots entries = record {
  not_less = omega (arith, e);
  not_more = omega (arith, e);
  slot = slots;
  entry = λ id c h _. entries id c h;
}

idle-IsAfter :
    (s s' : Calls)
    → s'.next_call ≡ s.next_call
    → s'.slots ≡ s.slots
    → s'.registry ≡ s.registry
    → IsAfter 1 s s'
idle-IsAfter s s' e slots registry =
    same-IsAfter s s' e (λ id st h. (st, ground (arith, slots, h), inl refl))
      λ id c h. (c, ground (arith, registry, h), refl)

enrol-IsAfter :
    (owner : ℕ) (s : Calls)
    → s.next_call + 1 < 2 ^ 64
    → IsConsistent s
    → IsAfter 1 s (enrol owner s)
enrol-IsAfter owner s small v =
    let c : RegisteredCall = record { owner = owner; slot = s.next_call; task = none } in
    record {
      not_less = omega arith;
      not_more = omega arith;
      slot = λ id st h.
          (st, ground (arith, get-insert s.next_call id pending s.slots, v.issued id), inl refl);
      entry = λ id d h lt. (d, ground (arith, get-insert s.next_call id c s.registry.calls), refl);
    }

-- A slot that goes on, under an insertion.
insert-HasLater :
    (slot : ℕ) (to : SlotState) (s : Calls)
    → ((old : SlotState) → get slot s.slots ≡ some old → Later old to)
    → (id : ℕ) (st : SlotState) → get id s.slots ≡ some st
    → HasLater st (get id (insert slot to s.slots))
insert-HasLater slot to s later id st h = elim (Bool-cases (slot == id)) [
  | inl same ↦
      (to, ground (arith, same, get-insert slot id to s.slots), later st (ground (arith, same, h)))
  | inr other ↦ (st, ground (arith, other, get-insert slot id to s.slots, h), inl refl)
]

settle-Later : (to old : SlotState) → Later old (settle to old)
settle-Later to pending = inr (inl refl)
settle-Later to (ready o) = inl refl
settle-Later to closed = inl refl

settle_slot-IsAfter : (slot : ℕ) (to : SlotState) (s : Calls) → IsAfter 1 s (settle_slot slot to s)
unfolding settle_slot
settle_slot-IsAfter slot to s = elim (Option-cases (get slot s.slots)) [
  | inl e ↦ rw (settle_slot, e) (idle-IsAfter s s refl refl refl)
  | inr (old, e) ↦
      rw (settle_slot, e)
        (same-IsAfter s _ refl
          (insert-HasLater slot (settle to old) s λ st h.
            subst (λ x. Later x (settle to old)) (ground (arith, e, h)) (settle-Later to old))
          λ id c h. (c, h, refl))
]

read_slot-IsAfter : (slot : ℕ) (s : Calls) → IsAfter 1 s ((read_slot slot s).0)
unfolding read_slot
read_slot-IsAfter slot s = elim (Option-cases (get slot s.slots)) [
  | inl e ↦ rw (read_slot, e) (idle-IsAfter s s refl refl refl)
  | inr (st, e) ↦ rw (read_slot, e) (go st)
]
  where
    consumed : IsAfter 1 s (record s { slots = insert slot closed s.slots })
    consumed =
        same-IsAfter s _ refl (insert-HasLater slot closed s λ _ _. inr (inr refl))
          λ id c h. (c, h, refl)

    go : (st : SlotState) → IsAfter 1 s ((read_state slot s st).0)
    go pending = idle-IsAfter s s refl refl refl
    go (ready o) = consumed
    go closed = consumed

pub perform-IsAfter :
    (x : Section) (s : Calls)
    → s.next_call + 1 < 2 ^ 64
    → IsConsistent s
    → IsAfter 1 s (perform x s)
unfolding attach_task unregister unregister_owner
perform-IsAfter (registers owner reserved) s small v =
    register_cases (IsAfter 1 s) owner reserved s (λ _. enrol-IsAfter owner s small v)
      (record {
        not_less = omega arith;
        not_more = omega arith;
        slot = λ id st h. (st, h, inl refl);
        entry = λ id c h _. (c, h, refl);
      })
perform-IsAfter (attaches owner call task) s small v =
    owned_entry_cases
      (λ o. IsAfter 1 s (elim o [
        | none ↦ abort (some task) s
        | some c ↦ record s { registry = put_task call c task s.registry }
      ]))
      owner call s.registry
      (λ c e _.
        same-IsAfter s _ refl (λ id st h. (st, h, inl refl))
          λ id d h. elim (Bool-cases (call == id)) [
            | inl same ↦ (
              c,
              ground (arith, same, e),
              ground (
                arith,
                same,
                h,
                get-insert call id (record c { task = some task }) s.registry.calls,
              ),
            )
            | inr other ↦ (
              d,
              ground (
                arith,
                other,
                h,
                get-insert call id (record c { task = some task }) s.registry.calls,
              ),
              refl,
            )
          ])
      λ _. idle-IsAfter s _ refl refl refl
perform-IsAfter (unregisters owner call) s small v =
    same-IsAfter s _ refl (λ id st h. (st, h, inl refl))
      λ id c h. (c, get-remove_call owner call id s.registry c h, refl)
perform-IsAfter (unregisters_owner owner) s small v =
    same-IsAfter s _ refl (λ id st h. (st, h, inl refl))
      λ id c h. (c, get-remove_calls owner (owned_ids owner s.registry) id s.registry c h, refl)
perform-IsAfter (completes slot o) s small v = settle_slot-IsAfter slot (ready o) s
perform-IsAfter (closes slot) s small v = settle_slot-IsAfter slot closed s
perform-IsAfter (reads slot) s small v = read_slot-IsAfter slot s
perform-IsAfter (aborts task) s small v = idle-IsAfter s _ refl refl refl
