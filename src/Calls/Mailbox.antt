-- ===== src/Calls/Mailbox.antt =====
-- What one runtime sees of the registry: a table from its calls to the states of their slots. Every
-- critical section, of whatever thread, acts on it as a simple table does.
use ocaml_temporal.Base.{
  ℕ, ◌≡◌, refl, Option, none, some, nat_eq, ◌==◌, ◌&&◌, if◌then◌else◌, is_some, arith, inl, inr,
  Bool, true, false, Option-cases, ok, err,
}
use ocaml_temporal.Base.Map.{get, get-insert}
use ocaml_temporal.Calls.State.{
  Calls, SlotState, pending, ready, closed, owned_entry, register, unregister_owner, settle,
  unregister, read_slot, settle_slot, attach_task, RegisteredCall, abort,
}
use ocaml_temporal.Calls.System.{
  Section, registers, attaches, unregisters, unregisters_owner, completes, closes, reads, aborts,
  perform,
}
use ocaml_temporal.Calls.Registry.{owned_entry_cases}
use ocaml_temporal.Calls.Consistent.{IsConsistent, enrol, unused_id, put_task}
use ocaml_temporal.Calls.Owned.{owned-remove_call, owned-unregister_owner}

abbrev pub Mailbox : Type 0
Mailbox = ℕ → Option SlotState

abbrev pub view : ℕ → Calls → Mailbox
view owner s id = if is_some (owned_entry owner id s.registry) then get id s.slots else none

abbrev pub map_state : (SlotState → SlotState) → Option SlotState → Option SlotState
map_state f none = none
map_state f (some st) = some (f st)

abbrev pub consume : SlotState → SlotState
consume pending = pending
consume (ready o) = closed
consume closed = closed

-- The table of `owner` after a section; `granted` is the identifier that a registration gave.
abbrev pub deliver : ℕ → Option ℕ → Section → Mailbox → Mailbox
deliver owner granted (registers o _) m id = elim granted [
  | none ↦ m id
  | some call ↦ if (o == owner) && (call == id) then some pending else m id
]
deliver owner granted (unregisters o call) m id =
    if (o == owner) && (call == id) then none else m id
deliver owner granted (unregisters_owner o) m id = if o == owner then none else m id
deliver owner granted (completes slot outcome) m id =
    if slot == id then map_state (settle (ready outcome)) (m id) else m id
deliver owner granted (closes slot) m id =
    if slot == id then map_state (settle closed) (m id) else m id
deliver owner granted (reads slot) m id = if slot == id then map_state consume (m id) else m id
deliver owner granted (attaches _ _ _) m id = m id
deliver owner granted (aborts _) m id = m id

abbrev pub granted : Section → Calls → Option ℕ
granted (registers o reserved) s = elim ((register o reserved s).1) [
  | ok (call, _) ↦ some call
  | err _ ↦ none
]
granted _ s = none

get-settle_slot :
    (slot : ℕ) (to : SlotState) (s : Calls) (id : ℕ)
    → get id (settle_slot slot to s).slots
      ≡ (if slot == id then map_state (settle to) (get id s.slots) else get id s.slots)
unfolding settle_slot
get-settle_slot slot to s id = elim (Option-cases (get slot s.slots)) [
  | inl e ↦ rw (settle_slot, e) (ground (arith, e))
  | inr (st, e) ↦ rw (settle_slot, e) (ground (arith, e, get-insert slot id (settle to st) s.slots))
]

get-read_slot :
    (slot : ℕ) (s : Calls) (id : ℕ)
    → get id ((read_slot slot s).0).slots
      ≡ (if slot == id then map_state consume (get id s.slots) else get id s.slots)
unfolding read_slot
get-read_slot slot s id = elim (Option-cases (get slot s.slots)) [
  | inl e ↦ rw (read_slot, e) (ground (arith, e))
  | inr (pending, e) ↦ rw (read_slot, e) (ground (arith, e))
  | inr (ready o, e) ↦ rw (read_slot, e) (ground (arith, e, get-insert slot id closed s.slots))
  | inr (closed, e) ↦ rw (read_slot, e) (ground (arith, e, get-insert slot id closed s.slots))
]

-- Slots change, the registry does not.
view-slots :
    (owner id : ℕ) (s s' : Calls) (c : Bool) (f : SlotState → SlotState)
    → s'.registry ≡ s.registry
    → get id s'.slots ≡ (if c then map_state f (get id s.slots) else get id s.slots)
    → view owner s' id ≡ (if c then map_state f (view owner s id) else view owner s id)
view-slots owner id s s' c f e g = rw (e, g) (go (owned_entry owner id s.registry) c)
  where
    go :
        (o : Option RegisteredCall) (c : Bool)
        → (if is_some o then if c then map_state f (get id s.slots) else get id s.slots else none)
          ≡ (if c
              then map_state f (if is_some o then get id s.slots else none)
              else if is_some o
              then get id s.slots
              else none)
    go none true = refl
    go none false = refl
    go (some x) true = refl
    go (some x) false = refl

settle_slot-registry :
    (slot : ℕ) (to : SlotState) (s : Calls) → (settle_slot slot to s).registry ≡ s.registry
unfolding settle_slot
settle_slot-registry slot to s = elim (Option-cases (get slot s.slots)) [
  | inl e ↦ rw (settle_slot, e) refl
  | inr (st, e) ↦ rw (settle_slot, e) refl
]

read_slot-registry : (slot : ℕ) (s : Calls) → ((read_slot slot s).0).registry ≡ s.registry
unfolding read_slot
read_slot-registry slot s = elim (Option-cases (get slot s.slots)) [
  | inl e ↦ rw (read_slot, e) refl
  | inr (pending, e) ↦ rw (read_slot, e) refl
  | inr (ready o, e) ↦ rw (read_slot, e) refl
  | inr (closed, e) ↦ rw (read_slot, e) refl
]

view-attach_task :
    (o call task owner id : ℕ) (s : Calls)
    → view owner (attach_task o call task s) id ≡ view owner s id
unfolding attach_task owned_entry
view-attach_task o call task owner id s =
    owned_entry_cases
      (λ x.
        view owner
          (elim x [
            | none ↦ abort (some task) s
            | some c ↦ record s { registry = put_task call c task s.registry }
          ])
          id
        ≡ view owner s id)
      o call s.registry
      (λ c e _.
        ground (arith, e, get-insert call id (record c { task = some task }) s.registry.calls))
      λ _. refl

view-enrol :
    (o owner id : ℕ) (s : Calls)
    → IsConsistent s
    → view owner (enrol o s) id
      ≡ (if (o == owner) && (s.next_call == id) then some pending else view owner s id)
unfolding owned_entry
view-enrol o owner id s v =
    let c : RegisteredCall = record { owner = o; slot = s.next_call; task = none } in
    ground (
      arith,
      unused_id s v,
      get-insert s.next_call id c s.registry.calls,
      get-insert s.next_call id pending s.slots,
    )

view-register :
    (o : ℕ) (reserved : Bool) (owner id : ℕ) (s : Calls)
    → IsConsistent s
    → view owner ((register o reserved s).0) id
      ≡ deliver owner (granted (registers o reserved) s) (registers o reserved) (view owner s) id
unfolding register
view-register o reserved owner id s v = ground (arith, register, view-enrol o owner id s v)

-- Each critical section acts on an owner's view of a consistent registry as `deliver` does on a
-- table: a registration adds a pending row to its owner's table alone, a removal takes away a row
-- of the owner that asks, and a completion, a close or a terminal read changes the state of its
-- row; all else leaves the table alone.
pub view-perform :
    (x : Section) (owner id : ℕ) (s : Calls)
    → IsConsistent s
    → view owner (perform x s) id ≡ deliver owner (granted x s) x (view owner s) id
unfolding unregister unregister_owner
view-perform (registers o reserved) owner id s v = view-register o reserved owner id s v
view-perform (attaches o call task) owner id s v = view-attach_task o call task owner id s
view-perform (unregisters o call) owner id s v =
    ground (arith, owned-remove_call o owner call id s.registry)
view-perform (unregisters_owner o) owner id s v =
    ground (arith, owned-unregister_owner o owner id s v)
view-perform (completes slot out) owner id s v =
    view-slots owner id s (settle_slot slot (ready out) s) (slot == id) (settle (ready out))
      (settle_slot-registry slot (ready out) s) (get-settle_slot slot (ready out) s id)
view-perform (closes slot) owner id s v =
    view-slots owner id s (settle_slot slot closed s) (slot == id) (settle closed)
      (settle_slot-registry slot closed s) (get-settle_slot slot closed s id)
view-perform (reads slot) owner id s v =
    view-slots owner id s ((read_slot slot s).0) (slot == id) consume (read_slot-registry slot s)
      (get-read_slot slot s id)
view-perform (aborts task) owner id s v = refl
