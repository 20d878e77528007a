-- ===== src/Calls/System.antt =====
-- rust/core-bridge/src/client_calls.rs: the critical sections as events, which the threads run in
-- any order, and the operations that hold no lock between two sections. Each takes the sections
-- that others run in its gaps.
use ocaml_temporal.Base.{ℕ, Bool, none, some, List, [], ◌∷◌, err}
use ocaml_temporal.Abi.{Operation, status_not_ready}
use ocaml_temporal.Calls.State.{
  Calls, RegisteredCall, owned_entry, register, attach_task, unregister, unregister_owner,
  complete_slot, close_slot, read_slot, abort, closed_failure,
}

pub data Section : Type 0 where
  registers : ℕ → Bool → Section
  attaches : ℕ → ℕ → ℕ → Section
  unregisters : ℕ → ℕ → Section
  unregisters_owner : ℕ → Section
  completes : ℕ → Operation → Section
  closes : ℕ → Section
  reads : ℕ → Section
  aborts : ℕ → Section

abbrev pub perform : Section → Calls → Calls
perform (registers owner reserved) s = (register owner reserved s).0
perform (attaches owner call task) s = attach_task owner call task s
perform (unregisters owner call) s = (unregister owner call s).0
perform (unregisters_owner owner) s = (unregister_owner owner s).0
perform (completes slot outcome) s = complete_slot slot outcome s
perform (closes slot) s = close_slot slot s
perform (reads slot) s = (read_slot slot s).0
perform (aborts task) s = abort (some task) s

unfoldable pub run : List Section → Calls → Calls
run [] s = s
run (x ∷ xs) s = run xs (perform x s)

-- What `await_call` does with a registered call: the wait, the read, and the retirement.
unfoldable pub await_entry :
    ℕ → ℕ → RegisteredCall → List Section → List Section → Calls → Calls × Operation
await_entry owner call c during after s =
    let (s', terminal) = read_slot c.slot (run during s) in
    elim terminal [
      | none ↦ (s', err (record { status = status_not_ready }))
      | some outcome ↦ ((unregister owner call (run after s')).0, outcome)
    ]

unfoldable pub await_call : ℕ → ℕ → List Section → List Section → Calls → Calls × Operation
await_call owner call during after s = elim (owned_entry owner call s.registry) [
  | none ↦ (s, err closed_failure)
  | some c ↦ await_entry owner call c during after s
]

unfoldable pub release_call : ℕ → ℕ → List Section → List Section → Calls → Calls
release_call owner call before_close before_abort s =
    let (s', released) = unregister owner call s in
    elim released [
      | none ↦ s'
      | some c ↦ abort c.task (run before_abort (close_slot c.slot (run before_close s')))
    ]

-- Closes the slots of the calls, each after the sections that the gap names for it.
unfoldable pub close_all : (ℕ → List Section) → List RegisteredCall → Calls → Calls
close_all gap [] s = s
close_all gap (c ∷ cs) s = close_all gap cs (close_slot c.slot (run (gap c.slot) s))

unfoldable pub release_owner : ℕ → (ℕ → List Section) → Calls → Calls
release_owner owner gap s =
    let (s', released) = unregister_owner owner s in close_all gap released s'
