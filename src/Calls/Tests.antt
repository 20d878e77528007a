-- ===== src/Calls/Tests.antt =====
-- A concrete registry, and the theorems of `Calls` applied to it.
use ocaml_temporal.Base.{
  ℕ, ◌<◌, ◌≡◌, ◌≢◌, ◌⊎◌, refl, true, none, some, List, [], ◌∷◌, ◌++◌, ok, err, arith, nat_eq, ◌+◌,
  length,
}
use ocaml_temporal.Base.Map.{get, insert, remove, keys, retain, elem}
use ocaml_temporal.Abi.{Operation}
use ocaml_temporal.Calls.State.{
  Calls, RegisteredCall, no_calls, register, unregister_owner, settle_slot, unregister, remove_call,
  attach_task, owned_entry, ready, pending, closed_failure, read_slot, max_call_id,
}
use ocaml_temporal.Calls.System.{
  Section, registers, attaches, unregisters, unregisters_owner, completes, closes, reads, aborts,
  perform, run, await_entry, await_call, release_call,
}
use ocaml_temporal.Calls.Consistent.{IsConsistent}
use ocaml_temporal.Calls.Runs.{calls_invariant}
use ocaml_temporal.Calls.Once.{await_consumes, HasTimedOut, IsSpent}
use ocaml_temporal.Calls.Release.{settled_wait_ends, released_call_gone}
use ocaml_temporal.Calls.Mailbox.{view, deliver, granted, view-perform}
use ocaml_temporal.Calls.OwnerRelease.{close_sections}
use ocaml_temporal.Calls.Isolation.{foreign_run_unseen}
use ocaml_temporal.Calls.Limits.{new_owner_id, new_owner_id_ends}

abbrev submissions : List Section
submissions = registers 5 true ∷ registers 9 true ∷ attaches 5 1 40 ∷ []

abbrev submitted : Calls
submitted = run submissions no_calls

abbrev first_call : RegisteredCall
first_call = record { owner = 5; slot = 1; task = some 40 }

abbrev body : Operation
body = ok (7 ∷ [])

first_call_registered : owned_entry 5 1 submitted.registry ≡ some first_call
unfolding run register attach_task owned_entry get insert
first_call_registered = refl

next_call_issued : submitted.next_call ≡ 3
unfolding run register attach_task owned_entry get insert
next_call_issued = refl

calls_invariant_example : IsConsistent (run submissions no_calls)
calls_invariant_example = calls_invariant submissions (omega arith)

-- The same fact for the tests below.
submitted-IsConsistent : IsConsistent submitted
submitted-IsConsistent = calls_invariant submissions (omega arith)

abbrev outcome_arrives : List Section
outcome_arrives = completes 1 body ∷ []

after_await : (await_call 5 1 outcome_arrives [] submitted).0.next_call ≡ 3
unfolding run register attach_task owned_entry get insert remove await_call await_entry read_slot
    settle_slot unregister remove_call
after_await = refl

await_answers_body : (await_call 5 1 outcome_arrives [] submitted).1 ≡ body
unfolding run register attach_task owned_entry get insert remove await_call await_entry read_slot
    settle_slot unregister remove_call
await_answers_body = refl

await_consumes_example :
    HasTimedOut
      (run outcome_arrives submitted)
      (get 1 (run outcome_arrives submitted).slots)
      (await_call 5 1 outcome_arrives [] submitted)
    ⊎ IsSpent 5 1 [] [] (run [] ((await_call 5 1 outcome_arrives [] submitted).0))
await_consumes_example =
    await_consumes 5 1 first_call outcome_arrives [] [] [] [] submitted first_call_registered
      submitted-IsConsistent (omega (arith, next_call_issued)) (omega (arith, after_await))

settled_wait_ends_example :
    let r =
      await_call 5 1
        (closes 2 ∷ [] ++ completes 1 body ∷ reads 2 ∷ [])
        (aborts 40 ∷ [])
        submitted in
    (owned_entry 5 1 (r.0).registry ≡ none)
    × ((r.1 ≡ err closed_failure)
        ⊎ (get 1 (perform (completes 1 body) (run (closes 2 ∷ []) submitted)).slots
            ≡ some (ready (r.1))))
settled_wait_ends_example =
    settled_wait_ends 5 1 first_call (closes 2 ∷ []) (reads 2 ∷ []) (aborts 40 ∷ [])
      (completes 1 body) submitted first_call_registered refl submitted-IsConsistent
      (omega (arith, next_call_issued))

after_release : (release_call 5 1 [] [] submitted).next_call ≡ 3
unfolding run register attach_task owned_entry get insert remove release_call settle_slot unregister
    remove_call
after_release = refl

released_call_gone_example :
    let s = release_call 5 1 [] [] submitted in
    (get 1 s.slots ≢ some pending)
    × ((task : ℕ) → first_call.task ≡ some task → elem task s.aborted ≡ true)
    × (await_call 5 1 [] [] (run (registers 5 true ∷ []) s)
        ≡ (run (registers 5 true ∷ []) s, err closed_failure))
released_call_gone_example =
    released_call_gone 5 1 first_call [] [] (registers 5 true ∷ []) [] [] submitted
      first_call_registered submitted-IsConsistent (omega (arith, next_call_issued))
      (omega (arith, after_release))

view-perform_example :
    view 5 (perform (unregisters_owner 9) submitted) 1
    ≡ deliver 5 (granted (unregisters_owner 9) submitted) (unregisters_owner 9) (view 5 submitted) 1
view-perform_example = view-perform (unregisters_owner 9) 5 1 submitted submitted-IsConsistent

foreign_run_unseen_example :
    view 5 (run (unregisters 9 1 ∷ unregisters_owner 9 ∷ registers 9 true ∷ []) submitted) 1
    ≡ view 5 submitted 1
foreign_run_unseen_example =
    foreign_run_unseen (unregisters 9 1 ∷ unregisters_owner 9 ∷ registers 9 true ∷ []) 5 1 submitted
      (omega (arith, next_call_issued)) submitted-IsConsistent (ground arith)

foreign_call : owned_entry 9 1 submitted.registry ≡ none
unfolding run register attach_task owned_entry get insert
foreign_call = refl

new_owner_id_ends_example :
    (owner : ℕ) × (new_owner_id (0 ∷ max_call_id ∷ [] ++ 11 ∷ []) ≡ some owner)
    × (0 < owner)
    × (owner < max_call_id)
new_owner_id_ends_example = new_owner_id_ends (0 ∷ max_call_id ∷ []) [] 11 (ground arith)

abbrev gaps : ℕ → List Section
gaps slot = completes 2 body ∷ aborts slot ∷ []

released_few :
    submitted.next_call + 1 + length (close_sections gaps ((unregister_owner 5 submitted).1)) ≡ 7
unfolding run register attach_task owned_entry get insert remove unregister_owner remove_call keys
    retain
released_few = refl
