-- ===== src/Calls/Isolation.antt =====
-- What other runtimes do to the registry is not seen by an owner.
use ocaml_temporal.Base.{
  ℕ, ◌≡◌, ◌≢◌, refl, ◌∙◌, Option, none, some, List, [], ◌∷◌, nat_eq, arith, err, true,
}
use ocaml_temporal.Base.Map.{elem}
use ocaml_temporal.Calls.State.{
  Calls, RegisteredCall, Registry, close_slot, abort, unregister, remove_call, owned_entry,
  attach_task, unregistered_calls, closed_failure, unregister, remove_call, abort,
}
use ocaml_temporal.Calls.System.{
  Section, registers, attaches, unregisters, unregisters_owner, completes, closes, reads, aborts,
  perform, run, await_call, release_call,
}
use ocaml_temporal.Calls.Consistent.{IsConsistent}
use ocaml_temporal.Calls.Invariant.{perform-IsConsistent}
use ocaml_temporal.Calls.History.{perform-IsAfter}
use ocaml_temporal.Calls.Runs.{Fits}
use ocaml_temporal.Calls.Mailbox.{view, deliver, granted, view-perform}

-- A section of another owner, or on a slot that is not one of `owner`'s calls.
abbrev pub IsForeign : ℕ → Section → Calls → Type 0
IsForeign owner (registers o _) s = o ≢ owner
IsForeign owner (attaches o _ _) s = o ≢ owner
IsForeign owner (unregisters o _) s = o ≢ owner
IsForeign owner (unregisters_owner o) s = o ≢ owner
IsForeign owner (completes slot _) s = view owner s slot ≡ none
IsForeign owner (closes slot) s = view owner s slot ≡ none
IsForeign owner (reads slot) s = view owner s slot ≡ none
IsForeign owner (aborts _) s = Unit {0}

abbrev pub AreForeign : ℕ → List Section → Calls → Type 0
AreForeign owner [] s = Unit {0}
AreForeign owner (x ∷ xs) s = IsForeign owner x s × AreForeign owner xs (perform x s)

remove_call_none :
    (Q : Registry × Option RegisteredCall → Type 0) (owner call : ℕ) (r : Registry)
    → owned_entry owner call r ≡ none
    → Q (r, none)
    → Q (remove_call owner call r)
unfolding remove_call
remove_call_none Q owner call r e q = rw (remove_call, e) q

view-IsForeign :
    (x : Section) (owner id : ℕ) (s : Calls)
    → IsConsistent s
    → IsForeign owner x s
    → view owner (perform x s) id ≡ view owner s id
view-IsForeign x owner id s v h = view-perform x owner id s v ∙ same x h
  where
    same :
        (x : Section)
        → IsForeign owner x s
        → deliver owner (granted x s) x (view owner s) id ≡ view owner s id
    same (registers o reserved) h = ground (arith, h, granted (registers o reserved) s)
    same (attaches o call task) h = refl
    same (unregisters o call) h = ground (arith, h)
    same (unregisters_owner o) h = ground (arith, h)
    same (completes slot out) h = ground (arith, h)
    same (closes slot) h = ground (arith, h)
    same (reads slot) h = ground (arith, h)
    same (aborts task) h = refl

-- However many critical sections others run, with their own owner or on slots that are not
-- `owner`'s calls, each call of `owner` is registered as before, with its slot as before.
pub foreign_run_unseen :
    (xs : List Section) (owner id : ℕ) (s : Calls)
    → Fits xs s
    → IsConsistent s
    → AreForeign owner xs s
    → view owner (run xs s) id ≡ view owner s id
unfolding run
foreign_run_unseen [] owner id s fits v h = refl
foreign_run_unseen (x ∷ xs) owner id s fits v h =
    let step = perform-IsAfter x s (omega (arith, fits)) v in
    foreign_run_unseen xs owner id (perform x s) (omega (arith, fits, step.not_more))
      (perform-IsConsistent x s (omega (arith, fits)) v) (h.1)
    ∙ view-IsForeign x owner id s v (h.0)

released_nothing :
    (owner call : ℕ) (before_close before_abort : List Section) (s : Calls)
    → owned_entry owner call s.registry ≡ none
    → release_call owner call before_close before_abort s ≡ s
unfolding release_call unregister remove_call
released_nothing owner call before_close before_abort s e =
    remove_call_none
      (λ x.
        elim (x.1) [
          | none ↦ record s { registry = x.0 }
          | some c ↦ abort c.task (
              run before_abort (close_slot c.slot (run before_close (record s { registry = x.0 }))))
        ]
        ≡ s)
      owner call s.registry e refl

-- A pair of owner and call that names no call registered for that owner, be the identifier
-- retired, unknown or another owner's: an await answers the closed failure at once, a release does
-- nothing, neither changes anything, a task that is attached to it is aborted and nothing else
-- changes, and the call is reported as unregistered.
pub unaddressed_call :
    (owner call task : ℕ) (calls : List ℕ) (during after : List Section) (s : Calls)
    → owned_entry owner call s.registry ≡ none
    → (await_call owner call during after s ≡ (s, err closed_failure))
      × (release_call owner call during after s ≡ s)
      × (attach_task owner call task s ≡ record s { aborted = task ∷ s.aborted })
      × (elem call (unregistered_calls owner (call ∷ calls) s) ≡ true)
unfolding await_call release_call attach_task unregister remove_call unregistered_calls elem
unaddressed_call owner call task calls during after s e = (
  rw (await_call, e) refl,
  released_nothing owner call during after s e,
  rw (attach_task, e) refl,
  rw (e) (ground arith),
)
