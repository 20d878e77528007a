-- ===== src/Calls/Release.antt =====
-- A waiter is not stranded, and a released call is gone.
use ocaml_temporal.Base.{
  ℕ, ◌+◌, ◌^◌, ◌<◌, ◌≡◌, ◌≢◌, ◌⊎◌, refl, sym, ap, subst, Option, none, some, List, ◌∷◌, ◌++◌,
  nat_eq, length, length-append, arith, inl, inr, Bool, true, false, err, ◌==◌, ◌∙◌,
}
use ocaml_temporal.Base.Map.{get, get-insert, elem}
use ocaml_temporal.Abi.{Operation}
use ocaml_temporal.Calls.State.{
  Calls, RegisteredCall, SlotState, pending, ready, closed, owned_entry, unregister, settle_slot,
  settle, close_slot, abort, closed_failure, remove_call,
}
use ocaml_temporal.Calls.System.{
  Section, registers, attaches, unregisters, unregisters_owner, completes, closes, reads, aborts,
  perform, run, await_call, release_call,
}
use ocaml_temporal.Calls.Consistent.{IsConsistent}
use ocaml_temporal.Calls.Invariant.{perform-IsConsistent}
use ocaml_temporal.Calls.History.{Later, HasLater, perform-IsAfter}
use ocaml_temporal.Calls.Runs.{run_facts, run-append, Fits}
use ocaml_temporal.Calls.Await.{
  Answers, IsRetired, owned_slot, IsRetired-run, Later-spent, unregister-IsRetired,
}
use ocaml_temporal.Calls.Once.{await_call_ends, retired_answer}

-- What ends the wait for a slot.
abbrev pub is_settling : ℕ → Section → Bool
is_settling call (completes slot _) = slot == call
is_settling call (closes slot) = slot == call
is_settling call _ = false

settle_slot_spends :
    (call : ℕ) (to : SlotState) (s : Calls) (st : SlotState)
    → get call s.slots ≡ some st
    → to ≢ pending
    → (st' : SlotState) × (get call (settle_slot call to s).slots ≡ some st') × (st' ≢ pending)
unfolding settle_slot
settle_slot_spends call to s st e n =
    rw (settle_slot, e)
      (settle to st, ground (arith, get-insert call call (settle to st) s.slots), go st)
  where
    go : (st : SlotState) → settle to st ≢ pending
    go pending = n
    go (ready o) = ground arith
    go closed = ground arith

pub settling_spends :
    (call : ℕ) (x : Section) (s : Calls) (st : SlotState)
    → is_settling call x ≡ true
    → get call s.slots ≡ some st
    → (st' : SlotState) × (get call (perform x s).slots ≡ some st') × (st' ≢ pending)
settling_spends call (completes slot o) s st h e =
    subst
      (λ k.
        (st' : SlotState) × (get call (settle_slot k (ready o) s).slots ≡ some st')
        × (st' ≢ pending))
      (ground (arith, h)) (settle_slot_spends call (ready o) s st e (ground arith))
settling_spends call (closes slot) s st h e =
    subst
      (λ k.
        (st' : SlotState) × (get call (settle_slot k closed s).slots ≡ some st') × (st' ≢ pending))
      (ground (arith, h)) (settle_slot_spends call closed s st e (ground arith))
settling_spends call (registers _ _) s st h e = ground (arith, h)
settling_spends call (attaches _ _ _) s st h e = ground (arith, h)
settling_spends call (unregisters _ _) s st h e = ground (arith, h)
settling_spends call (unregisters_owner _) s st h e = ground (arith, h)
settling_spends call (reads _) s st h e = ground (arith, h)
settling_spends call (aborts _) s st h e = ground (arith, h)

-- The slot after a section that settled it, and after any others.
settled_run :
    (call : ℕ) (before rest : List Section) (x : Section) (s : Calls) (st : SlotState)
    → is_settling call x ≡ true
    → get call s.slots ≡ some st
    → s.next_call + length (before ++ x ∷ rest) < 2 ^ 64
    → IsConsistent s
    → (a : SlotState) × (get call (perform x (run before s)).slots ≡ some a)
      × (a ≢ pending)
      × HasLater a (get call (run (before ++ x ∷ rest) s).slots)
unfolding run
settled_run call before rest x s st h e fits v =
    let count = length-append before (x ∷ rest) in
    let (w, g) = run_facts before s (omega (arith, fits, count)) v in
    let (st', e', _) = g.slot call st e in
    let (a, f, n) = settling_spends call x (run before s) st' h e' in
    let next = perform-IsAfter x (run before s) (omega (arith, fits, count, g.not_more)) w in
    let u = perform-IsConsistent x (run before s) (omega (arith, fits, count, g.not_more)) w in
    let (_, k) =
      run_facts rest (perform x (run before s))
        (omega (arith, fits, count, g.not_more, next.not_more)) u in
    (
      a,
      f,
      n,
      subst (λ z. HasLater a (get call z.slots)) (sym (run-append before (x ∷ rest) s))
          (k.slot call a f),
    )

ready_before : (a : SlotState) (out : Operation) → Later a (ready out) → a ≢ pending → a ≡ ready out
ready_before a out l n = ground (arith, l, n)

answer_of :
    (a : SlotState) (found : Option SlotState) (out : Operation)
    → a ≢ pending
    → HasLater a found
    → (st : SlotState) × (found ≡ some st) × Answers st out
    → (out ≡ err closed_failure) ⊎ (a ≡ ready out)
answer_of a found out n (b, f, l) (st, e, inr (_, p)) = inl p
answer_of a found out n (b, f, l) (st, e, inl p) =
    inr (ready_before a out (subst (Later a) (ground (arith, e, f, p)) l) n)

-- If a section that completes or closes the slot of a registered call is among those that others
-- run while an await waits, at whatever place, then the await retires the call, and answers the
-- closed failure or the outcome that stood in the slot right after that section.
pub settled_wait_ends :
    (owner call : ℕ) (c : RegisteredCall) (before rest after : List Section) (x : Section)
    (s : Calls)
    → owned_entry owner call s.registry ≡ some c
    → is_settling call x ≡ true
    → IsConsistent s
    → s.next_call + length (before ++ x ∷ rest) + length after + 1 < 2 ^ 64
    → let r = await_call owner call (before ++ x ∷ rest) after s in
      (owned_entry owner call (r.0).registry ≡ none)
      × ((r.1 ≡ err closed_failure)
          ⊎ (get call (perform x (run before s)).slots ≡ some (ready (r.1))))
settled_wait_ends owner call c before rest after x s e h v small =
    let (_, _, (st, e')) = owned_slot owner call s c v e in
    let (a, f, n, l) = settled_run call before rest x s st h e' (omega (arith, small)) v in
    elim (await_call_ends owner call c (before ++ x ∷ rest) after s e v small) [
      | inl (p, _) ↦ ground (arith, p, l.1, n, Later-spent a (l.0) (l.2))
      | inr (t, retired, _) ↦ (
        retired.gone,
        elim (answer_of a _ _ n l t) [ inl p ↦ inl p | inr p ↦ inr (f ∙ ap some p) ],
      )
    ]

released_entry :
    (owner call : ℕ) (c : RegisteredCall) (s : Calls)
    → owned_entry owner call s.registry ≡ some c
    → (unregister owner call s).1 ≡ some c
unfolding unregister remove_call
released_entry owner call c s e = rw (unregister, remove_call, e) refl

-- What `abort` leaves, and what it adds.
abort_facts :
    (task : Option ℕ) (s : Calls)
    → ((abort task s).slots ≡ s.slots)
      × ((abort task s).registry ≡ s.registry)
      × ((abort task s).next_call ≡ s.next_call)
      × ((t : ℕ) → task ≡ some t → elem t (abort task s).aborted ≡ true)
unfolding elem
abort_facts none s = (refl, refl, refl, λ t. ground arith)
abort_facts (some task) s = (refl, refl, refl, λ t. ground arith)

abort-IsRetired :
    (owner call : ℕ) (task : Option ℕ) (s : Calls)
    → IsRetired owner call s
    → IsRetired owner call (abort task s)
abort-IsRetired owner call none s r = r
abort-IsRetired owner call (some task) s r = record {
  gone = r.gone;
  used = r.used;
  consistent = record {
    counts = r.consistent.counts;
    entry = r.consistent.entry;
    issued = r.consistent.issued;
    few = r.consistent.few;
  };
}

-- The steps of a release after the call is unregistered.
released_rest :
    (owner call : ℕ) (task : Option ℕ) (before_close before_abort : List Section) (u : Calls)
    (st : SlotState)
    → IsRetired owner call u
    → get call u.slots ≡ some st
    → u.next_call + length before_close + length before_abort + 1 < 2 ^ 64
    → let s' = abort task (run before_abort (close_slot call (run before_close u))) in
      (get call s'.slots ≢ some pending)
      × ((t : ℕ) → task ≡ some t → elem t s'.aborted ≡ true)
      × IsRetired owner call s'
unfolding run settle_slot
released_rest owner call task before_close before_abort u st r e small =
    let (w, g) = run_facts before_close u (omega (arith, small)) (r.consistent) in
    let (st', e', _) = g.slot call st e in
    let (a, f, n) = settle_slot_spends call closed (run before_close u) st' e' (ground arith) in
    let shut =
      IsRetired-run owner call (before_close ++ closes call ∷ before_abort) u
        (omega (arith, small, length-append before_close (closes call ∷ before_abort))) r in
    let closing =
      perform-IsAfter (closes call) (run before_close u) (omega (arith, small, g.not_more)) w in
    let (_, k) =
      run_facts before_abort (close_slot call (run before_close u))
        (omega (arith, small, g.not_more, closing.not_more))
        (perform-IsConsistent (closes call) (run before_close u) (omega (arith, small, g.not_more))
          w) in
    let (b, p, l) = k.slot call a f in
    let facts = abort_facts task (run before_abort (close_slot call (run before_close u))) in
    (
      ground (arith, facts.0, p, Later-spent a b l n),
      facts.3,
      abort-IsRetired owner call task _ (
          subst (IsRetired owner call) (run-append before_close (closes call ∷ before_abort) u)
            shut),
    )

release_steps :
    (owner call : ℕ) (c : RegisteredCall) (before_close before_abort : List Section) (s : Calls)
    → owned_entry owner call s.registry ≡ some c
    → c.slot ≡ call
    → release_call owner call before_close before_abort s
      ≡ abort c.task
          (run before_abort (close_slot call (run before_close ((unregister owner call s).0))))
unfolding release_call
release_steps owner call c before_close before_abort s e same =
    rw (release_call, released_entry owner call c s e)
      (ap
        (λ k.
          abort c.task
            (run before_abort (close_slot k (run before_close ((unregister owner call s).0)))))
        same)

-- A release of a registered call, whatever others do between its steps: the slot is no longer
-- pending, so its waiters wake; the task is among those aborted; and after any later sections an
-- await by the owner is answered by the closed failure and changes nothing.
pub released_call_gone :
    (owner call : ℕ) (c : RegisteredCall)
    (before_close before_abort later during after : List Section) (s : Calls)
    → owned_entry owner call s.registry ≡ some c
    → IsConsistent s
    → s.next_call + length before_close + length before_abort + 2 < 2 ^ 64
    → let s' = release_call owner call before_close before_abort s in
      Fits later s'
      → (get call s'.slots ≢ some pending)
        × ((task : ℕ) → c.task ≡ some task → elem task s'.aborted ≡ true)
        × (await_call owner call during after (run later s') ≡ (run later s', err closed_failure))
unfolding unregister
released_call_gone owner call c before_close before_abort later during after s e v small fits =
    let (same, lt, (st, f)) = owned_slot owner call s c v e in
    let start = unregister-IsRetired owner call s v lt (omega (arith, small)) in
    let (n, t, r) =
      released_rest owner call c.task before_close before_abort ((unregister owner call s).0) st
        start f (omega (arith, small)) in
    let q = release_steps owner call c before_close before_abort s e same in
    subst
      (λ s'.
        Fits later s'
        → (get call s'.slots ≢ some pending)
          × ((task : ℕ) → c.task ≡ some task → elem task s'.aborted ≡ true)
          × (await_call owner call during after (run later s')
              ≡ (run later s', err closed_failure)))
      (sym q) (λ g. (n, t, retired_answer owner call later during after _ g r)) fits
