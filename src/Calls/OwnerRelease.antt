-- ===== src/Calls/OwnerRelease.antt =====
-- The release of an owner: all its calls are gone, and no waiter of theirs is left waiting.
use ocaml_temporal.Base.{
  ℕ, ◌+◌, ◌^◌, ◌<◌, ◌≡◌, ◌≢◌, refl, sym, ap, subst, Option, none, some, List, [], ◌∷◌, ◌++◌, map,
  nat_eq, ◌==◌, length, length-append, is_some, arith, inl, inr, true, false, Bool-cases, ◌||◌, ◌∙◌,
}
use ocaml_temporal.Base.Map.{get, elem}
use ocaml_temporal.Calls.State.{
  Calls, RegisteredCall, Registry, SlotState, pending, owned_entry, owned_ids, remove_call,
  remove_calls, unregister_owner, close_slot, cons_some,
}
use ocaml_temporal.Calls.System.{
  Section, unregisters_owner, closes, perform, run, close_all, release_owner,
}
use ocaml_temporal.Calls.Consistent.{IsConsistent}
use ocaml_temporal.Calls.Invariant.{perform-IsConsistent}
use ocaml_temporal.Calls.History.{perform-IsAfter}
use ocaml_temporal.Calls.Runs.{run_facts, run-append, Fits}
use ocaml_temporal.Calls.Await.{IsRetired, IsRetired-run, owned_slot, Later-spent}
use ocaml_temporal.Calls.Release.{settling_spends}
use ocaml_temporal.Calls.Owned.{owned-remove_call, owned-unregister_owner, elem-owned_ids}

-- The sections that the closing of some calls runs, with those of its gaps.
abbrev pub close_sections : (ℕ → List Section) → List RegisteredCall → List Section
close_sections gap [] = []
close_sections gap (c ∷ cs) = gap c.slot ++ closes c.slot ∷ close_sections gap cs

close_all-run :
    (gap : ℕ → List Section) (cs : List RegisteredCall) (s : Calls)
    → close_all gap cs s ≡ run (close_sections gap cs) s
unfolding close_all run
close_all-run gap [] s = refl
close_all-run gap (c ∷ cs) s =
    close_all-run gap cs (close_slot c.slot (run (gap c.slot) s))
    ∙ sym (run-append (gap c.slot) (closes c.slot ∷ close_sections gap cs) s)

abbrev pub slots_of : List RegisteredCall → List ℕ
slots_of cs = map (λ c. c.slot) cs

elem-cons_some :
    (id : ℕ) (o : Option RegisteredCall) (cs : List RegisteredCall)
    → elem id (slots_of (cons_some o cs))
      ≡ (elim o [ none ↦ false | some c ↦ c.slot == id ] || elem id (slots_of cs))
unfolding elem
elem-cons_some id none cs = refl
elem-cons_some id (some c) cs = refl

removed_entry :
    (owner call : ℕ) (r : Registry) (c : RegisteredCall)
    → owned_entry owner call r ≡ some c
    → (remove_call owner call r).1 ≡ some c
unfolding remove_call
removed_entry owner call r c e = rw (remove_call, e) refl

elem-slots_of-remove_calls :
    (owner id : ℕ) (ids : List ℕ) (r : Registry) (c : RegisteredCall)
    → owned_entry owner id r ≡ some c
    → c.slot ≡ id
    → elem id ids ≡ true
    → elem id (slots_of ((remove_calls owner ids r).1)) ≡ true
unfolding elem
elem-slots_of-remove_calls owner id [] r c e same h = ground (arith, h)
elem-slots_of-remove_calls owner id (j ∷ ids) r c e same h =
    let rest = (remove_calls owner ids ((remove_call owner j r).0)).1 in
    elem-cons_some id ((remove_call owner j r).1) rest ∙ elim (Bool-cases (j == id)) [
      | inl this ↦ ground (
        arith,
        removed_entry owner j r c
            (subst (λ k. owned_entry owner k r ≡ some c) (ground (arith, this)) e),
        same,
      )
      | inr other ↦ ground (
        arith,
        elem-slots_of-remove_calls owner id ids ((remove_call owner j r).0) c
            (ground (arith, owned-remove_call owner owner j id r, e, other)) same
            (ground (arith, h, other)),
      )
    ]

-- Closing some calls leaves none of their slots pending.
close_sections_spend :
    (gap : ℕ → List Section) (cs : List RegisteredCall) (s : Calls) (id : ℕ) (st : SlotState)
    → Fits (close_sections gap cs) s
    → IsConsistent s
    → get id s.slots ≡ some st
    → elem id (slots_of cs) ≡ true
    → get id (run (close_sections gap cs) s).slots ≢ some pending
unfolding elem run
close_sections_spend gap [] s id st fits v e h = ground (arith, h)
close_sections_spend gap (c ∷ cs) s id st fits v e h =
    let count = length-append (gap c.slot) (closes c.slot ∷ close_sections gap cs) in
    let (w, g) = run_facts (gap c.slot) s (omega (arith, fits, count)) v in
    let (st', e', _) = g.slot id st e in
    let x = closes c.slot in
    let next = perform-IsAfter x (run (gap c.slot) s) (omega (arith, fits, count, g.not_more)) w in
    let u =
      perform-IsConsistent x (run (gap c.slot) s) (omega (arith, fits, count, g.not_more)) w in
    let room : Fits (close_sections gap cs) (perform x (run (gap c.slot) s)) =
      omega (arith, fits, count, g.not_more, next.not_more) in
    let after =
      subst (λ z. get id z.slots ≢ some pending)
        (sym (run-append (gap c.slot) (x ∷ close_sections gap cs) s)) in
    after (elim (Bool-cases (c.slot == id)) [
      | inl this ↦
          let (a, f, n) = settling_spends id x (run (gap c.slot) s) st' this e' in
          let (b, p, l) =
            (run_facts (close_sections gap cs) (perform x (run (gap c.slot) s)) room u).1.slot id a
              f in
          ground (arith, p, Later-spent a b l n)
      | inr other ↦
          let (st'', e'', _) = next.slot id st' e' in
          close_sections_spend gap cs (perform x (run (gap c.slot) s)) id st'' room u e''
            (ground (arith, h, other))
    ])

-- The release of an owner, whatever others do while it closes the slots: every call that the owner
-- had is unregistered at the end, and its slot is no longer pending, so that its waiters wake.
pub released_owner_gone :
    (owner call : ℕ) (c : RegisteredCall) (gap : ℕ → List Section) (s : Calls)
    → owned_entry owner call s.registry ≡ some c
    → IsConsistent s
    → s.next_call + 1 + length (close_sections gap ((unregister_owner owner s).1)) < 2 ^ 64
    → (owned_entry owner call (release_owner owner gap s).registry ≡ none)
      × (get call (release_owner owner gap s).slots ≢ some pending)
unfolding release_owner unregister_owner
released_owner_gone owner call c gap s e v small =
    let released = (unregister_owner owner s).1 in
    let u = (unregister_owner owner s).0 in
    let (same, lt, (st, f)) = owned_slot owner call s c v e in
    let w = perform-IsConsistent (unregisters_owner owner) s (omega (arith, small)) v in
    let gone : IsRetired owner call u = record {
      gone = ground (arith, owned-unregister_owner owner owner call s v);
      used = lt;
      consistent = w;
    } in
    let listed =
      elem-slots_of-remove_calls owner call (owned_ids owner s.registry) s.registry c e same
        (elem-owned_ids owner call s.registry v.counts ∙ ap is_some e) in
    subst (λ s'. (owned_entry owner call s'.registry ≡ none) × (get call s'.slots ≢ some pending))
      (sym (close_all-run gap released u))
      (
        (IsRetired-run owner call (close_sections gap released) u (omega (arith, small)) gone).gone,
        close_sections_spend gap released u call st (omega (arith, small)) w f listed,
      )
