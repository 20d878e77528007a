-- ===== src/Calls/Runs.antt =====
-- Runs of sections: what holds after any number of them.
use ocaml_temporal.Base.{
  ℕ, ◌+◌, ◌^◌, ◌<◌, ◌≡◌, refl, subst, Option, some, List, [], ◌∷◌, ◌++◌, nat_eq, length, arith, inl,
  inr, ◌∙◌,
}
use ocaml_temporal.Base.Map.{get, count_if}
use ocaml_temporal.Calls.State.{Calls, SlotState, no_calls}
use ocaml_temporal.Calls.System.{Section, perform, run}
use ocaml_temporal.Calls.Consistent.{IsConsistent}
use ocaml_temporal.Calls.Invariant.{perform-IsConsistent}
use ocaml_temporal.Calls.History.{Later, HasLater, IsAfter, perform-IsAfter}

pub run-append : (xs ys : List Section) (s : Calls) → run (xs ++ ys) s ≡ run ys (run xs s)
unfolding run
run-append [] ys s = refl
run-append (x ∷ xs) ys s = run-append xs ys (perform x s)

Later-trans : (a b c : SlotState) → Later a b → Later b c → Later a c
Later-trans a b c (inl e) h = subst (λ x. Later x c) e h
Later-trans a b c (inr (inl e)) h = inr (inl e)
Later-trans a b c (inr (inr e)) (inl f) = inr (inr (f ∙ e))
Later-trans a b c (inr (inr e)) (inr (inl f)) = ground (arith, e, f)
Later-trans a b c (inr (inr e)) (inr (inr f)) = inr (inr f)

HasLater-trans :
    (a : SlotState) (b c : Option SlotState)
    → HasLater a b
    → ((st : SlotState) → b ≡ some st → HasLater st c)
    → HasLater a c
HasLater-trans a b c (st, e, l) h = let (to, f, m) = h st e in (to, f, Later-trans a st to l m)

IsAfter-trans : (m n : ℕ) (a b c : Calls) → IsAfter m a b → IsAfter n b c → IsAfter (m + n) a c
IsAfter-trans m n a b c g h = record {
  not_less = omega (arith, g.not_less, h.not_less);
  not_more = omega (arith, g.not_more, h.not_more);
  slot = λ id st e. HasLater-trans st _ _ (g.slot id st e) (h.slot id);
  entry = λ id x e lt.
      let (y, f, p) = h.entry id x e (omega (arith, lt, g.not_less)) in
      let (z, k, q) = g.entry id y f lt in (z, k, p ∙ q);
}

-- A run that is short enough for the identifiers not to wrap.
abbrev pub Fits : List Section → Calls → Type 0
Fits xs s = s.next_call + length xs < 2 ^ 64

pub run_facts :
    (xs : List Section) (s : Calls)
    → Fits xs s
    → IsConsistent s
    → IsConsistent (run xs s) × IsAfter (length xs) s (run xs s)
unfolding run
run_facts [] s fits v = (
  v,
  record {
    not_less = omega arith;
    not_more = omega arith;
    slot = λ id st e. (st, e, inl refl);
    entry = λ id c e _. (c, e, refl);
  },
)
run_facts (x ∷ xs) s fits v =
    let step = perform-IsAfter x s (omega (arith, fits)) v in
    let rest =
      run_facts xs (perform x s) (omega (arith, fits, step.not_more))
        (perform-IsConsistent x s (omega (arith, fits)) v) in
    (
      rest.0,
      subst (λ n. IsAfter n s (run xs (perform x s))) (omega arith)
          (IsAfter-trans 1 (length xs) s (perform x s) (run xs (perform x s)) step (rest.1)),
    )

no_calls-IsConsistent : IsConsistent no_calls
unfolding get count_if
no_calls-IsConsistent = record {
  counts = record {
    calls_distinct = tt;
    owners_distinct = tt;
    counted = λ o. refl;
    positive = λ o. ground arith;
  };
  entry = λ id c. ground arith;
  issued = λ id. ground arith;
  few = omega arith;
}

-- Whatever fewer than 2 ^ 64 - 1 critical sections run in whatever order: an owner's count is the
-- number of calls registered for it, an owner without calls has no count, every registered call
-- has its own slot under its own identifier, no identifier is issued twice, and there are fewer
-- registered calls than identifiers.
pub calls_invariant : (xs : List Section) → length xs + 1 < 2 ^ 64 → IsConsistent (run xs no_calls)
calls_invariant xs fits = (run_facts xs no_calls (omega (arith, fits)) no_calls-IsConsistent).0

-- From any consistent registry, whatever sections run in whatever order, a slot stays there and
-- only goes on: from pending to an outcome or to closed, and from an outcome to closed.
pub run-HasLater :
    (xs : List Section) (s : Calls) (slot : ℕ) (st : SlotState)
    → Fits xs s
    → IsConsistent s
    → get slot s.slots ≡ some st
    → HasLater st (get slot (run xs s).slots)
run-HasLater xs s slot st fits v e = (run_facts xs s fits v).1.slot slot st e
