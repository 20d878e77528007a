-- ===== src/Workflow/Responses.antt =====
-- rust/core-bridge/src/workflow_protocol.rs: the responses to the updates of one activation.
use ocaml_temporal.Workflow.Completions.{
  response_of, advance, check_phases, record_phase, entry, Phases,
}
use ocaml_temporal.Workflow.Commands.{
  UpdateResponseResult, update_accepted, update_rejected, update_completed, CompletionCommand,
}
use ocaml_temporal.Base.{
  ◌≡◌, Bytes, Option, none, some, List, [], ◌∷◌, if◌then◌else◌, bytes_eq, Bool, true, false, ok,
  arith, ◌↔◌, refl, subst, ◌>>=◌, bytes_key, sym, bytes_eq_iff, bind-ok,
}
use ocaml_temporal.Base.Map.{get, insert, get-insert}

abbrev pub with_response :
    Bytes
    → Option (Bytes × UpdateResponseResult)
    → List UpdateResponseResult
    → List UpdateResponseResult
with_response id none rs = rs
with_response id (some (key, r)) rs = if bytes_eq key id then r ∷ rs else rs

-- The responses to one update, in the order of the commands.
unfoldable pub responses : Bytes → List CompletionCommand → List UpdateResponseResult
responses id [] = []
responses id (c ∷ cs) = with_response id (response_of c) (responses id cs)

abbrev pub is_acceptance : UpdateResponseResult → Bool
is_acceptance update_accepted = true
is_acceptance _ = false

-- Nothing, one response, or an acceptance and then the answer.
abbrev pub IsTwoPhase : List UpdateResponseResult → Type 0
IsTwoPhase [] = Unit {0}
IsTwoPhase (r ∷ []) = Unit {0}
IsTwoPhase (r ∷ s ∷ []) = (is_acceptance r ≡ true) × (is_acceptance s ≡ false)
IsTwoPhase (r ∷ s ∷ t ∷ rs) = ⊥

-- One phase after the other, by the code's own test.
abbrev Advances : Bool × Bool → List UpdateResponseResult → Type 0
Advances p [] = Unit {0}
Advances p (r ∷ rs) = (q : Bool × Bool) × (advance p r ≡ ok q) × Advances q rs

Advances-answered :
    (a : Bool) (r : UpdateResponseResult) (rs : List UpdateResponseResult)
    → ¬ (Advances (a, true) (r ∷ rs))
Advances-answered a update_accepted rs (q, h, _) = ground (arith, h)
Advances-answered a (update_rejected f) rs (q, h, _) = ground (arith, h)
Advances-answered a (update_completed p) rs (q, h, _) = ground (arith, h)

-- What is left after a first response.
Advances-after :
    (r : UpdateResponseResult) (rs : List UpdateResponseResult)
    → Advances (false, false) (r ∷ rs)
      ↔ (if is_acceptance r then Advances (true, false) rs else Advances (false, true) rs)
Advances-after update_accepted rs =
    (λ (q, h, g). subst (λ p. Advances p rs) (ground (arith, h)) g, λ g. ((true, false), refl, g))
Advances-after (update_rejected f) rs =
    (λ (q, h, g). subst (λ p. Advances p rs) (ground (arith, h)) g, λ g. ((false, true), refl, g))
Advances-after (update_completed p) rs =
    (λ (q, h, g). subst (λ p. Advances p rs) (ground (arith, h)) g, λ g. ((false, true), refl, g))

-- After an acceptance there is at most the answer.
Advances-accepted :
    (r : UpdateResponseResult) (rs : List UpdateResponseResult)
    → Advances (true, false) (r ∷ rs)
    → (is_acceptance r ≡ false) × Advances (true, true) rs
Advances-accepted update_accepted rs (q, h, g) = ground (arith, h)
Advances-accepted (update_rejected f) rs (q, h, g) =
    (refl, subst (λ p. Advances p rs) (ground (arith, h)) g)
Advances-accepted (update_completed p) rs (q, h, g) =
    (refl, subst (λ p. Advances p rs) (ground (arith, h)) g)

Advances-IsTwoPhase : (rs : List UpdateResponseResult) → Advances (false, false) rs → IsTwoPhase rs
Advances-IsTwoPhase [] h = tt
Advances-IsTwoPhase (r ∷ []) h = tt
Advances-IsTwoPhase (update_accepted ∷ s ∷ []) h =
    (refl, (Advances-accepted s [] ((Advances-after update_accepted (s ∷ [])).0 h)).0)
Advances-IsTwoPhase (update_accepted ∷ s ∷ t ∷ rs) h =
    Advances-answered true t rs
      (Advances-accepted s (t ∷ rs) ((Advances-after update_accepted (s ∷ t ∷ rs)).0 h)).1
Advances-IsTwoPhase (update_rejected f ∷ s ∷ []) h =
    elim (Advances-answered false s [] ((Advances-after (update_rejected f) (s ∷ [])).0 h)) [ ]
Advances-IsTwoPhase (update_completed p ∷ s ∷ []) h =
    elim (Advances-answered false s [] ((Advances-after (update_completed p) (s ∷ [])).0 h)) [ ]
Advances-IsTwoPhase (update_rejected f ∷ s ∷ t ∷ rs) h =
    Advances-answered false s (t ∷ rs) ((Advances-after (update_rejected f) (s ∷ t ∷ rs)).0 h)
Advances-IsTwoPhase (update_completed p ∷ s ∷ t ∷ rs) h =
    Advances-answered false s (t ∷ rs) ((Advances-after (update_completed p) (s ∷ t ∷ rs)).0 h)

IsTwoPhase-Advances : (rs : List UpdateResponseResult) → IsTwoPhase rs → Advances (false, false) rs
IsTwoPhase-Advances [] h = tt
IsTwoPhase-Advances (update_accepted ∷ []) h = ((true, false), refl, tt)
IsTwoPhase-Advances (update_rejected f ∷ []) h = ((false, true), refl, tt)
IsTwoPhase-Advances (update_completed p ∷ []) h = ((false, true), refl, tt)
IsTwoPhase-Advances (update_accepted ∷ update_accepted ∷ []) h = ground (arith, h)
IsTwoPhase-Advances (update_accepted ∷ update_rejected f ∷ []) h =
    ((true, false), refl, ((true, true), refl, tt))
IsTwoPhase-Advances (update_accepted ∷ update_completed p ∷ []) h =
    ((true, false), refl, ((true, true), refl, tt))
IsTwoPhase-Advances (update_rejected f ∷ s ∷ []) h = ground (arith, h)
IsTwoPhase-Advances (update_completed p ∷ s ∷ []) h = ground (arith, h)
IsTwoPhase-Advances (r ∷ s ∷ t ∷ rs) h = elim h [ ]

entry-insert :
    (key id : Bytes) (p : Bool × Bool) (phases : Phases)
    → entry id (insert key p phases) ≡ (if bytes_eq key id then p else entry id phases)
entry-insert key id p phases = ground (arith, get-insert key id p phases)

-- One response in front, seen from the update `id`.
Advances-with_response :
    (key id : Bytes) (r : UpdateResponseResult) (rs : List UpdateResponseResult) (p : Bool × Bool)
    (phases : Phases)
    → advance (entry key phases) r ≡ ok p
    → Advances (entry id (insert key p phases)) rs
      ↔ Advances (entry id phases) (with_response id (some (key, r)) rs)
Advances-with_response key id r rs p phases e =
    subst (λ q. Advances q rs ↔ Advances (entry id phases) (with_response id (some (key, r)) rs))
      (sym (entry-insert key id p phases)) (pick (bytes_eq key id) (bytes_eq_iff key id).0)
  where
    pick :
        (b : Bool)
        → (b ≡ true → key ≡ id)
        → Advances (if b then p else entry id phases) rs
          ↔ Advances (entry id phases) (if b then r ∷ rs else rs)
    pick false same = (λ x. x, λ x. x)
    pick true same = (
      λ x. (p, subst (λ i. advance (entry i phases) r ≡ ok p) (same refl) e, x),
      λ (q, f, x). subst (λ z. Advances z rs) (ground (arith, e, f, same refl)) x,
    )

-- The code's map advances the responses of each update apart from those of the others.
check_phases_sound :
    (cs : List CompletionCommand) (phases : Phases) (id : Bytes)
    → check_phases cs phases ≡ ok tt
    → Advances (entry id phases) (responses id cs)
unfolding check_phases responses
check_phases_sound [] phases id h = tt
check_phases_sound (c ∷ cs) phases id h =
    go (response_of c) (λ later. check_phases_sound cs later id) h
  where
    go :
        (o : Option (Bytes × UpdateResponseResult))
        → ((later : Phases)
            → check_phases cs later ≡ ok tt
            → Advances (entry id later) (responses id cs))
        → (record_phase o phases >>= check_phases cs) ≡ ok tt
        → Advances (entry id phases) (with_response id o (responses id cs))
    go none rest h = rest phases h
    go (some (key, r)) rest h =
        let (later, e, g) = bind-ok (record_phase (some (key, r)) phases) (check_phases cs) tt h in
        let (p, f, same) =
          bind-ok (advance (entry key phases) r) (λ q. ok (insert key q phases)) later e in
        (Advances-with_response key id r (responses id cs) p phases f).0 (
          subst (λ x. Advances (entry id x) (responses id cs)) (ground (arith, same))
            (rest later g))

check_phases_complete :
    (cs : List CompletionCommand) (phases : Phases)
    → ((id : Bytes) → Advances (entry id phases) (responses id cs))
    → check_phases cs phases ≡ ok tt
unfolding check_phases responses
check_phases_complete [] phases h = refl
check_phases_complete (c ∷ cs) phases h = go (response_of c) (check_phases_complete cs) h
  where
    go :
        (o : Option (Bytes × UpdateResponseResult))
        → ((later : Phases)
            → ((id : Bytes) → Advances (entry id later) (responses id cs))
            → check_phases cs later ≡ ok tt)
        → ((id : Bytes) → Advances (entry id phases) (with_response id o (responses id cs)))
        → (record_phase o phases >>= check_phases cs) ≡ ok tt
    go none rest h = rest phases h
    go (some (key, r)) rest h =
        let (p, e, _) : Advances (entry key phases) (r ∷ responses key cs) =
          subst
            (λ b.
              Advances (entry key phases) (if b then r ∷ responses key cs else responses key cs))
            ((bytes_eq_iff key key).1 refl) (h key) in
        subst (λ m. ((m >>= λ q. ok (insert key q phases)) >>= check_phases cs) ≡ ok tt) (sym e)
          (rest (insert key p phases)
            λ id. (Advances-with_response key id r (responses id cs) p phases e).1 (h id))

-- The second loop accepts the commands exactly if every update has its responses in two phases.
pub check_phases_iff :
    (cs : List CompletionCommand)
    → (check_phases cs [] ≡ ok tt) ↔ ((id : Bytes) → IsTwoPhase (responses id cs))
unfolding get
check_phases_iff cs = (
  λ h id. Advances-IsTwoPhase (responses id cs) (check_phases_sound cs [] id h),
  λ h. check_phases_complete cs [] λ id. IsTwoPhase-Advances (responses id cs) (h id),
)
