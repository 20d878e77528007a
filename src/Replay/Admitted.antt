-- ===== src/Replay/Admitted.antt =====
-- Which histories are admitted for replay.
use ocaml_temporal.Base.{
  ℕ, suc, ◌+◌, ◌≡◌, ◌≢◌, ◌⊎◌, ◌↔◌, ℤ, pos, int_eq_iff, none, some, List, [], ◌∷◌, get_elem?, Result,
  ok, err, ◌>>◌, Bytes, bytes_eq_iff, refl, sym, subst, ap, ◌∙◌, zero, arith, length, inl, inr,
  Option-cases,
}
use ocaml_temporal.Replay.Histories.{
  StartedAttributes, HistoryEvent, start_attributes, check_start, check_events,
  validate_replay_preconditions,
}

-- The event at place `i`, counted from `expected`, is numbered by it, and a started workflow task
-- has a time.
abbrev pub IsNumbered : ℤ → ℕ → List HistoryEvent → Type 0
IsNumbered wts expected events =
    (i : ℕ) (e : HistoryEvent)
    → get_elem? events i ≡ some e
    → (e.event_id ≡ pos (expected + i)) × (e.event_type ≡ wts → e.event_time ≢ none)

-- An event with the id that is expected, and with its time if it must have one.
abbrev pub IsFit : ℤ → ℕ → HistoryEvent → Type 0
IsFit wts expected e = (e.event_id ≡ pos expected) × (e.event_type ≡ wts → e.event_time ≢ none)

check_events-step :
    (wts : ℤ) (expected : ℕ) (e : HistoryEvent) (es : List HistoryEvent)
    → (check_events wts expected (e ∷ es) ≡ ok tt)
      ↔ (IsFit wts expected e × (check_events wts (expected + 1) es ≡ ok tt))
unfolding check_events
check_events-step wts expected e es =
    ground (arith, int_eq_iff e.event_id (pos expected), int_eq_iff e.event_type wts)

check_events_sound :
    (wts : ℤ) (expected : ℕ) (events : List HistoryEvent)
    → check_events wts expected events ≡ ok tt
    → IsNumbered wts expected events
unfolding get_elem?
check_events_sound wts expected [] h i e g = ground (arith, g)
check_events_sound wts expected (x ∷ xs) h zero e g =
    let ((p, q), _) = (check_events-step wts expected x xs).0 h in ground (arith, p, q, g)
check_events_sound wts expected (x ∷ xs) h (suc i) e g =
    let (_, rest) = (check_events-step wts expected x xs).0 h in
    let (p, q) = check_events_sound wts (expected + 1) xs rest i e g in
    (p ∙ ap pos (omega arith), q)

check_events_complete :
    (wts : ℤ) (expected : ℕ) (events : List HistoryEvent)
    → IsNumbered wts expected events
    → check_events wts expected events ≡ ok tt
unfolding get_elem? check_events
check_events_complete wts expected [] h = refl
check_events_complete wts expected (x ∷ xs) h = (check_events-step wts expected x xs).1 (
  ((h 0 x refl).0 ∙ ap pos (omega arith), (h 0 x refl).1),
  check_events_complete wts (expected + 1) xs
      λ i e g. ((h (suc i) e g).0 ∙ ap pos (omega arith), (h (suc i) e g).1),
)

-- A start event that fits the workflow id it is replayed under.
abbrev pub IsStart : Bytes → StartedAttributes → Type 0
IsStart workflow_id s =
    ((s.workflow_id ≡ []) ⊎ (s.workflow_id ≡ workflow_id)) × (s.task_queue ≢ none)

-- Two checks, one after the other.
seq_iff :
    {E : Type 0} (m k : Result E (Unit {0})) → ((m >> k) ≡ ok tt) ↔ ((m ≡ ok tt) × (k ≡ ok tt))
seq_iff (ok tt) k = (λ h. (refl, h), λ h. h.1)
seq_iff (err e) k = ground arith

pub empty_iff : (xs : Bytes) → (length xs ≡ 0) ↔ (xs ≡ [])
empty_iff [] = ground arith
empty_iff (x ∷ xs) = ground arith

check_start_iff :
    (s : StartedAttributes) (workflow_id : Bytes)
    → (check_start s workflow_id ≡ ok tt) ↔ IsStart workflow_id s
check_start_iff s workflow_id =
    ground (arith, bytes_eq_iff s.workflow_id workflow_id, empty_iff s.workflow_id)

-- The preconditions accept a history exactly when its first event is a start that records no
-- workflow id or the one supplied and has a task queue, the events are numbered 1, 2, 3 and so on
-- without a gap, and every event that says that a workflow task was started has a time.
pub validate_replay_preconditions_iff :
    (wts : ℤ) (events : List HistoryEvent) (workflow_id : Bytes)
    → (validate_replay_preconditions wts events workflow_id ≡ ok tt) ↔ (
        ((s : StartedAttributes) × (start_attributes events ≡ some s) × IsStart workflow_id s)
        × IsNumbered wts 1 events)
unfolding validate_replay_preconditions
validate_replay_preconditions_iff wts events workflow_id =
    elim (Option-cases (start_attributes events)) [
      | inl e ↦ rw (validate_replay_preconditions, e) (ground (arith, e))
      | inr (s, e) ↦
          let steps : validate_replay_preconditions wts events workflow_id
              ≡ (check_start s workflow_id >> check_events wts 1 events) =
            rw (validate_replay_preconditions, e) refl in
          let both = seq_iff (check_start s workflow_id) (check_events wts 1 events) in
          (
            λ h.
                let (p, q) = both.0 (sym steps ∙ h) in
                ((s, e, (check_start_iff s workflow_id).0 p), check_events_sound wts 1 events q),
            λ h.
                let ((s', e', p), q) = h in
                steps
                ∙ both.1 (
                  (check_start_iff s workflow_id).1
                      (subst (IsStart workflow_id) (ground (arith, e, e')) p),
                  check_events_complete wts 1 events q,
                ),
          )
    ]
