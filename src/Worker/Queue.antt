-- ===== src/Worker/Queue.antt =====
-- The ready queue is a queue, and its pending count tells when it is empty.
use ocaml_temporal.Base.{
  ◌<◌, ◌≤◌, ◌≡◌, refl, Bool, true, false, Option, none, some, List, [], ◌∷◌, ◌++◌, err, arith,
  length, length-append, sym, append-nil, ◌∙◌, append_assoc, subst, ap,
}
use ocaml_temporal.Worker.Core.{PollLaneError, ReadyTask}
use ocaml_temporal.Worker.Readiness.{
  usize_max, Lane, ReadinessWait, ready, shutdown, timed_out, error_found, enqueue, take_inner,
  take_or_failure, fail, close_inner, observe, observe_any,
}

module _ {T : Type 0} where
  -- The count is the length of the queue.
  pub record IsSynced (lane : Lane T) : Type 0 where
    pub counted : lane.pending ≡ length lane.messages
    pub bounded : length lane.messages ≤ usize_max

  pub enqueue-IsSynced :
      (lane : Lane T) (m : ReadyTask T)
      → IsSynced lane
      → length lane.messages < usize_max
      → IsSynced (enqueue lane m).0
  unfolding enqueue
  enqueue-IsSynced lane m v room = ground (arith, length-append lane.messages (m ∷ []))

  pub take_inner-IsSynced :
      (lane : Lane T) (report : Bool) → IsSynced lane → IsSynced (take_inner lane report).0
  unfolding take_inner
  take_inner-IsSynced lane report v = ground arith

-- What the producer and the owner do with a lane.
pub data LaneCall (T : Type 0) : Type 0 where
  enqueues : ReadyTask T → LaneCall T
  takes : Bool → LaneCall T
  fails : PollLaneError → LaneCall T
  closes : Bool → LaneCall T

module _ {T : Type 0} where
  -- The queued message that a take returned; a failure that it reports on an empty queue is none.
  abbrev pub taken_message : List (ReadyTask T) → Option (ReadyTask T) → List (ReadyTask T)
  taken_message [] result = []
  taken_message (_ ∷ _) none = []
  taken_message (_ ∷ _) (some m) = m ∷ []

  -- The messages that a history takes from the lane, oldest first, and the lane after it.
  unfoldable pub serve : List (LaneCall T) → Lane T → List (ReadyTask T) × Lane T
  serve [] lane = ([], lane)
  serve (enqueues m ∷ cs) lane = serve cs (enqueue lane m).0
  serve (takes report ∷ cs) lane =
      let (lane', result) = take_inner lane report in
      let (taken, final) = serve cs lane' in (taken_message lane.messages result ++ taken, final)
  serve (fails e ∷ cs) lane = serve cs (fail lane e)
  serve (closes ended ∷ cs) lane = serve cs (close_inner lane ended)

  -- The messages that a history sends.
  unfoldable pub sent_by : List (LaneCall T) → List (ReadyTask T)
  sent_by [] = []
  sent_by (enqueues m ∷ cs) = m ∷ sent_by cs
  sent_by (takes _ ∷ cs) = sent_by cs
  sent_by (fails _ ∷ cs) = sent_by cs
  sent_by (closes _ ∷ cs) = sent_by cs

  enqueue_lem :
      (lane : Lane T) (m : ReadyTask T)
      → lane.receiver_alive ≡ true
      → ((enqueue lane m).0.messages ≡ lane.messages ++ m ∷ [])
        × ((enqueue lane m).0.receiver_alive ≡ true)
  unfolding enqueue
  enqueue_lem lane m h = ground arith

  take_inner_lem :
      (lane : Lane T) (report : Bool)
      → (taken_message lane.messages (take_inner lane report).1
            ++ (take_inner lane report).0.messages
          ≡ lane.messages)
        × ((take_inner lane report).0.receiver_alive ≡ lane.receiver_alive)
  unfolding take_inner
  take_inner_lem lane report = ground arith

  -- While the owner holds its receiver, whatever is sent, taken, failed and closed in between: the
  -- messages taken, followed by those still queued, are those queued before and those sent, in order.
  pub serve_in_order :
      (cs : List (LaneCall T)) (lane : Lane T)
      → lane.receiver_alive ≡ true
      → (serve cs lane).0 ++ (serve cs lane).1.messages ≡ lane.messages ++ sent_by cs
  unfolding serve sent_by fail close_inner
  serve_in_order [] lane h = sym (append-nil lane.messages)
  serve_in_order (enqueues m ∷ cs) lane h =
      let (sent, alive) = enqueue_lem lane m h in
      serve_in_order cs (enqueue lane m).0 alive
      ∙ ap (λ ms. ms ++ sent_by cs) sent
      ∙ append_assoc lane.messages (m ∷ []) (sent_by cs)
  serve_in_order (takes report ∷ cs) lane h =
      let got = taken_message lane.messages (take_inner lane report).1 in
      let lane' = (take_inner lane report).0 in
      let (split, same) = take_inner_lem lane report in
      append_assoc got (serve cs lane').0 (serve cs lane').1.messages
      ∙ ap (◌++◌ got) (serve_in_order cs lane' (same ∙ h))
      ∙ sym (append_assoc got lane'.messages (sent_by cs))
      ∙ ap (λ ms. ms ++ sent_by cs) split
  serve_in_order (fails e ∷ cs) lane h = serve_in_order cs (fail lane e) h
  serve_in_order (closes ended ∷ cs) lane h = serve_in_order cs (close_inner lane ended) h

  -- What the owner's wait answers, and what its next nonblocking poll then finds.
  abbrev pub Found : Lane T → Option ReadinessWait → Type 0
  Found lane (some ready) =
      (m : ReadyTask T) × (rest : List (ReadyTask T)) × (lane.messages ≡ m ∷ rest)
      × ((take_or_failure lane).1 ≡ some m)
      × ((take_or_failure lane).0.messages ≡ rest)
  Found lane (some (error_found e)) =
      (lane.messages ≡ []) × (lane.error ≡ some e) × ((take_or_failure lane).1 ≡ some (err e))
  Found lane (some shutdown) =
      (lane.messages ≡ [])
      × (lane.error ≡ none)
      × (lane.closed ≡ true)
      × ((take_or_failure lane).1 ≡ none)
  Found lane (some timed_out) = ⊥
  Found lane none =
      (lane.messages ≡ [])
      × (lane.error ≡ none)
      × (lane.closed ≡ false)
      × ((take_or_failure lane).1 ≡ none)

  -- On a lane whose count is the length of its queue, queued messages win over a failure, and a
  -- failure over shutdown; the nonblocking poll finds what the wait announces.
  pub observe-Found : (lane : Lane T) → IsSynced lane → Found lane (observe lane)
  unfolding observe take_or_failure
  observe-Found lane v = found lane.messages lane.error lane.closed refl refl refl
    where
      found :
          (ms : List (ReadyTask T)) (e : Option PollLaneError) (c : Bool)
          → lane.messages ≡ ms
          → lane.error ≡ e
          → lane.closed ≡ c
          → Found lane (observe lane)
      found [] none true p q r =
          let e : some shutdown ≡ observe lane = ground arith in
          subst (Found lane) e (p, q, r, ground arith)
      found [] none false p q r =
          let e : none ≡ observe lane = ground arith in subst (Found lane) e (p, q, r, ground arith)
      found [] (some e) c p q r =
          let o : some (error_found e) ≡ observe lane = ground arith in
          subst (Found lane) o (p, q, ground arith)
      found (m ∷ ms) e c p q r =
          let o : some ready ≡ observe lane = ground arith in
          subst (Found lane) o (m, ms, p, ground arith, ground arith)

-- Work on either lane, then a failure of either, then the close of either.
abbrev pub strongest : Option ReadinessWait → Option ReadinessWait → Option ReadinessWait
strongest (some ready) other = some ready
strongest other (some ready) = some ready
strongest (some (error_found e)) other = some (error_found e)
strongest other (some (error_found e)) = some (error_found e)
strongest (some shutdown) other = some shutdown
strongest other (some shutdown) = some shutdown
strongest other _ = other

-- The combined wait over both lanes answers as the stronger of the two single waits.
pub observe_any-strongest :
    {T U : Type 0} (workflow : Lane T) (activity : Lane U)
    → observe_any workflow activity ≡ strongest (observe workflow) (observe activity)
unfolding observe_any observe
observe_any-strongest w a = ground arith
