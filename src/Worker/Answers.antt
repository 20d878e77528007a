-- ===== src/Worker/Answers.antt =====
-- Counting the completions handed to Core for one identity, over the loops of a pass.
use ocaml_temporal.Base.{
  ℕ, ◌+◌, ◌≡◌, refl, Bool, true, false, List, [], ◌∷◌, ◌++◌, Bytes, bytes_key, bytes_eq,
  bytes_eq_iff, arith, if◌then◌else◌,
}
use ocaml_temporal.Base.Map.{Map, Distinct, contains, keys, get}
use ocaml_temporal.Ledger.Calls.{Call}
use ocaml_temporal.Ledger.Taken.{runs}
use ocaml_temporal.Worker.Core.{
  Sent, workflow_completed, workflow_empty, workflow_failed, activity_completed, activity_retired,
  retirement,
}
use ocaml_temporal.Worker.Handoff.{PollLanes, await_core}
use ocaml_temporal.Worker.Retirement.{retire_workflows, retire_activities}

abbrev pub unit_if : Bool → ℕ
unit_if b = if b then 1 else 0

abbrev pub answers_run : Bytes → Sent → ℕ
answers_run r (workflow_completed k) = unit_if (bytes_eq k r)
answers_run r (workflow_empty k) = unit_if (bytes_eq k r)
answers_run r (workflow_failed k) = unit_if (bytes_eq k r)
answers_run r (activity_completed k) = 0
answers_run r (activity_retired k) = 0

abbrev pub answers_token : Bytes → Sent → ℕ
answers_token t (workflow_completed k) = 0
answers_token t (workflow_empty k) = 0
answers_token t (workflow_failed k) = 0
answers_token t (activity_completed k) = unit_if (bytes_eq k t)
answers_token t (activity_retired k) = unit_if (bytes_eq k t)

-- How many completions of run `r`, and of token `t`, were handed to Core.
unfoldable pub run_answers : Bytes → List Sent → ℕ
run_answers r [] = 0
run_answers r (c ∷ cs) = answers_run r c + run_answers r cs

unfoldable pub token_answers : Bytes → List Sent → ℕ
token_answers t [] = 0
token_answers t (c ∷ cs) = answers_token t c + token_answers t cs

-- The empty completions among them, which acknowledge an activation.
abbrev pub acknowledges_run : Bytes → Sent → ℕ
acknowledges_run r (workflow_empty k) = unit_if (bytes_eq k r)
acknowledges_run r _ = 0

unfoldable pub acknowledgements : Bytes → List Sent → ℕ
acknowledgements r [] = 0
acknowledgements r (c ∷ cs) = acknowledges_run r c + acknowledgements r cs

pub acknowledgements-append :
    (r : Bytes) (c : Sent) (cs : List Sent)
    → acknowledgements r (cs ++ c ∷ []) ≡ acknowledgements r cs + acknowledges_run r c
unfolding acknowledgements
acknowledgements-append r c [] = omega arith
acknowledgements-append r c (d ∷ cs) = ground (arith, acknowledgements-append r c cs)

unfoldable pub occurs : Bytes → List Bytes → ℕ
occurs k [] = 0
occurs k (j ∷ js) = unit_if (bytes_eq j k) + occurs k js

pub run_answers-append :
    (r : Bytes) (c : Sent) (cs : List Sent)
    → run_answers r (cs ++ c ∷ []) ≡ run_answers r cs + answers_run r c
unfolding run_answers
run_answers-append r c [] = omega arith
run_answers-append r c (d ∷ cs) = ground (arith, run_answers-append r c cs)

pub token_answers-append :
    (t : Bytes) (c : Sent) (cs : List Sent)
    → token_answers t (cs ++ c ∷ []) ≡ token_answers t cs + answers_token t c
unfolding token_answers
token_answers-append t c [] = omega arith
token_answers-append t c (d ∷ cs) = ground (arith, token_answers-append t c cs)

-- A key of a map stands once among its keys.
pub occurs-keys :
    {V : Type 0} (k : Bytes) (m : Map Bytes V)
    → Distinct m
    → occurs k (keys m) ≡ unit_if (contains k m)
unfolding occurs keys get
occurs-keys k [] h = refl
occurs-keys k ((j, v) ∷ m) h = ground (arith, occurs-keys k m h.1, bytes_eq_iff j k)

pub answers_run-retirement :
    (r k : Bytes) (b : Bool) → answers_run r (retirement k b) ≡ unit_if (bytes_eq k r)
answers_run-retirement r k true = refl
answers_run-retirement r k false = refl

pub answers_token-retirement : (t k : Bytes) (b : Bool) → answers_token t (retirement k b) ≡ 0
answers_token-retirement t k true = refl
answers_token-retirement t k false = refl

-- The queues and the other identities' answers are those before.
pub record SameQueues (s s' : PollLanes) : Type 0 where
  pub same_workflows : s'.workflow_ready ≡ s.workflow_ready
  pub same_activities : s'.activity_ready ≡ s.activity_ready

module _ (others : List Sent → List Call) where
  pub retire_workflows-SameQueues :
      (ws : List (Bytes × Bool)) (s : PollLanes) → SameQueues s (retire_workflows others ws s)
  unfolding retire_workflows
  retire_workflows-SameQueues [] s = record { same_workflows = refl; same_activities = refl }
  retire_workflows-SameQueues ((k, b) ∷ ws) s =
      let rest : SameQueues (await_core others s (retirement k b)) _ =
        retire_workflows-SameQueues ws (await_core others s (retirement k b)) in
      record { same_workflows = rest.same_workflows; same_activities = rest.same_activities }

  pub retire_activities-SameQueues :
      (ts : List Bytes) (s : PollLanes) → SameQueues s (retire_activities others ts s)
  unfolding retire_activities
  retire_activities-SameQueues [] s = record { same_workflows = refl; same_activities = refl }
  retire_activities-SameQueues (t ∷ ts) s =
      let rest : SameQueues (await_core others s (activity_retired t)) _ =
        retire_activities-SameQueues ts (await_core others s (activity_retired t)) in
      record { same_workflows = rest.same_workflows; same_activities = rest.same_activities }

  pub answers-retire_workflows :
      (ws : List (Bytes × Bool)) (s : PollLanes) (k : Bytes)
      → (run_answers k (retire_workflows others ws s).sent
          ≡ run_answers k s.sent + occurs k (runs ws))
        × (token_answers k (retire_workflows others ws s).sent ≡ token_answers k s.sent)
  unfolding retire_workflows occurs
  answers-retire_workflows [] s k = (omega arith, refl)
  answers-retire_workflows ((j, b) ∷ ws) s k =
      let c : Sent = retirement j b in
      ground (
        arith,
        answers-retire_workflows ws (await_core others s c) k,
        run_answers-append k c s.sent,
        token_answers-append k c s.sent,
        answers_run-retirement k j b,
        answers_token-retirement k j b,
      )

  pub answers-retire_activities :
      (ts : List Bytes) (s : PollLanes) (k : Bytes)
      → (token_answers k (retire_activities others ts s).sent
          ≡ token_answers k s.sent + occurs k ts)
        × (run_answers k (retire_activities others ts s).sent ≡ run_answers k s.sent)
  unfolding retire_activities occurs
  answers-retire_activities [] s k = (omega arith, refl)
  answers-retire_activities (j ∷ ts) s k =
      let c : Sent = activity_retired j in
      ground (
        arith,
        answers-retire_activities ts (await_core others s c) k,
        run_answers-append k c s.sent,
        token_answers-append k c s.sent,
      )
