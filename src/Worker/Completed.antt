-- ===== src/Worker/Completed.antt =====
-- What the completion handlers do to the ledger, whatever happens while Core is awaited.
use ocaml_temporal.Base.{
  ◌≡◌, ap, Bool, true, false, List, [], ◌∷◌, ok, err, Bytes, bytes_key, bytes_eq, arith,
  bytes_eq_iff, some, if◌then◌else◌, is_some,
}
use ocaml_temporal.Base.Map.{contains, get, remove, get-insert, get-remove}
use ocaml_temporal.Ledger.State.{TaskLedger, CompleteError}
use ocaml_temporal.Ledger.Workflows.{
  drop_workflow, complete_workflow, is_eviction_lease, admit_polled_workflow_activation,
  retire_rejected_workflow,
}
use ocaml_temporal.Ledger.Activities.{ensure_activity_leased}
use ocaml_temporal.Ledger.Calls.{Call, apply, admits_activation}
use ocaml_temporal.Ledger.Steps.{restore}
use ocaml_temporal.Ledger.History.{run, run-IsValid}
use ocaml_temporal.Ledger.Invariant.{IsValid}
use ocaml_temporal.Ledger.Preserved.{drop_workflow-IsValid}
use ocaml_temporal.Worker.Core.{
  completion, core_workflow, finished, GuardedCompletion, workflow_completed, workflow_empty,
  workflow_failed,
}
use ocaml_temporal.Worker.Completion.{
  complete_workflow_with, reject_workflow_delivery_with, complete_activity_with,
  reject_activity_delivery,
}

-- The ledger while Core is awaited.
abbrev pub awaited : List Call → TaskLedger → Bytes → TaskLedger
awaited during l r = run during (drop_workflow l r)

-- Entry `k` of `m` is that of `l`, but run `r` is leased again with its eviction bit.
abbrev pub RestoredAt : TaskLedger → Bytes → Bool → TaskLedger → Bytes → Type 0
RestoredAt l r bit m k =
    (get k m.workflows ≡ (if bytes_eq r k then some true else get k l.workflows))
    × (contains k m.eviction_activations
        ≡ (if bytes_eq r k then bit else contains k l.eviction_activations))
    × (m.activities ≡ l.activities)

restore-RestoredAt :
    (l : TaskLedger) (r : Bytes) (bit : Bool) (k : Bytes)
    → IsValid l
    → contains r l.workflows ≡ false
    → RestoredAt l r bit (restore l r bit) k
unfolding restore
restore-RestoredAt l r bit k v h = ground (
  arith,
  v.workflows_valid.evictions_owned r,
  bytes_eq_iff r k,
  get-insert r k true l.workflows,
  get-insert r k tt l.eviction_activations,
)

-- When Core refuses a completion of a leased run of a valid ledger, and the run is still gone after
-- the wait, then the lease is back with its eviction bit, no other run, bit or activity differs from
-- what the other calls left, and the completion was handed to Core once.
pub refused_completion_restored :
    (during : List Call) (l : TaskLedger) (r : Bytes) (is_empty : Bool) (k : Bytes)
    → IsValid l
    → get r l.workflows ≡ some true
    → contains r (awaited during l r).workflows ≡ false
    → let (m, sent, result) = complete_workflow_with during (finished false) l r is_empty in
      RestoredAt (awaited during l r) r (contains r l.eviction_activations) m k
      × (sent ≡ workflow_completed r ∷ [])
      × (result ≡ err core_workflow)
unfolding complete_workflow_with complete_workflow is_eviction_lease
refused_completion_restored during l r e k v leased gone =
    let w : IsValid (awaited during l r) =
      run-IsValid during (drop_workflow l r) (drop_workflow-IsValid l r v) in
    let back : RestoredAt (awaited during l r) r (contains r l.eviction_activations)
        (restore (awaited during l r) r (contains r l.eviction_activations)) k =
      restore-RestoredAt (awaited during l r) r (contains r l.eviction_activations) k w gone in
    ground (arith, back)

-- When Core refuses a completion of a leased run, and the run came back by another admission during
-- the wait, then the ledger is left as that wait left it.
pub refused_completion_yields :
    (during : List Call) (l : TaskLedger) (r : Bytes) (is_empty : Bool)
    → get r l.workflows ≡ some true
    → contains r (awaited during l r).workflows ≡ true
    → (complete_workflow_with during (finished false) l r is_empty).0 ≡ awaited during l r
unfolding complete_workflow_with complete_workflow is_eviction_lease restore
refused_completion_yields during l r e leased back = ground arith

-- The cache eviction that Core schedules for a completed run, polled before the completion of a
-- leased run of a valid ledger returns, is admitted as a new task and stays outstanding with its
-- eviction bit; the completion succeeds.
pub follow_up_eviction_admitted :
    (l : TaskLedger) (r : Bytes) (is_empty : Bool)
    → IsValid l
    → get r l.workflows ≡ some true
    → let (m, sent, result) =
        complete_workflow_with (admits_activation r true ∷ []) (finished true) l r is_empty in
      (get r m.workflows ≡ some false)
      × (contains r m.eviction_activations ≡ true)
      × (sent ≡ workflow_completed r ∷ [])
      × (result ≡ ok tt)
unfolding complete_workflow_with complete_workflow is_eviction_lease run apply
    admit_polled_workflow_activation
follow_up_eviction_admitted l r e v leased = ground (
  arith,
  v.workflows_valid.identities r (ap is_some leased),
  v.workflows_valid.not_retired r (ap is_some leased),
  bytes_eq_iff r r,
  get-remove r r l.workflows,
  get-insert r r false (remove r l.workflows),
  get-insert r r tt (remove r l.eviction_activations),
)

-- A rejected delivery of a leased run of a valid ledger is answered once, by an empty completion
-- exactly for an eviction, and the follow-up eviction, polled meanwhile, is admitted as a new task,
-- whatever Core answers.
pub rejected_delivery_retired :
    (l : TaskLedger) (reply : GuardedCompletion) (r : Bytes)
    → IsValid l
    → get r l.workflows ≡ some true
    → let (m, sent, result) =
        reject_workflow_delivery_with (admits_activation r true ∷ []) reply l r in
      (get r m.workflows ≡ some false)
      × (contains r m.eviction_activations ≡ true)
      × (sent
          ≡ (if contains r l.eviction_activations then workflow_empty r else workflow_failed r)
            ∷ [])
unfolding reject_workflow_delivery_with retire_rejected_workflow is_eviction_lease run apply
    admit_polled_workflow_activation
rejected_delivery_retired l reply r v leased = ground (
  arith,
  v.workflows_valid.identities r (ap is_some leased),
  v.workflows_valid.not_retired r (ap is_some leased),
  bytes_eq_iff r r,
  get-remove r r l.workflows,
  get-insert r r false (remove r l.workflows),
  get-insert r r tt (remove r l.eviction_activations),
)

-- Where the identity is not leased, no completion handler touches the ledger or sends anything to
-- Core, and each reports why.
pub unleased_untouched :
    (during : List Call) (reply : GuardedCompletion) (accepted is_empty : Bool) (l : TaskLedger)
    (r : Bytes) (e f : CompleteError)
    → (complete_workflow l r).1 ≡ err e
    → ensure_activity_leased l r ≡ err f
    → (complete_workflow_with during reply l r is_empty ≡ (l, [], err (completion e)))
      × (reject_workflow_delivery_with during reply l r ≡ (l, [], err (completion e)))
      × (complete_activity_with during accepted l r ≡ (l, [], err (completion f)))
      × (reject_activity_delivery during accepted l r ≡ (l, [], err (completion f)))
unfolding complete_workflow_with reject_workflow_delivery_with complete_activity_with
    reject_activity_delivery complete_workflow retire_rejected_workflow
unleased_untouched during reply accepted is_empty l r e f h g = ground arith
