-- ===== src/Ledger/Disposal.antt =====
-- `take_all_outstanding` and `take_all_outstanding_for_replay`: the ledger is emptied; only the
-- former leaves tombstones.
use ocaml_temporal.Base.{
  ◌+◌, ◌≡◌, refl, Bool, true, List, [], ◌∷◌, map, Bytes, bytes_key, arith, length, length-map, ok,
  err,
}
use ocaml_temporal.Base.Map.{
  Set, contains, get, keys, elem, insert, contains-extend, elem-keys, length-keys,
}
use ocaml_temporal.Ledger.State.{TaskLedger, outstanding, retired, new, ActivityAdmission}
use ocaml_temporal.Ledger.Workflows.{admit_polled_workflow_activation}
use ocaml_temporal.Ledger.Activities.{admit_polled_activity}
use ocaml_temporal.Ledger.Drain.{take_all_outstanding, take_all_outstanding_for_replay}
use ocaml_temporal.Ledger.Invariant.{IsValid}
use ocaml_temporal.Ledger.Taken.{HasBits, runs, runs-tagged}

tagged-bits : (ev : Set Bytes) (rs : List Bytes) → HasBits ev (map (λ r. (r, contains r ev)) rs)
tagged-bits ev [] = tt
tagged-bits ev (r ∷ rs) = (refl, tagged-bits ev rs)

-- `take_all_outstanding` leaves no task, takes as many as were outstanding, takes a run or token
-- exactly if it was outstanding, and gives each run the eviction bit that the ledger held.
pub disposal_takes_all :
    (l : TaskLedger) (j : Bytes)
    → let (l', workflows, activities) = take_all_outstanding l in
      (outstanding l' ≡ 0)
      × (length workflows + length activities ≡ outstanding l)
      × (elem j (runs workflows) ≡ contains j l.workflows)
      × (elem j activities ≡ contains j l.activities)
      × HasBits l.eviction_activations workflows
unfolding take_all_outstanding outstanding
disposal_takes_all l j = (
  refl,
  ground (
    arith,
    length-map {B = Bytes × Bool} (keys l.workflows) (λ r. (r, contains r l.eviction_activations)),
    length-keys l.workflows,
    length-keys l.activities,
  ),
  rw (runs-tagged l.eviction_activations (keys l.workflows)) (elem-keys j l.workflows),
  elem-keys j l.activities,
  tagged-bits l.eviction_activations (keys l.workflows),
)

-- After `take_all_outstanding` on a valid ledger, a late poll of a run that it took is refused as
-- retired, and changes nothing.
disposed_workflow_refused :
    (l : TaskLedger) (j : Bytes) (eviction_only : Bool)
    → IsValid l
    → contains j l.workflows ≡ true
    → let l' = (take_all_outstanding l).0 in
      admit_polled_workflow_activation l' j eviction_only ≡ (l', err retired)
unfolding admit_polled_workflow_activation take_all_outstanding
disposed_workflow_refused l j b v h = ground (
  arith,
  v.workflows_valid.identities j h,
  runs-tagged l.eviction_activations (keys l.workflows),
  contains-extend j (keys l.workflows) l.retired_workflows,
  elem-keys j l.workflows,
)

-- After `take_all_outstanding` on a valid ledger, a late poll of a token that it took, a start or a
-- cancellation, is refused as retired, and changes nothing.
disposed_activity_refused :
    (l : TaskLedger) (t : Bytes) (kind : ActivityAdmission)
    → IsValid l
    → contains t l.activities ≡ true
    → let l' = (take_all_outstanding l).0 in admit_polled_activity l' t kind ≡ (l', err retired)
unfolding admit_polled_activity take_all_outstanding
disposed_activity_refused l t k v h = ground (
  arith,
  v.activities_valid.identities t h,
  contains-extend t (keys l.activities) l.retired_activities,
  elem-keys t l.activities,
)

-- After `take_all_outstanding_for_replay` on a valid ledger nothing is outstanding, and a later
-- activation of a run that it took is admitted as new, and is then the only debt.
pub replayed_workflow_admitted :
    (l : TaskLedger) (j : Bytes) (eviction_only : Bool)
    → IsValid l
    → contains j l.workflows ≡ true
    → let l' = (take_all_outstanding_for_replay l).0 in
      (outstanding l' ≡ 0)
      × ((admit_polled_workflow_activation l' j eviction_only).1 ≡ ok new)
      × (outstanding (admit_polled_workflow_activation l' j eviction_only).0 ≡ 1)
unfolding admit_polled_workflow_activation take_all_outstanding_for_replay outstanding get insert
replayed_workflow_admitted l j b v h =
    ground (arith, v.workflows_valid.identities j h, v.workflows_valid.not_retired j h)

-- On a valid ledger, `take_all_outstanding` leaves no task, takes as many as were outstanding, takes
-- a run or token exactly if it was outstanding, and gives each run the eviction bit that the ledger
-- held; and a late poll of a run or of a token that it took, a start or a cancellation, is refused
-- as retired and changes nothing.
pub disposal_is_final :
    (l : TaskLedger) (j t : Bytes) (eviction_only : Bool) (kind : ActivityAdmission)
    → IsValid l
    → contains j l.workflows ≡ true
    → contains t l.activities ≡ true
    → let (l', workflows, activities) = take_all_outstanding l in
      (outstanding l' ≡ 0)
      × (length workflows + length activities ≡ outstanding l)
      × ((k : Bytes)
          → (elem k (runs workflows) ≡ contains k l.workflows)
            × (elem k activities ≡ contains k l.activities))
      × HasBits l.eviction_activations workflows
      × (admit_polled_workflow_activation l' j eviction_only ≡ (l', err retired))
      × (admit_polled_activity l' t kind ≡ (l', err retired))
disposal_is_final l j t b kind v h g = (
  (disposal_takes_all l j).0,
  (disposal_takes_all l j).1,
  λ k. ((disposal_takes_all l k).2, (disposal_takes_all l k).3),
  (disposal_takes_all l j).4,
  disposed_workflow_refused l j b v h,
  disposed_activity_refused l t kind v g,
)
