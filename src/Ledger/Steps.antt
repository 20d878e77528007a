-- ===== src/Ledger/Steps.antt =====
-- Histories of a ledger: calls, and the restoration after a completion that Core refused.
use ocaml_temporal.Base.{
  ◌≡◌, Bool, true, false, ◌&&◌, Bytes, bytes_key, arith, if◌then◌else◌, bytes_eq_iff, Bool-cases,
  inl, inr,
}
use ocaml_temporal.Base.Map.{contains, insert, get-insert}
use ocaml_temporal.Ledger.State.{TaskLedger, max_run_id_bytes, bad_identity, new_ledger}
use ocaml_temporal.Ledger.Workflows.{restore_rejected_workflow_completion, restore_eviction_lease}
use ocaml_temporal.Ledger.Invariant.{IsValid}
use ocaml_temporal.Ledger.Calls.{Call, apply}
use ocaml_temporal.Ledger.Preserved.{
  new_ledger-IsValid, apply-IsValid, set_workflow-IsValid, set_eviction-IsValid,
}

-- `if restore(run_id) && was_eviction { restore_eviction_lease(run_id) }`, as the completion
-- handler runs it under one lock.
unfoldable pub restore : TaskLedger → Bytes → Bool → TaskLedger
unfolding restore_rejected_workflow_completion restore_eviction_lease
restore l run_id was_eviction =
    let (l', restored) = restore_rejected_workflow_completion l run_id in
    if restored && was_eviction then restore_eviction_lease l' run_id else l'

-- A restored run is one that the ledger held, so its identity is well formed; disposal has
-- exclusive access, so it has not retired the run meanwhile.
pub data Step : TaskLedger → TaskLedger → Type 0 where
  called : (l : TaskLedger) (c : Call) → Step l (apply c l)
  restored :
      (l : TaskLedger) (r : Bytes) (b : Bool)
      → bad_identity max_run_id_bytes r ≡ false
      → contains r l.retired_workflows ≡ false
      → Step l (restore l r b)

pub data Reach (l : TaskLedger) : TaskLedger → Type 0 where
  here : Reach l l
  next : {m n : TaskLedger} → Reach l m → Step m n → Reach l n

pub restore-IsValid :
    (l : TaskLedger) (r : Bytes) (b : Bool)
    → bad_identity max_run_id_bytes r ≡ false
    → contains r l.retired_workflows ≡ false
    → IsValid l
    → IsValid (restore l r b)
unfolding restore
restore-IsValid l r b good free v =
    let held : TaskLedger = record l { workflows = insert r true l.workflows } in
    let w : IsValid held = set_workflow-IsValid l r true good free v in
    let owned : contains r held.workflows ≡ true =
      ground (arith, get-insert r r true l.workflows, bytes_eq_iff r r) in
    elim (Bool-cases (contains r l.workflows)) [
      | inl there ↦ rw (there, restore) v
      | inr gone ↦ elim (Bool-cases b) [
        | inl marked ↦ rw (gone, marked, restore) (set_eviction-IsValid held r true owned w)
        | inr plain ↦ rw (gone, plain, restore) w
      ]
    ]

Step-IsValid : {l m : TaskLedger} → Step l m → IsValid l → IsValid m
Step-IsValid (called l c) v = apply-IsValid c l v
Step-IsValid (restored l r b good free) v = restore-IsValid l r b good free v

Reach-IsValid_from : {l m : TaskLedger} → IsValid l → Reach l m → IsValid m
Reach-IsValid_from v here = v
Reach-IsValid_from v (next r s) = Step-IsValid s (Reach-IsValid_from v r)

-- Whatever calls are made, and however completions and polls interleave, a ledger that began empty
-- has no identity twice, none that is malformed or both outstanding and retired, and no eviction
-- bit without its outstanding run. A lease comes back after a refused completion only for a run with
-- a well-formed identity that disposal has not retired.
pub Reach-IsValid : {l : TaskLedger} → Reach new_ledger l → IsValid l
Reach-IsValid = Reach-IsValid_from new_ledger-IsValid
