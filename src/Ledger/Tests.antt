-- ===== src/Ledger/Tests.antt =====
-- Concrete ledgers, and the theorems of `Ledger` applied to them.
use ocaml_temporal.Base.{
  ◌+◌, ◌≡◌, refl, true, false, some, List, [], ◌∷◌, err, Bytes, bytes_key, length, is_some,
}
use ocaml_temporal.Base.Map.{get, contains, insert, remove, keys, retain, elem, keep_if}
use ocaml_temporal.Ledger.State.{
  TaskLedger, start, cancel, retired, not_leased, new_ledger, outstanding,
}
use ocaml_temporal.Ledger.Workflows.{
  record_workflow, admit_polled_workflow_activation, lease_workflow_activation, complete_workflow,
}
use ocaml_temporal.Ledger.Activities.{admit_polled_activity, handoff_activity}
use ocaml_temporal.Ledger.Drain.{take_all_outstanding, take_leased_for_shutdown}
use ocaml_temporal.Ledger.Calls.{
  Call, apply, admits_activation, leases_activation, admits_polled_activity, hands_off_activity,
  completes_workflow,
}
use ocaml_temporal.Ledger.Invariant.{IsValid}
use ocaml_temporal.Ledger.Preserved.{new_ledger-IsValid}
use ocaml_temporal.Ledger.Steps.{here, next, called, restored, restore, Reach-IsValid}
use ocaml_temporal.Ledger.History.{run, run-IsValid}
use ocaml_temporal.Ledger.Taken.{runs, HasBits}
use ocaml_temporal.Ledger.Shutdown.{LeavesUnleased, shutdown_takes_just_leased}
use ocaml_temporal.Ledger.Disposal.{disposal_is_final}
use ocaml_temporal.Ledger.Lifecycle.{workflow_life}

abbrev run_a : Bytes
run_a = 97 ∷ []

abbrev run_b : Bytes
run_b = 98 ∷ 98 ∷ []

abbrev token_a : Bytes
token_a = 7 ∷ []

-- Run `run_a` is leased and an eviction, `run_b` is queued, and `token_a` is leased and cancelled.
abbrev history : List Call
history =
    admits_activation run_a true
    ∷ leases_activation run_a true
    ∷ admits_activation run_b false
    ∷ admits_polled_activity token_a start
    ∷ admits_polled_activity token_a cancel
    ∷ hands_off_activity token_a start
    ∷ []

busy : TaskLedger
unfolding run apply admit_polled_workflow_activation lease_workflow_activation admit_polled_activity
    handoff_activity get insert remove
busy = run history new_ledger

busy-IsValid : IsValid busy
unfolding busy
busy-IsValid = run-IsValid history new_ledger new_ledger-IsValid

busy_workflow : get run_a busy.workflows ≡ some true
unfolding busy
busy_workflow = refl

busy_activity : get token_a busy.activities ≡ some (record { cancelled = true; leased = true })
unfolding busy
busy_activity = refl

busy-outstanding : outstanding busy ≡ 3
unfolding busy outstanding
busy-outstanding = refl

Reach-IsValid_example : IsValid (restore (apply (completes_workflow run_a) new_ledger) run_a true)
unfolding apply complete_workflow get
Reach-IsValid_example = Reach-IsValid (
    next (next here (called new_ledger (completes_workflow run_a)))
      (restored (apply (completes_workflow run_a) new_ledger) run_a true refl refl))

shutdown_run :
    ((take_leased_for_shutdown busy).1 ≡ (run_a, true) ∷ [])
    × ((take_leased_for_shutdown busy).2 ≡ token_a ∷ [])
    × (outstanding (take_leased_for_shutdown busy).0 ≡ 1)
unfolding busy take_leased_for_shutdown outstanding keys retain
shutdown_run = (refl, refl, refl)

workflow_life_example :
    complete_workflow (record_workflow new_ledger run_a true).0 run_a
    ≡ ((record_workflow new_ledger run_a true).0, err not_leased)
unfolding record_workflow get
workflow_life_example = (workflow_life new_ledger run_a true false refl).0

shutdown_takes_just_leased_example :
    let (l', workflows, activities) = take_leased_for_shutdown busy in
    (elem run_a (runs workflows) ≡ is_some (keep_if (λ b. b) (get run_a busy.workflows)))
    × (elem run_a activities ≡ is_some (keep_if (λ s. s.leased) (get run_a busy.activities)))
    × HasBits busy.eviction_activations workflows
    × LeavesUnleased busy l'
    × (outstanding busy ≡ outstanding l' + length workflows + length activities)
shutdown_takes_just_leased_example = shutdown_takes_just_leased busy run_a busy-IsValid

disposal_is_final_example :
    let (l', workflows, activities) = take_all_outstanding busy in
    (outstanding l' ≡ 0)
    × (length workflows + length activities ≡ outstanding busy)
    × ((k : Bytes)
        → (elem k (runs workflows) ≡ contains k busy.workflows)
          × (elem k activities ≡ contains k busy.activities))
    × HasBits busy.eviction_activations workflows
    × (admit_polled_workflow_activation l' run_b true ≡ (l', err retired))
    × (admit_polled_activity l' token_a start ≡ (l', err retired))
unfolding busy
disposal_is_final_example = disposal_is_final busy run_b token_a true start busy-IsValid refl refl
