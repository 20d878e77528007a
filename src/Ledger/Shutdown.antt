-- ===== src/Ledger/Shutdown.antt =====
-- `take_leased_for_shutdown`: exactly the leased tasks leave, each once and with its eviction bit.
use ocaml_temporal.Base.{
  ◌+◌, ◌≡◌, refl, ap, true, not, List, [], ◌∷◌, Bytes, bytes_key, arith, length, length-map,
  is_some,
}
use ocaml_temporal.Base.Map.{
  Set, retain, contains, get, remove, elem, keep_if, get-remove_all-retain, keys-retain-IsSubkeys,
  length-remove_all, elem-keys, get-remove, get-retain, IsSubkeys,
}
use ocaml_temporal.Ledger.State.{TaskLedger, outstanding}
use ocaml_temporal.Ledger.Drain.{take_leased_workflows, take_leased_for_shutdown}
use ocaml_temporal.Ledger.Invariant.{IsValid}
use ocaml_temporal.Ledger.Taken.{
  runs, HasBits, leased_runs, leased_tokens, take_leased_for_shutdown-ledger,
}

-- While the listed runs are still there, the bits read by the loop are those of a set that agrees
-- with the eviction set on every run left.
take_leased_workflows-bits :
    (ev : Set Bytes) (rs : List Bytes) (l : TaskLedger)
    → IsSubkeys rs l.workflows
    → ((j : Bytes)
        → contains j l.workflows ≡ true
        → contains j l.eviction_activations ≡ contains j ev)
    → HasBits ev (take_leased_workflows rs l).1
unfolding take_leased_workflows
take_leased_workflows-bits ev [] l s h = tt
take_leased_workflows-bits ev (r ∷ rs) l s h = (
  h r s.0,
  take_leased_workflows-bits ev rs
      (record l {
        workflows = remove r l.workflows;
        eviction_activations = remove r l.eviction_activations;
      })
      s.1
      λ j g. ground (arith, h j, get-remove r j l.workflows, get-remove r j l.eviction_activations),
)

-- What stays is what was not leased.
pub record LeavesUnleased (l l' : TaskLedger) : Type 0 where
  pub workflows : (j : Bytes) → get j l'.workflows ≡ keep_if not (get j l.workflows)
  pub activities :
      (t : Bytes) → get t l'.activities ≡ keep_if (λ s. not s.leased) (get t l.activities)
  pub tombstones :
      (l'.retired_workflows ≡ l.retired_workflows) × (l'.retired_activities ≡ l.retired_activities)

-- On a valid ledger, `take_leased_for_shutdown` leaves just the unleased tasks, and writes no
-- tombstone.
shutdown-LeavesUnleased :
    (l : TaskLedger) → IsValid l → LeavesUnleased l (take_leased_for_shutdown l).0
shutdown-LeavesUnleased l v = rw ((take_leased_for_shutdown-ledger l).0) (record {
  workflows =
      λ j. get-remove_all-retain (λ _ leased. leased) j l.workflows v.workflows_valid.distinct;
  activities =
      λ t. get-remove_all-retain (λ _ s. s.leased) t l.activities v.activities_valid.distinct;
  tombstones = (refl, refl);
})

-- On a valid ledger, `take_leased_for_shutdown` takes a run exactly if the run is leased, and a
-- token exactly if its activity is.
shutdown_takes_leased :
    (l : TaskLedger) (j : Bytes)
    → IsValid l
    → (elem j (runs (take_leased_for_shutdown l).1)
        ≡ is_some (keep_if (λ b. b) (get j l.workflows)))
      × (elem j (take_leased_for_shutdown l).2
          ≡ is_some (keep_if (λ s. s.leased) (get j l.activities)))
shutdown_takes_leased l j v = (
  rw (
    (take_leased_for_shutdown-ledger l).1,
    elem-keys j (retain (λ _ leased. leased) l.workflows),
    get-retain (λ _ leased. leased) j l.workflows v.workflows_valid.distinct,
  ),
  rw (
    (take_leased_for_shutdown-ledger l).2,
    elem-keys j (retain (λ _ s. s.leased) l.activities),
    get-retain (λ _ s. s.leased) j l.activities v.activities_valid.distinct,
  ),
)

-- On a valid ledger, each run that `take_leased_for_shutdown` takes carries the eviction bit that
-- the ledger held.
shutdown_reports_evictions :
    (l : TaskLedger) → IsValid l → HasBits l.eviction_activations (take_leased_for_shutdown l).1
unfolding take_leased_for_shutdown
shutdown_reports_evictions l v =
    take_leased_workflows-bits l.eviction_activations (leased_runs l) l
      (keys-retain-IsSubkeys (λ _ leased. leased) l.workflows v.workflows_valid.distinct)
      (λ j h. refl)

-- On a valid ledger, the tasks outstanding before `take_leased_for_shutdown` are as many as those
-- it leaves and those it takes together.
pub shutdown_conserves :
    (l : TaskLedger)
    → IsValid l
    → outstanding l
      ≡ outstanding (take_leased_for_shutdown l).0
        + length (take_leased_for_shutdown l).1
        + length (take_leased_for_shutdown l).2
unfolding outstanding
shutdown_conserves l v = ground (
  arith,
  take_leased_for_shutdown-ledger l,
  ap length (take_leased_for_shutdown-ledger l).1,
  length-map (take_leased_for_shutdown l).1 (λ p. p.0),
  length-remove_all (leased_runs l) l.workflows v.workflows_valid.distinct
      (keys-retain-IsSubkeys (λ _ leased. leased) l.workflows v.workflows_valid.distinct),
  length-remove_all (leased_tokens l) l.activities v.activities_valid.distinct
      (keys-retain-IsSubkeys (λ _ s. s.leased) l.activities v.activities_valid.distinct),
)

-- On a valid ledger, `take_leased_for_shutdown` takes a run or a token exactly if it is leased, and
-- each run with the eviction bit that the ledger held; it leaves just the unleased tasks and the
-- tombstones as they were; and what it leaves and what it takes are together what was outstanding.
pub shutdown_takes_just_leased :
    (l : TaskLedger) (j : Bytes)
    → IsValid l
    → let (l', workflows, activities) = take_leased_for_shutdown l in
      (elem j (runs workflows) ≡ is_some (keep_if (λ b. b) (get j l.workflows)))
      × (elem j activities ≡ is_some (keep_if (λ s. s.leased) (get j l.activities)))
      × HasBits l.eviction_activations workflows
      × LeavesUnleased l l'
      × (outstanding l ≡ outstanding l' + length workflows + length activities)
shutdown_takes_just_leased l j v = (
  (shutdown_takes_leased l j v).0,
  (shutdown_takes_leased l j v).1,
  shutdown_reports_evictions l v,
  shutdown-LeavesUnleased l v,
  shutdown_conserves l v,
)
