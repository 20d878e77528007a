-- ===== src/Ledger/Taken.antt =====
-- What disposal, replay and shutdown take, and what they leave.
use ocaml_temporal.Base.{◌≡◌, refl, ap, Bool, List, [], ◌∷◌, map, Bytes, bytes_key}
use ocaml_temporal.Base.Map.{Set, retain, contains, keys, remove, remove_all}
use ocaml_temporal.Ledger.State.{TaskLedger}
use ocaml_temporal.Ledger.Drain.{take_leased_workflows, remove_activities, take_leased_for_shutdown}

-- The runs of a taken list.
abbrev pub runs : List (Bytes × Bool) → List Bytes
runs = map λ p. p.0

-- Each bit is that of the eviction set.
abbrev pub HasBits : Set Bytes → List (Bytes × Bool) → Type 0
HasBits ev [] = Unit {0}
HasBits ev ((r, b) ∷ rest) = (b ≡ contains r ev) × HasBits ev rest

pub runs-tagged : (ev : Set Bytes) (rs : List Bytes) → runs (map (λ r. (r, contains r ev)) rs) ≡ rs
runs-tagged ev [] = refl
runs-tagged ev (r ∷ rs) = rw (runs-tagged ev rs)

-- The loop removes the listed runs from both maps.
take_leased_workflows-ledger :
    (rs : List Bytes) (l : TaskLedger)
    → (take_leased_workflows rs l).0 ≡ record l {
      workflows = remove_all rs l.workflows;
      eviction_activations = remove_all rs l.eviction_activations;
    }
unfolding take_leased_workflows remove_all
take_leased_workflows-ledger [] l = refl
take_leased_workflows-ledger (r ∷ rs) l = take_leased_workflows-ledger rs (record l {
  workflows = remove r l.workflows;
  eviction_activations = remove r l.eviction_activations;
})

runs-take_leased_workflows :
    (rs : List Bytes) (l : TaskLedger) → runs (take_leased_workflows rs l).1 ≡ rs
unfolding take_leased_workflows
runs-take_leased_workflows [] l = refl
runs-take_leased_workflows (r ∷ rs) l = ap (◌∷◌ r) (
    runs-take_leased_workflows rs (record l {
      workflows = remove r l.workflows;
      eviction_activations = remove r l.eviction_activations;
    }))

remove_activities-ledger :
    (ts : List Bytes) (l : TaskLedger)
    → remove_activities ts l ≡ record l { activities = remove_all ts l.activities }
unfolding remove_activities remove_all
remove_activities-ledger [] l = refl
remove_activities-ledger (t ∷ ts) l =
    remove_activities-ledger ts (record l { activities = remove t l.activities })

abbrev pub leased_runs : TaskLedger → List Bytes
leased_runs l = keys (retain (λ _ leased. leased) l.workflows)

abbrev pub leased_tokens : TaskLedger → List Bytes
leased_tokens l = keys (retain (λ _ state. state.leased) l.activities)

pub take_leased_for_shutdown-ledger :
    (l : TaskLedger)
    → ((take_leased_for_shutdown l).0 ≡ record l {
      workflows = remove_all (leased_runs l) l.workflows;
      eviction_activations = remove_all (leased_runs l) l.eviction_activations;
      activities = remove_all (leased_tokens l) l.activities;
    })
      × (runs (take_leased_for_shutdown l).1 ≡ leased_runs l)
      × ((take_leased_for_shutdown l).2 ≡ leased_tokens l)
unfolding take_leased_for_shutdown
take_leased_for_shutdown-ledger l = (
  rw (
    remove_activities-ledger (leased_tokens (take_leased_workflows (leased_runs l) l).0)
        (take_leased_workflows (leased_runs l) l).0,
    take_leased_workflows-ledger (leased_runs l) l,
  ),
  runs-take_leased_workflows (leased_runs l) l,
  rw (take_leased_workflows-ledger (leased_runs l) l),
)
