-- ===== src/Ledger/Drain.antt =====
-- rust/core-bridge/src/worker_bridge.rs, `TaskLedger`: what disposal, replay and shutdown take out
-- of the ledger. The first component of each result is the ledger afterwards.
use ocaml_temporal.Base.{Bool, List, [], ◌∷◌, map, Bytes, bytes_key}
use ocaml_temporal.Base.Map.{contains, keys, retain, remove, extend}
use ocaml_temporal.Ledger.State.{TaskLedger}

unfoldable pub clear_dispose_retired : TaskLedger → TaskLedger
clear_dispose_retired l = record l { retired_workflows = []; retired_activities = [] }

unfoldable pub take_all_outstanding : TaskLedger → TaskLedger × List (Bytes × Bool) × List Bytes
take_all_outstanding l =
    let taken : List (Bytes × Bool) =
      map (λ run_id. (run_id, contains run_id l.eviction_activations)) (keys l.workflows) in
    let tokens : List Bytes = keys l.activities in
    (
      record l {
        workflows = [];
        activities = [];
        eviction_activations = [];
        retired_workflows = extend (map (λ p. p.0) taken) l.retired_workflows;
        retired_activities = extend tokens l.retired_activities;
      },
      taken,
      tokens,
    )

unfoldable pub take_all_outstanding_for_replay : TaskLedger → TaskLedger × List Bytes × List Bytes
take_all_outstanding_for_replay l = (
  record l { workflows = []; activities = []; eviction_activations = [] },
  keys l.workflows,
  keys l.activities,
)

-- The loop over the leased runs, each removed with its eviction bit.
unfoldable pub take_leased_workflows : List Bytes → TaskLedger → TaskLedger × List (Bytes × Bool)
take_leased_workflows [] l = (l, [])
take_leased_workflows (run_id ∷ rest) l =
    let eviction_only = contains run_id l.eviction_activations in
    let (l', taken) = take_leased_workflows rest (record l {
      workflows = remove run_id l.workflows;
      eviction_activations = remove run_id l.eviction_activations;
    }) in
    (l', (run_id, eviction_only) ∷ taken)

unfoldable pub remove_activities : List Bytes → TaskLedger → TaskLedger
remove_activities [] l = l
remove_activities (task_token ∷ rest) l =
    remove_activities rest (record l { activities = remove task_token l.activities })

unfoldable pub take_leased_for_shutdown : TaskLedger → TaskLedger × List (Bytes × Bool) × List Bytes
unfolding take_leased_workflows remove_activities
take_leased_for_shutdown l =
    let (l', workflows) =
      take_leased_workflows (keys (retain (λ _ leased. leased) l.workflows)) l in
    let activities : List Bytes = keys (retain (λ _ state. state.leased) l'.activities) in
    (remove_activities activities l', workflows, activities)
