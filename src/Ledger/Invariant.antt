-- ===== src/Ledger/Invariant.antt =====
-- What holds of a ledger between two calls, and the changes that keep it.
use ocaml_temporal.Base.{◌≡◌, Bool, true, false, Bytes, bytes_key, bytes_eq_iff, arith}
use ocaml_temporal.Base.Map.{
  Map, Set, contains, insert, add, remove, Distinct, get-insert, get-remove, insert-Distinct,
  remove-Distinct,
}
use ocaml_temporal.Ledger.State.{
  TaskLedger, ActivityState, max_run_id_bytes, max_task_token_bytes, bad_identity,
}

-- The workflow half.
pub record IsWorkflowsValid (workflows : Map Bytes Bool) (evictions retired : Set Bytes)
    : Type 0 where
  pub distinct : Distinct workflows
  pub identities :
      (k : Bytes) → contains k workflows ≡ true → bad_identity max_run_id_bytes k ≡ false
  pub not_retired : (k : Bytes) → contains k workflows ≡ true → contains k retired ≡ false
  pub evictions_owned : (k : Bytes) → contains k evictions ≡ true → contains k workflows ≡ true

-- The activity half.
pub record IsActivitiesValid (activities : Map Bytes ActivityState) (retired : Set Bytes)
    : Type 0 where
  pub distinct : Distinct activities
  pub identities :
      (k : Bytes) → contains k activities ≡ true → bad_identity max_task_token_bytes k ≡ false
  pub not_retired : (k : Bytes) → contains k activities ≡ true → contains k retired ≡ false

-- No identity stands twice, every identity is well formed, none is both outstanding and retired by
-- disposal, and only outstanding workflows are marked as evictions.
pub record IsValid (l : TaskLedger) : Type 0 where
  pub workflows_valid : IsWorkflowsValid l.workflows l.eviction_activations l.retired_workflows
  pub activities_valid : IsActivitiesValid l.activities l.retired_activities

module _ (w : Map Bytes Bool) (ev ret : Set Bytes) (v : IsWorkflowsValid w ev ret) (r : Bytes) where
  pub insert_workflow-IsWorkflowsValid :
      (b : Bool)
      → bad_identity max_run_id_bytes r ≡ false
      → contains r ret ≡ false
      → IsWorkflowsValid (insert r b w) ev ret
  insert_workflow-IsWorkflowsValid b good free = record {
    distinct = insert-Distinct r b w v.distinct;
    identities = λ k h. ground (arith, v.identities k, get-insert r k b w, bytes_eq_iff r k);
    not_retired = λ k h. ground (arith, v.not_retired k, get-insert r k b w, bytes_eq_iff r k);
    evictions_owned =
        λ k h. ground (arith, v.evictions_owned k h, get-insert r k b w, bytes_eq_iff r k);
  }

  pub add_eviction-IsWorkflowsValid : contains r w ≡ true → IsWorkflowsValid w (add r ev) ret
  add_eviction-IsWorkflowsValid owned = record {
    distinct = v.distinct;
    identities = v.identities;
    not_retired = v.not_retired;
    evictions_owned =
        λ k h. ground (arith, v.evictions_owned k, get-insert r k tt ev, bytes_eq_iff r k);
  }

  pub remove_eviction-IsWorkflowsValid : IsWorkflowsValid w (remove r ev) ret
  remove_eviction-IsWorkflowsValid = record {
    distinct = v.distinct;
    identities = v.identities;
    not_retired = v.not_retired;
    evictions_owned =
        λ k h. ground (arith, v.evictions_owned k, get-remove r k ev, bytes_eq_iff r k);
  }

  pub drop-IsWorkflowsValid : IsWorkflowsValid (remove r w) (remove r ev) ret
  drop-IsWorkflowsValid = record {
    distinct = remove-Distinct r w v.distinct;
    identities = λ k h. ground (arith, v.identities k, get-remove r k w);
    not_retired = λ k h. ground (arith, v.not_retired k, get-remove r k w);
    evictions_owned =
        λ k h. ground (arith, v.evictions_owned k, get-remove r k w, get-remove r k ev);
  }

  pub retire-IsWorkflowsValid : IsWorkflowsValid (remove r w) (remove r ev) (add r ret)
  retire-IsWorkflowsValid =
      let d : IsWorkflowsValid (remove r w) (remove r ev) ret = drop-IsWorkflowsValid in
      record {
        distinct = d.distinct;
        identities = d.identities;
        not_retired =
            λ k h. ground (arith, d.not_retired k h, get-remove r k w, get-insert r k tt ret);
        evictions_owned = d.evictions_owned;
      }

module _ (a : Map Bytes ActivityState) (ret : Set Bytes) (v : IsActivitiesValid a ret)
    (t : Bytes) where
  pub insert-IsActivitiesValid :
      (s : ActivityState)
      → bad_identity max_task_token_bytes t ≡ false
      → contains t ret ≡ false
      → IsActivitiesValid (insert t s a) ret
  insert-IsActivitiesValid s good free = record {
    distinct = insert-Distinct t s a v.distinct;
    identities = λ k h. ground (arith, v.identities k, get-insert t k s a, bytes_eq_iff t k);
    not_retired = λ k h. ground (arith, v.not_retired k, get-insert t k s a, bytes_eq_iff t k);
  }

  -- A change to an entry that is there.
  pub update-IsActivitiesValid :
      (s : ActivityState) → contains t a ≡ true → IsActivitiesValid (insert t s a) ret
  update-IsActivitiesValid s owned =
      insert-IsActivitiesValid s (v.identities t owned) (v.not_retired t owned)

  pub remove-IsActivitiesValid : IsActivitiesValid (remove t a) ret
  remove-IsActivitiesValid = record {
    distinct = remove-Distinct t a v.distinct;
    identities = λ k h. ground (arith, v.identities k, get-remove t k a);
    not_retired = λ k h. ground (arith, v.not_retired k, get-remove t k a);
  }

  pub retire-IsActivitiesValid : IsActivitiesValid (remove t a) (add t ret)
  retire-IsActivitiesValid = record {
    distinct = remove-Distinct t a v.distinct;
    identities = λ k h. ground (arith, v.identities k, get-remove t k a);
    not_retired = λ k h. ground (arith, v.not_retired k, get-remove t k a, get-insert t k tt ret);
  }

module _ (w : Map Bytes Bool) (ev ret : Set Bytes) (v : IsWorkflowsValid w ev ret) (r : Bytes) where
  pub relabel-IsWorkflowsValid :
      (b : Bool) → contains r w ≡ true → IsWorkflowsValid (insert r b w) ev ret
  relabel-IsWorkflowsValid b owned =
      insert_workflow-IsWorkflowsValid w ev ret v r b (v.identities r owned) (v.not_retired r owned)
