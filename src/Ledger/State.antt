-- ===== src/Ledger/State.antt =====
-- rust/core-bridge/src/worker_bridge.rs, the types of the ledger and its admission phase.
-- Run ids and task tokens are byte strings. The test-only probe fields are left out.
use ocaml_temporal.Base.{
  ℕ, ◌+◌, Bool, true, false, not, ◌&&◌, ◌||◌, [], Result, ok, err, Bytes, ltb, ◌==◌, length, ◌*◌,
}
use ocaml_temporal.Base.Map.{Map, Set}

-- How a polled task changed what is outstanding.
pub data Admission : Type 0 where
  new duplicate existing_cancellation : Admission

pub data ActivityAdmission : Type 0 where
  start cancel : ActivityAdmission

pub data AdmitError : Type 0 where
  draining invalid_identity unknown_activity_cancellation retired : AdmitError

pub data CompleteError : Type 0 where
  unknown_workflow unknown_activity not_leased already_leased : CompleteError

pub data Phase : Type 0 where
  open_phase draining_phase : Phase

pub record ActivityState : Type 0 where
  pub cancelled : Bool
  pub leased : Bool

pub record TaskLedger : Type 0 where
  pub phase : Phase
  pub workflows : Map Bytes Bool  -- whether the run is leased
  pub activities : Map Bytes ActivityState
  pub lost_poll_lease : Bool
  pub retired_workflows : Set Bytes
  pub retired_activities : Set Bytes
  pub eviction_activations : Set Bytes

abbrev pub max_run_id_bytes : ℕ
max_run_id_bytes = 64 * 1024

abbrev pub max_task_token_bytes : ℕ
max_task_token_bytes = 128 * 1024 * 1024

abbrev pub new_ledger : TaskLedger
new_ledger = record {
  phase = open_phase;
  workflows = [];
  activities = [];
  lost_poll_lease = false;
  retired_workflows = [];
  retired_activities = [];
  eviction_activations = [];
}

-- `is_empty() || len() > limit`.
abbrev pub bad_identity : ℕ → Bytes → Bool
bad_identity limit id = (length id == 0) || ltb limit (length id)

abbrev pub is_open : Phase → Bool
is_open open_phase = true
is_open draining_phase = false

unfoldable pub ensure_open : TaskLedger → Result AdmitError (Unit {0})
ensure_open l = elim l.phase [ open_phase ↦ ok tt | draining_phase ↦ err draining ]

unfoldable pub begin_draining : TaskLedger → TaskLedger
begin_draining l = record l { phase = draining_phase }

unfoldable pub mark_lost_poll_lease : TaskLedger → TaskLedger
mark_lost_poll_lease l = record l { lost_poll_lease = true }

unfoldable pub outstanding_workflows : TaskLedger → ℕ
outstanding_workflows l = length l.workflows

unfoldable pub outstanding_activities : TaskLedger → ℕ
outstanding_activities l = length l.activities

unfoldable pub outstanding : TaskLedger → ℕ
unfolding outstanding_workflows outstanding_activities
outstanding l = outstanding_workflows l + outstanding_activities l

unfoldable pub can_finalize : TaskLedger → Bool
unfolding outstanding
can_finalize l = not (is_open l.phase) && (outstanding l == 0) && not l.lost_poll_lease
