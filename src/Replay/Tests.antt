-- ===== src/Replay/Tests.antt =====
-- A concrete history and a concrete worker, and the theorems of `Replay` applied to them.
use ocaml_temporal.Worker.Handoff.{PollLanes, mark_natural_shutdown, no_publication}
use ocaml_temporal.Worker.Completion.{finalize}
use ocaml_temporal.Worker.Readiness.{new_lane, publish_all}
use ocaml_temporal.Worker.Core.{Sent, WorkerBridgeError}
use ocaml_temporal.Ledger.Calls.{Call, completes_workflow, admits_activation}
use ocaml_temporal.Ledger.History.{run}
use ocaml_temporal.Ledger.Drain.{clear_dispose_retired}
use ocaml_temporal.Ledger.State.{
  new_ledger, outstanding, outstanding_workflows, outstanding_activities, begin_draining,
}
use ocaml_temporal.Replay.Joined.{
  IsSettledBy, published_for, join_acknowledges, first_end, AdmitsNone, PublishesAdmitted,
  IsOwedQueued,
}
use ocaml_temporal.Replay.Outcome.{IsDrained, finalize_replay-IsDrained, second_disposal_ends}
use ocaml_temporal.Replay.Worker.{
  ReplayWorker, JoinSelect, lane_ended, received, finalize_replay, dispose_replay, finalization,
  poll_lane, lane_failure, join_replay_lane_within, has_outstanding_tasks, join_replay_poll_lane,
  before_select,
}
use ocaml_temporal.Base.{
  ◌≡◌, ◌↔◌, refl, pos, none, some, List, [], ◌∷◌, ok, Bytes, bytes_key, nat_eq, true, false, ◌⊎◌,
  err,
}
use ocaml_temporal.Base.Map.{elem}
use ocaml_temporal.Protocol.Json.{json_object, no_entries, validate_tree}
use ocaml_temporal.Protocol.Preflight.{preflight, scan, scan_byte, decode_byte, outside_byte}
use ocaml_temporal.Protocol.Documents.{decode_with_limit, parse_strict_with_string_limit}
use ocaml_temporal.Protocol.Rendering.{text}
use ocaml_temporal.Replay.Histories.{
  HistoryEvent, workflow_execution_started, other_attributes, Decoders, StartedAttributes,
  start_attributes, validate_replay_preconditions, check_events, validate_workflow_id,
  decode_history_bytes, decode_wire, history_info, decode_history_document,
}
use ocaml_temporal.Replay.Admitted.{IsStart, IsNumbered, validate_replay_preconditions_iff}

abbrev events : List HistoryEvent
events =
    record {
      event_id = pos 1;
      event_type = pos 1;
      event_time = none;
      attributes =
          some (
            workflow_execution_started (record { workflow_id = []; task_queue = some (113 ∷ []) }));
    }
    ∷ record {
      event_id = pos 2;
      event_type = pos 6;
      event_time = some 5;
      attributes = some other_attributes;
    }
    ∷ []

validate_replay_preconditions_iff_example :
    (validate_replay_preconditions (pos 6) events (119 ∷ []) ≡ ok tt) ↔ (
      ((s : StartedAttributes) × (start_attributes events ≡ some s) × IsStart (119 ∷ []) s)
      × IsNumbered (pos 6) 1 events)
validate_replay_preconditions_iff_example =
    validate_replay_preconditions_iff (pos 6) events (119 ∷ [])

events_accepted : validate_replay_preconditions (pos 6) events (119 ∷ []) ≡ ok tt
unfolding validate_replay_preconditions check_events
events_accepted = refl

-- A reader that knows one document, whose payload is its own base64.
abbrev decoders : Decoders Bytes
decoders = record {
  parse_json = λ _. some (json_object no_entries);
  read_document = λ _. some (record {
    workflow_id = 119 ∷ [];
    history = record { encoding = text "base64"; payload = 7 ∷ [] };
  });
  decode_base64 = λ p. some p;
  encode_base64 = λ b. b;
  decode_history = λ _. some events;
  new_from_history = λ _. some (114 ∷ []);
  orig_run_id = λ info. info;
  workflow_task_started = pos 6;
}

document_decodes : decode_history_document decoders (123 ∷ 125 ∷ []) ≡ ok (114 ∷ [], 119 ∷ [])
unfolding decode_history_document decode_wire validate_workflow_id decode_history_bytes history_info
    validate_replay_preconditions check_events elem decode_with_limit parse_strict_with_string_limit
    preflight scan scan_byte decode_byte outside_byte validate_tree
document_decodes = refl

abbrev run_a : Bytes
run_a = 97 ∷ []

abbrev replay_lanes : PollLanes
replay_lanes = record {
  ledger = new_ledger;
  workflow_ready = new_lane;
  activity_ready = new_lane;
  sent = [];
  shutdown_started = false;
}

abbrev drained : ReplayWorker Bytes
drained = record {
  lanes = replay_lanes;
  workflow_lane = true;
  replay_join_timed_out = false;
  feeder = false;
  workflow_shutdown_observed = true;
  fed = [];
}

abbrev others : List Sent → List Call
others _ = completes_workflow run_a ∷ []

abbrev ends : List JoinSelect
ends = record { calls = []; published = []; branch = lane_ended false } ∷ []

-- An eviction is published and received, and then the lane ends.
abbrev publishes : List JoinSelect
publishes =
    record {
      calls = admits_activation run_a true ∷ [];
      published = ok (record { run_id = run_a; is_only_eviction = true }) ∷ [];
      branch = received;
    }
    ∷ ends

finalizes : (finalize_replay others no_publication ends true drained).1 ≡ ok tt
unfolding finalize_replay has_outstanding_tasks outstanding outstanding_workflows
    outstanding_activities join_replay_poll_lane join_replay_lane_within before_select publish_all
    run finalize mark_natural_shutdown begin_draining clear_dispose_retired
finalizes = refl

finalize_replay-IsDrained_example :
    let w' = (finalize_replay others no_publication ends true drained).0 in
    IsDrained drained
    × (w'.replay_join_timed_out ≡ false)
    × (outstanding w'.lanes.ledger ≡ 0)
    × (w'.lanes.ledger.lost_poll_lease ≡ false)
    × (true ≡ true)
finalize_replay-IsDrained_example =
    finalize_replay-IsDrained others no_publication ends true drained finalizes

second_disposal_ends_example :
    let w' = (dispose_replay others no_publication no_publication [] true drained).0 in
    let (w'', answer) = dispose_replay others no_publication no_publication publishes true w' in
    ((answer ≡ none)
      ⊎ ((answer ≡ some (ok tt))
          ⊎ ((e : WorkerBridgeError) × (answer ≡ some (err (finalization e))))))
    × (w'.replay_join_timed_out ≡ true
        → (answer ≡ none)
          × (w''.lanes ≡ w'.lanes)
          × ((finalize_replay others no_publication ends true w').1 ≡ err (poll_lane lane_failure)))
second_disposal_ends_example =
    second_disposal_ends others no_publication no_publication no_publication no_publication []
      publishes ends true true drained

join_acknowledges_example :
    let s' = (join_replay_lane_within others publishes replay_lanes).0 in
    IsSettledBy run_a (published_for run_a publishes) replay_lanes s'
    × (((sent : List Sent) → AdmitsNone run_a (others sent))
        → PublishesAdmitted run_a publishes
        → IsOwedQueued run_a replay_lanes
        → IsOwedQueued run_a s')
    × ((join_replay_lane_within others publishes replay_lanes).1 ≡ first_end publishes)
join_acknowledges_example = join_acknowledges others run_a publishes replay_lanes refl
