-- ===== src/Replay/Histories.antt =====
-- rust/core-bridge/src/replay_bridge.rs: the decoding of a history document and its checks. base64,
-- protobuf, serde and Core's `HistoryInfo` are parameters.
use ocaml_temporal.Base.{
  ℕ, ◌+◌, ℤ, pos, int_eq, not, ◌&&◌, ◌||◌, Option, none, some, List, [], ◌∷◌, Result, ok, err,
  ◌>>=◌, ◌>>◌, fail_if, Bytes, bytes_eq, bytes_key, nat_eq, ◌==◌, ltb, length, is_some,
}
use ocaml_temporal.Base.Map.{elem}
use ocaml_temporal.Protocol.Json.{JsonValue, max_string_bytes, max_payload_bytes}
use ocaml_temporal.Protocol.Documents.{decode_payload_object}
use ocaml_temporal.Protocol.Rendering.{text}

pub data ReplayInputError : Type 0 where
  invalid_document invalid_workflow_id invalid_encoding invalid_protobuf : ReplayInputError
  invalid_history workflow_id_mismatch missing_task_queue : ReplayInputError
  non_contiguous_event_ids missing_workflow_task_timestamp : ReplayInputError

pub record ReplayPayload : Type 0 where
  pub encoding : Bytes
  pub payload : Bytes

pub record ReplayHistoryDocument : Type 0 where
  pub workflow_id : Bytes
  pub history : ReplayPayload

-- The fields of Temporal's `History` that are read.
pub record StartedAttributes : Type 0 where
  pub workflow_id : Bytes
  pub task_queue : Option Bytes

pub data Attributes : Type 0 where
  workflow_execution_started : StartedAttributes → Attributes
  other_attributes : Attributes

pub record HistoryEvent : Type 0 where
  pub event_id : ℤ
  pub event_type : ℤ
  pub event_time : Option ℕ
  pub attributes : Option Attributes

unfoldable pub validate_workflow_id : Bytes → Result ReplayInputError (Unit {0})
validate_workflow_id workflow_id =
    fail_if
      ((length workflow_id == 0)
        || (ltb max_string_bytes (length workflow_id) || elem 0 workflow_id))
      invalid_workflow_id

abbrev pub start_attributes : List HistoryEvent → Option StartedAttributes
start_attributes [] = none
start_attributes (e ∷ _) = elim (e.attributes) [
  | none ↦ none
  | some a ↦ elim a [ workflow_execution_started s ↦ some s | other_attributes ↦ none ]
]

-- The two checks of the start event that use its attributes.
abbrev pub check_start : StartedAttributes → Bytes → Result ReplayInputError (Unit {0})
check_start started workflow_id =
    fail_if
      (not (length started.workflow_id == 0) && not (bytes_eq started.workflow_id workflow_id))
      workflow_id_mismatch
    >> fail_if (not (is_some started.task_queue)) missing_task_queue

-- The number that protobuf gives to `EventType::WorkflowTaskStarted` is a parameter.
module _ (workflow_task_started : ℤ) where
  -- The loop over the events, from the id that is expected next.
  unfoldable pub check_events : ℕ → List HistoryEvent → Result ReplayInputError (Unit {0})
  check_events expected [] = ok tt
  check_events expected (e ∷ es) =
      fail_if (not (int_eq e.event_id (pos expected))) non_contiguous_event_ids
      >> (fail_if (int_eq e.event_type workflow_task_started && not (is_some e.event_time))
            missing_workflow_task_timestamp
          >> check_events (expected + 1) es)

  unfoldable pub validate_replay_preconditions :
      List HistoryEvent → Bytes → Result ReplayInputError (Unit {0})
  validate_replay_preconditions events workflow_id = elim (start_attributes events) [
    | none ↦ err invalid_history
    | some started ↦ check_start started workflow_id >> check_events 1 events
  ]

-- What the third parties do. `new_from_history` fails on an error and on a panic that is caught.
pub record Decoders (Info : Type 0) : Type 0 where
  pub parse_json : Bytes → Option JsonValue
  pub read_document : Bytes → Option ReplayHistoryDocument
  pub decode_base64 : Bytes → Option Bytes
  pub encode_base64 : Bytes → Bytes
  pub decode_history : Bytes → Option (List HistoryEvent)
  pub new_from_history : List HistoryEvent → Option Info
  pub orig_run_id : Info → Bytes
  pub workflow_task_started : ℤ

abbrev pub or_refuse {ℓ} : {A : Type ℓ} {E : Type ℓ} → Option A → E → Result E A
or_refuse none e = err e
or_refuse (some a) e = ok a

module _ {Info : Type 0} (d : Decoders Info) where
  unfoldable pub decode_history_bytes : ReplayPayload → Result ReplayInputError Bytes
  decode_history_bytes p =
      fail_if (not (bytes_eq p.encoding (text "base64"))) invalid_encoding
      >> (or_refuse (d.decode_base64 p.payload) invalid_encoding >>= λ decoded.
          fail_if
            (ltb max_payload_bytes (length decoded)
              || not (bytes_eq (d.encode_base64 decoded) p.payload))
            invalid_encoding
          >> ok decoded)

  unfoldable pub decode_wire : Bytes → Result ReplayInputError ReplayHistoryDocument
  decode_wire input = elim (decode_payload_object d.parse_json input) [
    | err _ ↦ err invalid_document
    | ok _ ↦ or_refuse (d.read_document input) invalid_document
  ]

  -- Core's gate, and the run id that it must have found.
  unfoldable pub history_info : List HistoryEvent → Result ReplayInputError Info
  history_info events = or_refuse (d.new_from_history events) invalid_history >>= λ info.
      fail_if (length (d.orig_run_id info) == 0) invalid_history >> ok info

  -- `HistoryForReplay` is the info with the workflow id.
  unfoldable pub decode_history_document : Bytes → Result ReplayInputError (Info × Bytes)
  decode_history_document input = decode_wire input >>= λ document.
      validate_workflow_id document.workflow_id
      >> (decode_history_bytes document.history >>= λ bytes.
          or_refuse (d.decode_history bytes) invalid_protobuf >>= λ events.
          history_info events >>= λ info.
          validate_replay_preconditions d.workflow_task_started events document.workflow_id
          >> ok (info, document.workflow_id))

  -- Core's history of an info, protobuf's bytes of it, and serde's text of a document.
  module _ (history_of : Info → List HistoryEvent) (encode_history : List HistoryEvent → Bytes)
      (write_document : ReplayHistoryDocument → Option Bytes) where
    unfoldable pub encode_history_document :
        Bytes → List HistoryEvent → Result ReplayInputError Bytes
    encode_history_document workflow_id events =
        validate_workflow_id workflow_id
        >> (history_info events >>= λ info.
            let bytes = encode_history (history_of info) in
            fail_if (ltb max_payload_bytes (length bytes)) invalid_protobuf
            >> (or_refuse
                  (write_document (record {
                    workflow_id = workflow_id;
                    history = record { encoding = text "base64"; payload = d.encode_base64 bytes };
                  }))
                  invalid_document
                >>= λ encoded. decode_history_document encoded >>= λ _. ok encoded))
