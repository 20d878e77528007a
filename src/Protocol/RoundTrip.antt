-- ===== src/Protocol/RoundTrip.antt =====
-- Reading back the tree that an envelope is rendered as.
use ocaml_temporal.Base.{◌≡◌, refl, Bool, ok, Bytes, ◌>>=◌}
use ocaml_temporal.Base.Map.{elem}
use ocaml_temporal.Protocol.Json.{
  JsonValue, json_bool, json_string, json_object, no_entries, entry_then,
}
use ocaml_temporal.Protocol.Envelope.{
  word_kind, word_correlation_id, word_operation, word_body, word_error, word_code, word_message,
  word_retryable, word_request, word_response, word_invalid_message, word_unsupported_message,
  word_internal_bridge, BridgeErrorCode, invalid_message, unsupported_message, internal_bridge,
  Envelope, request_envelope, response_envelope, error_envelope, expect_object, expect_string,
  expect_bool, field, require_exact_fields, validate_envelope, validated, decode_error_envelope,
  envelope_from_json,
}

abbrev pub code_word : BridgeErrorCode → Bytes
code_word invalid_message = word_invalid_message
code_word unsupported_message = word_unsupported_message
code_word internal_bridge = word_internal_bridge

abbrev common_tree : Bytes → Bytes → Bytes → Bytes → JsonValue → JsonValue
common_tree kind correlation_id operation name value = json_object (
    entry_then word_kind (json_string kind) (
      entry_then word_correlation_id (json_string correlation_id)
        (entry_then word_operation (json_string operation) (entry_then name value no_entries))))

-- The tree of the text that `render_envelope` writes.
abbrev pub envelope_tree : Envelope → JsonValue
envelope_tree (request_envelope r) =
    common_tree word_request r.correlation_id r.operation word_body r.body
envelope_tree (response_envelope r) =
    common_tree word_response r.correlation_id r.operation word_body r.body
envelope_tree (error_envelope r) = common_tree word_error r.correlation_id r.operation word_error (
    json_object (
      entry_then word_code (json_string (code_word r.error.code)) (
        entry_then word_message (json_string r.error.message)
          (entry_then word_retryable (json_bool r.error.retryable) no_entries))))

read_error :
    (id op message : Bytes) (retryable : Bool) (code : BridgeErrorCode)
    → let e = error_envelope (record {
      correlation_id = id;
      operation = op;
      error = record { code = code; message = message; retryable = retryable };
    }) in
      envelope_from_json (envelope_tree e) ≡ validated e
unfolding envelope_from_json decode_error_envelope require_exact_fields field expect_object
    expect_string expect_bool elem
read_error id op message retryable invalid_message = refl
read_error id op message retryable unsupported_message = refl
read_error id op message retryable internal_bridge = refl

-- Reading the tree of an envelope gives that envelope back exactly if it passes
-- `validate_envelope`, and the refusal of `validate_envelope` otherwise.
pub envelope_from_json-envelope_tree :
    (e : Envelope) → envelope_from_json (envelope_tree e) ≡ (validate_envelope e >>= λ _. ok e)
unfolding envelope_from_json require_exact_fields field expect_object expect_string elem
envelope_from_json-envelope_tree (request_envelope r) = refl
envelope_from_json-envelope_tree (response_envelope r) = refl
envelope_from_json-envelope_tree (error_envelope r) =
    read_error r.correlation_id r.operation r.error.message r.error.retryable r.error.code
