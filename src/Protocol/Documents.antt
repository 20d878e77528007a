-- ===== src/Protocol/Documents.antt =====
-- rust/core-bridge/src/protocol.rs: the entry points on whole documents. serde_json is a parameter:
-- `parse` is its reader with the visitor of `JsonValue` and the check for trailing input, and
-- `quote_text` its writer of one string.
use ocaml_temporal.Base.{
  ℕ, Bool, true, false, not, Option, none, some, Result, ok, err, ◌>>=◌, ◌>>◌, fail_if, Bytes,
  bytes_eq, ◌==◌, if◌then◌else◌,
}
use ocaml_temporal.Protocol.Json.{
  ProtocolError, invalid_json, no_round_trip, operation_not_object, unsupported_compatibility,
  JsonValue, json_object, validate_tree, max_string_bytes, max_payload_base64_bytes,
}
use ocaml_temporal.Protocol.Preflight.{preflight}
use ocaml_temporal.Protocol.Envelope.{Envelope, envelope_from_json, validate_envelope}
use ocaml_temporal.Protocol.Rendering.{render_json, render_envelope}

abbrev pub compatibility_version : ℕ
compatibility_version = 1

unfoldable pub check_compatibility : ℕ → Result ProtocolError (Unit {0})
check_compatibility actual =
    fail_if (not (actual == compatibility_version)) unsupported_compatibility

abbrev pub is_object : JsonValue → Bool
is_object (json_object _) = true
is_object _ = false

-- A value is handed on if it is an object.
abbrev pub require_object : JsonValue → Result ProtocolError JsonValue
require_object v = if is_object v then ok v else err operation_not_object

-- What a rendering that was read back must be: the same bytes when it is rendered again.
abbrev pub require_same : Bytes → Result ProtocolError Bytes → Result ProtocolError Bytes
require_same output again =
    again >>= λ second. if bytes_eq second output then ok output else err no_round_trip

module _ (parse : Bytes → Option JsonValue) where
  abbrev pub parsed : Bytes → Result ProtocolError JsonValue
  parsed input = elim (parse input) [ none ↦ err invalid_json | some v ↦ ok v ]

  unfoldable pub parse_strict_with_string_limit : Bytes → ℕ → Result ProtocolError JsonValue
  parse_strict_with_string_limit input limit =
      preflight input limit >> (parsed input >>= λ v. validate_tree v 1 0 limit >>= λ _. ok v)

  abbrev pub parse_strict : Bytes → Result ProtocolError JsonValue
  parse_strict input = parse_strict_with_string_limit input max_string_bytes

  unfoldable pub decode : Bytes → Result ProtocolError Envelope
  decode input = parse_strict input >>= envelope_from_json

  unfoldable pub decode_with_limit : ℕ → Bytes → Result ProtocolError JsonValue
  decode_with_limit limit input = parse_strict_with_string_limit input limit >>= require_object

  abbrev pub decode_object : Bytes → Result ProtocolError JsonValue
  decode_object = decode_with_limit max_string_bytes

  abbrev pub decode_payload_object : Bytes → Result ProtocolError JsonValue
  decode_payload_object = decode_with_limit max_payload_base64_bytes

module _ (parse : Bytes → Option JsonValue) (quote_text : Bytes → Option Bytes) where
  unfoldable pub encode : Envelope → Result ProtocolError Bytes
  encode envelope =
      validate_envelope envelope
      >> (render_envelope quote_text envelope >>= λ output. decode parse output >>= λ reparsed.
          require_same output (render_envelope quote_text reparsed))

  -- `encode_object` and `encode_payload_object`, by their limit.
  unfoldable pub encode_with_limit : ℕ → JsonValue → Result ProtocolError Bytes
  encode_with_limit limit value = require_object value >>= λ _.
      validate_tree value 1 0 limit >>= λ _. render_json quote_text value >>= λ output.
      decode_with_limit parse limit output >>= λ reparsed.
      require_same output (render_json quote_text reparsed)

  abbrev pub encode_object : JsonValue → Result ProtocolError Bytes
  encode_object = encode_with_limit max_string_bytes

  abbrev pub encode_payload_object : JsonValue → Result ProtocolError Bytes
  encode_payload_object = encode_with_limit max_payload_base64_bytes
