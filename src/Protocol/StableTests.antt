-- ===== src/Protocol/StableTests.antt =====
-- Concrete documents, and the theorems of `Protocol.Stable` applied to them.
use ocaml_temporal.Base.Map.{elem}
use ocaml_temporal.Base.{◌≡◌, refl, Option, some, [], ◌∷◌, ◌++◌, ok, Bytes, bytes_key}
use ocaml_temporal.Protocol.Json.{
  JsonValue, json_object, json_null, json_string, no_entries, entry_then, validate_tree,
  max_string_bytes,
}
use ocaml_temporal.Protocol.Preflight.{preflight, scan, scan_byte, decode_byte, outside_byte}
use ocaml_temporal.Protocol.Envelope.{
  Envelope, request_envelope, validate_envelope, envelope_from_json, require_exact_fields, field,
  expect_object, expect_string, word_kind, word_correlation_id, word_operation, word_body,
  word_request,
}
use ocaml_temporal.Protocol.Rendering.{
  text, render_json, render_envelope, sort_entries, insert_sorted, key_leb,
}
use ocaml_temporal.Protocol.Documents.{
  parse_strict_with_string_limit, decode_with_limit, encode_with_limit, decode, encode,
}
use ocaml_temporal.Protocol.Stable.{encode-stable}

abbrev quoted : Bytes → Option Bytes
quoted s = some (34 ∷ s ++ 34 ∷ [])

-- The entries stand in the wrong order.
abbrev body : JsonValue
body = json_object (entry_then (98 ∷ []) json_null (entry_then (97 ∷ []) json_null no_entries))

abbrev sorted_body : JsonValue
sorted_body =
    json_object (entry_then (97 ∷ []) json_null (entry_then (98 ∷ []) json_null no_entries))

abbrev reads_body : Bytes → Option JsonValue
reads_body _ = some sorted_body

abbrev rendered : Bytes
rendered = text "{\"a\":null,\"b\":null}"

body_encodes : encode_with_limit reads_body quoted max_string_bytes body ≡ ok rendered
unfolding encode_with_limit validate_tree render_json sort_entries insert_sorted key_leb
    decode_with_limit parse_strict_with_string_limit preflight scan scan_byte decode_byte
    outside_byte
body_encodes = refl

abbrev correlation : Bytes
correlation = text "0123456789abcdef0123456789abcdef"

abbrev ping : Envelope
ping = request_envelope (record {
  correlation_id = correlation;
  operation = text "ping";
  body = json_object no_entries;
})

abbrev ping_tree : JsonValue
ping_tree = json_object (
    entry_then word_kind (json_string word_request) (
      entry_then word_correlation_id (json_string correlation) (
        entry_then word_operation (json_string (text "ping"))
          (entry_then word_body (json_object no_entries) no_entries))))

abbrev reads_ping : Bytes → Option JsonValue
reads_ping _ = some ping_tree

abbrev ping_rendered : Bytes
ping_rendered =
    text
      "{\"kind\":\"request\",\"correlation_id\":\"0123456789abcdef0123456789abcdef\",\"operation\":\"ping\",\"body\":{}}"

ping_encodes : encode reads_ping quoted ping ≡ ok ping_rendered
unfolding encode decode validate_envelope envelope_from_json require_exact_fields field
    expect_object expect_string elem validate_tree render_envelope render_json sort_entries
    parse_strict_with_string_limit preflight scan scan_byte decode_byte outside_byte
ping_encodes = refl

encode-stable_example :
    (e : Envelope) × (decode reads_ping ping_rendered ≡ ok e)
    × (encode reads_ping quoted e ≡ ok ping_rendered)
encode-stable_example = encode-stable reads_ping quoted ping ping_rendered ping_encodes
