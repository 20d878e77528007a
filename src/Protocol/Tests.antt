-- ===== src/Protocol/Tests.antt =====
-- Concrete documents, and the theorems of `Protocol` applied to them.
use ocaml_temporal.Base.Map.{elem}
use ocaml_temporal.Protocol.RoundTrip.{envelope_tree, envelope_from_json-envelope_tree}
use ocaml_temporal.Protocol.Envelope.{
  Envelope, request_envelope, word_kind, envelope_from_json, validate_envelope,
  require_exact_fields, field, expect_object, expect_string,
}
use ocaml_temporal.Base.{◌≡◌, refl, none, List, [], ◌∷◌, ok, Bytes, ◌>>=◌, err}
use ocaml_temporal.Protocol.Json.{
  JsonValue, json_object, json_array, json_string, json_null, value_then, no_values, entry_then,
  no_entries, validate_tree, bad_correlation_id,
}
use ocaml_temporal.Protocol.Limits.{
  size, height, is_short, accepted, verdict, accepted-validate_tree,
}
use ocaml_temporal.Protocol.Preflight.{
  Scan, new_scan, scan, scan_byte, decode_byte, outside_byte, hex_value, unicode_escape_bytes,
  preflight,
}
use ocaml_temporal.Protocol.Measured.{Piece, plain, simple, unicode}
use ocaml_temporal.Protocol.Scanned.{scan_to, IsScanValid, scan_to-IsScanValid}

abbrev tree : JsonValue
tree = json_object (
    entry_then (97 ∷ []) (json_array (value_then json_null no_values))
      (entry_then (98 ∷ []) (json_string (120 ∷ 121 ∷ [])) no_entries))

accepted-validate_tree_example :
    accepted (validate_tree tree 127 0 65536)
    ≡ verdict 127 0 (size tree) (height tree) (is_short 65536 tree)
accepted-validate_tree_example = accepted-validate_tree tree 127 0 65536

too_deep : accepted (validate_tree tree 127 0 65536) ≡ none
unfolding validate_tree
too_deep = refl

-- `a\n`, the escape of U+00E9, and that of U+1F600 as a pair.
abbrev pieces : List Piece
pieces = plain 97 ∷ simple 110 ∷ unicode 0 0 14 9 ∷ unicode 13 8 3 13 ∷ unicode 13 14 0 0 ∷ []

abbrev opening : Bytes
opening = 123 ∷ 34 ∷ 92 ∷ 117 ∷ 48 ∷ []

scan_to-IsScanValid_example : (s' : Scan) × (scan_to 4 opening new_scan ≡ ok s') × IsScanValid 4 s'
unfolding preflight scan scan_byte decode_byte outside_byte hex_value unicode_escape_bytes
scan_to-IsScanValid_example = scan_to-IsScanValid 4 opening (48 ∷ 52 ∷ 49 ∷ 34 ∷ 125 ∷ []) refl

-- A request whose operation has a capital letter.
abbrev bad_request : Envelope
bad_request =
    request_envelope (record { correlation_id = word_kind; operation = 80 ∷ []; body = tree })

envelope_from_json-envelope_tree_example :
    envelope_from_json (envelope_tree bad_request)
    ≡ (validate_envelope bad_request >>= λ _. ok bad_request)
envelope_from_json-envelope_tree_example = envelope_from_json-envelope_tree bad_request

bad_request_refused : envelope_from_json (envelope_tree bad_request) ≡ err bad_correlation_id
unfolding envelope_from_json require_exact_fields field expect_object expect_string elem
    validate_envelope
bad_request_refused = refl
