-- ===== src/Protocol/Json.antt =====
-- rust/core-bridge/src/protocol.rs: the tree of a document, the limits, and `validate_tree`.
use ocaml_temporal.Base.{
  ℕ, ◌*◌, Bool, Bytes, Result, if◌then◌else◌, ltb, ◌+◌, ◌||◌, err, ok, ◌>>=◌, length, ◌/◌,
}

abbrev pub max_document_bytes : ℕ
max_document_bytes = 192 * 1024 * 1024

abbrev pub max_depth : ℕ
max_depth = 128

abbrev pub max_string_bytes : ℕ
max_string_bytes = 65536

abbrev pub max_payload_bytes : ℕ
max_payload_bytes = 128 * 1024 * 1024

abbrev pub max_payload_base64_bytes : ℕ
max_payload_base64_bytes = (max_payload_bytes + 2) / 3 * 4

abbrev pub max_nodes : ℕ
max_nodes = max_document_bytes

-- One constructor for each refusal; its text is left out.
pub data ProtocolError : Type 0 where
  document_limit string_limit nesting_limit : ProtocolError
  resource_limit decoded_string_limit decoded_key_limit : ProtocolError
  expected_object expected_string expected_bool missing_field unknown_fields : ProtocolError
  unknown_kind unknown_code bad_correlation_id bad_operation : ProtocolError
  body_not_object bad_error_message : ProtocolError
  invalid_json unencodable_string no_round_trip : ProtocolError
  operation_not_object unsupported_compatibility : ProtocolError

-- A signed number is given by its sign and its size. A string is its UTF-8 bytes.
mutual
  pub data JsonValue : Type 0 where
    json_null : JsonValue
    json_bool : Bool → JsonValue
    json_signed : Bool → ℕ → JsonValue
    json_unsigned : ℕ → JsonValue
    json_string : Bytes → JsonValue
    json_array : JsonValues → JsonValue
    json_object : JsonEntries → JsonValue

  pub data JsonValues : Type 0 where
    no_values : JsonValues
    value_then : JsonValue → JsonValues → JsonValues

  pub data JsonEntries : Type 0 where
    no_entries : JsonEntries
    entry_then : Bytes → JsonValue → JsonEntries → JsonEntries

-- One more value, at a depth: the count of values afterwards.
abbrev pub count_node : ℕ → ℕ → Result ProtocolError ℕ
count_node depth nodes =
    if ltb max_nodes (nodes + 1) || ltb max_depth depth then err resource_limit else ok (nodes + 1)

-- `validate_tree`, and its loops over an array and an object; the result is the count of values.
unfoldable mutual
  pub validate_tree : JsonValue → ℕ → ℕ → ℕ → Result ProtocolError ℕ
  validate_tree json_null depth nodes limit = count_node depth nodes
  validate_tree (json_bool b) depth nodes limit = count_node depth nodes
  validate_tree (json_signed s n) depth nodes limit = count_node depth nodes
  validate_tree (json_unsigned n) depth nodes limit = count_node depth nodes
  validate_tree (json_string s) depth nodes limit = count_node depth nodes >>= λ n.
      if ltb limit (length s) then err decoded_string_limit else ok n
  validate_tree (json_array vs) depth nodes limit =
      count_node depth nodes >>= λ n. validate_values vs (depth + 1) n limit
  validate_tree (json_object es) depth nodes limit =
      count_node depth nodes >>= λ n. validate_entries es (depth + 1) n limit

  pub validate_values : JsonValues → ℕ → ℕ → ℕ → Result ProtocolError ℕ
  validate_values no_values depth nodes limit = ok nodes
  validate_values (value_then v vs) depth nodes limit =
      validate_tree v depth nodes limit >>= λ n. validate_values vs depth n limit

  pub validate_entries : JsonEntries → ℕ → ℕ → ℕ → Result ProtocolError ℕ
  validate_entries no_entries depth nodes limit = ok nodes
  validate_entries (entry_then k v es) depth nodes limit =
      if ltb limit (length k)
      then err decoded_key_limit
      else validate_tree v depth nodes limit >>= λ n. validate_entries es depth n limit
