-- ===== src/Protocol/Envelope.antt =====
-- rust/core-bridge/src/protocol.rs: envelopes, their checks, and their reading from a parsed tree.
use ocaml_temporal.Base.{
  ℕ, ◌+◌, Bool, true, false, not, ◌&&◌, ◌||◌, List, [], ◌∷◌, Result, ok, err, Bytes, bytes_key,
  bytes_eq, length, ltb, leb, ◌==◌, if◌then◌else◌, ◌>>=◌, ◌>>◌,
}
use ocaml_temporal.Base.Map.{elem}
use ocaml_temporal.Protocol.Json.{
  max_string_bytes, ProtocolError, expected_object, expected_string, expected_bool, missing_field,
  unknown_fields, unknown_kind, unknown_code, bad_correlation_id, bad_operation, body_not_object,
  bad_error_message, JsonValue, json_bool, json_string, json_object, JsonEntries, no_entries,
  entry_then, validate_tree,
}

-- The words of the protocol, as UTF-8.
abbrev pub word_kind : Bytes  -- "kind"
word_kind = 107 ∷ 105 ∷ 110 ∷ 100 ∷ []

abbrev pub word_correlation_id : Bytes  -- "correlation_id"
word_correlation_id =
    99 ∷ 111 ∷ 114 ∷ 114 ∷ 101 ∷ 108 ∷ 97 ∷ 116 ∷ 105 ∷ 111 ∷ 110 ∷ 95 ∷ 105 ∷ 100 ∷ []

abbrev pub word_operation : Bytes  -- "operation"
word_operation = 111 ∷ 112 ∷ 101 ∷ 114 ∷ 97 ∷ 116 ∷ 105 ∷ 111 ∷ 110 ∷ []

abbrev pub word_body : Bytes  -- "body"
word_body = 98 ∷ 111 ∷ 100 ∷ 121 ∷ []

abbrev pub word_error : Bytes  -- "error"
word_error = 101 ∷ 114 ∷ 114 ∷ 111 ∷ 114 ∷ []

abbrev pub word_code : Bytes  -- "code"
word_code = 99 ∷ 111 ∷ 100 ∷ 101 ∷ []

abbrev pub word_message : Bytes  -- "message"
word_message = 109 ∷ 101 ∷ 115 ∷ 115 ∷ 97 ∷ 103 ∷ 101 ∷ []

abbrev pub word_retryable : Bytes  -- "retryable"
word_retryable = 114 ∷ 101 ∷ 116 ∷ 114 ∷ 121 ∷ 97 ∷ 98 ∷ 108 ∷ 101 ∷ []

abbrev pub word_request : Bytes  -- "request"
word_request = 114 ∷ 101 ∷ 113 ∷ 117 ∷ 101 ∷ 115 ∷ 116 ∷ []

abbrev pub word_response : Bytes  -- "response"
word_response = 114 ∷ 101 ∷ 115 ∷ 112 ∷ 111 ∷ 110 ∷ 115 ∷ 101 ∷ []

abbrev pub word_invalid_message : Bytes  -- "invalid_message"
word_invalid_message =
    105 ∷ 110 ∷ 118 ∷ 97 ∷ 108 ∷ 105 ∷ 100 ∷ 95 ∷ 109 ∷ 101 ∷ 115 ∷ 115 ∷ 97 ∷ 103 ∷ 101 ∷ []

abbrev pub word_unsupported_message : Bytes  -- "unsupported_message"
word_unsupported_message =
    117 ∷ 110 ∷ 115 ∷ 117 ∷ 112 ∷ 112 ∷ 111 ∷ 114 ∷ 116 ∷ 101 ∷ 100 ∷ 95 ∷ 109 ∷ 101 ∷ 115 ∷ 115
    ∷ 97 ∷ 103 ∷ 101 ∷ []

abbrev pub word_internal_bridge : Bytes  -- "internal_bridge"
word_internal_bridge =
    105 ∷ 110 ∷ 116 ∷ 101 ∷ 114 ∷ 110 ∷ 97 ∷ 108 ∷ 95 ∷ 98 ∷ 114 ∷ 105 ∷ 100 ∷ 103 ∷ 101 ∷ []

pub record Request : Type 0 where
  pub correlation_id : Bytes
  pub operation : Bytes
  pub body : JsonValue

pub record Response : Type 0 where
  pub correlation_id : Bytes
  pub operation : Bytes
  pub body : JsonValue

pub data BridgeErrorCode : Type 0 where
  invalid_message unsupported_message internal_bridge : BridgeErrorCode

pub record BridgeError : Type 0 where
  pub code : BridgeErrorCode
  pub message : Bytes
  pub retryable : Bool

pub record ErrorResponse : Type 0 where
  pub correlation_id : Bytes
  pub operation : Bytes
  pub error : BridgeError

pub data Envelope : Type 0 where
  request_envelope : Request → Envelope
  response_envelope : Response → Envelope
  error_envelope : ErrorResponse → Envelope

unfoldable pub expect_object : JsonValue → Result ProtocolError JsonEntries
expect_object (json_object entries) = ok entries
expect_object _ = err expected_object

unfoldable pub expect_string : JsonValue → Result ProtocolError Bytes
expect_string (json_string s) = ok s
expect_string _ = err expected_string

unfoldable pub expect_bool : JsonValue → Result ProtocolError Bool
expect_bool (json_bool b) = ok b
expect_bool _ = err expected_bool

-- The first entry with the name.
unfoldable pub field : JsonEntries → Bytes → Result ProtocolError JsonValue
field no_entries name = err missing_field
field (entry_then key value rest) name = if bytes_eq key name then ok value else field rest name

abbrev pub count_entries : JsonEntries → ℕ
count_entries no_entries = 0
count_entries (entry_then key value rest) = count_entries rest + 1

abbrev pub keys_within : List Bytes → JsonEntries → Bool
keys_within expected no_entries = true
keys_within expected (entry_then key value rest) = elem key expected && keys_within expected rest

unfoldable pub require_exact_fields : JsonEntries → List Bytes → Result ProtocolError (Unit {0})
require_exact_fields entries expected =
    if (count_entries entries == length expected) && keys_within expected entries
    then ok tt
    else err unknown_fields

abbrev pub all_bytes : (ℕ → Bool) → Bytes → Bool
all_bytes p [] = true
all_bytes p (b ∷ bs) = p b && all_bytes p bs

abbrev pub is_digit : ℕ → Bool
is_digit b = leb 48 b && leb b 57

abbrev pub is_lowercase : ℕ → Bool
is_lowercase b = leb 97 b && leb b 122

abbrev pub is_identifier : Bytes → Bool
is_identifier id = (length id == 32) && all_bytes (λ b. is_digit b || (leb 97 b && leb b 102)) id

abbrev pub is_operation_byte : ℕ → Bool
is_operation_byte b = (is_lowercase b || is_digit b) || ((b == 95) || (b == 46))

abbrev pub is_operation : Bytes → Bool
is_operation [] = false
is_operation (b ∷ bs) =
    leb (length (b ∷ bs)) 64 && (is_lowercase b && all_bytes is_operation_byte (b ∷ bs))

abbrev pub validate_header : Bytes → Bytes → Result ProtocolError (Unit {0})
validate_header correlation_id operation =
    if not (is_identifier correlation_id)
    then err bad_correlation_id
    else if not (is_operation operation)
    then err bad_operation
    else ok tt

abbrev pub validate_body : JsonValue → Result ProtocolError (Unit {0})
validate_body (json_object entries) =
    validate_tree (json_object entries) 2 0 max_string_bytes >>= λ _. ok tt
validate_body _ = err body_not_object

abbrev pub validate_error : BridgeError → Result ProtocolError (Unit {0})
validate_error e =
    if (length e.message == 0) || ltb 1024 (length e.message) then err bad_error_message else ok tt

unfoldable pub validate_envelope : Envelope → Result ProtocolError (Unit {0})
validate_envelope (request_envelope r) =
    validate_header r.correlation_id r.operation >> validate_body r.body
validate_envelope (response_envelope r) =
    validate_header r.correlation_id r.operation >> validate_body r.body
validate_envelope (error_envelope r) =
    validate_header r.correlation_id r.operation >> validate_error r.error

-- `validate_envelope(&envelope)?; Ok(envelope)`.
abbrev pub validated : Envelope → Result ProtocolError Envelope
validated e = validate_envelope e >>= λ _. ok e

abbrev pub code_of : Bytes → Result ProtocolError BridgeErrorCode
code_of s =
    if bytes_eq s word_invalid_message
    then ok invalid_message
    else if bytes_eq s word_unsupported_message
    then ok unsupported_message
    else if bytes_eq s word_internal_bridge
    then ok internal_bridge
    else err unknown_code

abbrev pub string_field : JsonEntries → Bytes → Result ProtocolError Bytes
string_field entries name = field entries name >>= expect_string

unfoldable pub decode_error_envelope : JsonEntries → Result ProtocolError Envelope
decode_error_envelope entries =
    require_exact_fields entries
      (word_kind ∷ word_correlation_id ∷ word_operation ∷ word_error ∷ [])
    >>= λ _. field entries word_error >>= λ value. expect_object value >>= λ error_entries.
        require_exact_fields error_entries (word_code ∷ word_message ∷ word_retryable ∷ []) >>= λ _.
        string_field error_entries word_code >>= λ name. code_of name >>= λ code.
        string_field entries word_correlation_id >>= λ correlation_id.
        string_field entries word_operation >>= λ operation.
        string_field error_entries word_message >>= λ message.
        field error_entries word_retryable >>= λ flag. expect_bool flag >>= λ retryable. validated (
          error_envelope (record {
            correlation_id = correlation_id;
            operation = operation;
            error = record { code = code; message = message; retryable = retryable };
          }))

-- The reading of a request, or of a response when the flag is not set.
abbrev pub decode_common : JsonEntries → Bool → Result ProtocolError Envelope
decode_common entries is_request =
    require_exact_fields entries (word_kind ∷ word_correlation_id ∷ word_operation ∷ word_body ∷ [])
    >>= λ _. string_field entries word_correlation_id >>= λ correlation_id.
        string_field entries word_operation >>= λ operation. field entries word_body >>= λ body.
        validated (
          if is_request
          then request_envelope
              (record { correlation_id = correlation_id; operation = operation; body = body })
          else response_envelope
              (record { correlation_id = correlation_id; operation = operation; body = body }))

unfoldable pub envelope_from_json : JsonValue → Result ProtocolError Envelope
envelope_from_json value = expect_object value >>= λ entries.
    string_field entries word_kind >>= λ kind.
    if bytes_eq kind word_request || bytes_eq kind word_response
    then decode_common entries (bytes_eq kind word_request)
    else if bytes_eq kind word_error
    then decode_error_envelope entries
    else err unknown_kind
