-- ===== src/Protocol/Rendering.antt =====
-- rust/core-bridge/src/protocol.rs: `render_json`, `render_common` and `render_envelope`. serde_json's
-- escaping of a string is a parameter of the rendering; the numbers are written in decimal.
use Prim.Native.String.{String}
use Prim.Native.Char.{code}
use Prim.Native.Nat.{zero}
use ocaml_temporal.Base.{
  ℕ, suc, ◌+◌, ◌/◌, ◌%◌, Bool, true, false, Option, none, some, List, [], ◌∷◌, ◌++◌, Result, ok,
  err, ◌>>=◌, Bytes, ◌==◌, ltb, if◌then◌else◌,
}
use ocaml_temporal.Protocol.Json.{
  ProtocolError, unencodable_string, JsonValue, json_null, json_bool, json_signed, json_unsigned,
  json_string, json_array, json_object, JsonValues, no_values, value_then, JsonEntries, no_entries,
  entry_then,
}
use ocaml_temporal.Protocol.Envelope.{
  Envelope, request_envelope, response_envelope, error_envelope, BridgeErrorCode, invalid_message,
  unsupported_message, internal_bridge, word_invalid_message, word_unsupported_message,
  word_internal_bridge, word_request, word_response,
}

-- The bytes of an ASCII text.
abbrev pub text : String → Bytes
text String.[] = []
text (String.◌∷◌ c s) = code c ∷ text s

-- The digits of a number below 10 ^ fuel, in front of what follows.
abbrev pub digits : ℕ → ℕ → Bytes → Bytes
digits zero n rest = rest
digits (suc fuel) n rest =
    let here = (48 + n % 10) ∷ rest in
    let more = digits fuel (n / 10) here in if n / 10 == 0 then here else more

-- A 64-bit number has at most 20 digits.
abbrev pub decimal : ℕ → Bytes
decimal n = digits 20 n []

-- `str::cmp`: is the left key not above the right one?
unfoldable pub key_leb : Bytes → Bytes → Bool
key_leb [] ys = true
key_leb (x ∷ xs) [] = false
key_leb (x ∷ xs) (y ∷ ys) = if x == y then key_leb xs ys else ltb x y

-- A stable sort by key.
unfoldable pub insert_sorted : Bytes × Bytes → List (Bytes × Bytes) → List (Bytes × Bytes)
insert_sorted e [] = e ∷ []
insert_sorted e (f ∷ fs) =
    let rest = insert_sorted e fs in if key_leb (e.0) (f.0) then e ∷ f ∷ fs else f ∷ rest

unfoldable pub sort_entries : List (Bytes × Bytes) → List (Bytes × Bytes)
sort_entries [] = []
sort_entries (e ∷ es) = insert_sorted e (sort_entries es)

abbrev pub join : List Bytes → Bytes
join [] = []
join (x ∷ []) = x
join (x ∷ y ∷ rest) = x ++ 44 ∷ join (y ∷ rest)

abbrev pub seconds : List (Bytes × Bytes) → List Bytes
seconds [] = []
seconds ((_, x) ∷ rest) = x ∷ seconds rest

abbrev pub render_bool : Bool → Bytes
render_bool true = text "true"
render_bool false = text "false"

module _ (quote_text : Bytes → Option Bytes) where
  abbrev pub quote : Bytes → Result ProtocolError Bytes
  quote s = elim (quote_text s) [ none ↦ err unencodable_string | some q ↦ ok q ]

  -- The entries are rendered before they are sorted, each with its key in front of it.
  unfoldable mutual
    pub render_json : JsonValue → Result ProtocolError Bytes
    render_json json_null = ok (text "null")
    render_json (json_bool b) = ok (render_bool b)
    render_json (json_signed negative n) = ok (if negative then 45 ∷ decimal n else decimal n)
    render_json (json_unsigned n) = ok (decimal n)
    render_json (json_string s) = quote s
    render_json (json_array vs) = render_values vs >>= λ xs. ok (91 ∷ join xs ++ 93 ∷ [])
    render_json (json_object es) =
        render_entries es >>= λ xs. ok (123 ∷ join (seconds (sort_entries xs)) ++ 125 ∷ [])

    pub render_values : JsonValues → Result ProtocolError (List Bytes)
    render_values no_values = ok []
    render_values (value_then v vs) = render_json v >>= λ x. render_values vs >>= λ xs. ok (x ∷ xs)

    pub render_entries : JsonEntries → Result ProtocolError (List (Bytes × Bytes))
    render_entries no_entries = ok []
    render_entries (entry_then key v es) = quote key >>= λ q.
        render_json v >>= λ x. render_entries es >>= λ xs. ok ((key, q ++ 58 ∷ x) ∷ xs)

  abbrev pub render_common : Bytes → Bytes → Bytes → JsonValue → Result ProtocolError Bytes
  render_common kind correlation_id operation body = quote correlation_id >>= λ c.
      quote operation >>= λ o. render_json body >>= λ b. ok (
        text "{\"kind\":\""
        ++ kind
        ++ text "\",\"correlation_id\":"
        ++ c
        ++ text ",\"operation\":"
        ++ o
        ++ text ",\"body\":"
        ++ b
        ++ text "}")

  abbrev pub code_word : BridgeErrorCode → Bytes
  code_word invalid_message = word_invalid_message
  code_word unsupported_message = word_unsupported_message
  code_word internal_bridge = word_internal_bridge

  unfoldable pub render_envelope : Envelope → Result ProtocolError Bytes
  render_envelope (request_envelope r) =
      render_common word_request r.correlation_id r.operation r.body
  render_envelope (response_envelope r) =
      render_common word_response r.correlation_id r.operation r.body
  render_envelope (error_envelope r) = quote r.correlation_id >>= λ c. quote r.operation >>= λ o.
      quote r.error.message >>= λ m. ok (
        text "{\"kind\":\"error\",\"correlation_id\":"
        ++ c
        ++ text ",\"operation\":"
        ++ o
        ++ text ",\"error\":{\"code\":\""
        ++ code_word r.error.code
        ++ text "\",\"message\":"
        ++ m
        ++ text ",\"retryable\":"
        ++ render_bool r.error.retryable
        ++ text "}}")
