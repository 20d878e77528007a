-- ===== src/Protocol/Stable.antt =====
-- What an encoder returns reads back, and encodes to the same bytes again.
use ocaml_temporal.Base.{
  ℕ, Bool, Option, ◌≡◌, subst, Result, ok, err, ◌>>=◌, bind-ok, Bytes, bytes_eq, bytes_eq_iff,
  arith, Bool-cases, inl, inr, ◌||◌,
}
use ocaml_temporal.Protocol.Json.{ProtocolError, JsonValue, JsonEntries, validate_tree}
use ocaml_temporal.Protocol.Preflight.{preflight}
use ocaml_temporal.Protocol.Envelope.{
  Envelope, expect_object, string_field, word_kind, envelope_from_json, validate_envelope,
  validated, decode_common, decode_error_envelope, word_request, word_response, word_error,
}
use ocaml_temporal.Protocol.Rendering.{render_json, render_envelope}
use ocaml_temporal.Protocol.Documents.{
  require_object, parsed, parse_strict, parse_strict_with_string_limit, decode, decode_with_limit,
  require_same, encode, encode_with_limit,
}

require_object-ok :
    (v w : JsonValue) → require_object v ≡ ok w → (v ≡ w) × (require_object w ≡ ok w)
require_object-ok v w h = ground (arith, h)

require_same-ok :
    (output out : Bytes) (again : Result ProtocolError Bytes)
    → require_same output again ≡ ok out
    → (output ≡ out) × (again ≡ ok out)
require_same-ok output out (ok second) h = ground (arith, h, bytes_eq_iff second output)
require_same-ok output out (err e) h = ground (arith, h)

same-require_same :
    (out : Bytes) (again : Result ProtocolError Bytes)
    → again ≡ ok out
    → require_same out again ≡ ok out
same-require_same out again h = ground (arith, h, bytes_eq_iff out out)

-- Every envelope that is returned passed `validate_envelope`.
data Validates (r : Result ProtocolError Envelope) : Type 0 where
  validates : ((w : Envelope) → r ≡ ok w → validate_envelope w ≡ ok tt) → Validates r

validated-Validates : (e : Envelope) → Validates (validated e)
validated-Validates e = validates λ w h.
    let (u, f, g) = bind-ok (validate_envelope e) _ w h in
    subst (λ x. validate_envelope x ≡ ok tt) (ground (arith, g)) f

refused-Validates : (e : ProtocolError) → Validates (err e)
refused-Validates e = validates λ w h. ground (arith, h)

bind-Validates :
    {A : Type 0} (m : Result ProtocolError A) (f : A → Result ProtocolError Envelope)
    → ((a : A) → Validates (f a))
    → Validates (m >>= f)
bind-Validates (ok a) f k = k a
bind-Validates (err e) f k = refused-Validates e

decode_common-Validates :
    (es : JsonEntries) (is_request : Bool) → Validates (decode_common es is_request)
decode_common-Validates es is_request = search (bind-Validates, validated-Validates)

decode_error_envelope-Validates : (es : JsonEntries) → Validates (decode_error_envelope es)
unfolding decode_error_envelope
decode_error_envelope-Validates es = search (bind-Validates, validated-Validates) depth 40

envelope_from_json-Validates : (v : JsonValue) → Validates (envelope_from_json v)
unfolding envelope_from_json
envelope_from_json-Validates v = bind-Validates (expect_object v) _ λ es.
    bind-Validates (string_field es word_kind) _ λ kind.
      elim (Bool-cases (bytes_eq kind word_request || bytes_eq kind word_response)) [
        | inl e ↦ rw (e) (decode_common-Validates es (bytes_eq kind word_request))
        | inr e ↦ elim (Bool-cases (bytes_eq kind word_error)) [
          | inl f ↦ rw (e, f) (decode_error_envelope-Validates es)
          | inr f ↦ rw (e, f) (refused-Validates _)
        ]
      ]

module _ (parse : Bytes → Option JsonValue) where
  decode-validate_envelope :
      (input : Bytes) (e : Envelope) → decode parse input ≡ ok e → validate_envelope e ≡ ok tt
  unfolding decode
  decode-validate_envelope input e h =
      elim (bind-Validates (parse_strict parse input) envelope_from_json
        envelope_from_json-Validates) [ validates k ↦ k e h ]

  -- A document that is read has a tree within the limits.
  parse_strict_with_string_limit-ok :
      (input : Bytes) (limit : ℕ) (v : JsonValue)
      → parse_strict_with_string_limit parse input limit ≡ ok v
      → (n : ℕ) × (validate_tree v 1 0 limit ≡ ok n)
  unfolding parse_strict_with_string_limit
  parse_strict_with_string_limit-ok input limit v h =
      let (_, _, g) = bind-ok (preflight input limit) _ v h in
      let (w, _, k) = bind-ok (parsed parse input) _ v g in
      let (n, e, p) = bind-ok (validate_tree w 1 0 limit) _ v k in (n, ground (arith, p, e))

  decode_with_limit-ok :
      (input : Bytes) (limit : ℕ) (v : JsonValue)
      → decode_with_limit parse limit input ≡ ok v
      → (require_object v ≡ ok v) × ((n : ℕ) × (validate_tree v 1 0 limit ≡ ok n))
  unfolding decode_with_limit
  decode_with_limit-ok input limit v h =
      let (w, e, g) =
        bind-ok (parse_strict_with_string_limit parse input limit) require_object v h in
      let (same, o) = require_object-ok w v g in
      (
        o,
        parse_strict_with_string_limit-ok input limit v
            (subst (λ x. parse_strict_with_string_limit parse input limit ≡ ok x) same e),
      )

module _ (parse : Bytes → Option JsonValue) (quote_text : Bytes → Option Bytes) where
  encoded_again :
      (limit : ℕ) (v : JsonValue) (out : Bytes) (n : ℕ)
      → require_object v ≡ ok v
      → validate_tree v 1 0 limit ≡ ok n
      → render_json quote_text v ≡ ok out
      → decode_with_limit parse limit out ≡ ok v
      → encode_with_limit parse quote_text limit v ≡ ok out
  unfolding encode_with_limit
  encoded_again limit v out n o t r d =
      rw (encode_with_limit, o, t, r, d) (same-require_same out (render_json quote_text v) r)

  -- If `encode_object` or `encode_payload_object` returns bytes, whatever the JSON library does,
  -- then the matching decoder accepts these bytes, and encoding what it reads returns them again.
  pub encode_with_limit-stable :
      (limit : ℕ) (value : JsonValue) (out : Bytes)
      → encode_with_limit parse quote_text limit value ≡ ok out
      → (v : JsonValue) × (decode_with_limit parse limit out ≡ ok v)
        × (encode_with_limit parse quote_text limit v ≡ ok out)
  unfolding encode_with_limit
  encode_with_limit-stable limit value out h =
      let (_, _, h1) = bind-ok (require_object value) _ out h in
      let (_, _, h2) = bind-ok (validate_tree value 1 0 limit) _ out h1 in
      let (output, _, h3) = bind-ok (render_json quote_text value) _ out h2 in
      let (v, e, h4) = bind-ok (decode_with_limit parse limit output) _ out h3 in
      let (same, again) = require_same-ok output out (render_json quote_text v) h4 in
      let e' = subst (λ x. decode_with_limit parse limit x ≡ ok v) same e in
      let (o, (n, t)) = decode_with_limit-ok parse out limit v e' in
      (v, e', encoded_again limit v out n o t again e')

  envelope_again :
      (e : Envelope) (out : Bytes)
      → validate_envelope e ≡ ok tt
      → render_envelope quote_text e ≡ ok out
      → decode parse out ≡ ok e
      → encode parse quote_text e ≡ ok out
  unfolding encode
  envelope_again e out v r d =
      rw (encode, v, r, d) (same-require_same out (render_envelope quote_text e) r)

  -- If `encode` returns bytes, whatever the JSON library does, then `decode` accepts these bytes,
  -- and encoding the envelope that it reads returns them again.
  pub encode-stable :
      (envelope : Envelope) (out : Bytes)
      → encode parse quote_text envelope ≡ ok out
      → (e : Envelope) × (decode parse out ≡ ok e) × (encode parse quote_text e ≡ ok out)
  unfolding encode
  encode-stable envelope out h =
      let (_, _, h1) = bind-ok (validate_envelope envelope) _ out h in
      let (output, _, h2) = bind-ok (render_envelope quote_text envelope) _ out h1 in
      let (e, d, h3) = bind-ok (decode parse output) _ out h2 in
      let (same, again) = require_same-ok output out (render_envelope quote_text e) h3 in
      let d' = subst (λ x. decode parse x ≡ ok e) same d in
      (e, d', envelope_again e out (decode-validate_envelope parse out e d') again d')
