-- ===== src/Workflow/Validators.antt =====
-- rust/core-bridge/src/workflow_protocol.rs: the validators that activations and completions share.
use ocaml_temporal.Base.{
  ℕ, ◌+◌, ◌-◌, ◌*◌, ◌/◌, ◌%◌, ◌^◌, ℤ, pos, negsuc, Bool, true, false, not, ◌&&◌, ◌||◌, Option, none,
  some, List, [], ◌∷◌, Result, ok, err, ◌>>=◌, ◌>>◌, fail_if, each, each_some, Bytes, bytes_eq,
  nat_eq, ◌==◌, ltb, leb, if◌then◌else◌, length,
}
use ocaml_temporal.Base.Map.{elem}
use ocaml_temporal.Protocol.Json.{max_string_bytes, max_payload_bytes}
use ocaml_temporal.Protocol.Rendering.{decimal}
use ocaml_temporal.Workflow.Types.{
  SemanticError, bad_identifier, text_limit, bad_nanoseconds, negative_duration, long_duration,
  bad_decimal, zero_interval, intervals_out_of_order, bad_coefficient, negative_attempts,
  bad_error_type, payload_limit, bad_metadata_key, negative_event_id, bad_fairness_key,
  zero_timeout, Payload, Timestamp, Duration, RetryPolicy, WorkflowPriority, FailureInfo,
  application, canceled, terminated, activity_failure, child_workflow, timeout, server,
  reset_workflow, nexus_operation, nexus_handler, absent, FailureLayer, Failure, root_failure,
  caused_by,
}

abbrev pub Check : Type 0
Check = Result SemanticError (Unit {0})

-- `i64::MAX` and the like need no bound here: the tests are on the numbers.
abbrev pub is_negative : ℤ → Bool
is_negative (pos n) = false
is_negative (negsuc n) = true

abbrev pub int_ltb : ℤ → ℤ → Bool
int_ltb (pos a) (pos b) = ltb a b
int_ltb (pos a) (negsuc b) = false
int_ltb (negsuc a) (pos b) = true
int_ltb (negsuc a) (negsuc b) = ltb b a

abbrev pub is_zero : ℤ → Bool
is_zero (pos n) = n == 0
is_zero (negsuc n) = false

-- A `&str` is UTF-8 by its type, so that the third test of the source never fails.
unfoldable pub identifier : Bytes → Check
identifier value =
    fail_if ((length value == 0) || (ltb max_string_bytes (length value) || elem 0 value))
      bad_identifier

unfoldable pub bounded_text : Bytes → Check
bounded_text value = fail_if (ltb max_string_bytes (length value)) text_limit

unfoldable pub signal_identity : Bytes → Check
signal_identity value = bounded_text value >> fail_if (elem 0 value) bad_identifier

abbrev pub max_duration_seconds : ℕ
max_duration_seconds = 315576000000

unfoldable pub validate_time : ℤ → ℤ → Bool → Check
validate_time seconds nanos duration =
    fail_if (is_negative nanos || int_ltb (pos 999999999) nanos) bad_nanoseconds
    >> (fail_if (duration && is_negative seconds) negative_duration
        >> fail_if (duration && int_ltb (pos max_duration_seconds) seconds) long_duration)

abbrev pub validate_timestamp : Timestamp → Check
validate_timestamp t = validate_time t.seconds t.nanoseconds false

abbrev pub validate_duration : Duration → Check
validate_duration t = validate_time t.seconds t.nanoseconds true

abbrev pub is_zero_duration : Duration → Bool
is_zero_duration d = is_zero d.seconds && is_zero d.nanoseconds

unfoldable pub validate_close_timeout : Option Duration → Check
validate_close_timeout = each_some λ d. fail_if (is_zero_duration d) zero_timeout

-- `str::parse::<u64>`: digits after an optional plus sign, refused on an overflow.
abbrev pub parse_digits : ℕ → Bytes → Option ℕ
parse_digits acc [] = some acc
parse_digits acc (b ∷ bs) =
    let next = acc * 10 + (b - 48) in
    let rest = parse_digits next bs in
    if (leb 48 b && leb b 57) && ltb next (2 ^ 64) then rest else none

unfoldable pub parse_u64 : Bytes → Option ℕ
parse_u64 [] = none
parse_u64 (b ∷ []) = parse_digits 0 (b ∷ [])
parse_u64 (b ∷ c ∷ bs) = if b == 43 then parse_digits 0 (c ∷ bs) else parse_digits 0 (b ∷ c ∷ bs)

-- The text must be the decimal form of the number that it parses to.
unfoldable pub parse_canonical : Bytes → Result SemanticError ℕ
parse_canonical value = elim (parse_u64 value) [
  | none ↦ err bad_decimal
  | some n ↦ if bytes_eq (decimal n) value then ok n else err bad_decimal
]

abbrev pub has_leading_zero : Bytes → Bool
has_leading_zero [] = false
has_leading_zero (b ∷ bs) = ltb 0 (length bs) && b == 48

unfoldable pub validate_uint64_decimal : Bytes → Result SemanticError ℕ
validate_uint64_decimal value =
    fail_if ((length value == 0) || has_leading_zero value) bad_decimal >> parse_canonical value

-- IEEE 754: the exponent of a finite double is not all ones.
abbrev pub is_finite : ℕ → Bool
is_finite bits = not ((bits / 2 ^ 52) % 2 ^ 11 == 2047)

-- A finite double is below 1.0 if its sign bit is set or its bits are below those of 1.0.
abbrev pub is_below_one : ℕ → Bool
is_below_one bits = leb (2 ^ 63) bits || ltb bits (1023 * 2 ^ 52)

-- The tuples of seconds and nanoseconds in lexicographic order.
abbrev pub is_shorter : Duration → Duration → Bool
is_shorter a b =
    int_ltb a.seconds b.seconds
    || (not (int_ltb b.seconds a.seconds) && int_ltb a.nanoseconds b.nanoseconds)

abbrev pub validate_error_type : Bytes → Check
validate_error_type t = bounded_text t >> fail_if ((length t == 0) || elem 0 t) bad_error_type

unfoldable pub validate_retry_policy : RetryPolicy → Check
validate_retry_policy p =
    validate_duration p.initial_interval
    >> (validate_duration p.maximum_interval
        >> (fail_if (is_zero_duration p.initial_interval) zero_interval
            >> (fail_if (is_shorter p.maximum_interval p.initial_interval) intervals_out_of_order
                >> (validate_uint64_decimal p.backoff_coefficient_bits >>= λ bits.
                    fail_if (not (is_finite bits)) bad_coefficient
                    >> (fail_if (is_below_one bits) bad_coefficient
                        >> (fail_if (is_negative p.maximum_attempts) negative_attempts
                            >> each validate_error_type p.non_retryable_error_types))))))

unfoldable pub validate_inbound_retry_policy : RetryPolicy → Check
validate_inbound_retry_policy p =
    validate_duration p.initial_interval
    >> (validate_duration p.maximum_interval
        >> (validate_uint64_decimal p.backoff_coefficient_bits >>= λ _.
            fail_if (is_negative p.maximum_attempts) negative_attempts
            >> each bounded_text p.non_retryable_error_types))

unfoldable pub validate_inbound_priority : WorkflowPriority → Check
validate_inbound_priority p = fail_if (ltb 64 (length p.fairness_key)) bad_fairness_key

abbrev pub validate_metadata : Bytes × Bytes → Check
validate_metadata (key, value) =
    fail_if ((length key == 0) || ltb max_string_bytes (length key)) bad_metadata_key
    >> fail_if (ltb max_payload_bytes (length value)) payload_limit

abbrev pub validate_failure_payload : Payload → Check
validate_failure_payload p =
    fail_if (ltb max_payload_bytes (length p.body)) payload_limit
    >> each validate_metadata p.metadata

unfoldable pub validate_failure_payloads : List Payload → Check
validate_failure_payloads = each validate_failure_payload

-- The match of `validate_failure` on the kind of a failure.
unfoldable pub validate_info : FailureInfo → Check
validate_info (application type_name _ details _ next_retry_delay) =
    bounded_text type_name
    >> (validate_failure_payloads details >> each_some validate_duration next_retry_delay)
validate_info (canceled details identity) =
    bounded_text identity >> validate_failure_payloads details
validate_info (terminated identity) = bounded_text identity
validate_info (activity_failure scheduled started identity activity_type activity_id _) =
    fail_if (is_negative scheduled || is_negative started) negative_event_id
    >> each bounded_text (identity ∷ activity_type ∷ activity_id ∷ [])
validate_info (child_workflow namespace workflow_id run_id workflow_type initiated started _) =
    each bounded_text (namespace ∷ workflow_id ∷ workflow_type ∷ run_id ∷ [])
    >> fail_if (is_negative initiated || is_negative started) negative_event_id
validate_info (timeout _ details) = validate_failure_payloads details
validate_info (server _) = ok tt
validate_info (reset_workflow details) = validate_failure_payloads details
validate_info (nexus_operation o) =
    fail_if (is_negative o.scheduled_event_id) negative_event_id
    >> each bounded_text
        (o.endpoint ∷ o.service ∷ o.operation ∷ o.operation_id ∷ o.operation_token ∷ [])
validate_info (nexus_handler type_name _) = bounded_text type_name
validate_info absent = ok tt

abbrev pub validate_layer : FailureLayer → Check
validate_layer f =
    each bounded_text (f.message ∷ f.source ∷ f.stack_trace ∷ []) >> validate_info f.info

unfoldable pub validate_failure : Failure → Check
validate_failure (root_failure f) = validate_layer f
validate_failure (caused_by f cause) = validate_layer f >> validate_failure cause
