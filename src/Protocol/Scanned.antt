-- ===== src/Protocol/Scanned.antt =====
-- The scan of `preflight` keeps its limits, and its machine integers do not overflow.
use ocaml_temporal.Base.{
  ℕ, ◌<◌, ◌≤◌, ◌≡◌, refl, some, [], ◌∷◌, Result, ok, err, Bytes, arith, Option-cases, inl, inr,
  Bool-cases, ltb, ltb→lt, ◌++◌, ◌⊎◌,
}
use ocaml_temporal.Protocol.Json.{max_depth, ProtocolError}
use ocaml_temporal.Protocol.Preflight.{
  Scan, new_scan, hex_value, unicode_byte, decode_byte, counted, outside_byte, scan_byte, scan,
  preflight,
}

-- The limits, and the bounds on the `\u` escape that is read.
pub record IsScanValid (limit : ℕ) (s : Scan) : Type 0 where
  pub nested : s.depth ≤ max_depth
  pub measured : s.string_bytes ≤ limit
  pub digits : s.unicode_digits ≤ 4
  pub unit : s.unicode_unit < 65536
  pub unit_of_one : s.unicode_digits ≡ 1 → s.unicode_unit < 4096
  pub unit_of_two : s.unicode_digits ≡ 2 → s.unicode_unit < 256
  pub unit_of_three : s.unicode_digits ≡ 3 → s.unicode_unit < 16
  pub unit_of_four : s.unicode_digits ≡ 4 → s.unicode_unit ≡ 0

hex_value_lem : (b n : ℕ) → hex_value b ≡ some n → n < 16
unfolding hex_value
hex_value_lem b n h = ground arith

-- The scan after a prefix of the document, if it was not refused.
unfoldable pub scan_to : ℕ → Bytes → Scan → Result ProtocolError Scan
scan_to limit [] s = ok s
scan_to limit (b ∷ bs) s = elim (scan_byte limit s b) [
  | err e ↦ err e
  | ok s' ↦ scan_to limit bs s'
]

outside_byte-IsScanValid :
    (limit : ℕ) (s s' : Scan) (b : ℕ)
    → IsScanValid limit s
    → outside_byte s b ≡ ok s'
    → IsScanValid limit s'
unfolding outside_byte
outside_byte-IsScanValid limit s s' b v h = ground arith

unicode_byte-IsScanValid :
    (limit : ℕ) (s : Scan) (b : ℕ)
    → IsScanValid limit s
    → 0 < s.unicode_digits
    → IsScanValid limit (unicode_byte s b).0
unicode_byte-IsScanValid limit s b v more = elim (Option-cases (hex_value b)) [
  | inl other ↦ rw (other, unicode_byte) (ground arith)
  | inr (n, digit) ↦
      let small : n < 16 = hex_value_lem b n digit in
      rw (digit, unicode_byte)
        (record {
          nested = v.nested;
          measured = v.measured;
          digits = omega (arith, v.digits);
          unit = ground arith;
          unit_of_one = λ e. omega (arith, v.unit_of_two (omega arith));
          unit_of_two = λ e. omega (arith, v.unit_of_three (omega arith));
          unit_of_three = λ e. omega (arith, v.unit_of_four (omega arith));
          unit_of_four = λ e. omega (arith, v.digits);
        })
]

decode_byte-IsScanValid :
    (limit : ℕ) (s : Scan) (b : ℕ) → IsScanValid limit s → IsScanValid limit (decode_byte s b).0
unfolding decode_byte
decode_byte-IsScanValid limit s b v = elim (Bool-cases (ltb 0 s.unicode_digits)) [
  | inl more ↦ rw (more) (unicode_byte-IsScanValid limit s b v (ltb→lt 0 s.unicode_digits more))
  | inr last ↦ rw (last) (ground arith)
]

counted-IsScanValid :
    (limit : ℕ) (s s' : Scan) (decoded : ℕ)
    → IsScanValid limit s
    → counted limit (s, decoded) ≡ ok s'
    → IsScanValid limit s'
counted-IsScanValid limit s s' decoded v h = ground arith

scan_byte-IsScanValid :
    (limit : ℕ) (s s' : Scan) (b : ℕ)
    → IsScanValid limit s
    → scan_byte limit s b ≡ ok s'
    → IsScanValid limit s'
unfolding scan_byte
scan_byte-IsScanValid limit s s' b v h = elim (Bool-cases s.in_string) [
  | inl inside ↦
      counted-IsScanValid limit (decode_byte s b).0 s' (decode_byte s b).1
        (decode_byte-IsScanValid limit s b v) (ground arith)
  | inr outside ↦ outside_byte-IsScanValid limit s s' b v (ground arith)
]

Result-cases :
    (r : Result ProtocolError Scan)
    → ((s : Scan) × (r ≡ ok s)) ⊎ ((e : ProtocolError) × (r ≡ err e))
Result-cases (ok s) = inl (s, refl)
Result-cases (err e) = inr (e, refl)

scan_to-IsScanValid_from :
    (limit : ℕ) (p : Bytes) (s s' : Scan)
    → IsScanValid limit s
    → scan_to limit p s ≡ ok s'
    → IsScanValid limit s'
unfolding scan_to
scan_to-IsScanValid_from limit [] s s' v h = ground arith
scan_to-IsScanValid_from limit (b ∷ bs) s s' v h = elim (Result-cases (scan_byte limit s b)) [
  | inl (m, g) ↦
      scan_to-IsScanValid_from limit bs m s' (scan_byte-IsScanValid limit s m b v g) (ground arith)
  | inr (e, g) ↦ ground arith
]

scan-append :
    (limit : ℕ) (p rest : Bytes) (s : Scan)
    → scan limit (p ++ rest) s ≡ ok tt
    → (s' : Scan) × (scan_to limit p s ≡ ok s')
unfolding scan scan_to
scan-append limit [] rest s h = (s, refl)
scan-append limit (b ∷ bs) rest s h = elim (Result-cases (scan_byte limit s b)) [
  | inl (m, g) ↦
      let (s', reached) = scan-append limit bs rest m (ground arith) in (s', ground arith)
  | inr (e, g) ↦ ground arith
]

-- A document passes `preflight` only if, wherever its scan stands in the document, the nesting is
-- within `max_depth`, the string being read has decoded to no more bytes than the limit, and the
-- code unit being read is below 2 ^ 16, so that the `u32` and the `u8` that hold it do not overflow.
pub scan_to-IsScanValid :
    (limit : ℕ) (p rest : Bytes)
    → preflight (p ++ rest) limit ≡ ok tt
    → (s' : Scan) × (scan_to limit p new_scan ≡ ok s') × IsScanValid limit s'
unfolding preflight
scan_to-IsScanValid limit p rest h =
    let (s', reached) = scan-append limit p rest new_scan (ground arith) in
    (s', reached, scan_to-IsScanValid_from limit p new_scan s' (ground arith) reached)
