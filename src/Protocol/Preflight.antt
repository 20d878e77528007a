-- ===== src/Protocol/Preflight.antt =====
-- rust/core-bridge/src/protocol.rs: `preflight`, the scan of a document before it is parsed. A
-- document is its UTF-8 bytes.
use ocaml_temporal.Base.{
  ℕ, ◌+◌, ◌-◌, ◌*◌, Bool, true, false, ◌&&◌, ◌||◌, Option, none, some, [], ◌∷◌, Result, ok, err,
  Bytes, length, ltb, leb, ◌==◌, if◌then◌else◌,
}
use ocaml_temporal.Protocol.Json.{
  max_document_bytes, max_depth, ProtocolError, document_limit, string_limit, nesting_limit,
}

pub record Scan : Type 0 where
  pub depth : ℕ
  pub in_string : Bool
  pub escaped : Bool
  pub unicode_unit : ℕ  -- u32
  pub unicode_digits : ℕ
  pub string_bytes : ℕ

abbrev pub new_scan : Scan
new_scan = record {
  depth = 0;
  in_string = false;
  escaped = false;
  unicode_unit = 0;
  unicode_digits = 0;
  string_bytes = 0;
}

unfoldable pub unicode_escape_bytes : ℕ → ℕ
unicode_escape_bytes unit =
    if leb unit 0x7f
    then 1
    else if leb unit 0x7ff
    then 2
    else if leb 0xd800 unit && leb unit 0xdfff
    then 2
    else 3

-- `char::to_digit(16)`.
unfoldable pub hex_value : ℕ → Option ℕ
hex_value b =
    if leb 48 b && leb b 57
    then some (b - 48)
    else if leb 97 b && leb b 102
    then some (b - 87)
    else if leb 65 b && leb b 70
    then some (b - 55)
    else none

-- A byte of a `\u` escape.
abbrev pub unicode_byte : Scan → ℕ → Scan × ℕ
unicode_byte s b = elim (hex_value b) [
  | none ↦ (record s { unicode_digits = 0 }, 1)
  | some digit ↦
      let unit = s.unicode_unit * 16 + digit in
      let left = s.unicode_digits - 1 in
      (
        record s { unicode_unit = unit; unicode_digits = left },
        if left == 0 then unicode_escape_bytes unit else 0,
      )
]

-- A byte inside a string: the scan after it, and the bytes that it decodes to.
unfoldable pub decode_byte : Scan → ℕ → Scan × ℕ
decode_byte s b =
    if ltb 0 s.unicode_digits
    then unicode_byte s b
    else if s.escaped
    then if b == 117
      then (record s { escaped = false; unicode_unit = 0; unicode_digits = 4 }, 0)
      else (record s { escaped = false }, 1)
    else if b == 92
    then (record s { escaped = true }, 0)
    else if b == 34
    then (record s { in_string = false }, 0)
    else (s, 1)

-- A byte outside every string.
unfoldable pub outside_byte : Scan → ℕ → Result ProtocolError Scan
outside_byte s b =
    if b == 34
    then ok (record s { in_string = true; string_bytes = 0 })
    else if (b == 123) || (b == 91)
    then if ltb max_depth (s.depth + 1)
      then err nesting_limit
      else ok (record s { depth = s.depth + 1 })
    else if (b == 125) || (b == 93)
    then ok (record s { depth = s.depth - 1 })
    else ok s

abbrev pub counted : ℕ → Scan × ℕ → Result ProtocolError Scan
counted limit (s, decoded) =
    let bytes = s.string_bytes + decoded in
    if ltb limit bytes then err string_limit else ok (record s { string_bytes = bytes })

unfoldable pub scan_byte : ℕ → Scan → ℕ → Result ProtocolError Scan
scan_byte limit s b = if s.in_string then counted limit (decode_byte s b) else outside_byte s b

unfoldable pub scan : ℕ → Bytes → Scan → Result ProtocolError (Unit {0})
scan limit [] s = ok tt
scan limit (b ∷ bs) s = elim (scan_byte limit s b) [ err e ↦ err e | ok s' ↦ scan limit bs s' ]

unfoldable pub preflight : Bytes → ℕ → Result ProtocolError (Unit {0})
preflight input limit =
    if ltb max_document_bytes (length input) then err document_limit else scan limit input new_scan
