-- ===== src/Protocol/Measured.antt =====
-- How `preflight` measures a string: by the bytes that it decodes to.
use ocaml_temporal.Base.{
  ℕ, ◌+◌, ◌*◌, ◌<◌, ◌≡◌, ◌≢◌, Bool, true, false, some, List, [], ◌∷◌, Result, ok, err, Bytes, ltb,
  leb, if◌then◌else◌, ◌/◌, ◌%◌, ◌-◌, ◌&&◌, ◌==◌, Option, none, ◌++◌,
}
use ocaml_temporal.Protocol.Preflight.{Scan, unicode_escape_bytes}

-- A piece of a JSON string: a byte that stands for itself, a short escape, a `\u` escape.
pub data Piece : Type 0 where
  plain simple : ℕ → Piece
  unicode : ℕ → ℕ → ℕ → ℕ → Piece

abbrev pub IsPiece : Piece → Type 0
IsPiece (plain b) = (b ≢ 34) × (b ≢ 92)
IsPiece (simple b) = b ≢ 117
IsPiece (unicode a b c d) = (a < 16) × (b < 16) × (c < 16) × (d < 16)

abbrev pub hex_digit : ℕ → ℕ
hex_digit n = if ltb n 10 then 48 + n else 87 + n

abbrev pub piece_text : Piece → Bytes → Bytes
piece_text (plain b) rest = b ∷ rest
piece_text (simple b) rest = 92 ∷ b ∷ rest
piece_text (unicode a b c d) rest =
    92 ∷ 117 ∷ hex_digit a ∷ hex_digit b ∷ hex_digit c ∷ hex_digit d ∷ rest

-- The pieces, and the quote that ends the string.
unfoldable pub string_tail : List Piece → Bytes
string_tail [] = 34 ∷ []
string_tail (p ∷ ps) = piece_text p (string_tail ps)

abbrev unit_of : ℕ → ℕ → ℕ → ℕ → ℕ
unit_of a b c d = ((a * 16 + b) * 16 + c) * 16 + d

-- RFC 3629: the UTF-8 bytes of a scalar value.
abbrev pub utf8 : ℕ → Bytes
utf8 c =
    if ltb c 0x80
    then c ∷ []
    else if ltb c 0x800
    then (192 + c / 64) ∷ (128 + c % 64) ∷ []
    else if ltb c 0x10000
    then (224 + c / 4096) ∷ (128 + c / 64 % 64) ∷ (128 + c % 64) ∷ []
    else (240 + c / 262144) ∷ (128 + c / 4096 % 64) ∷ (128 + c / 64 % 64) ∷ (128 + c % 64) ∷ []

abbrev pub is_high : ℕ → Bool
is_high unit = leb 0xd800 unit && ltb unit 0xdc00

abbrev pub is_low : ℕ → Bool
is_low unit = leb 0xdc00 unit && ltb unit 0xe000

-- The scalar value of a surrogate pair.
abbrev pub pair_value : ℕ → ℕ → ℕ
pair_value high low = 0x10000 + (high - 0xd800) * 0x400 + (low - 0xdc00)

-- RFC 8259: `\n` and its like; any other escaped byte stands for itself.
abbrev pub escape_value : ℕ → ℕ
escape_value b =
    if b == 98
    then 8
    else if b == 102
    then 12
    else if b == 110
    then 10
    else if b == 114
    then 13
    else if b == 116
    then 9
    else b

-- The bytes that a string decodes to; a high surrogate waits for the low one.
unfoldable pub decoded : Option ℕ → List Piece → Bytes
decoded high [] = []
decoded high (plain b ∷ ps) = b ∷ decoded none ps
decoded high (simple b ∷ ps) = escape_value b ∷ decoded none ps
decoded (some high) (unicode a b c d ∷ ps) =
    utf8 (pair_value high (unit_of a b c d)) ++ decoded none ps
decoded none (unicode a b c d ∷ ps) =
    let unit = unit_of a b c d in
    let rest = decoded none ps in
    let pair = decoded (some unit) ps in if is_high unit then pair else utf8 unit ++ rest

-- Surrogates come in pairs, the high one first.
unfoldable pub IsPaired : Bool → List Piece → Type 0
IsPaired waits [] = waits ≡ false
IsPaired waits (plain b ∷ ps) = (waits ≡ false) × IsPaired false ps
IsPaired waits (simple b ∷ ps) = (waits ≡ false) × IsPaired false ps
IsPaired waits (unicode a b c d ∷ ps) =
    (is_low (unit_of a b c d) ≡ waits) × IsPaired (is_high (unit_of a b c d)) ps

-- What the scan counts for a piece.
abbrev piece_bytes : Piece → ℕ
piece_bytes (plain b) = 1
piece_bytes (simple b) = 1
piece_bytes (unicode a b c d) = unicode_escape_bytes (unit_of a b c d)

unfoldable counted_bytes : List Piece → ℕ
counted_bytes [] = 0
counted_bytes (p ∷ ps) = piece_bytes p + counted_bytes ps

abbrev waiting : Option ℕ → ℕ
waiting none = 0
waiting (some _) = 2

abbrev pub is_ok : {E A : Type 0} → Result E A → Bool
is_ok (ok a) = true
is_ok (err e) = false

-- The scan between two pieces.
abbrev InString : Scan → Type 0
InString s = (s.in_string ≡ true) × (s.escaped ≡ false) × (s.unicode_digits ≡ 0)

abbrev after_unicode : Scan → ℕ → Scan
after_unicode s unit = record s {
  unicode_unit = unit;
  unicode_digits = 0;
  string_bytes = s.string_bytes + unicode_escape_bytes unit;
}
