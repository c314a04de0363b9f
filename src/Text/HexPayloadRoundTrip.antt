-- ===== src/Text/HexPayloadRoundTrip.antt =====
-- `ParseHexPayload` reads back what `FormatHexBytes` prints: payload.go.
use go_serial_cli.Common.{
  ℕ, ◌*◌, ◌/◌, ◌%◌, ◌<◌, ◌≡◌, refl, ap, ◌∙◌, Bool, true, false, not, ◌&&◌, ◌==◌, leb, Bytes, IsByte,
  [], ◌∷◌, ◌++◌, append-nil, some, length, All, arith,
}
use go_serial_cli.Common.Bits.{all_below, all_below_sound}
use go_serial_cli.Text.HexPayload.{
  is_hex_digit, digit, starts_with_x, token_byte, token_digits, bytes, collected, behind,
  collect_digits, decode_string, decoded, payload_of_digits, parse_hex_payload, hex_char, hex_pair,
  format_hex_bytes_from, format_hex_bytes,
}
use go_serial_cli.Text.DisplayRoundTrip.{hex_value-hex_char}

-- A printed digit is taken for a digit unless an x follows a zero.
hex_char-digit : (n : ℕ) → n < 16 → is_hex_digit (hex_char n) ≡ true
unfolding all_below is_hex_digit hex_char
hex_char-digit n h = all_below_sound 16 (λ k. is_hex_digit (hex_char k)) n refl h

is_digit : ℕ → Bool
is_digit n = not (hex_char n == b'x') && not (hex_char n == b'X') && not (leb (hex_char n) 0x2d)

is_digit_lem : (n : ℕ) → n < 16 → is_digit n ≡ true
unfolding all_below is_digit hex_char
is_digit_lem n h = all_below_sound 16 is_digit n refl h

starts_with_x-hex_char : (n : ℕ) (rest : Bytes) → n < 16 → starts_with_x (hex_char n ∷ rest) ≡ false
unfolding starts_with_x is_digit
starts_with_x-hex_char n rest h = ground (arith, is_digit_lem n h)

token_byte-hex_char :
    (n : ℕ) (rest : Bytes)
    → n < 16
    → starts_with_x rest ≡ false
    → token_byte (hex_char n) rest ≡ digit
unfolding token_byte is_digit
token_byte-hex_char n rest h k = ground (arith, is_digit_lem n h, hex_char-digit n h)

token_digits_round :
    (c : ℕ) (rest out : Bytes)
    → token_byte c rest ≡ digit
    → token_digits false rest ≡ some out
    → token_digits false (c ∷ rest) ≡ some (c ∷ out)
unfolding token_digits
token_digits_round c rest out e f = rw (e, f, token_digits)

token_digits-hex_pair :
    (b : ℕ) (rest out : Bytes)
    → IsByte b
    → starts_with_x rest ≡ false
    → token_digits false rest ≡ some out
    → token_digits false (hex_pair b ++ rest) ≡ some (hex_pair b ++ out)
unfolding hex_pair
token_digits-hex_pair b rest out h k ih =
    let low =
      token_digits_round (hex_char (b % 16)) rest out
        (token_byte-hex_char (b % 16) rest (omega arith) k) ih in
    token_digits_round (hex_char (b / 16)) (hex_char (b % 16) ∷ rest) (hex_char (b % 16) ∷ out)
      (token_byte-hex_char (b / 16) (hex_char (b % 16) ∷ rest) (omega arith)
        (starts_with_x-hex_char (b % 16) rest (omega arith)))
      low

-- The digits alone.
hex_text : Bytes → Bytes
hex_text [] = []
hex_text (b ∷ payload) = hex_pair b ++ hex_text payload

starts_with_x-format : (payload : Bytes) → starts_with_x (format_hex_bytes_from payload) ≡ false
unfolding starts_with_x format_hex_bytes_from
starts_with_x-format [] = refl
starts_with_x-format (b ∷ payload) = refl

token_digits-format :
    (payload : Bytes)
    → All IsByte payload
    → token_digits false (format_hex_bytes_from payload) ≡ some (hex_text payload)
unfolding format_hex_bytes_from hex_text token_digits token_byte
token_digits-format [] h = refl
token_digits-format (b ∷ payload) h =
    token_digits-hex_pair b (format_hex_bytes_from payload) (hex_text payload) h.0
      (starts_with_x-format payload) (token_digits-format payload h.1)

decode_string-hex_text :
    (payload : Bytes) → All IsByte payload → decode_string (hex_text payload) ≡ some payload
unfolding decode_string hex_text hex_pair
decode_string-hex_text [] h = refl
decode_string-hex_text (b ∷ payload) h =
    rw
      (
        hex_value-hex_char (b / 16) (omega arith),
        hex_value-hex_char (b % 16) (omega arith),
        decode_string-hex_text payload h.1,
      )
      (ap (λ n. some (n ∷ payload)) (omega arith))

length-hex_text : (payload : Bytes) → length (hex_text payload) ≡ length payload * 2
unfolding hex_text hex_pair
length-hex_text [] = refl
length-hex_text (b ∷ payload) = omega (arith, length-hex_text payload)

payload_of_digits_text :
    (b : ℕ) (payload : Bytes)
    → All IsByte (b ∷ payload)
    → payload_of_digits (hex_text (b ∷ payload)) ≡ bytes (b ∷ payload)
unfolding payload_of_digits decoded
payload_of_digits_text b payload h =
    ground (arith, length-hex_text (b ∷ payload), decode_string-hex_text (b ∷ payload) h)

collect_one :
    (token digits : Bytes)
    → token_digits false token ≡ some digits
    → collect_digits (token ∷ []) ≡ collected digits
unfolding collect_digits behind
collect_one token digits e = rw (e, collect_digits) (ap collected (append-nil digits))

parse_hex_payload_one :
    (token digits : Bytes)
    → token_digits false token ≡ some digits
    → parse_hex_payload (token ∷ []) ≡ payload_of_digits digits
unfolding parse_hex_payload
parse_hex_payload_one token digits e = rw (collect_one token digits e, parse_hex_payload)

-- ParseHexPayload gives back any bytes but none at all from the one token that FormatHexBytes
-- prints for them.
pub parse_hex_payload-format_hex_bytes :
    (b : ℕ) (payload : Bytes)
    → All IsByte (b ∷ payload)
    → parse_hex_payload (format_hex_bytes (b ∷ payload) ∷ []) ≡ bytes (b ∷ payload)
unfolding format_hex_bytes hex_text
parse_hex_payload-format_hex_bytes b payload h =
    parse_hex_payload_one (format_hex_bytes (b ∷ payload)) (hex_text (b ∷ payload)) (
      token_digits-hex_pair b (format_hex_bytes_from payload) (hex_text payload) h.0
        (starts_with_x-format payload) (token_digits-format payload h.1))
    ∙ payload_of_digits_text b payload h
