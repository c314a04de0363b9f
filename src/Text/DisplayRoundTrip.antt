-- ===== src/Text/DisplayRoundTrip.antt =====
-- What monitor.go shows of a line can be typed back: `escapeDisplayLine` against `parsePayload`.
use go_serial_cli.Common.{
  ℕ, ◌+◌, ◌*◌, ◌/◌, ◌%◌, ◌<◌, ◌≡◌, ◌≢◌, refl, ap, ◌∙◌, Bool, true, false, ◌==◌, bit_or, Bytes,
  IsByte, [], ◌∷◌, ◌++◌, Option, none, some, All, arith, Bool-cases, inl, inr,
}
use go_serial_cli.Common.Bits.{all_below, all_below_sound}
use go_serial_cli.Text.Payload.{
  hex_value, emits, hex_escape, escape_piece, piece_at, parsed, prepend, piece_skip, piece_result,
  parse_from, parse_payload,
}
use go_serial_cli.Text.HexPayload.{hex_char, hex_pair}
use go_serial_cli.Text.PayloadBounds.{hex_byte}
use go_serial_cli.Text.Display.{is_display_byte, display_byte, display_bytes, escape_display_line}

abbrev same_value : Option ℕ → ℕ → Bool
same_value none n = false
same_value (some m) n = m == n

same_value_sound : (o : Option ℕ) (n : ℕ) → same_value o n ≡ true → o ≡ some n
same_value_sound none n h = cc
same_value_sound (some m) n h = ground arith

-- `hexValue` reads the digit that is written for a number below 16.
pub hex_value-hex_char : (n : ℕ) → n < 16 → hex_value (hex_char n) ≡ some n
unfolding all_below hex_value hex_char
hex_value-hex_char n h =
    same_value_sound (hex_value (hex_char n)) n
      (all_below_sound 16 (λ k. same_value (hex_value (hex_char k)) k) n refl h)

hex_escape_digits :
    (c d : ℕ) (rest : Bytes) (hi lo : ℕ)
    → hex_value c ≡ some hi
    → hex_value d ≡ some lo
    → hex_escape (c ∷ d ∷ rest) ≡ emits (bit_or (hi * 16 % 256) lo ∷ []) 3
unfolding hex_escape
hex_escape_digits c d rest hi lo e f = rw (e, f, hex_escape)

hex_escape-hex_pair :
    (b : ℕ) (rest : Bytes) → IsByte b → hex_escape (hex_pair b ++ rest) ≡ emits (b ∷ []) 3
unfolding hex_pair
hex_escape-hex_pair b rest h =
    let value : bit_or (b / 16 * 16 % 256) (b % 16) ≡ b =
      omega (arith, hex_byte (b / 16) (b % 16) (omega arith) (omega arith)) in
    hex_escape_digits (hex_char (b / 16)) (hex_char (b % 16)) rest (b / 16) (b % 16)
      (hex_value-hex_char (b / 16) (omega arith)) (hex_value-hex_char (b % 16) (omega arith))
    ∙ ap (λ n. emits (n ∷ []) 3) value

piece_at_plain : (b : ℕ) (rest : Bytes) → b ≢ b'\\' → piece_at b rest ≡ emits (b ∷ []) 0
unfolding piece_at
piece_at_plain b [] k = refl
piece_at_plain b (c ∷ rest) k = ground arith

piece_at_hex : (rest : Bytes) → piece_at b'\\' (b'x' ∷ rest) ≡ hex_escape rest
unfolding piece_at escape_piece
piece_at_hex rest = refl

parse_from_plain :
    (i b : ℕ) (rest out : Bytes)
    → b ≢ b'\\'
    → parse_from (i + 1) 0 rest ≡ parsed out
    → parse_from i 0 (b ∷ rest) ≡ parsed (b ∷ out)
unfolding parse_from piece_result prepend piece_skip
parse_from_plain i b rest out k ih = rw (piece_at_plain b rest k, ih)

parse_from_skip :
    (i b : ℕ) (rest : Bytes) → parse_from i 2 (hex_pair b ++ rest) ≡ parse_from (i + 1 + 1) 0 rest
unfolding parse_from hex_pair
parse_from_skip i b rest = refl

-- Four bytes of the line, from the backslash to the second digit.
parse_from_hex :
    (i b : ℕ) (rest out : Bytes)
    → IsByte b
    → parse_from (i + 1 + 1 + 1 + 1) 0 rest ≡ parsed out
    → parse_from i 0 (b'\\' ∷ b'x' ∷ (hex_pair b ++ rest)) ≡ parsed (b ∷ out)
unfolding parse_from piece_result prepend piece_skip
parse_from_hex i b rest out h ih =
    rw (piece_at_hex (hex_pair b ++ rest), hex_escape-hex_pair b rest h)
      (ap (prepend (b ∷ [])) (parse_from_skip (i + 1 + 1) b rest ∙ ih))

-- The parser's steps over what is shown of one byte.
parse_from-display_byte :
    (i b : ℕ) (rest out : Bytes)
    → IsByte b
    → b ≢ b'\\'
    → ((j : ℕ) → parse_from j 0 rest ≡ parsed out)
    → parse_from i 0 (display_byte b ++ rest) ≡ parsed (b ∷ out)
unfolding display_byte
parse_from-display_byte i b rest out h k ih = elim (Bool-cases (is_display_byte b)) [
  | inl e ↦ rw e (parse_from_plain i b rest out k (ih (i + 1)))
  | inr e ↦ rw e (parse_from_hex i b rest out h (ih (i + 1 + 1 + 1 + 1)))
]

parse_from-display_bytes :
    (i : ℕ) (line : Bytes)
    → All IsByte line
    → All (λ b. b ≢ b'\\') line
    → parse_from i 0 (display_bytes line) ≡ parsed line
unfolding display_bytes parse_from
parse_from-display_bytes i [] h k = refl
parse_from-display_bytes i (b ∷ line) h k =
    parse_from-display_byte i b (display_bytes line) line h.0 k.0
      (λ j. parse_from-display_bytes j line h.1 k.1)

-- A line of bytes without a backslash, shown in full, is parsed back to itself as a payload.
pub parse_payload-escape_display_line :
    (line : Bytes)
    → All IsByte line
    → All (λ b. b ≢ b'\\') line
    → parse_payload (escape_display_line line 0) ≡ parsed line
unfolding parse_payload escape_display_line
parse_payload-escape_display_line line h k = parse_from-display_bytes 0 line h k
