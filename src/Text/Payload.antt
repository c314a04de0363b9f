-- ===== src/Text/Payload.antt =====
-- `parsePayload` of payload.go and its callers: the escapes of a typed line. A Go string is the
-- list of its bytes.
use go_serial_cli.Common.{
  ℕ, zero, suc, ◌+◌, ◌-◌, ◌*◌, ◌%◌, Bool, false, ◌&&◌, ◌||◌, ◌==◌, leb, ltb, if◌then◌else◌, bit_or,
  Bytes, [], ◌∷◌, ◌++◌, Option, none, some,
}

unfoldable pub hex_value : ℕ → Option ℕ
hex_value value =
    if leb b'0' value && leb value b'9'
    then some (value - b'0')
    else if leb b'a' value && leb value b'f'
    then some (value - b'a' + 10)
    else if leb b'A' value && leb value b'F'
    then some (value - b'A' + 10)
    else none

-- What stands at a position: bytes, and how many more bytes of the line they use up.
pub data Piece : Type 0 where
  emits : Bytes → ℕ → Piece
  bad_hex bad_control : Piece

-- Go's `hi<<4|lo` on bytes.
unfoldable pub hex_escape : Bytes → Piece
hex_escape (first ∷ second ∷ rest) = elim (hex_value first) [
  | none ↦ bad_hex
  | some hi ↦ elim (hex_value second) [
    | none ↦ bad_hex
    | some lo ↦ emits (bit_or (hi * 16 % 256) lo ∷ []) 3
  ]
]
hex_escape _ = bad_hex

unfoldable pub upper_case : ℕ → ℕ
upper_case ch = if leb b'a' ch && leb ch b'z' then ch - 32 else ch

unfoldable pub control_escape : Bytes → Piece
control_escape [] = bad_control
control_escape (typed ∷ rest) =
    let ch = upper_case typed in
    if ltb ch b'A' || ltb b'Z' ch then bad_control else emits ((ch - b'A' + 1) ∷ []) 2

-- The switch on the byte behind a backslash.
unfoldable pub escape_piece : ℕ → Bytes → Piece
escape_piece letter rest =
    if letter == b'r'
    then emits (0x0d ∷ []) 1
    else if letter == b'n'
    then emits (0x0a ∷ []) 1
    else if letter == b't'
    then emits (0x09 ∷ []) 1
    else if letter == b'x'
    then hex_escape rest
    else if letter == b'c'
    then control_escape rest
    else emits (b'\\' ∷ letter ∷ []) 1

unfoldable pub piece_at : ℕ → Bytes → Piece
piece_at c [] = emits (c ∷ []) 0
piece_at c (letter ∷ rest) = if c == b'\\' then escape_piece letter rest else emits (c ∷ []) 0

-- The payload, or the error with the position of its backslash.
pub data Parsed : Type 0 where
  parsed : Bytes → Parsed
  bad_hex_escape bad_control_escape : ℕ → Parsed

unfoldable pub prepend : Bytes → Parsed → Parsed
prepend out (parsed payload) = parsed (out ++ payload)
prepend out (bad_hex_escape i) = bad_hex_escape i
prepend out (bad_control_escape i) = bad_control_escape i

-- The bytes of a piece that the loop still has to step over, and its result from that of the rest.
unfoldable pub piece_skip : Piece → ℕ
piece_skip (emits out skip) = skip
piece_skip _ = 0

unfoldable pub piece_result : ℕ → Piece → Parsed → Parsed
piece_result i (emits out skip) rest = prepend out rest
piece_result i bad_hex rest = bad_hex_escape i
piece_result i bad_control rest = bad_control_escape i

-- `i` is the position of the line's first byte, and `skip` bytes belong to an escape before it.
unfoldable pub parse_from : ℕ → ℕ → Bytes → Parsed
parse_from i skip [] = parsed []
parse_from i (suc skip) (c ∷ rest) = parse_from (i + 1) skip rest
parse_from i zero (c ∷ rest) =
    let piece = piece_at c rest in piece_result i piece (parse_from (i + 1) (piece_skip piece) rest)

unfoldable pub parse_payload : Bytes → Parsed
parse_payload value = parse_from 0 0 value

unfoldable pub parse_text_payload : Bytes → Parsed
parse_text_payload value = parse_payload value

unfoldable pub unescape : Bytes → Bytes
unescape value = elim (parse_payload value) [
  | parsed payload ↦ payload
  | bad_hex_escape i ↦ value
  | bad_control_escape i ↦ value
]

unfoldable pub has_line_ending : Bytes → Bool
has_line_ending [] = false
has_line_ending (last ∷ []) = last == 0x0d || last == 0x0a
has_line_ending (c ∷ d ∷ rest) = has_line_ending (d ∷ rest)

-- Go's `strings.Contains(line, "\r")` for a backslash and a letter.
unfoldable pub has_pair : ℕ → Bytes → Bool
has_pair letter [] = false
has_pair letter (c ∷ []) = false
has_pair letter (c ∷ d ∷ rest) = (c == b'\\' && d == letter) || has_pair letter (d ∷ rest)

unfoldable pub with_line_ending : Bytes → Bytes → Bytes
with_line_ending line payload =
    if has_pair b'r' line || has_pair b'n' line || has_line_ending payload
    then payload
    else payload ++ (0x0d ∷ 0x0a ∷ [])

unfoldable pub input_line_payload : Bytes → Parsed
input_line_payload line = elim (parse_payload line) [
  | parsed payload ↦ parsed (with_line_ending line payload)
  | bad_hex_escape i ↦ bad_hex_escape i
  | bad_control_escape i ↦ bad_control_escape i
]
