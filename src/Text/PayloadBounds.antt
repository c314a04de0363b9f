-- ===== src/Text/PayloadBounds.antt =====
-- How long a parsed payload is, and what it may hold: `parsePayload` of payload.go.
use go_serial_cli.Common.{
  ℕ, zero, suc, ◌+◌, ◌*◌, ◌-◌, ◌%◌, ◌<◌, ◌≤◌, ◌≡◌, sym, bit_or, Bytes, IsByte, [], ◌∷◌, some,
  length, length-append, All, All-append, arith,
}
use go_serial_cli.Common.Bits.{bit_or_shifted}
use go_serial_cli.Text.Payload.{
  hex_value, Piece, emits, bad_hex, bad_control, hex_escape, upper_case, control_escape,
  escape_piece, piece_at, Parsed, parsed, bad_hex_escape, bad_control_escape, prepend, piece_skip,
  piece_result, parse_from, parse_payload,
}

-- A piece emits bytes, no more of them than it uses up, and its escape lies in the line.
abbrev IsPiece : ℕ → Piece → Type 0
IsPiece n (emits out skip) = (length out ≤ skip + 1) × (skip ≤ n) × All IsByte out
IsPiece n bad_hex = Unit
IsPiece n bad_control = Unit

hex_value-lt : (c v : ℕ) → hex_value c ≡ some v → v < 16
unfolding hex_value
hex_value-lt c v h = ground arith

-- Go's `hi<<4|lo` on two digits.
pub hex_byte : (hi lo : ℕ) → hi < 16 → lo < 16 → bit_or (hi * 16 % 256) lo ≡ hi * 16 + lo
hex_byte hi lo h k =
    let small : hi * 16 % 256 ≡ hi * 16 = omega arith in rw small (bit_or_shifted 4 hi lo k)

hex_escape-IsPiece : (rest : Bytes) → IsPiece (suc (length rest)) (hex_escape rest)
unfolding hex_escape
hex_escape-IsPiece [] = tt
hex_escape-IsPiece (c ∷ []) = tt
hex_escape-IsPiece (c ∷ d ∷ rest) = grind (arith, hex_value-lt c, hex_value-lt d, hex_byte)

upper_case-IsByte : (c : ℕ) → IsByte c → IsByte (upper_case c)
unfolding upper_case
upper_case-IsByte c h = ground arith

control_escape-IsPiece :
    (rest : Bytes) → All IsByte rest → IsPiece (suc (length rest)) (control_escape rest)
unfolding control_escape
control_escape-IsPiece [] h = tt
control_escape-IsPiece (c ∷ rest) h = ground (arith, upper_case-IsByte c h.0)

escape_piece-IsPiece :
    (letter : ℕ) (rest : Bytes)
    → IsByte letter
    → All IsByte rest
    → IsPiece (suc (length rest)) (escape_piece letter rest)
unfolding escape_piece
escape_piece-IsPiece letter rest h k =
    ground (arith, hex_escape-IsPiece rest, control_escape-IsPiece rest k)

piece_at-IsPiece :
    (c : ℕ) (rest : Bytes) → IsByte c → All IsByte rest → IsPiece (length rest) (piece_at c rest)
unfolding piece_at
piece_at-IsPiece c [] h k = ground arith
piece_at-IsPiece c (letter ∷ rest) h k = ground (arith, escape_piece-IsPiece letter rest k.0 k.1)

-- A payload of at most `n` bytes, or an error in the `n` bytes from position `i`.
abbrev pub IsParsed : ℕ → ℕ → Parsed → Type 0
IsParsed i n (parsed out) = (length out ≤ n) × All IsByte out
IsParsed i n (bad_hex_escape j) = (i ≤ j) × (j < i + n)
IsParsed i n (bad_control_escape j) = (i ≤ j) × (j < i + n)

piece_result-IsParsed :
    (i n : ℕ) (piece : Piece) (rest : Parsed)
    → IsPiece n piece
    → IsParsed (i + 1 + piece_skip piece) (n - piece_skip piece) rest
    → IsParsed i (suc n) (piece_result i piece rest)
unfolding piece_result prepend piece_skip
piece_result-IsParsed i n (emits out skip) (parsed more) h k =
    (omega (arith, length-append out more), All-append IsByte out more h.2 k.1)
piece_result-IsParsed i n (emits out skip) (bad_hex_escape j) h k = omega arith
piece_result-IsParsed i n (emits out skip) (bad_control_escape j) h k = omega arith
piece_result-IsParsed i n bad_hex rest h k = omega arith
piece_result-IsParsed i n bad_control rest h k = omega arith

piece_skip_bound : (n : ℕ) (piece : Piece) → IsPiece n piece → piece_skip piece ≤ n
unfolding piece_skip
piece_skip_bound n (emits out skip) h = h.1
piece_skip_bound n bad_hex h = omega arith
piece_skip_bound n bad_control h = omega arith

move-IsParsed : {i j n m : ℕ} (p : Parsed) → i ≡ j → n ≡ m → IsParsed i n p → IsParsed j m p
move-IsParsed p e f h = rw (sym e, sym f) h

parse_from-IsParsed :
    (i skip : ℕ) (line : Bytes)
    → skip ≤ length line
    → All IsByte line
    → IsParsed (i + skip) (length line - skip) (parse_from i skip line)
unfolding parse_from
parse_from-IsParsed i zero [] h k = (omega arith, tt)
parse_from-IsParsed i (suc skip) [] h k = absurd (omega arith)
parse_from-IsParsed i (suc skip) (c ∷ rest) h k =
    move-IsParsed (parse_from (i + 1) skip rest) (omega arith) (omega arith)
      (parse_from-IsParsed (i + 1) skip rest (omega arith) k.1)
parse_from-IsParsed i zero (c ∷ rest) h k =
    let piece = piece_at c rest in
    let ok = piece_at-IsPiece c rest k.0 k.1 in
    move-IsParsed (piece_result i piece (parse_from (i + 1) (piece_skip piece) rest)) (omega arith)
      (omega arith)
      (piece_result-IsParsed i (length rest) piece (parse_from (i + 1) (piece_skip piece) rest) ok (
        parse_from-IsParsed (i + 1) (piece_skip piece) rest
          (piece_skip_bound (length rest) piece ok) k.1))

-- A payload that parsePayload accepts is no longer than the line and holds bytes, for every line
-- of bytes, and the error for a line it refuses gives a position inside the line.
pub parse_payload-IsParsed :
    (line : Bytes) → All IsByte line → IsParsed 0 (length line) (parse_payload line)
unfolding parse_payload
parse_payload-IsParsed line k =
    move-IsParsed (parse_from 0 0 line) (omega arith) (omega arith)
      (parse_from-IsParsed 0 0 line (omega arith) k)
