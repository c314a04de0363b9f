-- ===== src/Text/HexPayload.antt =====
-- `ParseHexPayload` and `FormatHexBytes` of payload.go. encoding/hex of Go's library is written
-- out: DecodeString on pairs of digits, EncodeToString with lower-case digits.
use go_serial_cli.Common.{
  ℕ, ◌+◌, ◌*◌, ◌/◌, ◌%◌, Bool, true, false, not, ◌&&◌, ◌||◌, ◌==◌, leb, ltb, if◌then◌else◌, Bytes,
  List, [], ◌∷◌, ◌++◌, Option, none, some, length,
}
use go_serial_cli.Common.Options.{◌>>=◌}
use go_serial_cli.Text.Payload.{hex_value}

unfoldable pub is_hex_digit : ℕ → Bool
is_hex_digit ch =
    (leb b'0' ch && leb ch b'9') || (leb b'a' ch && leb ch b'f') || (leb b'A' ch && leb ch b'F')

pub data TokenByte : Type 0 where
  separator prefix digit invalid : TokenByte

unfoldable pub starts_with_x : Bytes → Bool
starts_with_x [] = false
starts_with_x (c ∷ rest) = c == b'x' || c == b'X'

unfoldable pub token_byte : ℕ → Bytes → TokenByte
token_byte ch rest =
    if ch == 0x20 || ch == 0x09 || ch == 0x0d || ch == 0x0a || ch == b',' || ch == b'-'
    then separator
    else if ch == b'0' && starts_with_x rest
    then prefix
    else if is_hex_digit ch
    then digit
    else invalid

-- The digits of one token; the flag tells that the byte belongs to a `0x` before it.
unfoldable pub token_digits : Bool → Bytes → Option Bytes
token_digits skip [] = some []
token_digits true (ch ∷ rest) = token_digits false rest
token_digits false (ch ∷ rest) = elim (token_byte ch rest) [
  | separator ↦ token_digits false rest
  | prefix ↦ token_digits true rest
  | digit ↦ (token_digits false rest >>= λ digits. some (ch ∷ digits))
  | invalid ↦ none
]

pub data HexPayload : Type 0 where
  bytes : Bytes → HexPayload
  invalid_token : Bytes → HexPayload
  is_empty odd_digits undecodable : HexPayload

pub data Digits : Type 0 where
  collected : Bytes → Digits
  refused : Bytes → Digits

unfoldable pub behind : Bytes → Digits → Digits
behind digits (collected more) = collected (digits ++ more)
behind digits (refused token) = refused token

unfoldable pub collect_digits : List Bytes → Digits
collect_digits [] = collected []
collect_digits (token ∷ tokens) =
    let rest = collect_digits tokens in
    elim (token_digits false token) [ none ↦ refused token | some digits ↦ behind digits rest ]

unfoldable pub decode_string : Bytes → Option Bytes
decode_string [] = some []
decode_string (one ∷ []) = none
decode_string (first ∷ second ∷ rest) = hex_value first >>= λ hi.
    hex_value second >>= λ lo. decode_string rest >>= λ out. some ((hi * 16 + lo) ∷ out)

unfoldable pub decoded : Option Bytes → HexPayload
decoded none = undecodable
decoded (some []) = is_empty
decoded (some (b ∷ out)) = bytes (b ∷ out)

unfoldable pub payload_of_digits : Bytes → HexPayload
payload_of_digits text =
    if length text == 0
    then is_empty
    else if not (length text % 2 == 0)
    then odd_digits
    else decoded (decode_string text)

unfoldable pub parse_hex_payload : List Bytes → HexPayload
parse_hex_payload tokens = elim (collect_digits tokens) [
  | collected text ↦ payload_of_digits text
  | refused token ↦ invalid_token token
]

-- The lower-case digit of a number below 16.
unfoldable pub hex_char : ℕ → ℕ
hex_char n = if ltb n 10 then b'0' + n else 87 + n

unfoldable pub hex_pair : ℕ → Bytes
hex_pair b = hex_char (b / 16) ∷ hex_char (b % 16) ∷ []

unfoldable pub format_hex_bytes_from : Bytes → Bytes
format_hex_bytes_from [] = 0x0a ∷ []
format_hex_bytes_from (ch ∷ rest) = 0x20 ∷ (hex_pair ch ++ format_hex_bytes_from rest)

unfoldable pub format_hex_bytes : Bytes → Bytes
format_hex_bytes [] = []
format_hex_bytes (ch ∷ rest) = hex_pair ch ++ format_hex_bytes_from rest
