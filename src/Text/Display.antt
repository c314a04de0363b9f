-- ===== src/Text/Display.antt =====
-- `escapeDisplayLine` of monitor.go: one captured line on the terminal.
use go_serial_cli.Common.{
  ℕ, ◌+◌, ◌/◌, ◌%◌, Bool, true, false, ◌&&◌, ◌||◌, ◌==◌, leb, ltb, if◌then◌else◌, Bytes, [], ◌∷◌,
  ◌++◌, length, take, suc, zero,
}
use go_serial_cli.Text.HexPayload.{hex_pair}

unfoldable pub is_display_byte : ℕ → Bool
is_display_byte ch = ch == 0x09 || (leb 0x20 ch && leb ch 0x7e)

unfoldable pub display_byte : ℕ → Bytes
display_byte ch = if is_display_byte ch then ch ∷ [] else b'\\' ∷ b'x' ∷ hex_pair ch

unfoldable pub display_bytes : Bytes → Bytes
display_bytes [] = []
display_bytes (ch ∷ rest) = display_byte ch ++ display_bytes rest

-- Go's `%d`: `fuel` bounds the digits, and a number has fewer digits than one more than itself.
unfoldable pub decimal : ℕ → ℕ → Bytes → Bytes
decimal zero n digits = digits
decimal (suc fuel) n digits =
    let digits' = (b'0' + n % 10) ∷ digits in
    elim (ltb n 10) [ true ↦ digits' | false ↦ decimal fuel (n / 10) digits' ]

-- " … (n bytes)", the ellipsis in UTF-8.
unfoldable pub count_suffix : ℕ → Bytes
count_suffix total =
    (0x20 ∷ 0xe2 ∷ 0x80 ∷ 0xa6 ∷ 0x20 ∷ b'(' ∷ [])
    ++ (decimal (total + 1) total [] ++ (0x20 ∷ b'b' ∷ b'y' ∷ b't' ∷ b'e' ∷ b's' ∷ b')' ∷ []))

unfoldable pub escape_display_line : Bytes → ℕ → Bytes
escape_display_line line max_bytes =
    if ltb 0 max_bytes && ltb max_bytes (length line)
    then display_bytes (take max_bytes line) ++ count_suffix (length line)
    else display_bytes line
