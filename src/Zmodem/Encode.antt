-- ===== src/Zmodem/Encode.antt =====
-- The encoders of zmodem_proto.go, and its reader of a hex header's digits.
use go_serial_cli.Common.{
  ℕ, ◌+◌, ◌-◌, ◌*◌, ◌/◌, ◌%◌, Bool, not, ◌&&◌, ◌==◌, leb, if◌then◌else◌, bit_and, bit_or, Bytes, [],
  ◌∷◌, ◌++◌, Option, none, some, length, get_elem?,
}
use go_serial_cli.Common.Options.{◌>>=◌}
use mathlib.Core.Option.{get_or}
use go_serial_cli.Zmodem.Crc.{crc16_update, crc16_x_modem, crc32_update, checksum_ieee}
use go_serial_cli.Zmodem.Header.{
  Header, raw, z_pad, z_dle, z_bin, z_hex, z_bin32, ascii_xon, z_ack, z_fin, z_crcw,
}
use go_serial_cli.Zmodem.Escape.{Escaper, put_all}

-- "0123456789abcdef"
abbrev pub z_hex_digits : Bytes
z_hex_digits =
    b'0' ∷ b'1' ∷ b'2' ∷ b'3' ∷ b'4' ∷ b'5' ∷ b'6' ∷ b'7' ∷ b'8' ∷ b'9' ∷ b'a' ∷ b'b' ∷ b'c' ∷ b'd'
    ∷ b'e' ∷ b'f' ∷ []

-- `zHexDigits[n]`; an index past the end would panic in Go, and the callers' are below 16
unfoldable pub hex_digit : ℕ → ℕ
hex_digit n = get_or (get_elem? z_hex_digits n) 0

unfoldable pub hex_digits_of : Bytes → Bytes
hex_digits_of [] = []
hex_digits_of (b ∷ bs) = hex_digit (b / 16) ∷ hex_digit (bit_and b 0x0f) ∷ hex_digits_of bs

-- `byte(crc>>8), byte(crc)`
abbrev pub big_endian16 : ℕ → Bytes
big_endian16 crc = crc / 256 % 256 ∷ crc % 256 ∷ []

-- `binary.LittleEndian.PutUint32`
abbrev pub little_endian32 : ℕ → Bytes
little_endian32 crc = crc % 256 ∷ crc / 256 % 256 ∷ crc / 65536 % 256 ∷ crc / 16777216 % 256 ∷ []

unfoldable pub encode_hex_header : Header → Bytes
encode_hex_header h =
    let crc = crc16_x_modem (raw h) in
    let digits = hex_digits_of (raw h ++ big_endian16 crc) in
    let out = (z_pad ∷ z_pad ∷ z_dle ∷ z_hex ∷ []) ++ digits ++ (b'\r' ∷ 0x8a ∷ []) in
    if not (h.frame_type == z_ack) && not (h.frame_type == z_fin)
    then out ++ (ascii_xon ∷ [])
    else out

unfoldable pub encode_bin_header : Header → Bool → Escaper → Escaper × Bytes
encode_bin_header h crc32_mode esc =
    let fresh = record esc { last = 0 } in
    if crc32_mode
    then put_all fresh (z_pad ∷ z_dle ∷ z_bin32 ∷ [])
        (raw h ++ little_endian32 (checksum_ieee (raw h)))
    else put_all fresh (z_pad ∷ z_dle ∷ z_bin ∷ []) (raw h ++ big_endian16 (crc16_x_modem (raw h)))

-- The checksum bytes behind a frame end, before escaping.
abbrev pub subpacket_crc : Bool → Bytes → ℕ → Bytes
subpacket_crc crc32_mode payload end =
    if crc32_mode
    then little_endian32 (crc32_update (checksum_ieee payload) (end ∷ []))
    else big_endian16 (crc16_update (crc16_x_modem payload) end)

unfoldable pub encode_subpacket : Bytes → Bytes → ℕ → Bool → Escaper → Escaper × Bytes
encode_subpacket dst payload end crc32_mode esc =
    let (e1, dst1) = put_all esc dst payload in
    let (e2, dst2) =
      put_all (record e1 { last = end }) (dst1 ++ (z_dle ∷ end ∷ []))
        (subpacket_crc crc32_mode payload end) in
    (e2, if end == z_crcw then dst2 ++ (ascii_xon ∷ []) else dst2)

-- `zHexValue`; payload.go has the same function as `hexValue`
unfoldable pub z_hex_value : ℕ → Option ℕ
z_hex_value c =
    if leb b'0' c && leb c b'9'
    then some (c - b'0')
    else if leb b'a' c && leb c b'f'
    then some (c - b'a' + 10)
    else if leb b'A' c && leb c b'F'
    then some (c - b'A' + 10)
    else none

-- the loop over `raw`, two digits a byte
unfoldable pub decode_pairs : Bytes → Option Bytes
decode_pairs (d1 ∷ d2 ∷ rest) = do
  hi ← z_hex_value (bit_and d1 0x7f)
  lo ← z_hex_value (bit_and d2 0x7f)
  raw_rest ← decode_pairs rest
  some (bit_or (hi * 16 % 256) lo ∷ raw_rest)
decode_pairs _ = some []

-- the test of the checksum, and the header it protects
unfoldable pub checked_header16 : ℕ → Bytes → Option Header
checked_header16 format (t ∷ a ∷ b ∷ c ∷ d ∷ hi ∷ lo ∷ []) =
    if crc16_x_modem (t ∷ a ∷ b ∷ c ∷ d ∷ []) == bit_or (hi * 256 % 65536) lo
    then some (record { frame_type = t; p0 = a; p1 = b; p2 = c; p3 = d; format = format })
    else none
checked_header16 format _ = none

unfoldable pub decode_hex_header_digits : Bytes → Option Header
decode_hex_header_digits digits =
    if length digits == 14 then decode_pairs digits >>= checked_header16 z_hex else none
