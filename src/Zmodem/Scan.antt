-- ===== src/Zmodem/Scan.antt =====
-- `zScanHeader` of zmodem_link.go: looking for one header in the bytes at hand. Positions count from
-- the byte that is looked at; `scan_loop` moves along the buffer.
use go_serial_cli.Common.{
  ℕ, zero, suc, ◌+◌, ◌*◌, ◌-◌, Bool, not, ◌||◌, ◌==◌, leb, ltb, if◌then◌else◌, bit_and, Bytes, [],
  ◌∷◌, Option, none, some, length, take, drop,
}
use go_serial_cli.Zmodem.Crc.{checksum_ieee}
use go_serial_cli.Zmodem.Header.{Header, no_header, z_pad, z_dle, z_bin, z_hex, z_bin32, ascii_can}
use go_serial_cli.Zmodem.Encode.{decode_hex_header_digits, checked_header16}
use go_serial_cli.Zmodem.Unescape.{ScanStatus, need_more, found, bad, cancel, Unescaped, unescape_n}

-- Go's (h, start, end, status).
pub record Scan : Type 0 where
  pub header : Header
  pub start : ℕ
  pub end : ℕ
  pub status : ScanStatus

-- One round of the loop at position `i`: a return with `start = i` and `end = i + n`, or
-- `i` moves on by one more than the number.
pub data ScanStep : Type 0 where
  stop : Header → ℕ → ScanStatus → ScanStep
  advance : ℕ → ScanStep

-- `binary.LittleEndian.Uint32`
abbrev pub joined32 : ℕ → ℕ → ℕ → ℕ → ℕ
joined32 a b c d = a + b * 256 + c * 65536 + d * 16777216

unfoldable pub checked_header32 : ℕ → Bytes → Option Header
checked_header32 format (t ∷ a ∷ b ∷ c ∷ d ∷ w ∷ x ∷ y ∷ z ∷ []) =
    if checksum_ieee (t ∷ a ∷ b ∷ c ∷ d ∷ []) == joined32 w x y z
    then some (record { frame_type = t; p0 = a; p1 = b; p2 = c; p3 = d; format = format })
    else none
checked_header32 format _ = none

-- The CR LF behind a hex header, with or without the top bit.
unfoldable pub line_end : Bytes → ℕ
line_end [] = 0
line_end (c ∷ []) = if bit_and c 0x7f == b'\r' then 1 else 0
line_end (c ∷ d ∷ _) =
    if bit_and c 0x7f == b'\r' then (if bit_and d 0x7f == b'\n' then 2 else 1) else 0

-- `case zHEX`, at the bytes behind the format byte; `j` bytes stand before them.
unfoldable pub scan_hex : ℕ → Bytes → ScanStep
scan_hex j rest =
    if ltb (length rest) 14
    then stop no_header 0 need_more
    else elim (decode_hex_header_digits (take 14 rest)) [
      | none ↦ stop no_header 1 bad
      | some hdr ↦ stop hdr (j + 14 + line_end (drop 14 rest)) found
    ]

unfoldable pub checked_header : ℕ → Bytes → Option Header
checked_header format vals =
    if format == z_bin32 then checked_header32 format vals else checked_header16 format vals

-- `case zBIN, zBIN32`, on what `zUnescapeN` returned.
unfoldable pub scan_values : ℕ → ℕ → Unescaped → ScanStep
scan_values j format u = elim u.status [
  | need_more ↦ stop no_header 0 need_more
  | cancel ↦ stop no_header (j + u.used) cancel
  | bad ↦ stop no_header 1 bad
  | found ↦ elim (checked_header format u.vals) [
    | none ↦ stop no_header 1 bad
    | some hdr ↦ stop hdr (j + u.used) found
  ]
]

unfoldable pub scan_bin : Bool → ℕ → ℕ → Bytes → ScanStep
scan_bin ctl_ignore j format rest =
    scan_values j format (unescape_n rest (if format == z_bin32 then 9 else 7) ctl_ignore)

-- Behind `r` pads and ZDLE: the format byte.
unfoldable pub scan_format : Bool → ℕ → Bytes → ScanStep
scan_format ctl_ignore r [] = stop no_header 0 need_more
scan_format ctl_ignore r (f ∷ rest) =
    let format = bit_and f 0x7f in
    if format == z_hex
    then scan_hex (r + 2) rest
    else if format == z_bin || format == z_bin32
    then scan_bin ctl_ignore (r + 2) format rest
    else advance 0

-- Behind `r` pads.
unfoldable pub scan_behind_pads : Bool → ℕ → Bytes → ScanStep
scan_behind_pads ctl_ignore r [] = stop no_header 0 need_more
scan_behind_pads ctl_ignore r (d ∷ rest) =
    if not (d == z_dle) then advance (r - 1) else scan_format ctl_ignore r rest

-- How many of the first bytes pass a test: the loops `for j < len(buf) && … { j++ }`.
unfoldable pub run_length : (ℕ → Bool) → Bytes → ℕ
run_length p [] = 0
run_length p (c ∷ cs) = if p c then suc (run_length p cs) else 0

abbrev pub is_can : ℕ → Bool
is_can c = c == ascii_can

abbrev pub is_pad : ℕ → Bool
is_pad c = bit_and c 0x7f == z_pad

unfoldable pub scan_can : Bytes → ScanStep
scan_can buf =
    let r = run_length is_can buf in
    if leb 5 r
    then stop no_header r cancel
    else if r == length buf
    then stop no_header 0 need_more
    else advance (r - 1)

-- The body of the loop at `c ∷ cs`.
unfoldable pub scan_at : Bool → ℕ → Bytes → ScanStep
scan_at ctl_ignore c cs =
    if is_can c
    then scan_can (c ∷ cs)
    else if not (is_pad c)
    then advance 0
    else let r = run_length is_pad (c ∷ cs) in scan_behind_pads ctl_ignore r (drop r (c ∷ cs))

-- `i` bytes are behind, and of those ahead the first `skip` have been passed over already.
unfoldable pub scan_loop : Bool → ℕ → ℕ → Bytes → Scan
scan_loop ctl_ignore i skip [] = record {
  header = no_header;
  start = i;
  end = i;
  status = need_more;
}
scan_loop ctl_ignore i (suc skip) (c ∷ cs) = scan_loop ctl_ignore (i + 1) skip cs
scan_loop ctl_ignore i zero (c ∷ cs) = elim (scan_at ctl_ignore c cs) [
  | stop h n status ↦ record { header = h; start = i; end = i + n; status = status }
  | advance k ↦ scan_loop ctl_ignore (i + 1) k cs
]

unfoldable pub scan_header : Bytes → Bool → Scan
scan_header buf ctl_ignore = scan_loop ctl_ignore 0 0 buf
