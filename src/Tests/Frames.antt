-- ===== src/Tests/Frames.antt =====
-- The frames of ZMODEM at concrete inputs.
use go_serial_cli.Common.{
  ◌+◌, ◌-◌, ◌≤◌, ◌≡◌, refl, true, false, Bytes, [], ◌∷◌, ◌++◌, none, some, length, inr, arith, take,
  drop, map,
}
use go_serial_cli.Zmodem.Crc.{crc16_x_modem, checksum_ieee, crc32_update}
use go_serial_cli.Zmodem.Header.{Header, IsHeader, pos_header, z_rpos, z_hex, z_bin32, z_crcw}
use go_serial_cli.Zmodem.Escape.{Escaper, needs, needs_when, put, put_all}
use go_serial_cli.Zmodem.Encode.{
  hex_digit, hex_digits_of, encode_hex_header, encode_bin_header, encode_subpacket, z_hex_value,
  decode_pairs, checked_header16, decode_hex_header_digits,
}
use go_serial_cli.Zmodem.HexRoundTrip.{canonical_digit, hex_payload, decode_hex_header_digits_sound}
use go_serial_cli.Zmodem.Unescape.{found, cancel}
use go_serial_cli.Zmodem.Scan.{scan_header, scan_loop, scan_at, scan_can, run_length}
use go_serial_cli.Zmodem.ScanRoundTrip.{
  scan_header-encode_bin_header, scan_header-encode_hex_header,
}
use go_serial_cli.Zmodem.ScanBounds.{Moves, scan_header_bounds}
use go_serial_cli.Zmodem.Link.{short_write, peer_cancel, ok, chunk, Link}
use go_serial_cli.Zmodem.LinkFrames.{read_subpacket}
use go_serial_cli.Zmodem.LinkRead.{stream, Delivers}
use go_serial_cli.Zmodem.LinkWrite.{Wrote, write, write_lem}
use go_serial_cli.Zmodem.Subpacket.{read_subpacket-encode_subpacket}

abbrev escaper : Escaper
escaper = record { ctl = true; last = 0 }

-- A ZRPOS for offset 0x1811, whose low bytes are XON and ZDLE.
abbrev resume : Header
resume = pos_header z_rpos 0x1811

resume-IsHeader : IsHeader resume
unfolding pos_header
resume-IsHeader = omega arith

abbrev resume_hex : Header
resume_hex = record resume { format = z_hex }

encode_resume :
    encode_hex_header resume
    ≡ 0x2a ∷ 0x2a ∷ 0x18 ∷ 0x42 ∷ b'0' ∷ b'9' ∷ b'1' ∷ b'1' ∷ b'1' ∷ b'8' ∷ b'0' ∷ b'0' ∷ b'0'
      ∷ b'0' ∷ b'2' ∷ b'f' ∷ b'a' ∷ b'd' ∷ 0x0d ∷ 0x8a ∷ 0x11 ∷ []
unfolding encode_hex_header hex_digits_of hex_digit crc16_x_modem pos_header
encode_resume = refl

scan_header-encode_hex_header_example :
    scan_header ((b'$' ∷ b' ' ∷ []) ++ (encode_hex_header resume ++ (b'x' ∷ []))) true
    ≡ record { header = resume_hex; start = 2; end = 22; status = found }
scan_header-encode_hex_header_example =
    scan_header-encode_hex_header true resume (b'$' ∷ b' ' ∷ []) (b'x' ∷ []) resume-IsHeader
      ((refl, refl), ((refl, refl), tt))

scan_header-encode_bin_header_example :
    let sent = (encode_bin_header resume true escaper).1 in
    scan_header ((b'o' ∷ b'k' ∷ []) ++ (sent ++ (0x18 ∷ []))) true ≡ record {
      header = record resume { format = z_bin32 };
      start = 2;
      end = 2 + length sent;
      status = found;
    }
scan_header-encode_bin_header_example =
    scan_header-encode_bin_header true true escaper resume (b'o' ∷ b'k' ∷ []) (0x18 ∷ [])
      (λ c. refl) resume-IsHeader ((refl, refl), ((refl, refl), tt))

scan_header_bounds_example :
    let s = scan_header (0x2a ∷ 0x18 ∷ b'B' ∷ b'0' ∷ []) false in
    (s.start ≤ s.end) × (s.end ≤ 4) × Moves s.status (s.end - s.start)
scan_header_bounds_example = scan_header_bounds (0x2a ∷ 0x18 ∷ b'B' ∷ b'0' ∷ []) false

-- The digits of `resume`, two of them in upper case and one with the top bit set.
abbrev loud_digits : Bytes
loud_digits =
    b'0' ∷ b'9' ∷ b'1' ∷ b'1' ∷ b'1' ∷ b'8' ∷ b'0' ∷ b'0' ∷ b'0' ∷ b'0' ∷ 0xb2 ∷ b'F' ∷ b'A' ∷ b'd'
    ∷ []

loud_accepted : decode_hex_header_digits loud_digits ≡ some resume_hex
unfolding decode_hex_header_digits decode_pairs checked_header16 z_hex_value crc16_x_modem
    pos_header
loud_accepted = refl

decode_hex_header_digits_sound_example :
    IsHeader resume_hex
    × (resume_hex.format ≡ z_hex)
    × (map canonical_digit loud_digits ≡ hex_payload resume_hex)
decode_hex_header_digits_sound_example =
    decode_hex_header_digits_sound loud_digits resume_hex (omega arith) loud_accepted

abbrev idle : Link
idle = record {
  rx = [];
  rx_err = none;
  pending = [];
  ctl_ignore = true;
  echo = false;
  text = [];
  shown = [];
  gone = false;
  held = none;
  flow = false;
  xoff = false;
  bytes_in = 0;
  bytes_out = 0;
  answers = [];
  written = [];
}

abbrev payload : Bytes
payload = 0x18 ∷ b'@' ∷ b'\r' ∷ []

abbrev packet : Bytes
packet = (encode_subpacket [] payload z_crcw true escaper).1

-- The packet arrives in two chunks, the first of them cut behind the first ZDLE.
abbrev receiving : Link
receiving = record idle { rx = chunk (take 1 packet) ∷ chunk (drop 1 packet ++ (b'#' ∷ [])) ∷ [] }

receiving-stream : stream receiving ≡ packet ++ (b'#' ∷ [])
unfolding encode_subpacket put_all put needs needs_when crc32_update checksum_ieee
receiving-stream = refl

read_subpacket-encode_subpacket_example :
    (l' : Link) × (read_subpacket 1024 true receiving ≡ (ok (payload, z_crcw), l'))
    × Delivers receiving (0x11 ∷ b'#' ∷ []) l'
read_subpacket-encode_subpacket_example =
    read_subpacket-encode_subpacket payload z_crcw 1024 true escaper receiving (b'#' ∷ [])
      (omega arith) (inr (inr (inr refl))) (omega arith) refl (λ c. refl) receiving-stream

-- The writer takes two bytes, then one, then fails.
abbrev failing : Link
failing = record idle {
  answers =
      record { count = 2; failure = none } ∷ record { count = 1; failure = some short_write } ∷ [];
}

write_lem_example :
    Wrote [] payload (write payload failing)
    × (false ≡ true → write payload failing ≡ (some peer_cancel, failing))
write_lem_example = write_lem payload failing

-- A cancel sequence of five CAN is seen, and four are not.
cancel_seen : (scan_header (b'x' ∷ 0x18 ∷ 0x18 ∷ 0x18 ∷ 0x18 ∷ 0x18 ∷ 8 ∷ []) false).status ≡ cancel
unfolding scan_header scan_loop scan_at scan_can run_length
cancel_seen = refl
