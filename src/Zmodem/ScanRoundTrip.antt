-- ===== src/Zmodem/ScanRoundTrip.antt =====
-- `zScanHeader` finds each header that the encoders write, behind any bytes that are not part of a
-- frame and in front of anything.
use go_serial_cli.Common.{
  ℕ, ◌+◌, ◌/◌, ◌%◌, ◌<◌, ◌^◌, ◌≡◌, refl, ap, ◌∙◌, Bool, true, false, not, ◌&&◌, ◌==◌, ==_iff,
  if◌then◌else◌, Bytes, IsByte, [], ◌∷◌, ◌++◌, some, length, take, drop, length-append,
  append_assoc, take-append_exact, drop-append_exact, All, arith, ltb, Bool-cases, inl, inr,
}
use go_serial_cli.Zmodem.Crc.{crc16_x_modem, checksum_ieee, checksum_ieee-lt}
use go_serial_cli.Zmodem.Header.{
  Header, IsHeader, raw, z_ack, z_fin, z_pad, z_dle, z_bin, z_hex, z_bin32, ascii_xon,
}
use go_serial_cli.Zmodem.Escape.{Escaper, put_all-escaped, escaped, last_of}
use go_serial_cli.Zmodem.Encode.{
  encode_hex_header, encode_bin_header, big_endian16, little_endian32, decode_hex_header_digits,
}
use go_serial_cli.Zmodem.HexRoundTrip.{
  hex_payload, length-hex_payload, checked_header16_lem, decode_hex_header_digits-encode,
}
use go_serial_cli.Zmodem.Unescape.{found}
use go_serial_cli.Zmodem.EscapeRoundTrip.{Compatible, unescape_n-escaped}
use go_serial_cli.Zmodem.Scan.{
  stop, advance, joined32, checked_header32, checked_header, line_end, scan_hex, scan_values,
  scan_bin, scan_format, scan_behind_pads, run_length, is_can, is_pad, scan_at, scan_loop,
  scan_header,
}

-- A byte that starts no frame.
abbrev pub IsJunk : ℕ → Type 0
IsJunk c = (is_can c ≡ false) × (is_pad c ≡ false)

scan_at-junk :
    (ctl_ignore : Bool) (c : ℕ) (cs : Bytes) → IsJunk c → scan_at ctl_ignore c cs ≡ advance 0
unfolding scan_at
scan_at-junk ctl_ignore c cs h = rw (h.0, h.1)

scan_loop-junk :
    (ctl_ignore : Bool) (junk : Bytes) (i : ℕ) (buf : Bytes)
    → All IsJunk junk
    → scan_loop ctl_ignore i 0 (junk ++ buf) ≡ scan_loop ctl_ignore (i + length junk) 0 buf
unfolding scan_loop
scan_loop-junk ctl_ignore [] i buf h = ap (λ (k : ℕ). scan_loop ctl_ignore k 0 buf) (omega arith)
scan_loop-junk ctl_ignore (c ∷ cs) i buf h =
    rw (scan_at-junk ctl_ignore c (cs ++ buf) h.0, scan_loop)
      (scan_loop-junk ctl_ignore cs (i + 1) buf h.1
        ∙ ap (λ (k : ℕ). scan_loop ctl_ignore k 0 buf) (omega arith))

-- What the loop returns behind junk, given what its body does at the first byte of a frame.
scan_header-stop :
    (ctl_ignore : Bool) (junk : Bytes) (c : ℕ) (cs : Bytes) {hdr : Header} {n : ℕ}
    → All IsJunk junk
    → scan_at ctl_ignore c cs ≡ stop hdr n found
    → scan_header (junk ++ (c ∷ cs)) ctl_ignore
      ≡ record { header = hdr; start = length junk; end = length junk + n; status = found }
unfolding scan_header
scan_header-stop ctl_ignore junk c cs h e =
    scan_loop-junk ctl_ignore junk 0 (c ∷ cs) h
    ∙ unfold scan_loop in rw (e, scan_loop) (ground arith)

pub joined32-little_endian32 :
    (crc : ℕ)
    → crc < 2 ^ 32
    → joined32 (crc % 256) (crc / 256 % 256) (crc / 65536 % 256) (crc / 16777216 % 256) ≡ crc
joined32-little_endian32 crc h = omega arith

checked_header32_lem :
    (format : ℕ) (h : Header)
    → checked_header32 format (raw h ++ little_endian32 (checksum_ieee (raw h)))
      ≡ some (record h { format = format })
unfolding checked_header32
checked_header32_lem format h =
    let sum = checksum_ieee (raw h) in
    rw (joined32-little_endian32 sum (checksum_ieee-lt (raw h)), (==_iff sum sum).1 refl)

-- The format byte, the values and the checksum of a binary header, by the kind of its checksum.
abbrev pub bin_format : Bool → ℕ
bin_format crc32_mode = if crc32_mode then z_bin32 else z_bin

abbrev pub bin_values : Bool → Header → Bytes
bin_values crc32_mode h =
    raw h
    ++ (if crc32_mode
        then little_endian32 (checksum_ieee (raw h))
        else big_endian16 (crc16_x_modem (raw h)))

encode_bin_header-escaped :
    (h : Header) (crc32_mode : Bool) (e : Escaper)
    → let fresh : Escaper = record e { last = 0 } in
      encode_bin_header h crc32_mode e ≡ (
        last_of fresh (bin_values crc32_mode h),
        z_pad ∷ z_dle ∷ bin_format crc32_mode ∷ escaped fresh (bin_values crc32_mode h),
      )
unfolding encode_bin_header
encode_bin_header-escaped h true e = put_all-escaped (record e { last = 0 }) _ _
encode_bin_header-escaped h false e = put_all-escaped (record e { last = 0 }) _ _

bin_values-IsByte :
    (crc32_mode : Bool) (h : Header) → IsHeader h → All IsByte (bin_values crc32_mode h)
bin_values-IsByte true h v = omega arith
bin_values-IsByte false h v = omega arith

checked_header-bin_values :
    (crc32_mode : Bool) (h : Header)
    → checked_header (bin_format crc32_mode) (bin_values crc32_mode h)
      ≡ some (record h { format = bin_format crc32_mode })
unfolding checked_header
checked_header-bin_values true h = checked_header32_lem z_bin32 h
checked_header-bin_values false h = checked_header16_lem z_bin h

scan_values-found :
    (j format used : ℕ) (vals : Bytes) {hdr : Header}
    → checked_header format vals ≡ some hdr
    → scan_values j format (record { vals = vals; used = used; status = found })
      ≡ stop hdr (j + used) found
unfolding scan_values
scan_values-found j format used vals e = rw (e, scan_values)

bin_values_wanted :
    (crc32_mode : Bool) (h : Header)
    → (if bin_format crc32_mode == z_bin32 then 9 else 7) ≡ length (bin_values crc32_mode h)
bin_values_wanted true h = refl
bin_values_wanted false h = refl

scan_bin-escaped :
    (crc32_mode ctl_ignore : Bool) (e : Escaper) (j : ℕ) (h : Header) (rest : Bytes)
    → Compatible ctl_ignore e.ctl
    → IsHeader h
    → scan_bin ctl_ignore j (bin_format crc32_mode) (escaped e (bin_values crc32_mode h) ++ rest)
      ≡ stop
          (record h { format = bin_format crc32_mode })
          (j + length (escaped e (bin_values crc32_mode h)))
          found
unfolding scan_bin
scan_bin-escaped m ctl_ignore e j h rest k v =
    rw
      (
        bin_values_wanted m h,
        unescape_n-escaped ctl_ignore e (bin_values m h) rest k (bin_values-IsByte m h v),
      )
      (scan_values-found j (bin_format m) _ (bin_values m h) (checked_header-bin_values m h))

scan_at-bin :
    (crc32_mode ctl_ignore : Bool) (rest : Bytes)
    → scan_at ctl_ignore z_pad (z_dle ∷ bin_format crc32_mode ∷ rest)
      ≡ scan_bin ctl_ignore 3 (bin_format crc32_mode) rest
unfolding scan_at run_length scan_behind_pads scan_format
scan_at-bin true ctl_ignore rest = refl
scan_at-bin false ctl_ignore rest = refl

-- A binary header, with either checksum, is found where it stands, behind any bytes that start no
-- frame and in front of anything: the header is the one sent, with the format of its checksum, and
-- the scan ends exactly behind it. The scanner may drop control bytes if the sender escaped them.
pub scan_header-encode_bin_header :
    (crc32_mode ctl_ignore : Bool) (e : Escaper) (h : Header) (junk rest : Bytes)
    → Compatible ctl_ignore e.ctl
    → IsHeader h
    → All IsJunk junk
    → let sent = (encode_bin_header h crc32_mode e).1 in
      scan_header (junk ++ (sent ++ rest)) ctl_ignore ≡ record {
        header = record h { format = bin_format crc32_mode };
        start = length junk;
        end = length junk + length sent;
        status = found;
      }
scan_header-encode_bin_header m ctl_ignore e h junk rest k v clean =
    let fresh : Escaper = record e { last = 0 } in
    rw (encode_bin_header-escaped h m e) (
      scan_header-stop ctl_ignore junk z_pad _ clean (
        scan_at-bin m ctl_ignore (escaped fresh (bin_values m h) ++ rest)
        ∙ scan_bin-escaped m ctl_ignore fresh 3 h rest k v)
      ∙ ground arith)

-- What stands behind the CR LF of a hex header: an XON, but not for ZACK and ZFIN.
abbrev hex_tail : Header → Bytes
hex_tail h =
    if not (h.frame_type == z_ack) && not (h.frame_type == z_fin) then ascii_xon ∷ [] else []

encode_hex_header-shape :
    (h : Header)
    → encode_hex_header h
      ≡ z_pad ∷ z_pad ∷ z_dle ∷ z_hex ∷ (hex_payload h ++ (b'\r' ∷ 0x8a ∷ hex_tail h))
unfolding encode_hex_header
encode_hex_header-shape h =
    elim (Bool-cases (not (h.frame_type == z_ack) && not (h.frame_type == z_fin))) [
      | inl t ↦ rw t (rw append_assoc)
      | inr f ↦ rw f
    ]

scan_at-hex :
    (ctl_ignore : Bool) (rest : Bytes)
    → scan_at ctl_ignore z_pad (z_pad ∷ z_dle ∷ z_hex ∷ rest) ≡ scan_hex 4 rest
unfolding scan_at run_length scan_behind_pads scan_format
scan_at-hex ctl_ignore rest = refl

-- 14 good digits and a CR LF are a header, whatever follows.
scan_hex-found :
    (j : ℕ) (digits rest : Bytes) {hdr : Header}
    → length digits ≡ 14
    → decode_hex_header_digits digits ≡ some hdr
    → scan_hex j (digits ++ (b'\r' ∷ 0x8a ∷ rest)) ≡ stop hdr (j + 14 + 2) found
unfolding scan_hex line_end
scan_hex-found j digits rest l e =
    let tail : Bytes = b'\r' ∷ 0x8a ∷ rest in
    let front : take 14 (digits ++ tail) ≡ digits = rw l at (take-append_exact digits tail) in
    let back : drop 14 (digits ++ tail) ≡ tail = rw l at (drop-append_exact digits tail) in
    let long : ltb (length (digits ++ tail)) 14 ≡ false =
      ground (arith, length-append digits tail) in
    rw (long, front, e, back)

-- A hex header is found where it stands, behind any bytes that start no frame and in front of
-- anything: the header is the one sent, its format ZHEX, and the scan ends behind its CR LF.
pub scan_header-encode_hex_header :
    (ctl_ignore : Bool) (h : Header) (junk rest : Bytes)
    → IsHeader h
    → All IsJunk junk
    → scan_header (junk ++ (encode_hex_header h ++ rest)) ctl_ignore ≡ record {
      header = record h { format = z_hex };
      start = length junk;
      end = length junk + 20;
      status = found;
    }
scan_header-encode_hex_header ctl_ignore h junk rest v clean =
    rw (encode_hex_header-shape h, append_assoc (hex_payload h) _ rest)
      (scan_header-stop ctl_ignore junk z_pad _ clean (
          scan_at-hex ctl_ignore _
          ∙ scan_hex-found 4 (hex_payload h) (hex_tail h ++ rest) (length-hex_payload h)
              (decode_hex_header_digits-encode h v))
        ∙ ground arith)
