-- ===== src/Zmodem/LinkFrames.antt =====
-- Reading frames from the link: `drop`, `noteText`, `pollHeader`, `readHeader`, `readSubpacket`,
-- `unread` and `peerCancelled` of zmodem_link.go.
use go_serial_cli.Common.{
  ℕ, zero, suc, ◌+◌, ◌-◌, ◌*◌, ◌%◌, Bool, true, false, ◌&&◌, ◌||◌, ◌==◌, leb, ltb, if◌then◌else◌,
  bit_or, Bytes, List, [], ◌∷◌, ◌++◌, Option, none, some, length, take, drop,
}
use go_serial_cli.Zmodem.Crc.{crc16_update, crc16_x_modem, crc32_update, checksum_ieee}
use go_serial_cli.Zmodem.Header.{Header}
use go_serial_cli.Zmodem.Unescape.{need_more, found, bad, cancel}
use go_serial_cli.Zmodem.Scan.{Scan, scan_header, joined32}
use go_serial_cli.Zmodem.DeviceText.{clean_device_line, is_device_text_line}
use go_serial_cli.Zmodem.Link.{
  bad_header, bad_crc, overflow, peer_cancel, unexpected_fe, ok, err, stuck, Arrival, Link, LinkM,
  ◌>>=◌, return, fail, fill, poll, supply, zdlread,
}

-- `flushText` writes the collected line if it is one that a person would want to see.
unfoldable pub flush_text : Link → Link
flush_text l =
    let line = clean_device_line l.text in
    record l {
      text = [];
      shown = if l.echo && is_device_text_line line then l.shown ++ (line ∷ []) else l.shown;
    }

unfoldable pub note_text : Bytes → Link → Link
note_text [] l = l
note_text (b ∷ bs) l = note_text bs (
    if b == b'\r' || b == b'\n'
    then flush_text l
    else if ltb (length l.text) 512
    then record l { text = l.text ++ (b ∷ []) }
    else l)

-- `drop`, under the name of what it does here
unfoldable pub drop_pending : ℕ → Link → Link
drop_pending n l =
    let l' = if l.echo then note_text (take n l.pending) l else l in
    record l' { pending = drop n l.pending }

-- `unread`
unfoldable pub unread : Header → Link → Link
unread h l = record l { held = some h }

-- The scan that `pollHeader` and `readHeader` begin each round with: what it found, and the link
-- behind it. Bytes that are not part of a frame are dropped.
unfoldable pub scan_pending : Link → Scan × Link
scan_pending l =
    let s = scan_header l.pending l.ctl_ignore in
    let l' = drop_pending s.start l in
    (s, record l' { pending = drop (s.end - s.start) l'.pending })

-- `pollHeader`, after `poll`: a bad header is skipped.
unfoldable pub poll_header_from : ℕ → LinkM (Option Header)
poll_header_from zero l = (stuck, l)
poll_header_from (suc fuel) l =
    let (s, l') = scan_pending l in
    elim s.status [
      | found ↦ (ok (some s.header), l')
      | cancel ↦ (err peer_cancel, record l' { gone = true })
      | bad ↦ poll_header_from fuel l'
      | need_more ↦ (ok none, l')
    ]

unfoldable pub poll_header : LinkM (Option Header)
poll_header l = elim l.held [
  | some h ↦ (ok (some h), record l { held = none })
  | none ↦
      let (e, l') = poll l in
      elim e [ some x ↦ (err x, l') | none ↦ poll_header_from (length l'.pending + 1) l' ]
]

-- `readHeader`: the list is what the link's `rx` still holds. Each round that does not return takes
-- one arrival, and at the end of the list the deadline passes.
unfoldable pub read_header_from : ℕ → LinkM Header
read_header_from zero l = (stuck, l)
read_header_from (suc fuel) l =
    let (s, l') = scan_pending l in
    elim s.status [
      | found ↦ (ok s.header, l')
      | cancel ↦ (err peer_cancel, record l' { gone = true })
      | bad ↦ (err bad_header, l')
      | need_more ↦
          let (e, l'') = fill l' in
          elim e [ some x ↦ (err x, l'') | none ↦ read_header_from fuel l'' ]
    ]

-- `length` of the arrivals
abbrev pub arrivals : List Arrival → ℕ
arrivals [] = 0
arrivals (a ∷ rest) = suc (arrivals rest)

unfoldable pub read_header : LinkM Header
read_header l = elim l.held [
  | some h ↦ (ok h, record l { held = none })
  | none ↦ read_header_from (arrivals l.rx + 1) l
]

-- The loop `for i := 0; i < n; i++` over the checksum: a frame end there is an error.
unfoldable pub read_crc_bytes : ℕ → LinkM Bytes
read_crc_bytes zero = return []
read_crc_bytes (suc n) = do
  c ← zdlread
  if leb 0x100 c then fail unexpected_fe else (do rest ← read_crc_bytes n; return (c ∷ rest))

-- The comparison of the checksum that was read with that of the data and the frame end.
unfoldable pub crc_matches : Bool → Bytes → ℕ → Bytes → Bool
crc_matches true payload end (a ∷ b ∷ c ∷ d ∷ []) =
    crc32_update (checksum_ieee payload) (end ∷ []) == joined32 a b c d
crc_matches false payload end (hi ∷ lo ∷ []) =
    crc16_update (crc16_x_modem payload) end == bit_or (hi * 256 % 65536) lo
crc_matches _ payload end _ = false

unfoldable pub finish_subpacket : Bool → Bytes → ℕ → LinkM (Bytes × ℕ)
finish_subpacket crc32_mode payload end = do
  crc ← read_crc_bytes (if crc32_mode then 4 else 2)
  if crc_matches crc32_mode payload end crc then return (payload, end) else fail bad_crc

unfoldable pub read_subpacket_from : ℕ → ℕ → Bool → Bytes → LinkM (Bytes × ℕ)
read_subpacket_from zero max crc32_mode payload l = (stuck, l)
read_subpacket_from (suc fuel) max crc32_mode payload l =
    let (r, l') = zdlread l in
    elim r [
      | err e ↦ (err e, l')
      | stuck ↦ (stuck, l')
      | ok v ↦ elim (leb 0x100 v) [
        | true ↦ finish_subpacket crc32_mode payload (v % 256) l'
        | false ↦ elim (leb max (length payload)) [
          | true ↦ (err overflow, l')
          | false ↦ read_subpacket_from fuel max crc32_mode (payload ++ (v ∷ [])) l'
        ]
      ]
    ]

-- `readSubpacket` of at most `max` bytes.
unfoldable pub read_subpacket : ℕ → Bool → LinkM (Bytes × ℕ)
read_subpacket max crc32_mode l = read_subpacket_from (supply l + 1) max crc32_mode [] l
