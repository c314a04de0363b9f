-- ===== src/Zmodem/Subpacket.antt =====
-- `readSubpacket` reads what `encodeSubpacket` wrote, however the line cuts it into chunks.
use go_serial_cli.Common.{
  ℕ, zero, suc, ◌+◌, ◌<◌, ◌≤◌, ◌≡◌, refl, sym, ap, ◌∙◌, Bool, true, false, ◌==◌, ==_refl,
  if◌then◌else◌, Bytes, IsByte, [], ◌∷◌, ◌++◌, none, length, length-append, append_assoc,
  append-nil, All, arith, Bool-cases, inl, inr,
}
use go_serial_cli.Zmodem.Header.{z_dle, z_crcw, ascii_xon}
use go_serial_cli.Zmodem.Crc.{
  crc16_update, crc16_x_modem, crc32_update, checksum_ieee, crc16_update-lt, crc16_x_modem-lt,
  crc32_update-lt,
}
use go_serial_cli.Zmodem.Encode.{subpacket_crc, encode_subpacket}
use go_serial_cli.Zmodem.HexRoundTrip.{big_endian16_joined}
use go_serial_cli.Zmodem.ScanRoundTrip.{joined32-little_endian32}
use go_serial_cli.Zmodem.Escape.{
  Escaper, put_all-escaped, last_of, last_of-ctl, length-le-escaped, escaped_byte, escaped,
}
use go_serial_cli.Zmodem.EscapeRoundTrip.{Compatible}
use go_serial_cli.Zmodem.Link.{ok, Link, zdlread, supply}
use go_serial_cli.Zmodem.LinkFrames.{
  read_crc_bytes, crc_matches, finish_subpacket, read_subpacket_from, read_subpacket,
}
use go_serial_cli.Zmodem.LinkRead.{stream, Delivers, Delivers-trans, stream-le-supply}
use go_serial_cli.Zmodem.DleRoundTrip.{
  zdlread-dle, zdlread-escaped_byte, frame_end_result, IsFrameEnd,
}

read_crc_bytes-step :
    (n : ℕ) (l l1 l2 : Link) (b : ℕ) (bs : Bytes)
    → IsByte b
    → zdlread l ≡ (ok b, l1)
    → read_crc_bytes n l1 ≡ (ok bs, l2)
    → read_crc_bytes (suc n) l ≡ (ok (b ∷ bs), l2)
unfolding read_crc_bytes
read_crc_bytes-step n l l1 l2 b bs h r1 r2 = ground arith

-- Checksum bytes are read one by one.
read_crc_bytes-Delivers :
    (bs : Bytes) (l : Link) (e : Escaper) (s : Bytes)
    → All IsByte bs
    → l.rx_err ≡ none
    → Compatible l.ctl_ignore e.ctl
    → stream l ≡ escaped e bs ++ s
    → (l' : Link) × (read_crc_bytes (length bs) l ≡ (ok bs, l')) × Delivers l s l'
unfolding read_crc_bytes escaped
read_crc_bytes-Delivers [] l e s h q k st = (
  l,
  refl,
  record { rest = st; no_error = q; same_ctl = refl; same_gone = refl; same_out = refl },
)
read_crc_bytes-Delivers (b ∷ bs) l e s h q k st =
    let e' : Escaper = record e { last = b } in
    let (l1, r1, d1) =
      zdlread-escaped_byte l e b (escaped e' bs ++ s) h.0 q k
        (st ∙ append_assoc (escaped_byte e b) (escaped e' bs) s) in
    let (l2, r2, d2) =
      read_crc_bytes-Delivers bs l1 e' s h.1 d1.no_error (rw d1.same_ctl k) d1.rest in
    (l2, read_crc_bytes-step (length bs) l l1 l2 b bs h.0 r1 r2, Delivers-trans l l1 l2 _ s d1 d2)

-- What the encoder writes behind the data: the frame end and the escaped checksum.
abbrev trailer : Bool → Bytes → ℕ → Escaper → Bytes
trailer crc32_mode payload end e =
    z_dle ∷ end ∷ escaped (record e { last = end }) (subpacket_crc crc32_mode payload end)

subpacket_crc-IsByte :
    (crc32_mode : Bool) (payload : Bytes) (end : ℕ)
    → All IsByte (subpacket_crc crc32_mode payload end)
subpacket_crc-IsByte true payload end = omega arith
subpacket_crc-IsByte false payload end = omega arith

crc_matches-subpacket_crc :
    (crc32_mode : Bool) (payload : Bytes) (end : ℕ)
    → crc_matches crc32_mode payload end (subpacket_crc crc32_mode payload end) ≡ true
unfolding crc_matches
crc_matches-subpacket_crc true payload end =
    let sum = crc32_update (checksum_ieee payload) (end ∷ []) in
    rw (joined32-little_endian32 sum (crc32_update-lt _ _)) (==_refl sum)
crc_matches-subpacket_crc false payload end =
    let sum = crc16_update (crc16_x_modem payload) end in
    rw (big_endian16_joined sum (crc16_update-lt _ end (crc16_x_modem-lt payload))) (==_refl sum)

crc_length :
    (crc32_mode : Bool) (payload : Bytes) (end : ℕ)
    → (if crc32_mode then 4 else 2) ≡ length (subpacket_crc crc32_mode payload end)
crc_length true payload end = refl
crc_length false payload end = refl

finish_subpacket-Delivers :
    (crc32_mode : Bool) (payload : Bytes) (end : ℕ) (l : Link) (e : Escaper) (s : Bytes)
    → l.rx_err ≡ none
    → Compatible l.ctl_ignore e.ctl
    → stream l ≡ escaped e (subpacket_crc crc32_mode payload end) ++ s
    → (l' : Link) × (finish_subpacket crc32_mode payload end l ≡ (ok (payload, end), l'))
      × Delivers l s l'
unfolding finish_subpacket
finish_subpacket-Delivers m payload end l e s q k st =
    let crc = subpacket_crc m payload end in
    let (l1, r1, d1) =
      read_crc_bytes-Delivers crc l e s (subpacket_crc-IsByte m payload end) q k st in
    (
      l1,
      rw (crc_length m payload end) (ground (arith, r1, crc_matches-subpacket_crc m payload end)),
      d1,
    )

module _ (fuel max : ℕ) (m : Bool) (acc : Bytes) (l l' : Link) where
  read_subpacket_from-data :
      (b : ℕ)
      → IsByte b
      → length acc < max
      → zdlread l ≡ (ok b, l')
      → read_subpacket_from (suc fuel) max m acc l
        ≡ read_subpacket_from fuel max m (acc ++ (b ∷ [])) l'
  unfolding read_subpacket_from
  read_subpacket_from-data b h room r = ground arith

  read_subpacket_from-end :
      (end : ℕ)
      → IsFrameEnd end
      → zdlread l ≡ (ok (0x100 + end), l')
      → read_subpacket_from (suc fuel) max m acc l ≡ finish_subpacket m acc end l'
  unfolding read_subpacket_from
  read_subpacket_from-end end h r = ground arith

-- The loop over the data of a subpacket, from any data read so far.
read_subpacket_from-Delivers :
    (bs : Bytes) (fuel max : ℕ) (m : Bool) (acc : Bytes) (l : Link) (e : Escaper) (end : ℕ)
    (s : Bytes)
    → length bs < fuel
    → length acc + length bs ≤ max
    → All IsByte bs
    → IsFrameEnd end
    → l.rx_err ≡ none
    → Compatible l.ctl_ignore e.ctl
    → stream l ≡ escaped e bs ++ (trailer m (acc ++ bs) end e ++ s)
    → (l' : Link) × (read_subpacket_from fuel max m acc l ≡ (ok (acc ++ bs, end), l'))
      × Delivers l s l'
unfolding escaped
read_subpacket_from-Delivers bs zero max m acc l e end s f room h fe q k st = absurd (omega arith)
read_subpacket_from-Delivers [] (suc fuel) max m acc l e end s f room h fe q k st =
    let whole : acc ++ [] ≡ acc = append-nil acc in
    let crc = escaped (record e { last = end }) (subpacket_crc m acc end) in
    let (l1, r1, d1) =
      zdlread-dle l end (0x100 + end) (crc ++ s) q (frame_end_result l.ctl_ignore end fe)
        (rw whole at st) in
    let (l2, r2, d2) =
      finish_subpacket-Delivers m acc end l1 (record e { last = end }) s d1.no_error
        (rw d1.same_ctl k) d1.rest in
    (
      l2,
      rw whole (read_subpacket_from-end fuel max m acc l l1 end fe r1 ∙ r2),
      Delivers-trans l l1 l2 _ s d1 d2,
    )
read_subpacket_from-Delivers (b ∷ bs) (suc fuel) max m acc l e end s f room h fe q k st =
    let e' : Escaper = record e { last = b } in
    let longer = acc ++ (b ∷ []) in
    let whole : longer ++ bs ≡ acc ++ (b ∷ bs) = append_assoc acc (b ∷ []) bs in
    let tail = trailer m (acc ++ (b ∷ bs)) end e ++ s in
    let (l1, r1, d1) =
      zdlread-escaped_byte l e b (escaped e' bs ++ tail) h.0 q k
        (st ∙ append_assoc (escaped_byte e b) (escaped e' bs) tail) in
    let (l2, r2, d2) =
      read_subpacket_from-Delivers bs fuel max m longer l1 e' end s (omega arith)
        (omega (arith, length-append acc (b ∷ []))) h.1 fe d1.no_error (rw d1.same_ctl k)
        (rw whole d1.rest) in
    (
      l2,
      read_subpacket_from-data fuel max m acc l l1 b h.0 (omega arith) r1
          ∙ r2
          ∙ ap (λ (p : Bytes). (ok (p, end), l2)) whole,
      Delivers-trans l l1 l2 _ s d1 d2,
    )

-- The XON that follows a ZCRCW.
abbrev xon_behind : ℕ → Bytes
xon_behind end = if end == z_crcw then ascii_xon ∷ [] else []

with_xon :
    (end : ℕ) (out : Bytes)
    → (if end == z_crcw then out ++ (ascii_xon ∷ []) else out) ≡ out ++ xon_behind end
with_xon end out = elim (Bool-cases (end == z_crcw)) [
  | inl t ↦ rw t
  | inr f ↦ rw f (sym (append-nil out))
]

-- What `encodeSubpacket` writes, in the order of the line.
encode_subpacket-escaped :
    (payload : Bytes) (end : ℕ) (m : Bool) (e : Escaper)
    → (encode_subpacket [] payload end m e).1
      ≡ escaped e payload ++ (trailer m payload end e ++ xon_behind end)
unfolding encode_subpacket
encode_subpacket-escaped payload end m e =
    let crc = subpacket_crc m payload end in
    let front = escaped e payload ++ (z_dle ∷ end ∷ []) in
    let behind : Escaper = record { ctl = (last_of e payload).ctl; last = end } in
    rw (put_all-escaped e [] payload) (
      rw (put_all-escaped behind front crc) (
        rw (last_of-ctl e payload) (
          with_xon end (front ++ escaped (record e { last = end }) crc)
          ∙ append_assoc front _ (xon_behind end)
          ∙ append_assoc (escaped e payload) (z_dle ∷ end ∷ []) _)))

-- A subpacket with any frame end and either checksum, sent behind a header or another subpacket and
-- cut into chunks at will, is read back whole: the data, the frame end and the rest of the line. The
-- reader accepts at least as many bytes as were sent, and drops control bytes only if they were
-- escaped. What is behind starts with the XON of a ZCRCW.
pub read_subpacket-encode_subpacket :
    (payload : Bytes) (end max : ℕ) (m : Bool) (e : Escaper) (l : Link) (s : Bytes)
    → All IsByte payload
    → IsFrameEnd end
    → length payload ≤ max
    → l.rx_err ≡ none
    → Compatible l.ctl_ignore e.ctl
    → stream l ≡ (encode_subpacket [] payload end m e).1 ++ s
    → (l' : Link) × (read_subpacket max m l ≡ (ok (payload, end), l'))
      × Delivers l ((if end == z_crcw then ascii_xon ∷ [] else []) ++ s) l'
unfolding read_subpacket
read_subpacket-encode_subpacket payload end max m e l s h fe room q k st =
    let line : stream l ≡ escaped e payload ++ (trailer m payload end e ++ (xon_behind end ++ s)) =
      st
      ∙ rw (encode_subpacket-escaped payload end m e) (
          append_assoc (escaped e payload) _ s
          ∙ ap (λ (t : Bytes). escaped e payload ++ t)
              (append_assoc (trailer m payload end e) _ s)) in
    let fuel : supply l + 1 ≡ suc (supply l) = omega arith in
    rw fuel (
      read_subpacket_from-Delivers payload (suc (supply l)) max m [] l e end (xon_behind end ++ s)
        (omega (
          arith,
          ap length line,
          stream-le-supply l,
          length-append (escaped e payload) (trailer m payload end e ++ (xon_behind end ++ s)),
          length-le-escaped e payload,
        ))
        (omega arith) h fe q k line)
