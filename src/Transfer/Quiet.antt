-- ===== src/Transfer/Quiet.antt =====
-- A transfer that nothing disturbs: `streamFile` and `receiveData` of zmodem.go both get to the end of
-- the file.
use go_serial_cli.Common.{
  ℕ, ◌+◌, ◌%◌, ◌^◌, ◌<◌, ◌≡◌, refl, sym, ap, ◌∙◌, Bool, true, false, not, ◌==◌, if◌then◌else◌,
  Bytes, List, [], ◌∷◌, ◌++◌, Option, none, length, arith, inl, inr, Bool-cases,
}
use go_serial_cli.Zmodem.Header.{
  Header, pos, pos_header, z_data, z_eof, z_rpos, z_crcw, z_crcq, z_crce, z_ack, z_bin32,
}
use go_serial_cli.Zmodem.Link.{LinkError}
use go_serial_cli.Transfer.Frames.{Frame, header, packet, Arrived}
use go_serial_cli.Transfer.Receive.{
  Mode, at_header, in_frame, Sent, hex, Receiving, Progress, going, complete, receive_data,
  receive_from, receive_one, on_end, on_packet, on_header, on_data, hunt, read_frame, send_header,
  start_receiving,
}
use go_serial_cli.Transfer.ReceiveSafe.{frames_of}
use go_serial_cli.Transfer.ReceiveWhole.{receive_from_round, go_on, receive_data_start}

-- The frames of the rest of a file of a size from an offset on, in a frame or before one.
pub data Covers (size : ℕ) : Bool → ℕ → List Frame → Type 0 where
  is_over :
      (p : ℕ) (h : Header) (fs : List Frame)
      → p ≡ size
      → h.frame_type ≡ z_eof
      → pos h ≡ p
      → Covers size false p (header h ∷ fs)
  opened :
      (p : ℕ) (h : Header) (fs : List Frame)
      → h.frame_type ≡ z_data
      → pos h ≡ p
      → Covers size true p fs
      → Covers size false p (header h ∷ fs)
  covered :
      (p : ℕ) (bytes : Bytes) (end : ℕ) (fs : List Frame)
      → 0 < length bytes
      → (end == z_crcw) ≡ false
      → Covers size (not (end == z_crce)) (p + length bytes) fs
      → Covers size true p (packet bytes end ∷ fs)

abbrev mode_of : Bool → Mode
mode_of in_one = if in_one then in_frame else at_header

module _ (reply : List Sent → Option LinkError) (full : ℕ → Bool) (attn : Bytes)
    (answers : (out : List Sent) → reply out ≡ none) (takes : (p : ℕ) → full p ≡ false) where
  -- A header is written.
  send_header_lem :
      (h : Header) (s : Receiving)
      → (s' : Receiving) × (send_header reply full attn h s ≡ going s')
        × (s'.mode ≡ s.mode)
        × (s'.rx ≡ s.rx)
  unfolding send_header
  send_header_lem h s =
      (record s { out = s.out ++ (hex h ∷ []) }, rw (send_header, answers s.out) refl, refl, refl)

  on_end_lem :
      (end : ℕ) (s : Receiving)
      → s.mode ≡ in_frame
      → (end == z_crcw) ≡ false
      → (s' : Receiving) × (on_end reply full attn end s ≡ going s')
        × (s'.mode ≡ mode_of (not (end == z_crce)))
        × (s'.rx ≡ s.rx)
  unfolding on_end
  on_end_lem end s m w = elim (Bool-cases (end == z_crcq)) [
    | inl t ↦
        let f : (end == z_crce) ≡ false = ground arith in
        let (s', e, m', x) = send_header_lem (pos_header z_ack (s.rx % 2 ^ 32)) s in
        (s', rw (w, t) e, rw f (m' ∙ m), x)
    | inr t ↦ elim (Bool-cases (end == z_crce)) [
      | inl u ↦ (record s { mode = at_header }, rw (w, t, u) refl, rw u refl, refl)
      | inr u ↦ (s, rw (w, t, u) refl, rw u m, refl)
    ]
  ]

  on_packet_lem :
      (bytes : Bytes) (end : ℕ) (s : Receiving)
      → s.mode ≡ in_frame
      → 0 < length bytes
      → (end == z_crcw) ≡ false
      → (s' : Receiving) × (on_packet reply full attn bytes end s ≡ going s')
        × (s'.mode ≡ mode_of (not (end == z_crce)))
        × (s'.rx ≡ s.rx + length bytes)
  unfolding on_packet
  on_packet_lem bytes end s m l w =
      let f : (length bytes == 0) ≡ false = ground arith in
      rw (f, takes s.rx) (on_end_lem end _ m w)

  on_data_lem :
      (now : ℕ) (h : Header) (s : Receiving)
      → h.frame_type ≡ z_data
      → pos h ≡ s.rx
      → (s' : Receiving) × (on_header reply full attn now h s ≡ going s')
        × (s'.mode ≡ in_frame)
        × (s'.rx ≡ s.rx)
  unfolding on_header on_data
  on_data_lem now h s t e =
      let f : (h.frame_type == z_data) ≡ true = ground arith in
      let g : (pos h == s.rx) ≡ true = ground arith in
      (
        record s {
          rpos_out = false;
          got_data = true;
          crc32_mode = h.format == z_bin32;
          mode = in_frame;
        },
        rw (f, g) refl,
        refl,
        refl,
      )

  on_eof_lem :
      (now : ℕ) (h : Header) (s : Receiving)
      → h.frame_type ≡ z_eof
      → pos h ≡ s.rx
      → on_header reply full attn now h s ≡ complete s
  unfolding on_header
  on_eof_lem now h s t e = ground (arith, t, e)

  -- One round of the loop, from what the call in its mode gives.
  round_lem :
      (a : Arrived) (rest : List Arrived) (s : Receiving) (mode : Mode) (f : Frame)
      (next : Progress)
      → s.mode ≡ mode
      → a.frame ≡ f
      → receive_one reply full attn mode a.at f s ≡ next
      → receive_from reply full attn (a ∷ rest) s ≡ go_on (λ p. Unit) [] 0 reply full attn rest next
  round_lem a rest s mode f next m e r =
      receive_from_round (λ p. Unit) [] 0 reply full attn a rest s
      ∙ ap (go_on (λ p. Unit) [] 0 reply full attn rest) (
          ap (λ k. receive_one reply full attn k a.at a.frame s) m
          ∙ ap (λ k. receive_one reply full attn mode a.at k s) e
          ∙ r)

  receive_from-complete :
      (size : ℕ) (arrived : List Arrived) (in_one : Bool) (p : ℕ) (fs : List Frame) (s : Receiving)
      → Covers size in_one p fs
      → frames_of arrived ≡ fs
      → s.mode ≡ mode_of in_one
      → s.rx ≡ p
      → (s' : Receiving) × (receive_from reply full attn arrived s ≡ complete s')
  unfolding receive_one hunt read_frame go_on
  receive_from-complete size [] in_one p fs s (is_over _ _ _ _ _ _) e m x = absurd cc
  receive_from-complete size [] in_one p fs s (opened _ _ _ _ _ _) e m x = absurd cc
  receive_from-complete size [] in_one p fs s (covered _ _ _ _ _ _ _) e m x = absurd cc
  receive_from-complete size (a ∷ rest) in_one p fs s (is_over q h fs' z t e') e m x =
      let came : a.frame ≡ header h = cc in
      (
        s,
        round_lem a rest s at_header (header h) (complete s) m came
            (on_eof_lem a.at h s t (e' ∙ sym x)),
      )
  receive_from-complete size (a ∷ rest) in_one p fs s (opened q h fs' t e' c) e m x =
      let came : a.frame ≡ header h = cc in
      let later : frames_of rest ≡ fs' = cc in
      let (s', r, m', x') = on_data_lem a.at h s t (e' ∙ sym x) in
      let (s'', r') = receive_from-complete size rest true q fs' s' c later m' (x' ∙ x) in
      (s'', round_lem a rest s at_header (header h) (going s') m came r ∙ r')
  receive_from-complete size (a ∷ rest) in_one p fs s (covered q bytes end fs' l w c) e m x =
      let came : a.frame ≡ packet bytes end = cc in
      let later : frames_of rest ≡ fs' = cc in
      let (s', r, m', x') = on_packet_lem bytes end s m l w in
      let (s'', r') =
        receive_from-complete size rest _ _ fs' s' c later m' (x' ∙ ap (λ k. k + length bytes) x) in
      (s'', round_lem a rest s in_frame (packet bytes end) (going s') m came r ∙ r')

  pub receive_data-complete :
      (now size start : ℕ) (arrived : List Arrived)
      → Covers size false start (frames_of arrived)
      → (s' : Receiving) × (receive_data reply full attn now start arrived ≡ complete s')
  unfolding start_receiving go_on
  receive_data-complete now size start arrived c =
      let (s, e, m, x) =
        send_header_lem (pos_header z_rpos (start % 2 ^ 32))
          (start_receiving reply full attn now start) in
      let (s', r) =
        receive_from-complete size arrived false start (frames_of arrived) s c refl m x in
      (
        s',
        receive_data_start (λ p. Unit) [] start reply full attn now arrived
            ∙ ap (go_on (λ p. Unit) [] start reply full attn arrived) e
            ∙ r,
      )
