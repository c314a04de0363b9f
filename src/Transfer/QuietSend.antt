-- ===== src/Transfer/QuietSend.antt =====
-- `streamFile` of zmodem.go where nothing comes back from the receiver: it goes through the whole file.
use go_serial_cli.Common.{
  ℕ, ◌+◌, ◌%◌, ◌^◌, ◌≤◌, ◌<◌, ◌≡◌, refl, sym, ap, ◌∙◌, Bool, true, false, not, ◌==◌, leb, if_cases,
  Bytes, List, [], ◌∷◌, ◌++◌, Option, none, length, arith, inl, inr, Bool-cases, drop, append_assoc,
  All,
}
use mathlib.Core.Path.{subst}
use go_serial_cli.Zmodem.Header.{pos, pos_header, pos-pos_header, z_data, z_eof, z_crce}
use go_serial_cli.Zmodem.Link.{LinkError}
use go_serial_cli.Transfer.Frames.{Frame, header, packet, Arrived, IsHonest}
use go_serial_cli.Transfer.Receive.{Sent, Receiving, complete, receive_data}
use go_serial_cli.Transfer.ReceiveSafe.{frames_of}
use go_serial_cli.Transfer.ReceiveWhole.{IsSafe, receive_data-IsSafe}
use go_serial_cli.Transfer.Send.{for_eof, Stream, Source, Settings, Event, sends}
use go_serial_cli.Transfer.Stream.{
  put_before, open_frame, open_frames, send_eof, send_packet, send_chunk, main_step, stream_step,
  stream_from, start_stream, stream_file,
}
use go_serial_cli.Transfer.Delivery.{
  sent_frames, go_on, stream_file_start, behind_frames_nil, stream_file-IsHonest,
}
use go_serial_cli.Transfer.Quiet.{Covers, is_over, opened, covered, receive_data-complete}
use go_serial_cli.Transfer.QuietSteps.{
  IsQuiet, IsStreaming, quiet_step, send_packet_lem, stream_from_sends,
}

module _ (o : Settings) (src : Source) (full : o.full_duplex ≡ true)
    (whole : src.size ≡ length src.contents) (fits : src.size < 2 ^ 32)
    (reads : (p : ℕ) → src.read_fails p ≡ false) where
  header_pos : (t p : ℕ) → t < 256 → p ≤ src.size → pos (pos_header t (p % 2 ^ 32)) ≡ p
  header_pos t p b h =
      let low : p % 2 ^ 32 < 2 ^ 32 = omega arith in
      let same : p % 2 ^ 32 ≡ p = omega (arith, fits, h) in
      (pos-pos_header t (p % 2 ^ 32) b low).1 ∙ same

  -- The end of the file is announced.
  end_lem :
      (e : Event) (st : Stream)
      → IsQuiet e
      → IsStreaming o src full st
      → (leb src.size st.pos ≡ true)
      → (st' : Stream) × (stream_step o src e st
          ≡ sends (header (pos_header z_eof (src.size % 2 ^ 32)) ∷ []) st')
  unfolding main_step send_eof
  end_lem e st q s h = (
    record st { eof_sent = true; wait = for_eof 0 none },
    quiet_step o src full e st q s.0 ∙ rw (s.1, h) refl,
  )

  chunk_lem :
      (e : Event) (st : Stream)
      → IsQuiet e
      → IsStreaming o src full st
      → (leb src.size st.pos ≡ false)
      → stream_step o src e st
        ≡ put_before (open_frames st) (send_packet o src e.now (open_frame st))
  unfolding main_step send_chunk
  chunk_lem e st q s h =
      let in_window : leb (st.acked + o.window) st.pos ≡ false = ground (arith, h, s.4) in
      quiet_step o src full e st q s.0 ∙ rw (s.1, h, full, in_window) refl

  open_frame_lem :
      (st : Stream)
      → IsStreaming o src full st
      → st.pos < src.size
      → ((open_frame st).new_frame ≡ false)
        × ((open_frame st).pos ≡ st.pos)
        × IsStreaming o src full (open_frame st)
  unfolding open_frame
  open_frame_lem st s h =
      if_cases {A = Stream}
        (λ st'. (st'.new_frame ≡ false) × (st'.pos ≡ st.pos) × IsStreaming o src full st')
        st.new_frame _ _ (λ t. (refl, refl, (s.0, s.1, s.2, s.3, s.4, (λ e. h))))
        (λ f. (f, refl, s))

  -- The frames behind the header that may open a frame.
  open_frames-Covers :
      (st : Stream) (more : List Frame)
      → st.pos ≤ src.size
      → Covers src.size true st.pos more
      → Covers src.size (not st.new_frame) st.pos (open_frames st ++ more)
  unfolding open_frames pos_header
  open_frames-Covers st more h c = elim (Bool-cases st.new_frame) [
    | inl t ↦ rw t (opened st.pos _ more refl (header_pos z_data st.pos (omega arith) h) c)
    | inr f ↦ rw f c
  ]

  sends_eof :
      (st : Stream) (more : List Frame)
      → IsStreaming o src full st
      → leb src.size st.pos ≡ true
      → Covers src.size
          (not st.new_frame)
          st.pos
          (header (pos_header z_eof (src.size % 2 ^ 32)) ∷ more)
  unfolding pos_header
  sends_eof st more s h =
      let at_end : src.size ≡ st.pos = ground (arith, h, s.2) in
      elim (Bool-cases st.new_frame) [
        | inl t ↦ rw t (
            is_over st.pos _ more (sym at_end) refl
              (header_pos z_eof src.size (omega arith) (omega arith) ∙ at_end))
        | inr f ↦ absurd (omega (arith, s.5 f, at_end))
      ]

  stream_from-Covers :
      (events : List Event) (st : Stream)
      → All IsQuiet events
      → src.size < st.pos + length events
      → IsStreaming o src full st
      → Covers src.size (not st.new_frame) st.pos (sent_frames (stream_from o src events st))
  unfolding put_before
  stream_from-Covers [] st q l s = absurd (omega (arith, l, s.2))
  stream_from-Covers (e ∷ events) st (q, qs) l s = elim (Bool-cases (leb src.size st.pos)) [
    | inl t ↦
        let (st', r) = end_lem e st q s t in
        subst (Covers src.size (not st.new_frame) st.pos)
          (sym (stream_from_sends o src full e events st st' _ r)) (sends_eof st _ s t)
    | inr f ↦
        let inside : st.pos < src.size = ground (arith, f) in
        let (n, p, s1) = open_frame_lem st s inside in
        let (bytes, end, st', r, some_bytes, w, n', p', s') =
          send_packet_lem o src full e.now (open_frame st) whole reads (omega (arith, inside, p)) n
            s1 in
        let step : stream_step o src e st ≡ sends (open_frames st ++ (packet bytes end ∷ [])) st' =
          chunk_lem e st q s f ∙ ap (put_before (open_frames st)) r in
        let on : st'.pos ≡ st.pos + length bytes = p' ∙ ap (λ k. k + length bytes) p in
        let rest : Covers src.size (not (end == z_crce)) (st.pos + length bytes)
            (sent_frames (stream_from o src events st')) =
          subst
            (λ k.
              Covers src.size (not (end == z_crce)) k (sent_frames (stream_from o src events st')))
            on
            (subst
              (λ b. Covers src.size (not b) st'.pos (sent_frames (stream_from o src events st'))) n'
              (stream_from-Covers events st' qs (omega (arith, l, on, some_bytes)) s')) in
        subst (Covers src.size (not st.new_frame) st.pos)
          (sym (
            stream_from_sends o src full e events st st' _ step
            ∙ append_assoc (open_frames st) (packet bytes end ∷ [])
                (sent_frames (stream_from o src events st'))))
          (open_frames-Covers st _ s.2 (covered st.pos bytes end _ some_bytes w rest))
  ]

  -- In a full duplex session of a file below 4 GiB that can be read, with subpackets that are not empty
  -- and a window not smaller than the rest of the file, if nothing comes back and every write goes
  -- through, then after at most as many rounds as there are bytes left, and one more, a receiver that is
  -- given the sender's frames as they were sent, that can answer and write, completes the file with
  -- all its bytes from the start on, which lies inside it.
  pub stream_file-complete :
      (start : ℕ) (events : List Event) (now : ℕ) (arrived : List Arrived)
      (reply : List Sent → Option LinkError) (disk_full : ℕ → Bool) (attn : Bytes)
      → start ≤ src.size
      → src.size ≤ start + o.window
      → 0 < o.max_block
      → All IsQuiet events
      → src.size < start + length events
      → ((out : List Sent) → reply out ≡ none)
      → ((p : ℕ) → disk_full p ≡ false)
      → frames_of arrived ≡ sent_frames (stream_file o src start events)
      → (s : Receiving) × (receive_data reply disk_full attn now start arrived ≡ complete s)
        × (s.written ≡ drop start src.contents)
  unfolding start_stream go_on
  stream_file-complete start events now arrived reply disk_full attn h w b q l answers takes same =
      let sent : stream_file o src start events ≡ stream_from o src events (start_stream o start) =
        stream_file_start o src whole fits reads start events
        ∙ behind_frames_nil o src (stream_from o src events (start_stream o start)) in
      let c =
        stream_from-Covers events (start_stream o start) q l
          (refl, refl, h, b, w, (λ e. absurd cc)) in
      let (s, r) =
        receive_data-complete reply disk_full attn answers takes now src.size start arrived
          (subst (Covers src.size false start) (sym (same ∙ ap sent_frames sent)) c) in
      let safe : IsSafe src.contents start (complete s) = subst (IsSafe src.contents start) r (
        receive_data-IsSafe src.contents start reply disk_full attn now arrived
          (omega (arith, h, whole))
          (subst (IsHonest src.contents none) (sym same)
            (stream_file-IsHonest o src whole fits reads start events h b))) in
      (s, r, safe.1)
