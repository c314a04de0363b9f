-- ===== src/Transfer/QuietSteps.antt =====
-- The rounds of `streamFile` of zmodem.go where nothing comes back from the receiver.
use go_serial_cli.Common.{
  ℕ, ◌+◌, ◌-◌, ◌/◌, ◌≤◌, ◌<◌, ◌≡◌, refl, ap, ◌∙◌, true, false, ◌&&◌, ◌||◌, ◌==◌, ltb, leb, if_cases,
  Bytes, List, [], ◌∷◌, ◌++◌, none, length, arith, inl, inr, Bool-cases, min, take, drop,
  length-take, length-drop,
}
use go_serial_cli.Zmodem.Header.{z_crcw, z_crce}
use go_serial_cli.Transfer.Frames.{Frame, packet, ends_frame}
use go_serial_cli.Transfer.Send.{
  z_grow_after, polls, Stream, Source, Settings, nothing, Event, sends,
}
use go_serial_cli.Transfer.Stream.{
  packet_end, grow, after_packet, send_packet, main_step, poll_step, wait_step, refuse, stream_step,
  stream_from,
}
use go_serial_cli.Transfer.Delivery.{
  sent_frames, sent_frames-behind_frames, stream_from_step, go_on,
}

-- Nothing was at hand when the loop looked, and its writes go through.
abbrev pub IsQuiet : Event → Type 0
IsQuiet e = (e.refused ≡ none) × (e.xoff ≡ false) × (e.reverse ≡ nothing)

module _ (o : Settings) (src : Source) (full : o.full_duplex ≡ true) where
  -- A sender inside the file and inside its window.
  abbrev pub IsStreaming : Stream → Type 0
  IsStreaming st =
      (st.wait ≡ polls)
      × (st.is_done ≡ false)
      × (st.pos ≤ src.size)
      × (0 < st.block)
      × (src.size ≤ st.acked + o.window)
      × (st.new_frame ≡ false → st.pos < src.size)

  pub quiet_step :
      (e : Event) (st : Stream)
      → IsQuiet e
      → st.wait ≡ polls
      → stream_step o src e st ≡ main_step o src e.now false st
  unfolding stream_step wait_step poll_step refuse
  quiet_step e st (r, x, v) w = rw (r, x, v, w) refl

  pub packet_end_lem :
      (n : ℕ) (st : Stream)
      → ((packet_end o src.size n st == z_crcw) ≡ false)
        × ((packet_end o src.size n st == z_crce) ≡ leb src.size (st.pos + n))
  unfolding packet_end
  packet_end_lem n st = elim (Bool-cases (leb src.size (st.pos + n))) [
    | inl t ↦ rw (full, t) (refl, refl)
    | inr t ↦ elim (Bool-cases (leb (o.window / 4) (st.since_chk + n))) [
      | inl u ↦ rw (full, t, u) (refl, refl)
      | inr u ↦ rw (full, t, u) (refl, refl)
    ]
  ]

  pub grow_lem :
      (st : Stream)
      → 0 < st.block
      → ((grow o.max_block st).is_done ≡ st.is_done)
        × (0 < (grow o.max_block st).block)
        × ((grow o.max_block st).acked ≡ st.acked)
  unfolding grow
  grow_lem st b =
      if_cases {A = Stream} (λ s. (s.is_done ≡ st.is_done) × (0 < s.block) × (s.acked ≡ st.acked))
        (leb z_grow_after (st.good_run + 1) && ltb st.block o.max_block) _ _
        (λ t. (refl, ground arith, refl)) (λ f. (refl, b, refl))

  pub after_packet_lem :
      (now n end : ℕ) (st : Stream)
      → (end == z_crcw) ≡ false
      → (end == z_crce) ≡ leb src.size (st.pos + n)
      → st.pos + n ≤ src.size
      → st.new_frame ≡ false
      → IsStreaming st
      → ((after_packet o now n end st).new_frame ≡ (end == z_crce))
        × IsStreaming (after_packet o now n end st)
  unfolding after_packet ends_frame
  after_packet_lem now n end st w c h f (p, d, i, b, a, nf) =
      let (d', b', a') = grow_lem st b in
      let opens : (st.new_frame || ends_frame end) ≡ (end == z_crce) = rw (f, w) refl in
      (opens, (rw w refl, d' ∙ d, h, b', omega (arith, a, a'), (λ e. ground (arith, c, opens, e))))

  -- One subpacket of a file that can be read.
  pub send_packet_lem :
      (now : ℕ) (st : Stream)
      → src.size ≡ length src.contents
      → ((p : ℕ) → src.read_fails p ≡ false)
      → st.pos < src.size
      → st.new_frame ≡ false
      → IsStreaming st
      → (bytes : Bytes) × (end : ℕ) × (st' : Stream) × (send_packet o src now st
          ≡ sends (packet bytes end ∷ []) st')
        × (0 < length bytes)
        × ((end == z_crcw) ≡ false)
        × (st'.new_frame ≡ (end == z_crce))
        × (st'.pos ≡ st.pos + length bytes)
        × IsStreaming st'
  unfolding send_packet after_packet
  send_packet_lem now st whole reads inside f s =
      let bytes = take (min st.block (src.size - st.pos)) (drop st.pos src.contents) in
      let block_positive : 0 < st.block = s.3 in
      let e : length bytes ≡ min (min st.block (src.size - st.pos)) (length src.contents - st.pos) =
        length-take (min st.block (src.size - st.pos)) (drop st.pos src.contents)
        ∙ ap (min (min st.block (src.size - st.pos))) (length-drop st.pos src.contents) in
      let some_bytes : 0 < length bytes = omega (arith, e, whole, inside, block_positive) in
      let all_inside : st.pos + length bytes ≤ src.size = omega (arith, e, whole, inside) in
      let end = packet_end o src.size (length bytes) st in
      let (w, c) = packet_end_lem (length bytes) st in
      let (n, s') = after_packet_lem now (length bytes) end st w c all_inside f s in
      let not_empty : (length bytes == 0) ≡ false = ground arith in
      (
        bytes,
        end,
        after_packet o now (length bytes) end st,
        rw (reads st.pos, not_empty) refl,
        some_bytes,
        w,
        n,
        refl,
        s',
      )

  -- The frames of one step, and the run behind them.
  pub stream_from_sends :
      (e : Event) (events : List Event) (st st' : Stream) (fs : List Frame)
      → stream_step o src e st ≡ sends fs st'
      → sent_frames (stream_from o src (e ∷ events) st)
        ≡ fs ++ sent_frames (stream_from o src events st')
  unfolding go_on
  stream_from_sends e events st st' fs h =
      ap sent_frames (stream_from_step o src e events st ∙ ap (go_on o src events) h)
      ∙ sent_frames-behind_frames o src fs (stream_from o src events st')
