-- ===== src/Transfer/SendHonest.antt =====
-- What `streamFile` of zmodem.go writes is an honest line.
use go_serial_cli.Common.{
  ℕ, ◌+◌, ◌-◌, ◌%◌, ◌^◌, ◌≤◌, ◌<◌, ◌≡◌, refl, sym, ap, ◌∙◌, Bool, true, false, not, ◌&&◌, ◌||◌,
  ◌==◌, ltb, leb, if◌then◌else◌, if_cases, Bytes, [], ◌∷◌, Option, none, some, length, drop, take,
  arith, Bool-cases, ◌⊎◌, inl, inr, min, length-take, length-drop,
}
use mathlib.Core.Path.{subst}
use go_serial_cli.Zmodem.Header.{pos_header, pos-pos_header, z_data, z_eof, z_crcw}
use go_serial_cli.Zmodem.Link.{LinkError}
use go_serial_cli.Transfer.Frames.{z_max_retries, ends_frame, next_offset, IsHonest}
use go_serial_cli.Transfer.Send.{
  z_grow_after, Wait, polls, for_xon, for_ack, for_eof, Stream, Source, Settings, Reverse, got,
  nothing, damaged, lost, Event, Sends, sends, stops, ends,
}
use go_serial_cli.Transfer.Stream.{
  open_frame, open_frames, grow, after_packet, send_eof, send_packet, send_chunk, wait_ack,
  main_step, poll_step, to_polls, xon_step, is_acked, ack_step, eof_size, eof_answered, eof_again,
  eof_step, wait_step, refuse, stream_step,
}
use go_serial_cli.Transfer.SendReady.{
  IsUncut, IsReady, Leads, IsGood, nil-Leads, header-Leads, packet-Leads, behind_packet,
  handle_reverse-IsGood,
}
use go_serial_cli.Transfer.SendWaits.{
  take-drop-IsPiece, put_before-IsGood, and_then-IsGood, quiet-IsGood, to_polls-IsReady,
  ack_again-IsGood, ack_silence-IsGood,
}

module _ (src : Source) (o : Settings) (whole : src.size ≡ length src.contents)
    (fits : src.size < 2 ^ 32) (reads : (p : ℕ) → src.read_fails p ≡ false) where
  reads_on : (p n : ℕ) → 0 < n → (src.read_fails p || n == 0) ≡ true → ⊥
  reads_on p n h t = ground (arith, reads p)

  send_eof-IsGood :
      (tries : ℕ) (at : Option ℕ) (st : Stream)
      → IsReady src.contents at st
      → IsGood src.contents at (send_eof tries src.size none st)
  unfolding send_eof pos_header
  send_eof-IsGood tries at st r =
      let low : src.size % 2 ^ 32 < 2 ^ 32 = omega arith in
      let e : src.size % 2 ^ 32 ≡ src.size = omega (arith, fits) in
      (
        none,
        header-Leads src.contents at (pos_header z_eof (src.size % 2 ^ 32))
            (λ t. (pos-pos_header z_eof _ (omega arith) low).1 ∙ e ∙ whole),
        (r.0, r.1, refl, inl refl),
      )

  behind_packet_cases :
      (bytes : Bytes) (end : ℕ) (at : Option ℕ) (st : Stream)
      → IsReady src.contents at st
      → (behind_packet src.contents bytes end at ≡ none)
        ⊎ (((st.frame_open && not (ends_frame end)) ≡ true)
            × (behind_packet src.contents bytes end at ≡ some (st.pos + length bytes)))
  unfolding next_offset
  behind_packet_cases bytes end none st r = inl refl
  behind_packet_cases bytes end (some p) st (inside, b, w, inl e) = absurd cc
  behind_packet_cases bytes end (some p) st (inside, b, w, inr (o, e)) =
      elim (Bool-cases (ends_frame end)) [
        | inl t ↦ inl (rw t refl)
        | inr f ↦
            let same : p ≡ st.pos = ground (arith, e) in inr (rw (o, f) refl, rw (f, same) refl)
      ]

  grow-positive : (st : Stream) → 0 < st.block → 0 < (grow o.max_block st).block
  unfolding grow
  grow-positive st h =
      if_cases {A = Stream} (λ s. 0 < s.block)
        (leb z_grow_after (st.good_run + 1) && ltb st.block o.max_block) _ _ (λ t. ground arith)
        (λ f. h)

  after_packet-IsReady :
      (now end : ℕ) (bytes : Bytes) (at : Option ℕ) (st : Stream)
      → st.pos + length bytes ≤ length src.contents
      → IsReady src.contents at st
      → IsReady src.contents
          (behind_packet src.contents bytes end at)
          (after_packet o now (length bytes) end st)
  unfolding after_packet grow
  after_packet-IsReady now end bytes at st h r = (
    h,
    grow-positive st r.1,
    if_cases IsUncut (end == z_crcw) _ _ (λ t. tt) (λ f. tt),
    behind_packet_cases bytes end at st r,
  )

  send_packet-IsGood :
      (now : ℕ) (at : Option ℕ) (st : Stream)
      → leb src.size st.pos ≡ false
      → IsReady src.contents at st
      → IsGood src.contents at (send_packet o src now st)
  unfolding send_packet
  send_packet-IsGood now at st h r =
      let bytes = take (min st.block (src.size - st.pos)) (drop st.pos src.contents) in
      let behind_pos : st.pos < src.size = ground (arith, h) in
      let block_positive : 0 < st.block = r.1 in
      let e : length bytes ≡ min (min st.block (src.size - st.pos)) (length src.contents - st.pos) =
        length-take (min st.block (src.size - st.pos)) (drop st.pos src.contents)
        ∙ ap (min (min st.block (src.size - st.pos))) (length-drop st.pos src.contents) in
      let some_bytes : 0 < length bytes = omega (arith, e, whole, behind_pos, block_positive) in
      let inside : st.pos + length bytes ≤ length src.contents =
        omega (arith, e, whole, behind_pos) in
      if_cases (IsGood src.contents at) (src.read_fails st.pos || length bytes == 0) _ _
        (λ t. absurd (reads_on st.pos (length bytes) some_bytes t))
        (λ f. (
          behind_packet src.contents bytes _ at,
          packet-Leads src.contents at bytes _ st r (take-drop-IsPiece src.contents st.pos _ r.0),
          after_packet-IsReady now _ bytes at st inside r,
        ))

  -- Where the line stands behind the header that may open a frame.
  abbrev line_open : Option ℕ → Stream → Option ℕ
  line_open at st = if st.new_frame then some st.pos else at

  open_frames_lem :
      (at : Option ℕ) (st : Stream)
      → IsReady src.contents at st
      → Leads src.contents at (open_frames st) (line_open at st)
        × IsReady src.contents (line_open at st) (open_frame st)
        × ((open_frame st).pos ≡ st.pos)
  unfolding open_frames open_frame pos_header
  open_frames_lem at st r =
      let low : st.pos % 2 ^ 32 < 2 ^ 32 = omega arith in
      let same : st.pos % 2 ^ 32 ≡ st.pos = omega (arith, fits, whole, r.0) in
      elim (Bool-cases st.new_frame) [
        | inl t ↦ rw t (
          (λ rest h. (
            (λ e. absurd (omega (arith, e))),
            subst (λ p. IsHonest src.contents (some p) rest)
                (sym ((pos-pos_header z_data (st.pos % 2 ^ 32) (omega arith) low).1 ∙ same)) h,
          )),
          (r.0, r.1, r.2, inr (refl, refl)),
          refl,
        )
        | inr f ↦ rw f (nil-Leads src.contents at, r, refl)
      ]

  send_chunk-IsGood :
      (now : ℕ) (at : Option ℕ) (st : Stream)
      → leb src.size st.pos ≡ false
      → IsReady src.contents at st
      → IsGood src.contents at (send_chunk o src now st)
  unfolding send_chunk
  send_chunk-IsGood now at st h r =
      let (l, r', e) = open_frames_lem at st r in
      put_before-IsGood src.contents at (line_open at st) (open_frames st) _ l
        (send_packet-IsGood now (line_open at st) (open_frame st) (ap (leb src.size) e ∙ h) r')

  main_step-IsGood :
      (now : ℕ) (xoff : Bool) (at : Option ℕ) (st : Stream)
      → IsReady src.contents at st
      → IsGood src.contents at (main_step o src now xoff st)
  unfolding main_step wait_ack
  main_step-IsGood now xoff at st r =
      let Good = IsGood src.contents at in
      let quiet = nil-Leads src.contents at in
      if_cases Good st.is_done _ _ (λ t. tt)
        (λ t.
          if_cases Good xoff _ _ (λ u. (at, quiet, (r.0, r.1, tt, r.3)))
            (λ u.
              if_cases Good (leb src.size st.pos) _ _ (λ v. send_eof-IsGood 0 at st r)
                (λ v.
                  if_cases Good (o.full_duplex && leb (st.acked + o.window) st.pos) _ _
                    (λ w. (at, quiet, (r.0, r.1, tt, r.3)))
                    (λ w. send_chunk-IsGood now at st v r))))

  eof_again-IsGood :
      (tries : ℕ) (at : Option ℕ) (st : Stream)
      → IsReady src.contents at st
      → IsGood src.contents at (eof_again src tries none st)
  unfolding eof_again eof_size
  eof_again-IsGood tries at st r =
      if_cases (IsGood src.contents at) (leb z_max_retries (tries + 1)) _ _
        (λ t. (at, nil-Leads src.contents at)) (λ f. send_eof-IsGood (tries + 1) at st r)

  eof_step-IsGood :
      (tries : ℕ) (e : Reverse) (at : Option ℕ) (st : Stream)
      → IsReady src.contents at st
      → IsGood src.contents at (eof_step src tries none e st)
  unfolding eof_step eof_size eof_again eof_answered
  eof_step-IsGood tries (got h rx_at) at st r =
      and_then-IsGood src.contents at _ _ (handle_reverse-IsGood src.contents _ h rx_at at st r)
        (λ at' st' r'.
          if_cases (IsGood src.contents at') (st'.is_done || not st'.eof_sent) _ _
            (λ t. (at', nil-Leads src.contents at', to_polls-IsReady src.contents at' st' r'))
            (λ f. (at', nil-Leads src.contents at', r')))
  eof_step-IsGood tries (lost e) at st r = (at, nil-Leads src.contents at)
  eof_step-IsGood tries nothing at st r = eof_again-IsGood tries at st r
  eof_step-IsGood tries damaged at st r = eof_again-IsGood tries at st r

  xon_rest :
      (at : Option ℕ) (st : Stream) (stay : Bool)
      → IsReady src.contents at st
      → IsGood src.contents at (sends [] (if stay then st else to_polls st))
  xon_rest at st true r = quiet-IsGood src.contents at st r
  xon_rest at st false r =
      quiet-IsGood src.contents at (to_polls st) (to_polls-IsReady src.contents at st r)

  wait_step-IsGood :
      (now : ℕ) (xoff : Bool) (w : Wait) (e : Reverse) (at : Option ℕ) (st : Stream)
      → IsUncut w
      → IsReady src.contents at st
      → IsGood src.contents at (wait_step o src now xoff w e st)
  unfolding wait_step poll_step xon_step ack_step
  wait_step-IsGood now xoff polls (got h rx_at) at st u r =
      handle_reverse-IsGood src.contents src h rx_at at st r
  wait_step-IsGood now xoff polls (lost e) at st u r = (at, nil-Leads src.contents at)
  wait_step-IsGood now xoff polls nothing at st u r = main_step-IsGood now xoff at st r
  wait_step-IsGood now xoff polls damaged at st u r = main_step-IsGood now xoff at st r
  wait_step-IsGood now xoff (for_xon deadline) (got h rx_at) at st u r =
      and_then-IsGood src.contents at _ _ (handle_reverse-IsGood src.contents src h rx_at at st r)
        (λ at' st' r'. xon_rest at' st' _ r')
  wait_step-IsGood now xoff (for_xon deadline) (lost e) at st u r = (at, nil-Leads src.contents at)
  wait_step-IsGood now xoff (for_xon deadline) nothing at st u r = xon_rest at st _ r
  wait_step-IsGood now xoff (for_xon deadline) damaged at st u r = xon_rest at st _ r
  wait_step-IsGood now xoff (for_ack poke acked p deadline) (got h rx_at) at st u r =
      and_then-IsGood src.contents at _ _ (handle_reverse-IsGood src.contents src h rx_at at st r)
        (λ at' st' r'.
          if_cases (IsGood src.contents at') (is_acked o h acked p st') _ _
            (λ t.
              quiet-IsGood src.contents at' (to_polls st')
                (to_polls-IsReady src.contents at' st' r'))
            (λ f. ack_again-IsGood src.contents now poke acked p deadline at' st' r'))
  wait_step-IsGood now xoff (for_ack poke acked p deadline) (lost e) at st u r =
      (at, nil-Leads src.contents at)
  wait_step-IsGood now xoff (for_ack poke acked p deadline) nothing at st u r =
      ack_silence-IsGood src.contents now poke acked p deadline at st r
  wait_step-IsGood now xoff (for_ack poke acked p deadline) damaged at st u r =
      ack_again-IsGood src.contents now poke acked p deadline at st r
  wait_step-IsGood now xoff (for_eof tries none) e at st u r = eof_step-IsGood tries e at st r
  wait_step-IsGood now xoff (for_eof tries (some x)) e at st u r = absurd cc

  refuse-IsGood :
      (x : Option LinkError) (at : Option ℕ) (st : Stream) (s : Sends)
      → IsGood src.contents at s
      → IsGood src.contents at (refuse x st s)
  unfolding refuse
  refuse-IsGood none at st s g = g
  refuse-IsGood (some x) at st (sends [] st') g = g
  refuse-IsGood (some x) at st (sends (f ∷ fs) st') g = (at, nil-Leads src.contents at)
  refuse-IsGood (some x) at st (stops [] e st') g = g
  refuse-IsGood (some x) at st (stops (f ∷ fs) e st') g = (at, nil-Leads src.contents at)
  refuse-IsGood (some x) at st (ends st') g = g

  pub stream_step-IsGood :
      (e : Event) (at : Option ℕ) (st : Stream)
      → IsReady src.contents at st
      → IsGood src.contents at (stream_step o src e st)
  unfolding stream_step
  stream_step-IsGood e at st r =
      refuse-IsGood e.refused at st _ (wait_step-IsGood e.now e.xoff st.wait e.reverse at st r.2 r)
