-- ===== src/Transfer/ReceiveSafe.antt =====
-- What `receiveData` of zmodem.go writes to the file, frame by frame.
use go_serial_cli.Common.{
  ℕ, ◌+◌, ◌-◌, ◌≤◌, ◌≡◌, refl, sym, ap, ◌∙◌, Bool, false, not, ◌&&◌, ◌==◌, ltb, leb, if◌then◌else◌,
  if_cases, Bytes, List, [], ◌∷◌, ◌++◌, Option, none, some, length, drop, append_assoc, arith,
  Option-cases, inl, inr,
}
use mathlib.Core.Path.{subst}
use go_serial_cli.Zmodem.Header.{
  Header, pos, z_data, z_eof, z_file, z_abort, z_fin, z_sinit, z_crcw, z_crcq, z_crce,
}
use go_serial_cli.Zmodem.Link.{LinkError}
use go_serial_cli.Transfer.Frames.{
  z_max_retries, Frame, header, packet, damaged_header, damaged_packet, silence, broken, Arrived,
  is_fatal, ends_frame, next_offset, IsPiece, IsLine,
}
use go_serial_cli.Transfer.Receive.{
  Mode, at_header, in_frame, behind_offer, behind_sinit, Sent, Receiving, Progress, going, complete,
  ended, failed, send_header, ask_again, on_data, on_header, on_end, on_packet, on_damage,
  on_damaged_header, behind_offer_read, hunt, read_frame, receive_one,
}

abbrev pub frames_of : List Arrived → List Frame
frames_of [] = []
frames_of (a ∷ rest) = a.frame ∷ frames_of rest

module _ (ends : ℕ → Type 0) (file : Bytes) (start : ℕ) where
  -- What has been written is the file from the start to the offset.
  abbrev pub IsKept : Receiving → Type 0
  IsKept s = (s.rx ≤ length file) × (drop start file ≡ s.written ++ drop s.rx file)

  -- The frames to come hold the file's bytes, and an open frame goes on at the offset.
  abbrev pub Ready : Receiving → List Frame → Type 0
  Ready s frames =
      (at : Option ℕ) × (s.mode ≡ in_frame → at ≡ some s.rx) × IsLine ends file at frames

  abbrev pub IsGood : List Frame → Progress → Type 0
  IsGood frames (going s) = IsKept s × Ready s frames
  IsGood frames (complete s) = IsKept s × ends s.rx
  IsGood frames (ended s) = IsKept s
  IsGood frames (failed e s) = IsKept s

module _ (ends : ℕ → Type 0) (file : Bytes) (start : ℕ) (reply : List Sent → Option LinkError)
    (full : ℕ → Bool) where
  module _ (attn : Bytes) (frames : List Frame) where
    pub send_header-IsGood :
        (h : Header) (s : Receiving)
        → IsKept ends file start s
        → Ready ends file start s frames
        → IsGood ends file start frames (send_header reply full attn h s)
    unfolding send_header
    send_header-IsGood h s k r = elim (Option-cases (reply s.out)) [
      | inl e ↦ rw (e, send_header) (k, r)
      | inr (x, e) ↦ rw (e, send_header) k
    ]

    ask_again-IsGood :
        (now : ℕ) (s : Receiving) (at : Option ℕ)
        → IsKept ends file start s
        → IsLine ends file at frames
        → IsGood ends file start frames (ask_again reply full attn now s)
    unfolding ask_again
    ask_again-IsGood now s at k r =
        if_cases (IsGood ends file start frames) (ltb z_max_retries (s.retries + 1)) _ _ (λ t. k)
          (λ f. send_header-IsGood _ _ k (at, (λ e. cc), r))

    on_header-IsGood :
        (now : ℕ) (h : Header) (s : Receiving)
        → s.mode ≡ at_header
        → IsKept ends file start s
        → (h.frame_type ≡ z_eof → ends (pos h))
        → IsLine ends file (if h.frame_type == z_data then some (pos h) else none) frames
        → IsGood ends file start frames (on_header reply full attn now h s)
    unfolding on_header on_data
    on_header-IsGood now h s m k eof r =
        let Good = IsGood ends file start frames in
        let stays : Ready ends file start s frames = (_, (λ e. cc), r) in
        if_cases Good (h.frame_type == z_data) _ _
          (λ t.
            if_cases Good (pos h == s.rx) _ _
              (λ u. (
                k,
                ((if h.frame_type == z_data then some (pos h) else none), (λ e. ground arith), r),
              ))
              (λ u.
                if_cases Good s.rpos_out _ _ (λ v. (k, stays)) (λ v. ask_again-IsGood now s _ k r)))
          (λ t.
            if_cases Good (h.frame_type == z_eof) _ _
              (λ u.
                if_cases Good (pos h == s.rx) _ _
                  (λ v. (k, subst ends (ground (arith, v)) (eof (ground (arith, u)))))
                  (λ v. (k, stays)))
              (λ u.
                if_cases Good (h.frame_type == z_file) _ _ (λ v. (k, (_, (λ e. cc), r)))
                  (λ v.
                    if_cases Good (h.frame_type == z_abort) _ _ (λ w. k)
                      (λ w.
                        if_cases Good (h.frame_type == z_fin) _ _ (λ x. k)
                          (λ x.
                            if_cases Good (h.frame_type == z_sinit) _ _
                              (λ y. (k, (_, (λ e. cc), r))) (λ y. (k, stays)))))))

    on_end-IsGood :
        (end : ℕ) (s : Receiving) (at : Option ℕ)
        → IsKept ends file start s
        → IsLine ends file at frames
        → (ends_frame end ≡ false → at ≡ some s.rx)
        → IsGood ends file start frames (on_end reply full attn end s)
    unfolding on_end ends_frame
    on_end-IsGood end s at k r open_frame =
        let Good = IsGood ends file start frames in
        if_cases Good (end == z_crcw) _ _ (λ t. send_header-IsGood _ _ k (at, (λ e. cc), r))
          (λ t.
            if_cases Good (end == z_crcq) _ _
              (λ u. send_header-IsGood _ _ k (at, (λ e. open_frame (ground arith)), r))
              (λ u.
                if_cases Good (end == z_crce) _ _ (λ v. (k, (at, (λ e. cc), r)))
                  (λ v. (k, (at, (λ e. open_frame (ground arith)), r)))))

    next_offset_open :
        (p : ℕ) (bytes : Bytes) (end : ℕ)
        → ends_frame end ≡ false
        → next_offset p bytes end ≡ some (p + length bytes)
    unfolding next_offset
    next_offset_open p bytes end h = rw h refl

    on_packet-IsGood :
        (bytes : Bytes) (end : ℕ) (s : Receiving)
        → IsKept ends file start s
        → IsPiece file s.rx bytes
        → IsLine ends file (next_offset s.rx bytes end) frames
        → IsGood ends file start frames (on_packet reply full attn bytes end s)
    unfolding on_packet
    on_packet-IsGood bytes end s k piece r =
        let Good = IsGood ends file start frames in
        if_cases Good (length bytes == 0) _ _
          (λ t. on_end-IsGood end s (next_offset s.rx bytes end) k r (λ e.
            let same : s.rx + length bytes ≡ s.rx = ground arith in
            next_offset_open s.rx bytes end e ∙ ap some same))
          (λ t.
            if_cases Good (full s.rx) _ _ (λ u. k)
              (λ u.
                on_end-IsGood end _ (next_offset s.rx bytes end)
                  (
                    piece.inside,
                    k.1
                        ∙ ap (◌++◌ s.written) piece.same
                        ∙ sym (append_assoc s.written bytes (drop (s.rx + length bytes) file)),
                  )
                  r (λ e. next_offset_open s.rx bytes end e)))

    on_damage-IsGood :
        (now : ℕ) (s : Receiving) (at : Option ℕ)
        → IsKept ends file start s
        → IsLine ends file at frames
        → IsGood ends file start frames (on_damage reply full attn now s)
    unfolding on_damage
    on_damage-IsGood now s at k r = ask_again-IsGood now _ at k r

  module _ (attn : Bytes) (frames : List Frame) (now : ℕ) where
    hunt-IsGood :
        (f : Frame) (s : Receiving) (at : Option ℕ)
        → s.mode ≡ at_header
        → IsKept ends file start s
        → IsLine ends file at (f ∷ frames)
        → IsGood ends file start frames (hunt reply full attn now f s)
    unfolding hunt on_damaged_header
    hunt-IsGood (header h) s at m k r = on_header-IsGood attn frames now h s m k r.0 r.1
    hunt-IsGood (packet bytes end) s (some p) m k r = (k, (_, (λ e. cc), r.1))
    hunt-IsGood (packet bytes end) s none m k r = (k, (none, (λ e. cc), r))
    hunt-IsGood damaged_packet s at m k r = (k, (none, (λ e. cc), r))
    hunt-IsGood damaged_header s at m k r =
        if_cases (IsGood ends file start frames) s.rpos_out _ _ (λ t. (k, (none, (λ e. cc), r)))
          (λ t. ask_again-IsGood attn frames now _ none k r)
    hunt-IsGood silence s at m k r = ask_again-IsGood attn frames now s none k r
    hunt-IsGood (broken e) s at m k r = k

    read_frame-IsGood :
        (f : Frame) (s : Receiving)
        → IsKept ends file start s
        → IsLine ends file (some s.rx) (f ∷ frames)
        → IsGood ends file start frames (read_frame reply full attn now f s)
    unfolding read_frame
    read_frame-IsGood (packet bytes end) s k r = on_packet-IsGood attn frames bytes end s k r.0 r.1
    read_frame-IsGood (broken e) s k r =
        if_cases (IsGood ends file start frames) (is_fatal e) _ _ (λ t. k)
          (λ t. on_damage-IsGood attn frames now s none k r)
    read_frame-IsGood (header h) s k r = on_damage-IsGood attn frames now s _ k r.1
    read_frame-IsGood damaged_header s k r = on_damage-IsGood attn frames now s none k r
    read_frame-IsGood damaged_packet s k r = on_damage-IsGood attn frames now s none k r
    read_frame-IsGood silence s k r = on_damage-IsGood attn frames now s none k r

    -- A frame that is read past leaves such a line.
    IsLine-tail :
        (f : Frame) (at : Option ℕ)
        → IsLine ends file at (f ∷ frames)
        → (next : Option ℕ) × IsLine ends file next frames
    IsLine-tail (header h) at r = (_, r.1)
    IsLine-tail (packet bytes end) (some p) r = (_, r.1)
    IsLine-tail (packet bytes end) none r = (none, r)
    IsLine-tail damaged_header at r = (none, r)
    IsLine-tail damaged_packet at r = (none, r)
    IsLine-tail silence at r = (none, r)
    IsLine-tail (broken e) at r = (none, r)

    pub receive_one-IsGood :
        (m : Mode) (f : Frame) (s : Receiving) (at : Option ℕ)
        → s.mode ≡ m
        → (s.mode ≡ in_frame → at ≡ some s.rx)
        → IsKept ends file start s
        → IsLine ends file at (f ∷ frames)
        → IsGood ends file start frames (receive_one reply full attn m now f s)
    unfolding receive_one behind_offer_read
    receive_one-IsGood at_header f s at m open_frame k r = hunt-IsGood f s at m k r
    receive_one-IsGood in_frame f s at m open_frame k r =
        read_frame-IsGood f s k (subst (λ p. IsLine ends file p (f ∷ frames)) (open_frame m) r)
    receive_one-IsGood behind_offer f s at m open_frame k r =
        let next = IsLine-tail f at r in
        if_cases (IsGood ends file start frames) (not s.got_data && leb 2000 (now - s.last_rpos)) _
          _ (λ t. ask_again-IsGood attn frames now _ next.0 k next.1)
          (λ t. (k, (next.0, (λ e. cc), next.1)))
    receive_one-IsGood behind_sinit f s at m open_frame k r =
        let next = IsLine-tail f at r in
        send_header-IsGood attn frames _ _ k (next.0, (λ e. cc), next.1)
