-- ===== src/Transfer/Delivery.antt =====
-- Both sides of one file of a session: `streamFile` and `receiveData` of zmodem.go with a line between
-- them that damages, delays and cuts off what is sent.
use go_serial_cli.Common.{
  ℕ, ◌^◌, ◌≤◌, ◌<◌, ◌≡◌, refl, sym, Bool, false, Bytes, List, [], ◌∷◌, ◌++◌, Option, none, some,
  length, arith, inl, append-nil,
}
use mathlib.Core.Path.{subst}
use go_serial_cli.Zmodem.Link.{LinkError}
use go_serial_cli.Transfer.Frames.{
  Frame, header, packet, damaged_header, damaged_packet, silence, broken, Arrived, next_offset,
  IsHonest,
}
use go_serial_cli.Transfer.Receive.{Sent, receive_data}
use go_serial_cli.Transfer.ReceiveSafe.{frames_of}
use go_serial_cli.Transfer.ReceiveWhole.{IsSafe, receive_data-IsSafe}
use go_serial_cli.Transfer.Send.{Stream, Source, Settings, Event, Sends, sends, stops, ends}
use go_serial_cli.Transfer.Stream.{
  stream_step, Streamed, streamed, stream_failed, stream_waits, behind_frames, stream_from,
  start_stream, stream_file,
}
use go_serial_cli.Transfer.SendReady.{IsGood}
use go_serial_cli.Transfer.SendHonest.{stream_step-IsGood}

-- What the sender wrote, however its run ended.
unfoldable pub sent_frames : Streamed → List Frame
sent_frames (streamed fs) = fs
sent_frames (stream_failed fs e) = fs
sent_frames (stream_waits fs st) = fs

-- What a read meets where there is no frame.
pub data IsNoise : Frame → Type 0 where
  bad_header : IsNoise damaged_header
  bad_packet : IsNoise damaged_packet
  no_bytes : IsNoise silence
  no_link : (e : LinkError) → IsNoise (broken e)

-- The next that is met, if anything, is a header or noise.
abbrev pub StartsFresh : List Frame → Type 0
StartsFresh [] = Unit
StartsFresh (header h ∷ fs) = Unit
StartsFresh (packet bytes end ∷ fs) = ⊥
StartsFresh (damaged_header ∷ fs) = Unit
StartsFresh (damaged_packet ∷ fs) = Unit
StartsFresh (silence ∷ fs) = Unit
StartsFresh (broken e ∷ fs) = Unit

-- A frame comes through whole or is met as noise, noise can come at any time, frames can be lost without
-- a trace if no subpacket is met next, and the line can end.
pub data Delivers : List Frame → List Frame → Type 0 where
  line_over : (fs : List Frame) → Delivers fs []
  intact : (f : Frame) (fs gs : List Frame) → Delivers fs gs → Delivers (f ∷ fs) (f ∷ gs)
  hurt :
      (f g : Frame) (fs gs : List Frame) → IsNoise g → Delivers fs gs → Delivers (f ∷ fs) (g ∷ gs)
  noise : (g : Frame) (fs gs : List Frame) → IsNoise g → Delivers fs gs → Delivers fs (g ∷ gs)
  lost : (f : Frame) (fs gs : List Frame) → StartsFresh gs → Delivers fs gs → Delivers (f ∷ fs) gs

module _ (file : Bytes) where
  -- A line is honest still where the receiver has lost its place in it.
  IsHonest-forget : (at : Option ℕ) (fs : List Frame) → IsHonest file at fs → IsHonest file none fs
  IsHonest-forget at [] h = h
  IsHonest-forget at (header x ∷ fs) h = h
  IsHonest-forget none (packet b end ∷ fs) h = h
  IsHonest-forget (some p) (packet b end ∷ fs) (piece, h) =
      IsHonest-forget (next_offset p b end) fs h
  IsHonest-forget at (damaged_header ∷ fs) h = h
  IsHonest-forget at (damaged_packet ∷ fs) h = h
  IsHonest-forget at (silence ∷ fs) h = h
  IsHonest-forget at (broken e ∷ fs) h = h

  noise-IsHonest :
      (at : Option ℕ) (g : Frame) (gs : List Frame)
      → IsNoise g
      → IsHonest file none gs
      → IsHonest file at (g ∷ gs)
  noise-IsHonest at g gs bad_header h = h
  noise-IsHonest at g gs bad_packet h = h
  noise-IsHonest at g gs no_bytes h = h
  noise-IsHonest at g gs (no_link e) h = h

  -- The rest of an honest line, where its first frame is lost.
  IsHonest-rest :
      (at : Option ℕ) (f : Frame) (fs : List Frame)
      → IsHonest file at (f ∷ fs)
      → IsHonest file none fs
  IsHonest-rest at (header x) fs h = IsHonest-forget _ fs h.1
  IsHonest-rest none (packet b end) fs h = h
  IsHonest-rest (some p) (packet b end) fs h = IsHonest-forget _ fs h.1
  IsHonest-rest at damaged_header fs h = h
  IsHonest-rest at damaged_packet fs h = h
  IsHonest-rest at silence fs h = h
  IsHonest-rest at (broken e) fs h = h

  -- A line that starts afresh is honest wherever the frame before it stood.
  StartsFresh-IsHonest :
      (at : Option ℕ) (gs : List Frame)
      → StartsFresh gs
      → IsHonest file none gs
      → IsHonest file at gs
  StartsFresh-IsHonest at [] s h = tt
  StartsFresh-IsHonest at (header x ∷ gs) s h = h
  StartsFresh-IsHonest at (packet bytes end ∷ gs) s h = absurd s
  StartsFresh-IsHonest at (damaged_header ∷ gs) s h = h
  StartsFresh-IsHonest at (damaged_packet ∷ gs) s h = h
  StartsFresh-IsHonest at (silence ∷ gs) s h = h
  StartsFresh-IsHonest at (broken e ∷ gs) s h = h

  pub Delivers-IsHonest :
      (at : Option ℕ) (fs gs : List Frame)
      → Delivers fs gs
      → IsHonest file at fs
      → IsHonest file at gs
  Delivers-IsHonest at fs gs (line_over fs') h = tt
  Delivers-IsHonest at fs gs (hurt f g fs' gs' n d) h =
      noise-IsHonest at g gs' n (Delivers-IsHonest none fs' gs' d (IsHonest-rest at f fs' h))
  Delivers-IsHonest at fs gs (noise g fs' gs' n d) h =
      noise-IsHonest at g gs' n (Delivers-IsHonest none fs' gs' d (IsHonest-forget at fs' h))
  Delivers-IsHonest at fs gs (lost f fs' gs' s d) h =
      StartsFresh-IsHonest at gs s (Delivers-IsHonest none fs' gs' d (IsHonest-rest at f fs' h))
  Delivers-IsHonest at fs gs (intact (header x) fs' gs' d) h =
      (h.0, Delivers-IsHonest _ fs' gs' d h.1)
  Delivers-IsHonest none fs gs (intact (packet b end) fs' gs' d) h =
      Delivers-IsHonest none fs' gs' d h
  Delivers-IsHonest (some p) fs gs (intact (packet b end) fs' gs' d) h =
      (h.0, Delivers-IsHonest _ fs' gs' d h.1)
  Delivers-IsHonest at fs gs (intact damaged_header fs' gs' d) h =
      Delivers-IsHonest none fs' gs' d h
  Delivers-IsHonest at fs gs (intact damaged_packet fs' gs' d) h =
      Delivers-IsHonest none fs' gs' d h
  Delivers-IsHonest at fs gs (intact silence fs' gs' d) h = Delivers-IsHonest none fs' gs' d h
  Delivers-IsHonest at fs gs (intact (broken e) fs' gs' d) h = Delivers-IsHonest none fs' gs' d h

module _ (o : Settings) (src : Source) where
  -- The loop behind one step.
  unfoldable pub go_on : List Event → Sends → Streamed
  go_on events (sends fs st) = behind_frames fs (stream_from o src events st)
  go_on events (stops fs e st) = stream_failed fs e
  go_on events (ends st) = streamed []

  pub stream_from_step :
      (e : Event) (events : List Event) (st : Stream)
      → stream_from o src (e ∷ events) st ≡ go_on events (stream_step o src e st)
  unfolding stream_from go_on
  stream_from_step e events st = ground arith

  pub sent_frames-behind_frames :
      (fs : List Frame) (s : Streamed) → sent_frames (behind_frames fs s) ≡ fs ++ sent_frames s
  unfolding sent_frames behind_frames
  sent_frames-behind_frames fs (streamed more) = refl
  sent_frames-behind_frames fs (stream_failed more e) = refl
  sent_frames-behind_frames fs (stream_waits more st) = refl

  pub behind_frames_nil : (s : Streamed) → behind_frames [] s ≡ s
  unfolding behind_frames
  behind_frames_nil (streamed more) = refl
  behind_frames_nil (stream_failed more e) = refl
  behind_frames_nil (stream_waits more st) = refl

module _ (o : Settings) (src : Source) (whole : src.size ≡ length src.contents)
    (fits : src.size < 2 ^ 32) (reads : (p : ℕ) → src.read_fails p ≡ false) where
  go_on-IsHonest :
      (events : List Event) (at : Option ℕ) (s : Sends)
      → IsGood src.contents at s
      → IsHonest src.contents at (sent_frames (go_on o src events s))
  unfolding stream_from sent_frames go_on behind_frames
  go_on-IsHonest [] at (sends fs st) (at', l, r) = l [] tt
  go_on-IsHonest (e ∷ events) at (sends fs st) (at', l, r) =
      rw
        (
          sent_frames-behind_frames o src fs (stream_from o src (e ∷ events) st),
          stream_from_step o src e events st,
        )
        (l _ (go_on-IsHonest events at' _ (stream_step-IsGood src o whole fits reads e at' st r)))
  go_on-IsHonest events at (stops fs e st) (at', l) =
      subst (IsHonest src.contents at) (append-nil fs) (l [] tt)
  go_on-IsHonest events at (ends st) g = tt

  pub stream_file_start :
      (start : ℕ) (events : List Event)
      → stream_file o src start events ≡ go_on o src events (sends [] (start_stream o start))
  unfolding stream_file go_on behind_frames
  stream_file_start start events =
      sym (behind_frames_nil o src (stream_from o src events (start_stream o start)))

  -- Whatever the receiver answers and whenever, with its requests to go back, its silences and its
  -- acknowledgements, what streamFile writes of a file below 4 GiB that can be read is an honest line: a
  -- subpacket behind a data header holds the file's bytes at the offset of its frame, also where the
  -- subpackets shrink and grow, and a ZEOF gives the file's length.
  pub stream_file-IsHonest :
      (start : ℕ) (events : List Event)
      → start ≤ src.size
      → 0 < o.max_block
      → IsHonest src.contents none (sent_frames (stream_file o src start events))
  unfolding start_stream
  stream_file-IsHonest start events h b = rw (stream_file_start start events) (
      go_on-IsHonest events none (sends [] (start_stream o start))
        (none, (λ rest r. r), (omega (arith, h, whole), b, tt, inl refl)))

  -- A receiver that is given the frames of such a sender over a line that can end, fail and delay, that
  -- turns any of the frames into noise, adds noise, and loses any run of frames without a trace, if what
  -- comes next behind the run is a header or noise and no intact subpacket, writes the file's bytes
  -- from its own start on and nothing else, and completes the file only with all of its bytes. The
  -- file is below 4 GiB and can be read, both start inside it, and subpackets are not empty.
  pub receive_data-stream_file :
      (sender_start start : ℕ) (events : List Event) (now : ℕ) (arrived : List Arrived)
      (reply : List Sent → Option LinkError) (full : ℕ → Bool) (attn : Bytes)
      → sender_start ≤ src.size
      → start ≤ src.size
      → 0 < o.max_block
      → Delivers (sent_frames (stream_file o src sender_start events)) (frames_of arrived)
      → IsSafe src.contents start (receive_data reply full attn now start arrived)
  receive_data-stream_file sender_start start events now arrived reply full attn hs h b d =
      receive_data-IsSafe src.contents start reply full attn now arrived (omega (arith, h, whole))
        (Delivers-IsHonest src.contents none _ _ d (stream_file-IsHonest sender_start events hs b))
