-- ===== src/Transfer/Stream.antt =====
-- The loop of `streamFile` of zmodem.go, one event at a time: the subpackets, and the waits for an
-- acknowledgement, for XON and for the answer to ZEOF.
use go_serial_cli.Common.{
  ℕ, ◌+◌, ◌-◌, ◌*◌, ◌/◌, ◌%◌, ◌^◌, Bool, true, false, not, ◌&&◌, ◌||◌, ◌==◌, ltb, leb,
  if◌then◌else◌, min, max, List, [], ◌∷◌, ◌++◌, Option, none, some, length, take, drop,
}
use go_serial_cli.Zmodem.Header.{
  Header, pos_header, z_ack, z_data, z_eof, z_crcw, z_crcq, z_crce, z_crcg,
}
use go_serial_cli.Zmodem.Link.{LinkError}
use go_serial_cli.Transfer.Frames.{z_max_retries, Frame, header, packet, ends_frame}
use go_serial_cli.Transfer.Send.{
  z_grow_after, z_ack_poke_wait, z_ack_pokes, Wait, polls, for_xon, for_ack, for_eof, Stream,
  Source, Settings, Reverse, got, nothing, damaged, lost, Event, SendError, link, no_ack,
  no_eof_ack, read_error, Sends, sends, stops, ends, close_frame, rewind, handle_reverse,
}

unfoldable pub put_before : List Frame → Sends → Sends
put_before fs (sends more st) = sends (fs ++ more) st
put_before fs (stops more e st) = stops (fs ++ more) e st
put_before fs (ends st) = ends st

-- What follows a call of handleReverse that gave no error.
unfoldable pub and_then : Sends → (Stream → Sends) → Sends
and_then (sends fs st) k = put_before fs (k st)
and_then (stops fs e st) k = stops fs e st
and_then (ends st) k = ends st

unfoldable pub open_frame : Stream → Stream
open_frame st =
    if st.new_frame
    then record st {
      new_frame = false;
      frame_open = true;
      frame_at = st.pos;
      frame_data = none;
      echoed = false;
      since_chk = 0;
    }
    else st

unfoldable pub open_frames : Stream → List Frame
open_frames st = if st.new_frame then header (pos_header z_data (st.pos % 2 ^ 32)) ∷ [] else []

-- How a subpacket of `n` bytes ends.
unfoldable pub packet_end : Settings → ℕ → ℕ → Stream → ℕ
packet_end o size n st =
    if not o.full_duplex
    then z_crcw
    else if leb size (st.pos + n)
    then z_crce
    else if leb (o.window / 4) (st.since_chk + n)
    then z_crcq
    else z_crcg

unfoldable pub grow : ℕ → Stream → Stream
grow most st =
    let run = st.good_run + 1 in
    let wider = min (st.block * 2) most in
    if leb z_grow_after run && ltb st.block most
    then record st { block = wider; good_run = 0; max_block = max st.max_block wider }
    else record st { good_run = run }

-- The state behind a subpacket.
unfoldable pub after_packet : Settings → ℕ → ℕ → ℕ → Stream → Stream
after_packet o now n end st =
    let grown = grow o.max_block st in
    record grown {
      pos = st.pos + n;
      since_chk = if end == z_crcq then 0 else st.since_chk + n;
      frame_data = elim st.frame_data [ none ↦ some now | some sent ↦ some sent ];
      new_frame = st.new_frame || ends_frame end;
      frame_open = st.frame_open && not (ends_frame end);
      wait =
          if end == z_crcw
          then for_ack 0 st.acked (st.pos + n) (now + z_ack_poke_wait * (z_ack_pokes + 2))
          else polls;
    }

unfoldable pub send_eof : ℕ → ℕ → Option ℕ → Stream → Sends
send_eof tries size cut st =
    sends (header (pos_header z_eof (size % 2 ^ 32)) ∷ [])
      (record st { eof_sent = true; wait = for_eof tries cut })

-- A file that cannot be read on ends where it is.
unfoldable pub cut_file : Stream → Sends
cut_file st =
    put_before (close_frame st) (send_eof 0 st.pos (some st.pos) (record st { frame_open = false }))

unfoldable pub send_packet : Settings → Source → ℕ → Stream → Sends
send_packet o src now st =
    let bytes = take (min st.block (src.size - st.pos)) (drop st.pos src.contents) in
    let end = packet_end o src.size (length bytes) st in
    if src.read_fails st.pos || length bytes == 0
    then cut_file st
    else sends (packet bytes end ∷ []) (after_packet o now (length bytes) end st)

unfoldable pub send_chunk : Settings → Source → ℕ → Stream → Sends
send_chunk o src now st = put_before (open_frames st) (send_packet o src now (open_frame st))

unfoldable pub wait_ack : ℕ → Stream → Stream
wait_ack now st = record st {
  window_blocks = st.window_blocks + 1;
  wait = for_ack 0 st.acked st.pos (now + z_ack_poke_wait * (z_ack_pokes + 2));
}

-- The loop's body behind the headers that were at hand.
unfoldable pub main_step : Settings → Source → ℕ → Bool → Stream → Sends
main_step o src now xoff st =
    if st.is_done
    then ends st
    else if xoff
    then sends [] (record st { wait = for_xon (now + o.xoff_wait) })
    else if leb src.size st.pos
    then send_eof 0 src.size none st
    else if o.full_duplex && leb (st.acked + o.window) st.pos
    then sends [] (wait_ack now st)
    else send_chunk o src now st

unfoldable pub poll_step : Settings → Source → ℕ → Bool → Reverse → Stream → Sends
poll_step o src now xoff (got h at) st = handle_reverse src h at st
poll_step o src now xoff (lost e) st = stops [] (link e) st
poll_step o src now xoff nothing st = main_step o src now xoff st
poll_step o src now xoff damaged st = main_step o src now xoff st

unfoldable pub to_polls : Stream → Stream
to_polls st = record st { wait = polls }

unfoldable pub xon_step : Source → ℕ → Bool → ℕ → Reverse → Stream → Sends
xon_step src now xoff deadline (got h at) st =
    and_then (handle_reverse src h at st)
      (λ st'. sends [] (if xoff && not st'.is_done then st' else to_polls st'))
xon_step src now xoff deadline (lost e) st = stops [] (link e) st
xon_step src now xoff deadline nothing st =
    sends [] (if xoff && ltb now deadline then st else to_polls st)
xon_step src now xoff deadline damaged st =
    sends [] (if xoff && ltb now deadline then st else to_polls st)

-- The next round of waitAck, unless its time is over.
unfoldable pub ack_again : ℕ → ℕ → ℕ → ℕ → ℕ → Stream → Sends
ack_again now poke acked at deadline st =
    if leb deadline now
    then stops [] no_ack st
    else sends [] (record st { wait = for_ack (poke + 1) acked at deadline })

unfoldable pub ack_silence : ℕ → ℕ → ℕ → ℕ → ℕ → Stream → Sends
ack_silence now poke acked at deadline st =
    if st.frame_open && st.echoed
    then sends (close_frame st) (to_polls (rewind st.frame_at st))
    else if leb z_ack_pokes poke
    then stops [] no_ack st
    else if st.frame_open
    then put_before (packet [] z_crcq ∷ []) (ack_again now poke acked at deadline st)
    else sends [] (record st { new_frame = true; wait = polls })

unfoldable pub is_acked : Settings → Header → ℕ → ℕ → Stream → Bool
is_acked o h acked at st =
    st.is_done
    || not (st.acked == acked)
    || not (st.pos == at)
    || (h.frame_type == z_ack && not o.full_duplex)

unfoldable pub ack_step : Settings → Source → ℕ → ℕ → ℕ → ℕ → ℕ → Reverse → Stream → Sends
ack_step o src now poke acked at deadline (got h rx_at) st =
    and_then (handle_reverse src h rx_at st) (λ st'.
      if is_acked o h acked at st'
      then sends [] (to_polls st')
      else ack_again now poke acked at deadline st')
ack_step o src now poke acked at deadline (lost e) st = stops [] (link e) st
ack_step o src now poke acked at deadline damaged st = ack_again now poke acked at deadline st
ack_step o src now poke acked at deadline nothing st = ack_silence now poke acked at deadline st

-- The size that ZEOF gives.
unfoldable pub eof_size : Source → Option ℕ → ℕ
eof_size src none = src.size
eof_size src (some size) = size

unfoldable pub eof_answered : Option ℕ → Stream → Sends
eof_answered none st = sends [] (to_polls st)
eof_answered (some size) st = stops [] read_error st

unfoldable pub eof_again : Source → ℕ → Option ℕ → Stream → Sends
eof_again src tries cut st =
    if leb z_max_retries (tries + 1)
    then stops [] no_eof_ack st
    else send_eof (tries + 1) (eof_size src cut) cut st

unfoldable pub eof_step : Source → ℕ → Option ℕ → Reverse → Stream → Sends
eof_step src tries cut (got h at) st =
    and_then (handle_reverse (record src { size = eof_size src cut }) h at st)
      (λ st'. if st'.is_done || not st'.eof_sent then eof_answered cut st' else sends [] st')
eof_step src tries cut (lost e) st = stops [] (link e) st
eof_step src tries cut nothing st = eof_again src tries cut st
eof_step src tries cut damaged st = eof_again src tries cut st

unfoldable pub wait_step : Settings → Source → ℕ → Bool → Wait → Reverse → Stream → Sends
wait_step o src now xoff polls r st = poll_step o src now xoff r st
wait_step o src now xoff (for_xon deadline) r st = xon_step src now xoff deadline r st
wait_step o src now xoff (for_ack poke acked at deadline) r st =
    ack_step o src now poke acked at deadline r st
wait_step o src now xoff (for_eof tries cut) r st = eof_step src tries cut r st

-- A write that fails ends the session with nothing of the step on the line.
unfoldable pub refuse : Option LinkError → Stream → Sends → Sends
refuse (some e) st (sends (f ∷ fs) st') = stops [] (link e) st
refuse (some e) st (stops (f ∷ fs) e' st') = stops [] (link e) st
refuse r st s = s

unfoldable pub stream_step : Settings → Source → Event → Stream → Sends
stream_step o src e st = refuse e.refused st (wait_step o src e.now e.xoff st.wait e.reverse st)

-- Go's (skipped, nil), (false, err), or a wait where the events end, with the frames on the line.
pub data Streamed : Type 0 where
  streamed : List Frame → Streamed
  stream_failed : List Frame → SendError → Streamed
  stream_waits : List Frame → Stream → Streamed

unfoldable pub behind_frames : List Frame → Streamed → Streamed
behind_frames fs (streamed more) = streamed (fs ++ more)
behind_frames fs (stream_failed more e) = stream_failed (fs ++ more) e
behind_frames fs (stream_waits more st) = stream_waits (fs ++ more) st

unfoldable pub stream_from : Settings → Source → List Event → Stream → Streamed
stream_from o src [] st = stream_waits [] st
stream_from o src (e ∷ events) st = elim (stream_step o src e st) [
  | sends fs st' ↦ behind_frames fs (stream_from o src events st')
  | stops fs x st' ↦ stream_failed fs x
  | ends st' ↦ streamed []
]

unfoldable pub start_stream : Settings → ℕ → Stream
start_stream o start = record {
  wait = polls;
  pos = start;
  acked = start;
  block = o.max_block;
  good_run = 0;
  since_chk = 0;
  new_frame = true;
  frame_at = 0;
  frame_data = none;
  echoed = false;
  last_rpos = start;
  same_rpos = 0;
  eof_sent = false;
  is_done = false;
  skipped = false;
  frame_open = false;
  retransmits = 0;
  window_blocks = 0;
  min_block = o.max_block;
  max_block = o.max_block;
}

unfoldable pub stream_file : Settings → Source → ℕ → List Event → Streamed
stream_file o src start events = stream_from o src events (start_stream o start)
