-- ===== src/Tests/Transfers.antt =====
-- Transfers of a small file, and the theorems on them at concrete inputs.
use go_serial_cli.Common.{
  ℕ, ◌≡◌, refl, Bool, true, false, Bytes, List, [], ◌∷◌, Option, none, replicate, arith,
}
use mathlib.Core.Path.{subst, sym}
use go_serial_cli.Zmodem.Header.{pos, pos_header, z_rpos, z_data, z_eof, z_crcg, z_crce}
use go_serial_cli.Zmodem.Link.{LinkError}
use go_serial_cli.Transfer.Frames.{
  Frame, header, packet, damaged_packet, silence, Arrived, ends_frame, next_offset, IsLine,
  IsHonest,
}
use go_serial_cli.Transfer.Receive.{Sent, Receiving, complete, receive_data}
use go_serial_cli.Transfer.ReceiveSafe.{frames_of}
use go_serial_cli.Transfer.ReceiveWhole.{IsSafe, IsReceived, receive_data-IsReceived}
use go_serial_cli.Transfer.Send.{
  handle_reverse, on_rpos, count_rpos, rpos_echo, rewind, count_retransmit, close_frame, Source,
  Settings, Event, got, nothing,
}
use go_serial_cli.Transfer.Stream.{
  stream_file, stream_from, stream_step, wait_step, poll_step, main_step, send_chunk, send_packet,
  after_packet, packet_end, grow, open_frame, open_frames, put_before, refuse, behind_frames,
  start_stream, send_eof, eof_step, eof_again, eof_size,
}
use go_serial_cli.Transfer.Delivery.{
  sent_frames, Delivers, line_over, intact, hurt, noise, lost, bad_packet, no_bytes,
  stream_file-IsHonest, receive_data-stream_file,
}
use go_serial_cli.Transfer.QuietSend.{stream_file-complete}

abbrev five_bytes : Bytes
five_bytes = 10 ∷ 20 ∷ 30 ∷ 40 ∷ 50 ∷ []

abbrev five_source : Source
five_source = record {
  contents = five_bytes;
  size = 5;
  read_fails = λ p. false;
  prefix_crc = λ size n. n;
}

abbrev small_blocks : Settings
small_blocks = record { full_duplex = true; window = 100; max_block = 2; xoff_wait = 60000 }

abbrev quiet : Event
quiet = record { now = 0; xoff = false; refused = none; reverse = nothing }

abbrev asks_again : ℕ → Event
asks_again p = record {
  now = 9;
  xoff = false;
  refused = none;
  reverse = got (pos_header z_rpos p) 9;
}

abbrev no_reply : List Sent → Option LinkError
no_reply out = none

abbrev has_room : ℕ → Bool
has_room p = false

abbrev arrive : List Frame → List Arrived
arrive [] = []
arrive (f ∷ fs) = record { at = 0; frame = f } ∷ arrive fs

frames_of-arrive : (fs : List Frame) → frames_of (arrive fs) ≡ fs
frames_of-arrive [] = refl
frames_of-arrive (f ∷ fs) = rw (frames_of-arrive fs) refl

-- A run that the receiver sets back once, behind the second subpacket.
abbrev set_back : List Event
set_back = quiet ∷ quiet ∷ asks_again 2 ∷ quiet ∷ quiet ∷ quiet ∷ []

abbrev sent_twice : List Frame
sent_twice =
    header (pos_header z_data 0)
    ∷ packet (10 ∷ 20 ∷ []) z_crcg
    ∷ packet (30 ∷ 40 ∷ []) z_crcg
    ∷ packet [] z_crce
    ∷ header (pos_header z_data 2)
    ∷ packet (30 ∷ 40 ∷ 50 ∷ []) z_crce
    ∷ header (pos_header z_eof 5)
    ∷ header (pos_header z_eof 5)
    ∷ []

set_back_frames : sent_frames (stream_file small_blocks five_source 0 set_back) ≡ sent_twice
unfolding sent_frames stream_file stream_from stream_step wait_step poll_step main_step send_chunk
    send_packet after_packet packet_end grow open_frame open_frames put_before refuse behind_frames
    start_stream send_eof handle_reverse on_rpos count_rpos rpos_echo rewind count_retransmit
    close_frame eof_step eof_again eof_size ends_frame pos pos_header
set_back_frames = refl

-- The second subpacket is damaged on its way, the empty one is lost, and there is a silence.
abbrev came_through : List Frame
came_through =
    header (pos_header z_data 0)
    ∷ packet (10 ∷ 20 ∷ []) z_crcg
    ∷ damaged_packet
    ∷ silence
    ∷ header (pos_header z_data 2)
    ∷ packet (30 ∷ 40 ∷ 50 ∷ []) z_crce
    ∷ header (pos_header z_eof 5)
    ∷ []

delivered : Delivers sent_twice came_through
delivered = intact _ _ _ (
    intact _ _ _ (
      hurt _ _ _ _ bad_packet (
        lost _ _ _ tt
          (noise _ _ _ no_bytes (intact _ _ _ (intact _ _ _ (intact _ _ _ (line_over _))))))))

receive_data-stream_file_example :
    IsSafe five_bytes 0 (receive_data no_reply has_room [] 0 0 (arrive came_through))
receive_data-stream_file_example =
    receive_data-stream_file small_blocks five_source refl (omega arith) (λ p. refl) 0 0 set_back 0
      (arrive came_through) no_reply has_room [] (omega arith) (omega arith) (omega arith)
      (subst (λ fs. Delivers fs came_through) (sym set_back_frames) delivered)

stream_file-IsHonest_example :
    IsHonest five_bytes none (sent_frames (stream_file small_blocks five_source 0 set_back))
stream_file-IsHonest_example =
    stream_file-IsHonest small_blocks five_source refl (omega arith) (λ p. refl) 0 set_back
      (omega arith) (omega arith)

-- What a sender whose file was cut short to two bytes writes.
abbrev cut_short : List Frame
cut_short =
    header (pos_header z_data 0) ∷ packet (10 ∷ 20 ∷ []) z_crce ∷ header (pos_header z_eof 2) ∷ []

cut_short-IsLine : IsLine (λ p. p ≡ 2) five_bytes none (frames_of (arrive cut_short))
unfolding pos pos_header next_offset ends_frame
cut_short-IsLine = (
  (λ e. absurd (omega (arith, e))),
  (record { inside = omega arith; same = refl }, ((λ e. refl), tt)),
)

receive_data-IsReceived_example :
    IsReceived (λ p. p ≡ 2) five_bytes 0 (receive_data no_reply has_room [] 0 0 (arrive cut_short))
receive_data-IsReceived_example =
    receive_data-IsReceived (λ p. p ≡ 2) five_bytes 0 no_reply has_room [] 0 (arrive cut_short)
      (omega arith) cut_short-IsLine

stream_file-complete_example :
    (s : Receiving) × (receive_data no_reply has_room [] 0 2
        (arrive (sent_frames (stream_file small_blocks five_source 2 (replicate 4 quiet))))
      ≡ complete s)
    × (s.written ≡ 30 ∷ 40 ∷ 50 ∷ [])
stream_file-complete_example =
    stream_file-complete small_blocks five_source refl refl (omega arith) (λ p. refl) 2
      (replicate 4 quiet) 0
      (arrive (sent_frames (stream_file small_blocks five_source 2 (replicate 4 quiet)))) no_reply
      has_room [] (omega arith) (omega arith) (omega arith)
      ((refl, refl, refl), ((refl, refl, refl), ((refl, refl, refl), ((refl, refl, refl), tt))))
      (omega arith) (λ out. refl) (λ p. refl)
      (frames_of-arrive (sent_frames (stream_file small_blocks five_source 2 (replicate 4 quiet))))
