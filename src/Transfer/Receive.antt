-- ===== src/Transfer/Receive.antt =====
-- `receiveData` of zmodem.go: the loop over the headers, and in it the loop over the subpackets of a
-- frame. `Mode` tells which call the loop is at. The bytes of a subpacket that no call asked for are
-- passed over by the search for a header, and a header inside a frame is a damaged subpacket.
use go_serial_cli.Common.{
  ℕ, ◌+◌, ◌-◌, ◌%◌, ◌^◌, Bool, true, false, not, ◌&&◌, ◌||◌, ◌==◌, ltb, leb, if◌then◌else◌, Bytes,
  List, [], ◌∷◌, ◌++◌, Option, none, some, length,
}
use go_serial_cli.Zmodem.Header.{
  Header, pos, pos_header, z_ack, z_rpos, z_data, z_eof, z_file, z_abort, z_fin, z_sinit, z_crcw,
  z_crcq, z_crce, z_bin32,
}
use go_serial_cli.Zmodem.Link.{LinkError}
use go_serial_cli.Transfer.Frames.{
  z_max_retries, Frame, header, packet, damaged_header, damaged_packet, silence, broken, Arrived,
  is_fatal,
}

abbrev pub z_repeat_gap : ℕ
z_repeat_gap = 2000

-- readHeader; readSubpacket of a frame; readSubpacket behind ZFILE or ZSINIT.
pub data Mode : Type 0 where
  at_header in_frame behind_offer behind_sinit : Mode

-- What is written to the line: a hex header, or a byte of the attention string.
pub data Sent : Type 0 where
  hex : Header → Sent
  byte : ℕ → Sent

pub record Receiving : Type 0 where
  pub mode : Mode
  pub rx : ℕ
  pub retries : ℕ
  pub rpos_out : Bool
  pub got_data : Bool
  pub last_rpos : ℕ
  pub crc32_mode : Bool
  pub crc_errors : ℕ
  pub retransmits : ℕ
  pub written : Bytes
  pub out : List Sent

pub data ReceiveError : Type 0 where
  link : LinkError → ReceiveError
  gave_up write_error peer_aborted : ReceiveError

-- Go's (rx, false, nil), (rx, true, nil) and (rx, false, err), or the loop's next round.
pub data Progress : Type 0 where
  going complete ended : Receiving → Progress
  failed : ReceiveError → Receiving → Progress

-- `sendAttn` writes the bytes of the attention string but the two that stand for a break and a pause.
unfoldable pub attn_bytes : Bytes → List Sent
attn_bytes [] = []
attn_bytes (b ∷ bs) = if b == 0xdd || b == 0xde then attn_bytes bs else byte b ∷ attn_bytes bs

-- `reply` is the link's answer to a header, by what was written before it, `full` tells that the file
-- takes no more at an offset, and `attn` is the sender's attention string.
module _ (reply : List Sent → Option LinkError) (full : ℕ → Bool) (attn : Bytes) where
  unfoldable pub send_header : Header → Receiving → Progress
  send_header h s = elim (reply s.out) [
    | none ↦ going (record s { out = s.out ++ (hex h ∷ []) })
    | some e ↦ failed (link e) s
  ]

  -- The closure `rpos`; the loop goes on to the next header.
  unfoldable pub ask_again : ℕ → Receiving → Progress
  ask_again now s =
      if ltb z_max_retries (s.retries + 1)
      then failed gave_up (record s { retries = s.retries + 1 })
      else send_header (pos_header z_rpos (s.rx % 2 ^ 32)) (record s {
        retries = s.retries + 1;
        rpos_out = true;
        last_rpos = now;
        out = s.out ++ attn_bytes attn;
        mode = at_header;
      })

  unfoldable pub on_data : ℕ → Header → Receiving → Progress
  on_data now h s =
      if pos h == s.rx
      then going (record s {
        rpos_out = false;
        got_data = true;
        crc32_mode = h.format == z_bin32;
        mode = in_frame;
      })
      else if s.rpos_out
      then going s
      else ask_again now s

  -- The switch on the header's type.
  unfoldable pub on_header : ℕ → Header → Receiving → Progress
  on_header now h s =
      if h.frame_type == z_data
      then on_data now h s
      else if h.frame_type == z_eof
      then (if pos h == s.rx then complete s else going s)
      else if h.frame_type == z_file
      then going (record s { mode = behind_offer })
      else if h.frame_type == z_abort
      then failed peer_aborted (record s { out = s.out ++ (hex (pos_header z_fin 0) ∷ []) })
      else if h.frame_type == z_fin
      then ended s
      else if h.frame_type == z_sinit
      then going (record s { mode = behind_sinit })
      else going s

  -- The switch on the end of a subpacket.
  unfoldable pub on_end : ℕ → Receiving → Progress
  on_end end s =
      if end == z_crcw
      then send_header (pos_header z_ack (s.rx % 2 ^ 32)) (record s { mode = at_header })
      else if end == z_crcq
      then send_header (pos_header z_ack (s.rx % 2 ^ 32)) s
      else if end == z_crce
      then going (record s { mode = at_header })
      else going s

  unfoldable pub on_packet : Bytes → ℕ → Receiving → Progress
  on_packet bytes end s =
      if length bytes == 0
      then on_end end s
      else if full s.rx
      then failed write_error s
      else on_end end
          (record s { rx = s.rx + length bytes; retries = 0; written = s.written ++ bytes })

  -- Any other result of readSubpacket in a frame.
  unfoldable pub on_damage : ℕ → Receiving → Progress
  on_damage now s =
      ask_again now (record s { crc_errors = s.crc_errors + 1; retransmits = s.retransmits + 1 })

  unfoldable pub on_damaged_header : ℕ → Receiving → Progress
  on_damaged_header now s =
      let s' = record s { crc_errors = s.crc_errors + 1 } in
      if s.rpos_out then going s' else ask_again now s'

  unfoldable pub behind_offer_read : ℕ → Receiving → Progress
  behind_offer_read now s =
      let s' = record s { mode = at_header } in
      if not s.got_data && leb z_repeat_gap (now - s.last_rpos) then ask_again now s' else going s'

  unfoldable pub hunt : ℕ → Frame → Receiving → Progress
  hunt now (header h) s = on_header now h s
  hunt now (packet bytes end) s = going s
  hunt now damaged_packet s = going s
  hunt now damaged_header s = on_damaged_header now s
  hunt now silence s = ask_again now s
  hunt now (broken e) s = failed (link e) s

  unfoldable pub read_frame : ℕ → Frame → Receiving → Progress
  read_frame now (packet bytes end) s = on_packet bytes end s
  read_frame now (broken e) s = if is_fatal e then failed (link e) s else on_damage now s
  read_frame now (header h) s = on_damage now s
  read_frame now damaged_header s = on_damage now s
  read_frame now damaged_packet s = on_damage now s
  read_frame now silence s = on_damage now s

  unfoldable pub receive_one : Mode → ℕ → Frame → Receiving → Progress
  receive_one at_header now f s = hunt now f s
  receive_one in_frame now f s = read_frame now f s
  receive_one behind_offer now f s = behind_offer_read now s
  receive_one behind_sinit now f s =
      send_header (pos_header z_ack 1) (record s { mode = at_header })

  -- The loop; it waits where the frames end.
  unfoldable pub receive_from : List Arrived → Receiving → Progress
  receive_from [] s = going s
  receive_from (a ∷ rest) s = elim (receive_one s.mode a.at a.frame s) [
    | going s' ↦ receive_from rest s'
    | complete s' ↦ complete s'
    | ended s' ↦ ended s'
    | failed e s' ↦ failed e s'
  ]

  unfoldable pub start_receiving : ℕ → ℕ → Receiving
  start_receiving now start = record {
    mode = at_header;
    rx = start;
    retries = 0;
    rpos_out = true;
    got_data = false;
    last_rpos = now;
    crc32_mode = false;
    crc_errors = 0;
    retransmits = 0;
    written = [];
    out = [];
  }

  -- Behind the offers that were dropped: the first ZRPOS, and the loop.
  unfoldable pub receive_data : ℕ → ℕ → List Arrived → Progress
  receive_data now start frames =
      elim (send_header (pos_header z_rpos (start % 2 ^ 32)) (start_receiving now start)) [
        | going s ↦ receive_from frames s
        | complete s ↦ complete s
        | ended s ↦ ended s
        | failed e s ↦ failed e s
      ]
