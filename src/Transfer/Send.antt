-- ===== src/Transfer/Send.antt =====
-- `streamFile` of zmodem.go and what it calls: handleReverse, rposEcho, rewind, waitXon, waitAck,
-- sendEOF and cutFile. `Mode` tells which wait the sender is in, and one event is what the call there
-- returned. A write that fails ends the session.
use go_serial_cli.Common.{
  ℕ, ◌+◌, ◌/◌, Bool, true, false, ◌&&◌, ◌||◌, ◌==◌, ltb, leb, if◌then◌else◌, min, max, Bytes, List,
  [], ◌∷◌, Option, none, some,
}
use go_serial_cli.Zmodem.Header.{
  Header, pos, pos_header, z_ack, z_rpos, z_skip, z_rinit, z_crc, z_challenge, z_fin, z_abort,
  z_ferr, z_crce,
}
use go_serial_cli.Zmodem.Link.{LinkError}
use go_serial_cli.Transfer.Frames.{z_max_retries, Frame, header, packet}

abbrev pub z_min_subpacket : ℕ
z_min_subpacket = 32

abbrev pub z_grow_after : ℕ
z_grow_after = 16

abbrev pub z_ack_poke_wait : ℕ
z_ack_poke_wait = 3000

abbrev pub z_ack_pokes : ℕ
z_ack_pokes = 4

abbrev pub z_rpos_echo : ℕ
z_rpos_echo = 2

-- pollHeader between subpackets, the waits, sendEOF with the tries that are over, and the size of
-- the file that cutFile made shorter.
pub data Wait : Type 0 where
  polls : Wait
  for_xon : ℕ → Wait
  for_ack : ℕ → ℕ → ℕ → ℕ → Wait
  for_eof : ℕ → Option ℕ → Wait

-- zStream and what it changes in the file's result.
pub record Stream : Type 0 where
  pub wait : Wait
  pub pos : ℕ
  pub acked : ℕ
  pub block : ℕ
  pub good_run : ℕ
  pub since_chk : ℕ
  pub new_frame : Bool
  pub frame_at : ℕ
  pub frame_data : Option ℕ
  pub echoed : Bool
  pub last_rpos : ℕ
  pub same_rpos : ℕ
  pub eof_sent : Bool
  pub is_done : Bool
  pub skipped : Bool
  pub frame_open : Bool
  pub retransmits : ℕ
  pub window_blocks : ℕ
  pub min_block : ℕ
  pub max_block : ℕ

-- What the session and the file give: the bytes that can be read, the size the file had when it was
-- opened, where reading fails, and the CRC of a prefix of a file of a size. hash/crc32 is a parameter.
pub record Source : Type 0 where
  pub contents : Bytes
  pub size : ℕ
  pub read_fails : ℕ → Bool
  pub prefix_crc : ℕ → ℕ → ℕ

pub record Settings : Type 0 where
  pub full_duplex : Bool
  pub window : ℕ
  pub max_block : ℕ
  pub xoff_wait : ℕ

-- What a call of the link returned: a header and when it came in, nothing, or an error.
pub data Reverse : Type 0 where
  got : Header → ℕ → Reverse
  nothing damaged : Reverse
  lost : LinkError → Reverse

-- With the time, whether the receiver holds the sender by XOFF, and the error of a write, if the
-- step makes one that fails.
pub record Event : Type 0 where
  pub now : ℕ
  pub xoff : Bool
  pub refused : Option LinkError
  pub reverse : Reverse

pub data SendError : Type 0 where
  link : LinkError → SendError
  asked_too_often no_ack no_eof_ack gave_up read_error : SendError

-- The frames that a step writes, and the state or the end.
pub data Sends : Type 0 where
  sends : List Frame → Stream → Sends
  stops : List Frame → SendError → Stream → Sends
  ends : Stream → Sends

unfoldable pub rpos_echo : Stream → ℕ → ℕ → Bool
rpos_echo st p rx_at =
    st.frame_open
    && p == st.frame_at
    && elim st.frame_data [ none ↦ true | some sent ↦ ltb rx_at (sent + z_rpos_echo) ]

-- The first part of rewind: a retransmission halves the subpacket.
unfoldable pub count_retransmit : ℕ → Stream → Stream
count_retransmit p st =
    if ltb p st.pos
    then record st {
      retransmits = st.retransmits + 1;
      block = max z_min_subpacket (st.block / 2);
      min_block = min st.min_block (max z_min_subpacket (st.block / 2));
      good_run = 0;
    }
    else st

unfoldable pub close_frame : Stream → List Frame
close_frame st = if st.frame_open then packet [] z_crce ∷ [] else []

unfoldable pub rewind : ℕ → Stream → Stream
rewind p st =
    let st' = count_retransmit p st in
    record st' {
      new_frame = st.new_frame || st.frame_open || ltb p st.pos;
      frame_open = false;
      pos = min p st.pos;
    }

unfoldable pub count_rpos : ℕ → Stream → Stream
count_rpos p st =
    if p == st.last_rpos
    then record st { same_rpos = st.same_rpos + 1 }
    else record st { last_rpos = p; same_rpos = 0 }

unfoldable pub on_rpos : ℕ → ℕ → Stream → Sends
on_rpos p rx_at st =
    let st' = count_rpos p st in
    if ltb z_max_retries st'.same_rpos
    then stops [] asked_too_often st'
    else if rpos_echo st' p rx_at
    then sends [] (record st' { echoed = true })
    else let moved = rewind p st' in
      sends (close_frame st') (record moved { acked = max st'.acked p; eof_sent = false })

unfoldable pub on_ack : ℕ → Stream → Stream
on_ack p st = if ltb st.acked p && leb p st.pos then record st { acked = p } else st

-- The answers to ZCRC and ZCHALLENGE are frames that no data header opens.
unfoldable pub handle_reverse : Source → Header → ℕ → Stream → Sends
handle_reverse src h rx_at st =
    if h.frame_type == z_ack
    then sends [] (on_ack (pos h) st)
    else if h.frame_type == z_rpos
    then on_rpos (min (pos h) src.size) rx_at st
    else if h.frame_type == z_skip
    then sends [] (record st { is_done = true; skipped = true })
    else if h.frame_type == z_rinit
    then sends [] (record st { is_done = st.is_done || st.eof_sent })
    else if h.frame_type == z_crc
    then sends (header (pos_header z_crc (src.prefix_crc src.size (pos h))) ∷ []) st
    else if h.frame_type == z_challenge
    then sends (header (pos_header z_ack (pos h)) ∷ []) st
    else if h.frame_type == z_fin || h.frame_type == z_abort || h.frame_type == z_ferr
    then stops [] gave_up st
    else sends [] st
