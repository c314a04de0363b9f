-- ===== src/Transfer/Frames.antt =====
-- What passes between the two sides of a transfer, one frame at a time: the line of zmodem.go as
-- `readHeader` and `readSubpacket` see it. Times are milliseconds.
use go_serial_cli.Common.{
  ℕ, ◌+◌, ◌≤◌, ◌≡◌, Bool, true, false, ◌||◌, ◌==◌, if◌then◌else◌, Bytes, List, [], ◌∷◌, ◌++◌,
  Option, none, some, length, drop,
}
use go_serial_cli.Zmodem.Header.{Header, pos, z_data, z_eof, z_crce, z_crcw}
use go_serial_cli.Zmodem.Link.{LinkError, peer_cancel, local_cancel, link_closed}

abbrev pub z_max_retries : ℕ
z_max_retries = 20

pub data Frame : Type 0 where
  header : Header → Frame
  packet : Bytes → ℕ → Frame
  damaged_header damaged_packet silence : Frame
  broken : LinkError → Frame

-- A frame with the time at which the call that met it returned.
pub record Arrived : Type 0 where
  pub at : ℕ
  pub frame : Frame

-- The errors that end a session wherever they are met.
unfoldable pub is_fatal : LinkError → Bool
is_fatal peer_cancel = true
is_fatal local_cancel = true
is_fatal link_closed = true
is_fatal e = false

-- The subpacket ends that end their frame.
unfoldable pub ends_frame : ℕ → Bool
ends_frame end = end == z_crcw || end == z_crce

-- Where the line stands: the offset of the next byte of an open frame.
unfoldable pub next_offset : ℕ → Bytes → ℕ → Option ℕ
next_offset p bytes end = if ends_frame end then none else some (p + length bytes)

-- The bytes stand at the offset in the file.
pub record IsPiece (file : Bytes) (p : ℕ) (bytes : Bytes) : Type 0 where
  pub inside : p + length bytes ≤ length file
  pub same : drop p file ≡ bytes ++ drop (p + length bytes) file

-- A line on which every subpacket behind a data header holds what the file has there, and the offset
-- of every ZEOF is one of `ends`. A damaged or foreign frame closes the frame that it cuts into.
abbrev pub IsLine : (ℕ → Type 0) → Bytes → Option ℕ → List Frame → Type 0
IsLine ends file at [] = Unit
IsLine ends file at (header h ∷ frames) =
    (h.frame_type ≡ z_eof → ends (pos h))
    × IsLine ends file (if h.frame_type == z_data then some (pos h) else none) frames
IsLine ends file (some p) (packet bytes end ∷ frames) =
    IsPiece file p bytes × IsLine ends file (next_offset p bytes end) frames
IsLine ends file none (packet bytes end ∷ frames) = IsLine ends file none frames
IsLine ends file at (damaged_header ∷ frames) = IsLine ends file none frames
IsLine ends file at (damaged_packet ∷ frames) = IsLine ends file none frames
IsLine ends file at (silence ∷ frames) = IsLine ends file none frames
IsLine ends file at (broken e ∷ frames) = IsLine ends file none frames

abbrev pub IsEndOf : Bytes → ℕ → Type 0
IsEndOf file p = p ≡ length file

-- The same, where every ZEOF gives the file's length.
abbrev pub IsHonest : Bytes → Option ℕ → List Frame → Type 0
IsHonest file at frames = IsLine (IsEndOf file) file at frames
