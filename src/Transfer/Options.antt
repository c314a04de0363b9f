-- ===== src/Transfer/Options.antt =====
-- The options of a session in zmodem.go: what `TransferZModem` puts in for those that are not set, what
-- `useReceiverInit` takes from the receiver's ZRINIT, `answerWait`, and `sessionOutcome`. A duration is
-- in milliseconds, and an option that is not positive is 0.
use go_serial_cli.Common.{
  ℕ, ◌+◌, ◌*◌, ◌/◌, ◌^◌, Bool, not, ◌&&◌, ◌||◌, ◌==◌, ltb, if◌then◌else◌, max, bit_and, bit_or,
  List, [], ◌∷◌,
}
use go_serial_cli.Zmodem.Header.{Header, f0, z_can_fdx, z_can_fc32, z_esc_ctl}
use go_serial_cli.Transfer.Send.{z_min_subpacket}

abbrev pub default_z_handshake_wait : ℕ
default_z_handshake_wait = 120000

abbrev pub default_z_data_wait : ℕ
default_z_data_wait = 10000

abbrev pub default_z_window : ℕ
default_z_window = 32 * 1024

abbrev pub default_z_subpacket : ℕ
default_z_subpacket = 1024

abbrev pub z_slow_crc_rate : ℕ
z_slow_crc_rate = 64 * 1024

pub record Options : Type 0 where
  pub handshake_wait : ℕ
  pub data_wait : ℕ
  pub send_window : ℕ
  pub max_subpacket : ℕ

unfoldable pub or_default : ℕ → ℕ → ℕ
or_default value default = if value == 0 then default else value

unfoldable pub bounded_subpacket : ℕ → ℕ
bounded_subpacket n =
    let most = if n == 0 || ltb default_z_subpacket n then default_z_subpacket else n in
    if ltb most z_min_subpacket then z_min_subpacket else most

-- The first lines of TransferZModem.
unfoldable pub with_defaults : Options → Options
with_defaults o = record {
  handshake_wait = or_default o.handshake_wait default_z_handshake_wait;
  data_wait = or_default o.data_wait default_z_data_wait;
  send_window = or_default o.send_window default_z_window;
  max_subpacket = bounded_subpacket o.max_subpacket;
}

-- What a session keeps of a ZRINIT.
pub record ReceiverInit : Type 0 where
  pub full_duplex : Bool
  pub crc32 : Bool
  pub escape_ctl : Bool
  pub peer_buffer : ℕ
  pub send_window : ℕ
  pub max_block : ℕ

unfoldable pub peer_buffer_of : Header → ℕ
peer_buffer_of h = bit_or h.p0 (h.p1 * 2 ^ 8)

unfoldable pub window_of : ℕ → ℕ → ℕ
window_of window peer = if ltb 0 peer && ltb peer window then peer else window

unfoldable pub max_block_of : ℕ → ℕ → ℕ
max_block_of most peer = if ltb 0 peer && ltb peer most then max z_min_subpacket peer else most

unfoldable pub has_flag : ℕ → ℕ → Bool
has_flag flags flag = not (bit_and flags flag == 0)

-- The third argument tells whether control characters are escaped already.
unfoldable pub use_receiver_init : Options → Header → Bool → ReceiverInit
use_receiver_init o h escape_ctl = record {
  full_duplex = has_flag (f0 h) z_can_fdx;
  crc32 = has_flag (f0 h) z_can_fc32;
  escape_ctl = has_flag (f0 h) z_esc_ctl || escape_ctl;
  peer_buffer = peer_buffer_of h;
  send_window = window_of o.send_window (peer_buffer_of h);
  max_block = max_block_of o.max_subpacket (peer_buffer_of h);
}

-- The size of the file is unknown where it is 0 or less.
unfoldable pub answer_wait : Options → ℕ → ℕ
answer_wait o size = max o.handshake_wait default_z_handshake_wait + size / z_slow_crc_rate * 1000

-- A file's or a session's outcome; Go's default is `failed`.
pub data Outcome : Type 0 where
  ok resumed skipped refused cancelled failed partial : Outcome

pub record Tally : Type 0 where
  pub oks : ℕ
  pub resumes : ℕ
  pub skips : ℕ
  pub refusals : ℕ
  pub failures : ℕ

unfoldable pub bump : Outcome → Tally → Tally
bump ok t = record t { oks = t.oks + 1 }
bump resumed t = record t { resumes = t.resumes + 1 }
bump skipped t = record t { skips = t.skips + 1 }
bump refused t = record t { refusals = t.refusals + 1 }
bump cancelled t = record t { failures = t.failures + 1 }
bump failed t = record t { failures = t.failures + 1 }
bump partial t = record t { failures = t.failures + 1 }

unfoldable pub tally : List Outcome → Tally
tally [] = record { oks = 0; resumes = 0; skips = 0; refusals = 0; failures = 0 }
tally (s ∷ rest) = bump s (tally rest)

unfoldable pub sum_up : Tally → Outcome
sum_up t =
    if t.refusals + t.failures == 0 && ltb 0 t.resumes
    then resumed
    else if t.refusals + t.failures == 0 && ltb 0 t.oks
    then ok
    else if t.refusals + t.failures == 0
    then skipped
    else if ltb 0 (t.oks + t.resumes + t.skips)
    then partial
    else if t.failures == 0
    then refused
    else failed

unfoldable pub session_outcome : List Outcome → Outcome
session_outcome [] = ok
session_outcome (s ∷ rest) = sum_up (tally (s ∷ rest))
