-- ===== src/Zmodem/Header.antt =====
-- The constants of the protocol and the frame header of zmodem_proto.go. A byte is a number below
-- 256, and the four header bytes `Data[0]` to `Data[3]` are the fields `p0` to `p3`.
use go_serial_cli.Common.{
  ℕ, ◌+◌, ◌*◌, ◌/◌, ◌%◌, ◌^◌, ◌<◌, ◌≡◌, Bytes, IsByte, [], ◌∷◌, ◌++◌, replicate, arith,
}

abbrev pub z_pad : ℕ
z_pad = 0x2a

abbrev pub z_dle : ℕ
z_dle = 0x18

abbrev pub z_bin : ℕ
z_bin = 0x41

abbrev pub z_hex : ℕ
z_hex = 0x42

abbrev pub z_bin32 : ℕ
z_bin32 = 0x43

abbrev pub ascii_can : ℕ
ascii_can = 0x18

abbrev pub ascii_bs : ℕ
ascii_bs = 0x08

abbrev pub ascii_dle : ℕ
ascii_dle = 0x10

abbrev pub ascii_xon : ℕ
ascii_xon = 0x11

abbrev pub ascii_xoff : ℕ
ascii_xoff = 0x13

abbrev pub z_rqinit : ℕ
z_rqinit = 0

abbrev pub z_rinit : ℕ
z_rinit = 1

abbrev pub z_sinit : ℕ
z_sinit = 2

abbrev pub z_ack : ℕ
z_ack = 3

abbrev pub z_file : ℕ
z_file = 4

abbrev pub z_skip : ℕ
z_skip = 5

abbrev pub z_nak : ℕ
z_nak = 6

abbrev pub z_abort : ℕ
z_abort = 7

abbrev pub z_fin : ℕ
z_fin = 8

abbrev pub z_rpos : ℕ
z_rpos = 9

abbrev pub z_data : ℕ
z_data = 10

abbrev pub z_eof : ℕ
z_eof = 11

abbrev pub z_ferr : ℕ
z_ferr = 12

abbrev pub z_crc : ℕ
z_crc = 13

abbrev pub z_challenge : ℕ
z_challenge = 14

abbrev pub z_compl : ℕ
z_compl = 15

abbrev pub z_can : ℕ
z_can = 16

abbrev pub z_freecnt : ℕ
z_freecnt = 17

abbrev pub z_command : ℕ
z_command = 18

abbrev pub z_stderr : ℕ
z_stderr = 19

abbrev pub z_crce : ℕ
z_crce = 0x68

abbrev pub z_crcg : ℕ
z_crcg = 0x69

abbrev pub z_crcq : ℕ
z_crcq = 0x6a

abbrev pub z_crcw : ℕ
z_crcw = 0x6b

abbrev pub z_rub0 : ℕ
z_rub0 = 0x6c

abbrev pub z_rub1 : ℕ
z_rub1 = 0x6d

abbrev pub z_can_fdx : ℕ
z_can_fdx = 0x01

abbrev pub z_can_ovio : ℕ
z_can_ovio = 0x02

abbrev pub z_can_brk : ℕ
z_can_brk = 0x04

abbrev pub z_can_fc32 : ℕ
z_can_fc32 = 0x20

abbrev pub z_esc_ctl : ℕ
z_esc_ctl = 0x40

abbrev pub z_esc8 : ℕ
z_esc8 = 0x80

abbrev pub z_t_esc_ctl : ℕ
z_t_esc_ctl = 0x40

abbrev pub z_cbin : ℕ
z_cbin = 1

abbrev pub z_cnl : ℕ
z_cnl = 2

abbrev pub z_cresum : ℕ
z_cresum = 3

abbrev pub z_m_sk_no_loc : ℕ
z_m_sk_no_loc = 0x80

abbrev pub z_m_mask : ℕ
z_m_mask = 0x1f

abbrev pub z_mnewl : ℕ
z_mnewl = 1

abbrev pub z_mcrc : ℕ
z_mcrc = 2

abbrev pub z_mapnd : ℕ
z_mapnd = 3

abbrev pub z_mclob : ℕ
z_mclob = 4

abbrev pub z_mnew : ℕ
z_mnew = 5

abbrev pub z_mdiff : ℕ
z_mdiff = 6

abbrev pub z_mprot : ℕ
z_mprot = 7

abbrev pub z_mchng : ℕ
z_mchng = 8

-- eight CAN, then eight backspaces
abbrev pub z_cancel_sequence : Bytes
z_cancel_sequence = replicate 8 ascii_can ++ replicate 8 ascii_bs

pub record Header : Type 0 where
  pub frame_type : ℕ
  pub p0 : ℕ
  pub p1 : ℕ
  pub p2 : ℕ
  pub p3 : ℕ
  pub format : ℕ

-- Go's zero value
abbrev pub no_header : Header
no_header = record { frame_type = 0; p0 = 0; p1 = 0; p2 = 0; p3 = 0; format = 0 }

-- `binary.LittleEndian.PutUint32`
unfoldable pub pos_header : ℕ → ℕ → Header
pos_header frame_type pos = record {
  frame_type = frame_type;
  p0 = pos % 256;
  p1 = pos / 256 % 256;
  p2 = pos / 65536 % 256;
  p3 = pos / 16777216 % 256;
  format = 0;
}

unfoldable pub flags_header : ℕ → ℕ → ℕ → ℕ → ℕ → Header
flags_header frame_type f0 f1 f2 f3 = record {
  frame_type = frame_type;
  p0 = f3;
  p1 = f2;
  p2 = f1;
  p3 = f0;
  format = 0;
}

-- `binary.LittleEndian.Uint32`
unfoldable pub pos : Header → ℕ
pos h = h.p0 + h.p1 * 256 + h.p2 * 65536 + h.p3 * 16777216

unfoldable pub f0 : Header → ℕ
f0 h = h.p3

unfoldable pub f1 : Header → ℕ
f1 h = h.p2

-- The five bytes that a frame sends.
abbrev pub raw : Header → Bytes
raw h = h.frame_type ∷ h.p0 ∷ h.p1 ∷ h.p2 ∷ h.p3 ∷ []

-- What Go's types give: each field is a byte.
pub record IsHeader (h : Header) : Type 0 where
  pub type_byte : IsByte h.frame_type
  pub p0_byte : IsByte h.p0
  pub p1_byte : IsByte h.p1
  pub p2_byte : IsByte h.p2
  pub p3_byte : IsByte h.p3

-- A header made from a position is a header, and the position is read back from it.
pub pos-pos_header :
    (t p : ℕ) → IsByte t → p < 2 ^ 32 → IsHeader (pos_header t p) × (pos (pos_header t p) ≡ p)
unfolding pos pos_header
pos-pos_header t p ht hp = (omega arith, omega arith)

-- The flags that a header is made from are read back, and lie in `p3` down to `p0`.
pub flags_header_lem :
    (t a b c d : ℕ)
    → (f0 (flags_header t a b c d) ≡ a)
      × (f1 (flags_header t a b c d) ≡ b)
      × (raw (flags_header t a b c d) ≡ t ∷ d ∷ c ∷ b ∷ a ∷ [])
unfolding f0 f1 flags_header
flags_header_lem t a b c d = ground arith
