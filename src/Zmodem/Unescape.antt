-- ===== src/Zmodem/Unescape.antt =====
-- `zUnescapeN` of zmodem_link.go: decoding a number of ZDLE-escaped values from the bytes at hand.
use go_serial_cli.Common.{
  ℕ, zero, suc, ◌+◌, Bool, true, false, not, ◌&&◌, ◌||◌, ◌==◌, leb, ltb, if◌then◌else◌, bit_and,
  bit_xor, Bytes, [], ◌∷◌, ◌++◌, Option, none, some,
}
use go_serial_cli.Zmodem.Header.{z_dle, ascii_can, ascii_xon, ascii_xoff, z_rub0, z_rub1}

pub data ScanStatus : Type 0 where
  need_more found bad cancel : ScanStatus

unfoldable pub is_xon_xoff : ℕ → Bool
is_xon_xoff c = bit_and c 0x7f == ascii_xon || bit_and c 0x7f == ascii_xoff

-- What a byte outside an escape means: a value, nothing, or the start of an escape.
pub data PlainByte : Type 0 where
  value dropped escape : PlainByte

unfoldable pub plain_byte : Bool → ℕ → PlainByte
plain_byte ctl_ignore c =
    if not (bit_and c 0x60 == 0)
    then value
    else if c == z_dle
    then escape
    else if is_xon_xoff c || ctl_ignore
    then dropped
    else value

-- What a byte behind ZDLE means, before the count of CAN is looked at.
pub data EscapedByte : Type 0 where
  can dropped last : EscapedByte

unfoldable pub escaped_byte_kind : Bool → ℕ → EscapedByte
escaped_byte_kind ctl_ignore c =
    if c == ascii_can
    then can
    else if is_xon_xoff c || (ctl_ignore && bit_and c 0x60 == 0)
    then dropped
    else last

-- the last switch: the value that an escape stands for
unfoldable pub escape_value : ℕ → Option ℕ
escape_value c =
    if c == z_rub0
    then some 0x7f
    else if c == z_rub1
    then some 0xff
    else if bit_and c 0x60 == 0x40
    then some (bit_xor c 0x40)
    else none

-- Go's (vals, i, status).
pub record Unescaped : Type 0 where
  pub vals : Bytes
  pub used : ℕ
  pub status : ScanStatus

abbrev failed : ℕ → ScanStatus → Unescaped
failed i status = record { vals = []; used = i; status = status }

-- The byte behind the escape, once it is known: `n` values are still wanted after this one.
unfoldable pub finish_escape : ℕ → ℕ → ℕ → Option ℕ
finish_escape cans i c = if ltb 1 cans then none else escape_value c

-- `n` values are still wanted, `i` bytes are used. The second function is the loop behind a ZDLE.
unfoldable mutual
  pub unescape_from : Bool → ℕ → Bytes → ℕ → Bytes → Unescaped
  unescape_from ctl_ignore zero vals i buf = record { vals = vals; used = i; status = found }
  unescape_from ctl_ignore (suc n) vals i [] = failed i need_more
  unescape_from ctl_ignore (suc n) vals i (c ∷ rest) = elim (plain_byte ctl_ignore c) [
    | PlainByte.value ↦ unescape_from ctl_ignore n (vals ++ (c ∷ [])) (i + 1) rest
    | PlainByte.dropped ↦ unescape_from ctl_ignore (suc n) vals (i + 1) rest
    | PlainByte.escape ↦ unescape_behind ctl_ignore n vals 1 (i + 1) rest
  ]

  pub unescape_behind : Bool → ℕ → Bytes → ℕ → ℕ → Bytes → Unescaped
  unescape_behind ctl_ignore n vals cans i [] = failed i need_more
  unescape_behind ctl_ignore n vals cans i (c ∷ rest) = elim (escaped_byte_kind ctl_ignore c) [
    | EscapedByte.can ↦ elim (leb 5 (cans + 1)) [
      | true ↦ failed (i + 1) cancel
      | false ↦ unescape_behind ctl_ignore n vals (cans + 1) (i + 1) rest
    ]
    | EscapedByte.dropped ↦ unescape_behind ctl_ignore n vals cans (i + 1) rest
    | EscapedByte.last ↦ elim (finish_escape cans i c) [
      | none ↦ failed (i + 1) bad
      | some v ↦ unescape_from ctl_ignore n (vals ++ (v ∷ [])) (i + 1) rest
    ]
  ]

unfoldable pub unescape_n : Bytes → ℕ → Bool → Unescaped
unescape_n buf n ctl_ignore = unescape_from ctl_ignore n [] 0 buf
