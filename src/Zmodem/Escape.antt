-- ===== src/Zmodem/Escape.antt =====
-- `zEscaper` of zmodem_proto.go: which bytes are sent behind a ZDLE. A method that changes the
-- escaper returns the new one with its result.
use go_serial_cli.Common.{
  ℕ, Bool, true, ◌&&◌, ◌||◌, ◌==◌, if◌then◌else◌, bit_and, bit_or, bit_xor, Bytes, [], ◌∷◌, ◌++◌,
  ◌≡◌, refl, ◌∙◌, arith, append-nil, append_assoc, length, length-append, ◌≤◌,
}
use go_serial_cli.Zmodem.Header.{z_dle, ascii_dle, ascii_xon, ascii_xoff}

pub record Escaper : Type 0 where
  pub ctl : Bool
  pub last : ℕ

-- `e.last&0x7f == '@'`
abbrev pub after_at : Escaper → Bool
after_at e = bit_and e.last 0x7f == b'@'

-- the switch of `needs`, on the two facts that it takes from the escaper
unfoldable pub needs_when : Bool → Bool → ℕ → Bool
needs_when ctl at b =
    if b == z_dle
      || b == ascii_dle
      || b == ascii_xon
      || b == ascii_xoff
      || b == bit_or z_dle 0x80
      || b == bit_or ascii_dle 0x80
      || b == bit_or ascii_xon 0x80
      || b == bit_or ascii_xoff 0x80
    then true
    else if b == b'\r' || b == bit_or b'\r' 0x80
    then ctl || at
    else ctl && bit_and b 0x60 == 0

unfoldable pub needs : Escaper → ℕ → Bool
needs e b = needs_when e.ctl (after_at e) b

unfoldable pub put : Escaper → Bytes → ℕ → Escaper × Bytes
put e dst b = (
  record e { last = b },
  if needs e b then dst ++ (z_dle ∷ bit_xor b 0x40 ∷ []) else dst ++ (b ∷ []),
)

unfoldable pub put_all : Escaper → Bytes → Bytes → Escaper × Bytes
put_all e dst [] = (e, dst)
put_all e dst (b ∷ bs) = let (e', dst') = put e dst b in put_all e' dst' bs

-- The same without the accumulator: the bytes sent for one byte, and for a list.
abbrev pub escaped_byte : Escaper → ℕ → Bytes
escaped_byte e b = if needs e b then z_dle ∷ bit_xor b 0x40 ∷ [] else b ∷ []

unfoldable pub escaped : Escaper → Bytes → Bytes
escaped e [] = []
escaped e (b ∷ bs) = escaped_byte e b ++ escaped (record e { last = b }) bs

unfoldable pub last_of : Escaper → Bytes → Escaper
last_of e [] = e
last_of e (b ∷ bs) = last_of (record e { last = b }) bs

put-escaped_byte :
    (e : Escaper) (dst : Bytes) (b : ℕ)
    → put e dst b ≡ (record e { last = b }, dst ++ escaped_byte e b)
unfolding put
put-escaped_byte e dst b = ground arith

-- `putAll` appends the escaped bytes to `dst`, and remembers the last byte put.
pub put_all-escaped :
    (e : Escaper) (dst bs : Bytes) → put_all e dst bs ≡ (last_of e bs, dst ++ escaped e bs)
unfolding put_all escaped last_of
put_all-escaped e dst [] = rw append-nil
put_all-escaped e dst (b ∷ bs) =
    rw (put-escaped_byte e dst b)
      (put_all-escaped (record e { last = b }) (dst ++ escaped_byte e b) bs ∙ rw append_assoc)

pub last_of-ctl : (e : Escaper) (bs : Bytes) → (last_of e bs).ctl ≡ e.ctl
unfolding last_of
last_of-ctl e [] = refl
last_of-ctl e (b ∷ bs) = last_of-ctl (record e { last = b }) bs

pub length-le-escaped : (e : Escaper) (bs : Bytes) → length bs ≤ length (escaped e bs)
unfolding escaped
length-le-escaped e [] = omega arith
length-le-escaped e (b ∷ bs) = ground (
  arith,
  length-le-escaped (record e { last = b }) bs,
  length-append (escaped_byte e b) (escaped (record e { last = b }) bs),
)
